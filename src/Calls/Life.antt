-- ===== src/Calls/Life.antt =====
-- call_manager.py: the sockets through every step of the manager.
use ha_intratone.Base.{
  none_of, Bool, true, false, ℕ, ◌+◌, Option, none, some, List, [], ◌∷◌, ◌++◌, ◌≡◌, ◌≢◌, refl,
  arith, sym, ap, ◌∙◌, if-cases, Option-cases, inl, inr, is_some, not, ◌&&◌, ◌||◌,
}
use ha_intratone.Base.Text.{Text}
use ha_intratone.Sip.Types.{Client, Libs}
use ha_intratone.Sip.Client.{init, connection_made, call, hang_up}
use ha_intratone.Calls.Manager.{
  Manager, those, pending, is_active, close_pending_sockets, manager_mute_off, Spawn, scheduled,
  starting, call_active,
}
use ha_intratone.Calls.Start.{
  Ring, Outcome, placed, refused, raised, dial_of, dialled, bind_video, bind_audio, Waiting, Begun,
  returned, connecting, start_call_begins, start_call_resumes,
}
use ha_intratone.Calls.Bridge.{
  taken, start_with, spawn_with, spawn_of, Started, up, stopped, failed, started_of,
}
use ha_intratone.Calls.Sockets.{
  count, Balanced, Tidy, AllTidy, count-append, close_pending_sockets-Balanced, on_client-AllTidy,
  for_active-AllTidy, then-AllTidy, bridge_stopped-Tidy,
}

module _ {waits : Bool} where
  pub spawn_of-AllTidy :
      (libs : Libs) (o : Option Spawn) (m : Manager)
      → Tidy waits m
      → AllTidy waits (spawn_of libs o m)
  unfolding spawn_of spawn_with taken start_with
  spawn_of-AllTidy libs none m h = h
  spawn_of-AllTidy libs (some (starting info)) m h = h
  spawn_of-AllTidy libs (some (scheduled info)) m h =
      let video = those m.pending_video_rtp_socket ++ those m.pending_video_rtcp_socket in
      elim (Option-cases m.pending_rtp_socket) [
        | inl e ↦ rw e (
            on_client-AllTidy (hang_up libs info.call_id) (record {
              balanced = λ x. omega (
                arith,
                h.balanced x,
                ap (λ o. count x (those o)) e,
                count-append x (those m.pending_rtp_socket) video,
                count-append x m.closed_sockets video,
              );
              idle = λ w e. refl;
              graceful = λ i e f. refl;
            }))
        | inr (rtp, e) ↦ rw e (
            if-cases (AllTidy waits)
              (not (is_some info.remote_video_rtp_port) && is_some m.pending_video_rtp_socket)
              (λ unused. record {
                balanced = λ x. omega (
                  arith,
                  h.balanced x,
                  ap (λ o. count x (those o)) e,
                  count-append x (those m.pending_rtp_socket) video,
                  count-append x m.closed_sockets video,
                  count-append x m.handed (rtp ∷ []),
                );
                idle = λ w e. refl;
                graceful = λ i e f. refl;
              })
              (λ wanted. record {
                balanced = λ x. omega (
                  arith,
                  h.balanced x,
                  ap (λ o. count x (those o)) e,
                  count-append x (those m.pending_rtp_socket) video,
                  count-append x m.handed (rtp ∷ video),
                  count-append x (rtp ∷ []) video,
                );
                idle = λ w e. refl;
                graceful = λ i e f. refl;
              }))
      ]

  bridge_up-Tidy :
      (id url : Text) (m : Manager)
      → Tidy waits m
      → Tidy waits (record m { effects = m.effects ++ call_active id url ∷ [] })
  bridge_up-Tidy id url m h = record { balanced = h.balanced; idle = h.idle; graceful = h.graceful }

  spawned-Tidy : (m : Manager) → Tidy waits m → Tidy waits (record m { spawn_bridge_task = none })
  spawned-Tidy m h = record { balanced = h.balanced; idle = h.idle; graceful = h.graceful }

  pub started_of-AllTidy :
      (libs : Libs) (s : Started) (o : Option Spawn) (m : Manager)
      → Tidy waits m
      → AllTidy waits (started_of libs s o m)
  unfolding started_of manager_mute_off
  started_of-AllTidy libs s none m h = h
  started_of-AllTidy libs s (some (scheduled info)) m h = h
  started_of-AllTidy libs stopped (some (starting info)) m h = spawned-Tidy m h
  started_of-AllTidy libs failed (some (starting info)) m h =
      on_client-AllTidy (hang_up libs info.call_id) (spawned-Tidy m h)
  started_of-AllTidy libs (up url) (some (starting info)) m h =
      if-cases (AllTidy waits) (not m.started || not (is_active info.call_id m.active_call_id))
        (λ late. bridge_stopped-Tidy (record m { spawn_bridge_task = none }) (spawned-Tidy m h))
        (λ live.
          then-AllTidy _
            (λ m'. record m' { effects = m'.effects ++ call_active info.call_id url ∷ [] })
            (bridge_up-Tidy info.call_id url) (for_active-AllTidy _ (spawned-Tidy m h)))

-- The sockets of a call that could not be placed are closed.
close_all-Tidy : (m : Manager) → Balanced m → Tidy false (close_pending_sockets m)
unfolding close_pending_sockets
close_all-Tidy m b = record {
  balanced = close_pending_sockets-Balanced m b;
  idle = λ w e. refl;
  graceful = λ i e f. refl;
}

-- The grace task that may be left is not that of the new call.
abbrev pub Fresh : Outcome → Option Text → Type 0
Fresh (placed id) grace = grace ≢ some id
Fresh refused grace = Unit {0}
Fresh raised grace = Unit {0}

dialled-Tidy :
    (video : Option ℕ) (o : Option (Text × Client)) (m : Manager)
    → Balanced m
    → Fresh (dialled video o m).0 m.grace_task
    → Tidy false (dialled video o m).1
unfolding dialled close_pending_sockets
dialled-Tidy video none m b f =
    let h = close_all-Tidy m b in
    record {
      balanced = close_pending_sockets-Balanced m b;
      idle = λ w e. refl;
      graceful = λ i e f. refl;
    }
dialled-Tidy video (some (id, c)) m b f = record {
  balanced = b;
  idle = λ w e. cc;
  graceful = λ i e g. absurd (f (e ∙ sym g));
}

-- A start that goes on leaves no socket behind, whatever happened while it waited.
pub start_call_resumes-Tidy :
    (libs : Libs) (w : Waiting) (o : Option (Option ℕ)) (m : Manager)
    → Balanced m
    → Fresh (start_call_resumes libs w o m).0 m.grace_task
    → Tidy false (start_call_resumes libs w o m).1
unfolding start_call_resumes
start_call_resumes-Tidy libs w none m b f = close_all-Tidy m b
start_call_resumes-Tidy libs w (some port) m b f =
    dialled-Tidy w.video_rtp_port (call libs (dial_of w) (connection_made port (init m.local_host)))
      m b f

module _ (m : Manager) (h : Balanced m) (free : pending m ≡ []) (x : ℕ) where
  abbrev videos : List ℕ
  videos = those m.pending_video_rtp_socket ++ those m.pending_video_rtcp_socket

  none_pending : count x (those m.pending_rtp_socket) + count x videos ≡ 0
  none_pending =
      sym (count-append x (those m.pending_rtp_socket) videos) ∙ ap (λ ps. count x ps) free

  audio-Balanced :
      (rtp : ℕ)
      → count x (m.bound ++ rtp ∷ [])
        ≡ count x (rtp ∷ videos) + count x m.closed_sockets + count x m.handed
  audio-Balanced rtp = omega (
    arith,
    h x,
    none_pending,
    ap (λ ps. count x ps) free,
    count-append x m.bound (rtp ∷ []),
    count-append x (rtp ∷ []) videos,
  )

  video-Balanced :
      (rtp v c : ℕ)
      → count x ((m.bound ++ rtp ∷ []) ++ v ∷ c ∷ [])
        ≡ count x (rtp ∷ v ∷ c ∷ []) + count x m.closed_sockets + count x m.handed
  video-Balanced rtp v c = omega (
    arith,
    h x,
    ap (λ ps. count x ps) free,
    count-append x m.bound (rtp ∷ []),
    count-append x (m.bound ++ rtp ∷ []) (v ∷ c ∷ []),
    count-append x (rtp ∷ []) (v ∷ c ∷ []),
  )

-- Whether a start waits for its connection.
abbrev pub waiting_of : Begun → Option Waiting
waiting_of (returned o) = none
waiting_of (connecting w) = some w

abbrev pub TidyBegun : Begun × Manager → Type 0
TidyBegun p = Tidy (is_some (waiting_of p.0)) p.1

-- While a start waits, only its sockets are pending, and no call was active when it began.
waiting-Tidy : (m : Manager) → Balanced m → m.active_call_id ≡ none → Tidy true m
waiting-Tidy m b e = record { balanced = b; idle = λ w f. cc; graceful = λ i f g. cc }

bind_video-Tidy :
    (r : Ring) (rtp : ℕ) (o : Option (ℕ × ℕ)) (m : Manager)
    → o ≢ none
    → Balanced m
    → m.active_call_id ≡ none
    → pending m ≡ []
    → TidyBegun (
        bind_video r rtp o
          (record m { bound = m.bound ++ rtp ∷ []; pending_rtp_socket = some rtp }))
unfolding bind_video
bind_video-Tidy r rtp none m pair h e free = absurd (pair refl)
bind_video-Tidy r rtp (some (v, c)) m pair h e free =
    waiting-Tidy _ (λ x. video-Balanced m h free x rtp v c) e

bind_audio-Tidy :
    (r : Ring) (o : Option ℕ) (m : Manager)
    → r.rtp_pair ≢ none
    → Tidy false m
    → m.active_call_id ≡ none
    → TidyBegun (bind_audio r o m)
unfolding bind_audio
bind_audio-Tidy r none m pair h e = h
bind_audio-Tidy r (some rtp) m pair h e =
    if-cases TidyBegun m.video_enabled
      (λ video. bind_video-Tidy r rtp r.rtp_pair m pair h.balanced e (h.idle refl e))
      (λ audio. waiting-Tidy _ (λ x. audio-Balanced m h.balanced (h.idle refl e) x rtp) e)

pub start_call_begins-Tidy :
    (r : Ring) (m : Manager) → r.rtp_pair ≢ none → Tidy false m → TidyBegun (start_call_begins r m)
unfolding start_call_begins
start_call_begins-Tidy r m pair h =
    if-cases TidyBegun (not m.started) (λ off. h)
      (λ on.
        if-cases TidyBegun (is_some m.active_call_id) (λ busy. h)
          (λ idle. bind_audio-Tidy r r.rtp_socket m pair h (none_of m.active_call_id idle)))
