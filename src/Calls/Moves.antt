-- ===== src/Calls/Moves.antt =====
-- call_manager.py: what placing a call reports, and that no call is active after an abort.
use ha_intratone.Base.{
  ℕ, Bool, true, false, Option, none, some, List, [], ◌∷◌, ◌++◌, ◌≡◌, refl, ap, ◌∙◌, subst,
  if-cases, if◌then◌else◌, ◌>>=◌, is_some, not, append_assoc,
}
use ha_intratone.Base.Text.{Text}
use ha_intratone.Sip.Types.{Client, Libs}
use ha_intratone.Sip.Client.{hang_up, init, connection_made, call}
use ha_intratone.Calls.Manager.{
  Manager, Effect, bridge_prewarm, close_pending_sockets, on_client, aborted, abort_active_call,
}
use ha_intratone.Calls.Start.{
  Ring, Outcome, placed, refused, raised, dial_of, dialled, bind_video, bind_audio, Waiting, Begun,
  returned, connecting, start_call_begins, start_call_resumes,
}
use ha_intratone.Calls.Reports.{OnlyActive, OnlyActive-append, Same, same, Same-trans}

-- A call was placed, and nothing was reported of it yet.
pub record Called (id : Text) (m m' : Manager) : Type 0 where
  pub reports : List Effect
  pub added : m'.effects ≡ m.effects ++ reports
  pub active : m'.active_call_id ≡ some id
  pub only : OnlyActive none reports

-- What `start_call` leaves, by its outcome.
abbrev pub Tries : Manager → Outcome × Manager → Type 0
Tries m (placed id, m') = Called id m m'
Tries m (refused, m') = Same m m'
Tries m (raised, m') = Same m m'

close_pending-Same : (m : Manager) → Same m (close_pending_sockets m)
unfolding close_pending_sockets
close_pending-Same m = same m _ refl refl

prewarms-OnlyActive : (b : Bool) → OnlyActive none (if b then bridge_prewarm ∷ [] else [])
prewarms-OnlyActive true = tt
prewarms-OnlyActive false = tt

dialled-Tries :
    (video : Option ℕ) (o : Option (Text × Client)) (m m₁ : Manager)
    → Same m m₁
    → m.active_call_id ≡ none
    → Tries m (dialled video o m₁)
unfolding dialled
dialled-Tries video none m m₁ s e =
    Same-trans s (Same-trans (close_pending-Same m₁) (same _ _ refl refl))
dialled-Tries video (some (id, c)) m m₁ s e = record {
  reports = s.reports ++ (if is_some video then bridge_prewarm ∷ [] else []);
  added =
      ap (λ es. es ++ (if is_some video then bridge_prewarm ∷ [] else [])) s.added
      ∙ append_assoc m.effects s.reports _;
  active = refl;
  only =
      OnlyActive-append none s.reports _ (subst (λ a. OnlyActive a s.reports) e s.only)
        (prewarms-OnlyActive (is_some video));
}

pub start_call_resumes-Tries :
    (libs : Libs) (w : Waiting) (o : Option (Option ℕ)) (m m₁ : Manager)
    → Same m m₁
    → m.active_call_id ≡ none
    → Tries m (start_call_resumes libs w o m₁)
unfolding start_call_resumes
start_call_resumes-Tries libs w none m m₁ s e = Same-trans s (close_pending-Same m₁)
start_call_resumes-Tries libs w (some port) m m₁ s e =
    dialled-Tries w.video_rtp_port
      (call libs (dial_of w) (connection_made port (init m₁.local_host))) m m₁ s e

-- What the first step of `start_call` leaves: no call was placed yet.
abbrev pub TriesBegun : Manager → Begun × Manager → Type 0
TriesBegun m (returned o, m') = Tries m (o, m')
TriesBegun m (connecting w, m') = Same m m'

bind_video-TriesBegun :
    (r : Ring) (rtp : ℕ) (o : Option (ℕ × ℕ)) (m m₁ : Manager)
    → Same m m₁
    → TriesBegun m (bind_video r rtp o m₁)
unfolding bind_video
bind_video-TriesBegun r rtp none m m₁ s = s
bind_video-TriesBegun r rtp (some (v, c)) m m₁ s = Same-trans s (same m₁ _ refl refl)

bind_audio-TriesBegun : (r : Ring) (o : Option ℕ) (m : Manager) → TriesBegun m (bind_audio r o m)
unfolding bind_audio
bind_audio-TriesBegun r none m = same m m refl refl
bind_audio-TriesBegun r (some rtp) m =
    let m₁ = record m { bound = m.bound ++ rtp ∷ []; pending_rtp_socket = some rtp } in
    if-cases (TriesBegun m) m.video_enabled
      (λ video. bind_video-TriesBegun r rtp r.rtp_pair m m₁ (same m m₁ refl refl))
      (λ audio. same m m₁ refl refl)

pub start_call_begins-TriesBegun : (r : Ring) (m : Manager) → TriesBegun m (start_call_begins r m)
unfolding start_call_begins
start_call_begins-TriesBegun r m =
    if-cases (TriesBegun m) (not m.started) (λ off. same m m refl refl)
      (λ on.
        if-cases (TriesBegun m) (is_some m.active_call_id) (λ busy. same m m refl refl)
          (λ idle. bind_audio-TriesBegun r r.rtp_socket m))

-- After an abort no call is active.
abbrev pub AllOver : Option Manager → Type 0
AllOver none = Unit {0}
AllOver (some m) = m.active_call_id ≡ none

aborted-AllOver : (id : Text) (o : Option Manager) → AllOver (o >>= λ m'. some (aborted id m'))
unfolding aborted
aborted-AllOver id none = tt
aborted-AllOver id (some m) = refl

abort_with-AllOver :
    (libs : Libs) (m : Manager) (o : Option Text)
    → m.active_call_id ≡ o
    → AllOver (elim o [
      | none ↦ some m
      | some id ↦
          on_client (hang_up libs id) (record m { max_duration_task = none; grace_task = none })
          >>= λ m'. some (aborted id m')
    ])
abort_with-AllOver libs m none e = e
abort_with-AllOver libs m (some id) e = aborted-AllOver id _

pub abort-AllOver : (libs : Libs) (m : Manager) → AllOver (abort_active_call libs m)
unfolding abort_active_call
abort-AllOver libs m = abort_with-AllOver libs m m.active_call_id refl
