-- ===== src/Bridge/Owned.antt =====
-- audio_bridge.py: what the bridge owns through its starts and stops.
use ha_intratone.Base.{
  ℕ, ◌==◌, true, Option, none, some, List, [], ◌∷◌, ◌++◌, if-cases, ◌≡◌, inl, inr, ==_iff,
}
use ha_intratone.Bridge.State.{
  Sockets, idle, spawning, wrapping_audio, wrapping_video, wrapping_rtcp, pushing, Bridge, those,
  all_sockets, open_sockets, begin, spawned, spawn_failed, audio_wrapped, video_wrapped,
  rtcp_wrapped, rtcp_failed, pushed,
}
use ha_intratone.Bridge.Account.{
  Clean, Has, Owned, OwnedAt, checkpoint-Owned, in_either, in_right, unwind-Owned, wider,
}
use ha_intratone.Bridge.Places.{closed_too, deeper, left_all, to_audio, to_rtcp, to_video}

pub begin-Owned : (t : Sockets) (b : Bridge) → Clean b → OwnedAt idle b → Owned (begin t b)
unfolding begin
begin-Owned t b c h = record {
  fit = record {
    no_process = c.no_process;
    no_rtp = c.no_rtp;
    no_video = c.no_video;
    no_rtcp = c.no_rtcp;
    no_pli = c.no_pli;
    no_stats = c.no_stats;
  };
  sockets = λ s k. elim (in_either s b.given (all_sockets t) k) [
    | inl l ↦
        deeper s b.closed b.left (open_sockets b ++ []) (open_sockets b ++ all_sockets t)
          (wider s (open_sockets b) [] (all_sockets t) (λ n. absurd n)) (h.sockets s l)
    | inr l ↦ in_right s b.closed (b.left ++ (open_sockets b ++ all_sockets t)) (
        in_right s b.left (open_sockets b ++ all_sockets t)
          (in_right s (open_sockets b) (all_sockets t) l))
  ];
  processes = h.processes;
}

one_more :
    (p q : ℕ) (processes ended : List ℕ) (o : Option ℕ)
    → o ≡ none
    → (Has p processes → Has p (ended ++ those o))
    → Has p (processes ++ q ∷ [])
    → Has p (ended ++ q ∷ [])
one_more p q processes ended (some r) e h k = cc
one_more p q processes ended none e h k = elim (in_either p processes (q ∷ []) k) [
  | inl l ↦ wider p ended [] (q ∷ []) (λ n. absurd n) (h l)
  | inr l ↦ in_right p ended (q ∷ []) l
]

pub spawned-Owned :
    (q : ℕ) (t : Sockets) (b : Bridge) → OwnedAt (spawning t) b → Owned (spawned q t b)
unfolding spawned
spawned-Owned q t b h =
    let c : Clean b = h.fit in
    checkpoint-Owned (record b { process = some q; processes = b.processes ++ q ∷ [] })
      (wrapping_audio t) c.no_stats h.sockets
      (λ p. one_more p q b.processes b.ended b.process c.no_process (h.processes p))
      (λ e. (c.no_rtp, c.no_video, c.no_rtcp, c.no_stats))

-- What is left of a failed spawn.
pub spawn_failed-Owned :
    (t : Sockets) (b : Bridge) → OwnedAt (spawning t) b → Owned (spawn_failed t b)
unfolding spawn_failed
spawn_failed-Owned t b h = record {
  fit = inr (record {
    no_process = h.fit.no_process;
    no_rtp = h.fit.no_rtp;
    no_video = h.fit.no_video;
    no_rtcp = h.fit.no_rtcp;
    no_pli = h.fit.no_pli;
    no_stats = h.fit.no_stats;
  });
  sockets = λ s k.
      wider s b.closed (b.left ++ (open_sockets b ++ all_sockets t))
        ((b.left ++ all_sockets t) ++ (open_sockets b ++ []))
        (left_all s b.left (open_sockets b) (all_sockets t)) (h.sockets s k);
  processes = h.processes;
}

pub audio_wrapped-Owned :
    (r : ℕ) (o : Option (ℕ × Option ℕ)) (b : Bridge)
    → OwnedAt (wrapping_audio (record { rtp = r; video = o })) b
    → Owned (audio_wrapped r o b)
unfolding audio_wrapped
audio_wrapped-Owned r none b h =
    let (e, f, g, n) = h.fit in
    checkpoint-Owned (record b { rtp_transport = some r })
      (pushing (record { rtp = r; video = none })) n
      (λ s k.
        deeper s b.closed b.left _ _
          (to_audio s r [] b.rtp_transport b.video_rtp_transport b.video_rtcp_transport e)
          (h.sockets s k))
      h.processes (λ l. n)
audio_wrapped-Owned r (some (v, c)) b h =
    let (e, f, g, n) = h.fit in
    checkpoint-Owned (record b { rtp_transport = some r; has_video_rtp = true })
      (wrapping_video r v c) n
      (λ s k.
        deeper s b.closed b.left _ _
          (to_audio s r (v ∷ those c) b.rtp_transport b.video_rtp_transport b.video_rtcp_transport
            e)
          (h.sockets s k))
      h.processes (λ l. (f, g, n))

pub video_wrapped-Owned :
    (r v : ℕ) (c : Option ℕ) (b : Bridge)
    → OwnedAt (wrapping_video r v c) b
    → Owned (video_wrapped r v c b)
unfolding video_wrapped
video_wrapped-Owned r v none b h =
    let (f, g, n) = h.fit in
    checkpoint-Owned (record b { video_rtp_transport = some v })
      (pushing (record { rtp = r; video = some (v, none) })) n
      (λ s k.
        deeper s b.closed b.left _ _
          (to_video s v [] b.rtp_transport b.video_rtp_transport b.video_rtcp_transport f)
          (h.sockets s k))
      h.processes (λ l. n)
video_wrapped-Owned r v (some c) b h =
    let (f, g, n) = h.fit in
    let moved = λ (s : ℕ) (k : Has s b.given).
      deeper s b.closed b.left _ _
        (to_video s v (c ∷ []) b.rtp_transport b.video_rtp_transport b.video_rtcp_transport f)
        (h.sockets s k) in
    if-cases Owned b.has_video_rtp
      (λ there. record { fit = (g, n); sockets = moved; processes = h.processes })
      (λ gone.
        checkpoint-Owned (record b { video_rtp_transport = some v; closed = b.closed ++ c ∷ [] })
          (pushing (record { rtp = r; video = some (v, some c) })) n
          (λ s k. closed_too s b.closed b.left _ (c ∷ []) (moved s k)) h.processes (λ l. n))

pub rtcp_wrapped-Owned :
    (r v : ℕ) (c : Option ℕ) (b : Bridge)
    → OwnedAt (wrapping_rtcp r v c) b
    → Owned (rtcp_wrapped r v c b)
unfolding rtcp_wrapped
rtcp_wrapped-Owned r v c b h =
    let (g, n) = h.fit in
    checkpoint-Owned (record b { video_rtcp_transport = c; pli_task = true })
      (pushing (record { rtp = r; video = some (v, c) })) n
      (λ s k.
        deeper s b.closed b.left _ _
          (to_rtcp s b.rtp_transport b.video_rtp_transport b.video_rtcp_transport c g)
          (h.sockets s k))
      h.processes (λ l. n)

pub rtcp_failed-Owned :
    (r v : ℕ) (c : Option ℕ) (b : Bridge)
    → OwnedAt (wrapping_rtcp r v c) b
    → Owned (rtcp_failed r v c b)
unfolding rtcp_failed
rtcp_failed-Owned r v c b h =
    let (g, n) = h.fit in
    checkpoint-Owned (record b { closed = b.closed ++ those c })
      (pushing (record { rtp = r; video = some (v, c) })) n
      (λ s k. closed_too s b.closed b.left (open_sockets b) (those c) (h.sockets s k)) h.processes
      (λ l. n)

pub pushed-Owned : (t : Sockets) (b : Bridge) → OwnedAt (pushing t) b → Owned (pushed b)
unfolding pushed
pushed-Owned t b h =
    if-cases Owned (b.snapshot == b.generation)
      (λ live. record {
        fit = inl ((==_iff b.snapshot b.generation).0 live);
        sockets = h.sockets;
        processes = h.processes;
      })
      (λ late. unwind-Owned b [] [] h.fit h.sockets (λ s k. k) h.processes)
