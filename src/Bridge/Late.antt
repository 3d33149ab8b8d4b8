-- ===== src/Bridge/Late.antt =====
-- audio_bridge.py: a stop that comes while a start is suspended.
use ha_intratone.Base.{
  ℕ, ◌+◌, ◌==◌, ◌≤◌, true, Option, none, some, List, [], ◌∷◌, ◌++◌, if-cases, ◌≡◌, ◌≢◌, refl,
  ==_iff, arith,
}
use ha_intratone.Bridge.State.{
  Phase, idle, spawning, wrapping_audio, wrapping_video, wrapping_rtcp, pushing, Bridge, new_bridge,
  those, all_sockets, torn_down, stop, unwind_partial_start, checkpoint, begin, spawned,
  spawn_failed, audio_wrapped, video_wrapped, rtcp_wrapped, rtcp_failed, pushed, Event, starts,
  spawns, wraps, fails, pushes, cancels, stops, resume, step,
}
use ha_intratone.Bridge.Runs.{Admissible, Reached, made, next, Settled, reached-Settled}

-- A start never knows of more stops than there were.
abbrev Behind : Bridge → Type 0
Behind b = b.snapshot ≤ b.generation

unwind-Behind : (socks : List ℕ) (b : Bridge) → Behind b → Behind (unwind_partial_start socks b)
unfolding unwind_partial_start torn_down
unwind-Behind socks b h = h

checkpoint-Behind :
    (socks : List ℕ) (phase : Phase) (b : Bridge) → Behind b → Behind (checkpoint socks phase b)
unfolding checkpoint
checkpoint-Behind socks phase b h =
    if-cases Behind (b.snapshot == b.generation) (λ live. h) (λ late. unwind-Behind socks b h)

audio-Behind :
    (r : ℕ) (o : Option (ℕ × Option ℕ)) (b : Bridge) → Behind b → Behind (audio_wrapped r o b)
unfolding audio_wrapped
audio-Behind r none b h = checkpoint-Behind _ _ (record b { rtp_transport = some r }) h
audio-Behind r (some (v, c)) b h =
    checkpoint-Behind _ _ (record b { rtp_transport = some r; has_video_rtp = true }) h

video-Behind : (r v : ℕ) (o : Option ℕ) (b : Bridge) → Behind b → Behind (video_wrapped r v o b)
unfolding video_wrapped
video-Behind r v none b h = checkpoint-Behind _ _ (record b { video_rtp_transport = some v }) h
video-Behind r v (some c) b h =
    if-cases Behind b.has_video_rtp (λ there. h)
      (λ gone.
        checkpoint-Behind _ _
          (record b { video_rtp_transport = some v; closed = b.closed ++ c ∷ [] }) h)

resume-Behind : (e : Event) (phase : Phase) (b : Bridge) → Behind b → Behind (resume e phase b)
unfolding resume stop torn_down begin spawned spawn_failed audio_wrapped video_wrapped rtcp_wrapped
    rtcp_failed pushed unwind_partial_start
resume-Behind stops phase b h = omega arith
resume-Behind (starts t) idle b h = omega arith
resume-Behind (spawns p) (spawning t) b h =
    checkpoint-Behind (all_sockets t) (wrapping_audio t)
      (record b { process = some p; processes = b.processes ++ p ∷ [] }) h
resume-Behind fails (spawning t) b h = h
resume-Behind cancels (spawning t) b h = h
resume-Behind wraps (wrapping_audio t) b h = audio-Behind t.rtp t.video b h
resume-Behind fails (wrapping_audio t) b h = h
resume-Behind cancels (wrapping_audio t) b h = h
resume-Behind wraps (wrapping_video r v c) b h = video-Behind r v c b h
resume-Behind fails (wrapping_video r v c) b h = h
resume-Behind cancels (wrapping_video r v c) b h = h
resume-Behind wraps (wrapping_rtcp r v c) b h =
    checkpoint-Behind [] (pushing (record { rtp = r; video = some (v, c) }))
      (record b { video_rtcp_transport = c; pli_task = true }) h
resume-Behind fails (wrapping_rtcp r v c) b h =
    checkpoint-Behind [] (pushing (record { rtp = r; video = some (v, c) }))
      (record b { closed = b.closed ++ those c }) h
resume-Behind cancels (wrapping_rtcp r v c) b h = h
resume-Behind pushes (pushing t) b h =
    if-cases Behind (b.snapshot == b.generation) (λ live. h) (λ late. unwind-Behind [] b h)
resume-Behind cancels (pushing t) b h = h
resume-Behind e phase b h = h

reached-Behind : (b : Bridge) → Reached b → Behind b
unfolding step new_bridge
reached-Behind b made = omega arith
reached-Behind b (next {b = c} e r a) = resume-Behind e c.phase c (reached-Behind c r)

-- What the await of a suspended start can give back.
abbrev pub Answers : Event → Phase → Type 0
Answers (spawns p) (spawning t) = Unit {0}
Answers fails (spawning t) = Unit {0}
Answers wraps (wrapping_audio t) = Unit {0}
Answers fails (wrapping_audio t) = Unit {0}
Answers wraps (wrapping_video r v c) = Unit {0}
Answers fails (wrapping_video r v c) = Unit {0}
Answers wraps (wrapping_rtcp r v c) = Unit {0}
Answers fails (wrapping_rtcp r v c) = Unit {0}
Answers pushes (pushing t) = Unit {0}
Answers e phase = ⊥

later : (a b : ℕ) → a ≤ b → a ≢ b + 1
later a b h e = omega arith

-- The start is over, and a stop has come after it began.
abbrev Over : Bridge → Type 0
Over b = (b.phase ≡ idle) × (b.snapshot ≢ b.generation)

-- A checkpoint after a stop.
checkpoint_late :
    (socks : List ℕ) (phase : Phase) (b : Bridge)
    → b.snapshot ≢ b.generation
    → Over (checkpoint socks phase b)
unfolding checkpoint unwind_partial_start torn_down
checkpoint_late socks phase b d =
    if-cases Over (b.snapshot == b.generation)
      (λ live. absurd (d ((==_iff b.snapshot b.generation).0 live))) (λ late. (refl, d))

audio_late :
    (r : ℕ) (o : Option (ℕ × Option ℕ)) (b : Bridge)
    → b.snapshot ≢ b.generation
    → Over (audio_wrapped r o b)
unfolding audio_wrapped
audio_late r none b d =
    checkpoint_late [] (pushing (record { rtp = r; video = none }))
      (record b { rtp_transport = some r }) d
audio_late r (some (v, c)) b d =
    checkpoint_late (v ∷ those c) (wrapping_video r v c)
      (record b { rtp_transport = some r; has_video_rtp = true }) d

answer_late :
    (e : Event) (phase : Phase) (b : Bridge)
    → b.snapshot ≢ b.generation + 1
    → Answers e phase
    → Over (resume e phase (stop b))
unfolding resume stop torn_down spawned spawn_failed audio_wrapped video_wrapped rtcp_wrapped
    rtcp_failed pushed unwind_partial_start
answer_late (spawns p) (spawning t) b h a =
    checkpoint_late (all_sockets t) (wrapping_audio t)
      (record (stop b) { process = some p; processes = b.processes ++ p ∷ [] }) h
answer_late fails (spawning t) b h a = (refl, h)
answer_late wraps (wrapping_audio t) b h a = audio_late t.rtp t.video (stop b) h
answer_late fails (wrapping_audio t) b h a = (refl, h)
answer_late wraps (wrapping_video r v none) b h a =
    checkpoint_late [] (pushing (record { rtp = r; video = some (v, none) }))
      (record (stop b) { video_rtp_transport = some v }) h
answer_late wraps (wrapping_video r v (some c)) b h a =
    checkpoint_late [] (pushing (record { rtp = r; video = some (v, some c) }))
      (record (stop b) { video_rtp_transport = some v; closed = (stop b).closed ++ c ∷ [] }) h
answer_late fails (wrapping_video r v c) b h a = (refl, h)
answer_late wraps (wrapping_rtcp r v c) b h a =
    checkpoint_late [] (pushing (record { rtp = r; video = some (v, c) }))
      (record (stop b) { video_rtcp_transport = c; pli_task = true }) h
answer_late fails (wrapping_rtcp r v c) b h a =
    checkpoint_late [] (pushing (record { rtp = r; video = some (v, c) }))
      (record (stop b) { closed = (stop b).closed ++ those c }) h
answer_late pushes (pushing t) b h a =
    if-cases Over (b.snapshot == b.generation + 1)
      (λ live. absurd (h ((==_iff b.snapshot (b.generation + 1)).0 live))) (λ late. (refl, h))
answer_late e phase b h a = absurd a

Answers-Admissible : (e : Event) (phase : Phase) (b : Bridge) → Answers e phase → Admissible e b
Answers-Admissible (starts t) phase b a = absurd a
Answers-Admissible stops phase b a = tt
Answers-Admissible (spawns p) phase b a = tt
Answers-Admissible wraps phase b a = tt
Answers-Admissible fails phase b a = tt
Answers-Admissible pushes phase b a = tt
Answers-Admissible cancels phase b a = tt

-- A stop that comes while a start is suspended: as soon as the start's await gives back anything, a
-- result or a failure, the start is over, and nothing is left but open sockets of a start whose
-- ffmpeg could not be spawned, which the bridge never closes: no transport is open, no task runs,
-- every ffmpeg has ended, and every other socket is closed.
pub stop_wins :
    (b : Bridge) (e : Event)
    → Reached b
    → Answers e b.phase
    → ((step e (step stops b)).phase ≡ idle) × Settled (step e (step stops b))
unfolding step resume
stop_wins b e r a =
    let over : Over (step e (step stops b)) =
      answer_late e b.phase b (later b.snapshot b.generation (reached-Behind b r)) a in
    (
      over.0,
      reached-Settled (step e (step stops b))
          (next e (next stops r tt) (Answers-Admissible e b.phase (step stops b) a)) over.0 over.1,
    )
