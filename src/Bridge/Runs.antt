-- ===== src/Bridge/Runs.antt =====
-- audio_bridge.py: starts and stops of the bridge in any order.
use ha_intratone.Base.{
  ℕ, Option, none, some, List, [], ◌∷◌, ◌++◌, ◌≡◌, ◌≢◌, ◌⊎◌, inl, inr, refl, sym, subst, append-nil,
}
use ha_intratone.Bridge.State.{
  Phase, idle, spawning, wrapping_audio, wrapping_video, wrapping_rtcp, pushing, Bridge, new_bridge,
  those, all_sockets, Event, starts, spawns, wraps, fails, pushes, cancels, stops, resume, step,
}
use ha_intratone.Bridge.Owned.{
  begin-Owned, spawned-Owned, spawn_failed-Owned, audio_wrapped-Owned, video_wrapped-Owned,
  rtcp_wrapped-Owned, rtcp_failed-Owned, pushed-Owned,
}
use ha_intratone.Bridge.Account.{Has, Clean, Owned, OwnedAt, in_either, stop-Owned, unwind-Owned}

-- A start begins on a bridge on which nothing runs.
abbrev pub Admissible : Event → Bridge → Type 0
Admissible (starts t) b = Clean b
Admissible _ b = Unit {0}

-- A sequence of starts, answers to their awaits, cancellations and stops.
pub data Reached : Bridge → Type 0 where
  made : Reached new_bridge
  next : {b : Bridge} (e : Event) → Reached b → Admissible e b → Reached (step e b)

resume-Owned :
    (e : Event) (phase : Phase) (b : Bridge)
    → b.phase ≡ phase
    → Admissible e b
    → OwnedAt phase b
    → Owned (resume e phase b)
unfolding resume
resume-Owned stops phase b q a h = stop-Owned b (subst (λ ph. OwnedAt ph b) (sym q) h)
resume-Owned (starts t) idle b q a h = begin-Owned t b a h
resume-Owned (spawns p) (spawning t) b q a h = spawned-Owned p t b h
resume-Owned fails (spawning t) b q a h = spawn_failed-Owned t b h
resume-Owned cancels (spawning t) b q a h =
    unwind-Owned b (all_sockets t) (all_sockets t) h.fit.no_stats h.sockets (λ s k. k) h.processes
resume-Owned wraps (wrapping_audio t) b q a h = audio_wrapped-Owned t.rtp t.video b h
resume-Owned fails (wrapping_audio t) b q a h =
    let (e, f, g, n) = h.fit in
    unwind-Owned b (all_sockets t) (all_sockets t) n h.sockets (λ s k. k) h.processes
resume-Owned cancels (wrapping_audio t) b q a h =
    let (e, f, g, n) = h.fit in
    unwind-Owned b (all_sockets t) (all_sockets t) n h.sockets (λ s k. k) h.processes
resume-Owned wraps (wrapping_video r v c) b q a h = video_wrapped-Owned r v c b h
resume-Owned fails (wrapping_video r v c) b q a h =
    let (f, g, n) = h.fit in
    unwind-Owned b (v ∷ those c) (v ∷ those c) n h.sockets (λ s k. k) h.processes
resume-Owned cancels (wrapping_video r v c) b q a h =
    let (f, g, n) = h.fit in
    unwind-Owned b (v ∷ those c) (r ∷ v ∷ those c) n h.sockets (λ s k. inr k) h.processes
resume-Owned wraps (wrapping_rtcp r v c) b q a h = rtcp_wrapped-Owned r v c b h
resume-Owned fails (wrapping_rtcp r v c) b q a h = rtcp_failed-Owned r v c b h
resume-Owned cancels (wrapping_rtcp r v c) b q a h =
    let (g, n) = h.fit in
    unwind-Owned b (those c) (r ∷ v ∷ those c) n h.sockets (λ s k. inr (inr k)) h.processes
resume-Owned pushes (pushing t) b q a h = pushed-Owned t b h
resume-Owned cancels (pushing t) b q a h =
    unwind-Owned b [] (all_sockets t) h.fit h.sockets (λ s k. absurd k) h.processes
resume-Owned e phase b q a h = subst (λ ph. OwnedAt ph b) (sym q) h

new_bridge-Owned : Owned new_bridge
unfolding new_bridge
new_bridge-Owned = record { fit = inl refl; sockets = λ s k. absurd k; processes = λ p k. absurd k }

reached-Owned : (b : Bridge) → Reached b → Owned b
unfolding step
reached-Owned b made = new_bridge-Owned
reached-Owned b (next {b = c} e r a) = resume-Owned e c.phase c refl a (reached-Owned c r)

-- With no transport open and nothing held, a socket is closed or left.
nowhere_else :
    (s : ℕ) (closed left : List ℕ) (o u w : Option ℕ)
    → o ≡ none
    → u ≡ none
    → w ≡ none
    → Has s (closed ++ (left ++ ((those o ++ (those u ++ those w)) ++ [])))
    → Has s closed ⊎ Has s left
nowhere_else s closed left none none none e f g h = elim (in_either s closed (left ++ []) h) [
  | inl k ↦ inl k
  | inr k ↦ inr (subst (Has s) (append-nil left) k)
]
nowhere_else s closed left (some o) u w e f g h = cc
nowhere_else s closed left none (some u) w e f g h = cc
nowhere_else s closed left none none (some w) e f g h = cc

none_left :
    (p : ℕ) (ended : List ℕ) (o : Option ℕ) → o ≡ none → Has p (ended ++ those o) → Has p ended
none_left p ended none e h = subst (Has p) (append-nil ended) h
none_left p ended (some r) e h = cc

-- `P` of every element.
abbrev pub All : (ℕ → Type 0) → List ℕ → Type 0
All P [] = Unit {0}
All P (x ∷ xs) = P x × All P xs

Has-All : (P : ℕ → Type 0) (xs : List ℕ) → ((x : ℕ) → Has x xs → P x) → All P xs
Has-All P [] f = tt
Has-All P (x ∷ xs) f = (f x (inl refl), Has-All P xs (λ y k. f y (inr k)))

-- No transport is open and no task runs, every process has ended, and every socket that was given is
-- closed or was left by a failed spawn.
abbrev pub Settled : Bridge → Type 0
Settled b =
    Clean b
    × All (λ p. Has p b.ended) b.processes
    × All (λ s. Has s b.closed ⊎ Has s b.left) b.given

Clean-Settled : (b : Bridge) → OwnedAt idle b → Clean b → Settled b
Clean-Settled b h c = (
  c,
  Has-All (λ p. Has p b.ended) b.processes
      (λ p k. none_left p b.ended b.process c.no_process (h.processes p k)),
  Has-All (λ s. Has s b.closed ⊎ Has s b.left) b.given
      (λ s k.
        nowhere_else s b.closed b.left b.rtp_transport b.video_rtp_transport b.video_rtcp_transport
          c.no_rtp c.no_video c.no_rtcp (h.sockets s k)),
)

stopped-Settled : (b : Bridge) → OwnedAt idle b → b.snapshot ≢ b.generation → Settled b
stopped-Settled b h d = elim h.fit [ inl e ↦ absurd (d e) | inr c ↦ Clean-Settled b h c ]

-- The bridge's start and stop in any order, every start on a bridge on which nothing runs: once no start
-- is suspended and a stop has come after the last one began, nothing is left. No transport is open, no
-- PLI or statistics task runs, every ffmpeg that was spawned has ended, and every socket that a start
-- was given is closed, but for those of a start whose ffmpeg could not be spawned.
pub reached-Settled :
    (b : Bridge) → Reached b → b.phase ≡ idle → b.snapshot ≢ b.generation → Settled b
reached-Settled b r q d = stopped-Settled b (subst (λ ph. OwnedAt ph b) q (reached-Owned b r)) d
