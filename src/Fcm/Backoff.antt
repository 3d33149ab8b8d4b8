-- ===== src/Fcm/Backoff.antt =====
-- fcm_listener.py: the pauses between the runs of the client.
use ha_intratone.Base.{
  ℕ, zero, suc, le→ltb, ◌*◌, ◌≤◌, min, ltb, List, [], ◌∷◌, if-cases, length, ◌≡◌, refl, ap, ◌∙◌,
  arith,
}
use ha_intratone.Fcm.State.{Run, graceful, crash, pause, pauses, supervisor}

-- Every pause lies between the bounds.
abbrev pub AllBounded : List ℕ → Type 0
AllBounded [] = Unit {0}
AllBounded (w ∷ ws) = (5 ≤ w) × (w ≤ 300) × AllBounded ws

abbrev Bounded : ℕ → Type 0
Bounded w = (5 ≤ w) × (w ≤ 300)

pause-Bounded : (elapsed b : ℕ) → Bounded b → Bounded (pause elapsed b)
unfolding pause
pause-Bounded elapsed b h =
    if-cases Bounded (ltb 60 elapsed) (λ well. (omega arith, omega arith)) (λ ill. h)

doubled-Bounded : (w : ℕ) → Bounded w → Bounded (min (w * 2) 300)
doubled-Bounded w (l, u) = (omega arith, omega arith)

pauses-AllBounded : (b : ℕ) (rs : List Run) → Bounded b → AllBounded (pauses b rs)
unfolding pauses
pauses-AllBounded b [] h = tt
pauses-AllBounded b (graceful ∷ rs) h = tt
pauses-AllBounded b (crash elapsed ∷ rs) h =
    let k = pause-Bounded elapsed b h in
    (
      k.0,
      k.1,
      pauses-AllBounded (min (pause elapsed b * 2) 300) rs (doubled-Bounded (pause elapsed b) k),
    )

-- However the runs end, the listener waits between 5 and 300 seconds after each crash.
pub supervisor-AllBounded : (rs : List Run) → AllBounded (supervisor rs)
unfolding supervisor
supervisor-AllBounded rs = pauses-AllBounded 5 rs (omega arith, omega arith)

-- Runs that crash, each after its number of seconds.
abbrev pub crashes : List ℕ → List Run
crashes [] = []
crashes (e ∷ es) = crash e ∷ crashes es

-- Each is at most a minute.
abbrev pub AllShort : List ℕ → Type 0
AllShort [] = Unit {0}
AllShort (e ∷ es) = (e ≤ 60) × AllShort es

-- `w`, twice `w` and so on, each cut off at 300.
abbrev pub doubling : ℕ → ℕ → List ℕ
doubling zero w = []
doubling (suc n) w = min w 300 ∷ doubling n (w * 2)

doubled : (w : ℕ) → min (min w 300 * 2) 300 ≡ min (w * 2) 300
doubled w = omega arith

pauses-crashes :
    (es : List ℕ) (w : ℕ) → AllShort es → pauses (min w 300) (crashes es) ≡ doubling (length es) w
unfolding pauses pause
pauses-crashes [] w h = refl
pauses-crashes (e ∷ es) w h = rw (le→ltb 60 e h.0) (
    ap (λ ws. min w 300 ∷ ws)
      (ap (λ b. pauses b (crashes es)) (doubled w) ∙ pauses-crashes es (w * 2) h.1))

-- When runs crash one after the other, each within a minute, the pauses are 5, 10, 20 seconds and so on, each
-- twice the one before, cut off at 300.
pub supervisor-crashes :
    (es : List ℕ) → AllShort es → supervisor (crashes es) ≡ doubling (length es) 5
unfolding supervisor
supervisor-crashes es h = pauses-crashes es 5 h
