-- ===== src/Fcm/Tests.antt =====
-- Runs of the listener.
use ha_intratone.Base.{true, false, [], ◌∷◌, ◌≡◌, arith}
use ha_intratone.Base.Text.{codes}
use ha_intratone.Fcm.State.{new_listener, alive, dead, refused, up, graceful, crash, supervisor}
use ha_intratone.Fcm.Backoff.{
  AllBounded, crashes, doubling, supervisor-AllBounded, supervisor-crashes,
}
use ha_intratone.Fcm.Told.{Flips, sessions, sessions-Flips}

supervisor-AllBounded_example :
    AllBounded (supervisor (crash 1 ∷ crash 2 ∷ crash 400 ∷ crash 3 ∷ graceful ∷ []))
supervisor-AllBounded_example =
    supervisor-AllBounded (crash 1 ∷ crash 2 ∷ crash 400 ∷ crash 3 ∷ graceful ∷ [])

supervisor-crashes_example : supervisor (crashes (3 ∷ 60 ∷ 0 ∷ 41 ∷ [])) ≡ doubling 4 5
supervisor-crashes_example =
    supervisor-crashes (3 ∷ 60 ∷ 0 ∷ 41 ∷ [])
      (omega arith, (omega arith, (omega arith, (omega arith, tt))))

sessions-Flips_example :
    ((sessions
        (refused ∷ up true (codes "a") (codes "b") (alive true ∷ alive false ∷ dead ∷ []) ∷ [])
        new_listener).connected
      ≡ false)
    × Flips false
        (sessions
          (refused ∷ up true (codes "a") (codes "b") (alive true ∷ alive false ∷ dead ∷ []) ∷ [])
          new_listener).told
        false
sessions-Flips_example =
    sessions-Flips
      (refused ∷ up true (codes "a") (codes "b") (alive true ∷ alive false ∷ dead ∷ []) ∷ [])
