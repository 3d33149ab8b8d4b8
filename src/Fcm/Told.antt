-- ===== src/Fcm/Told.antt =====
-- fcm_listener.py: what the state listeners are told.
use ha_intratone.Base.{
  Bool, true, false, List, [], ◌∷◌, ◌++◌, not, if-cases, ◌&&◌, ◌≡◌, refl, sym, ap, ◌∙◌, subst,
}
use ha_intratone.Base.Text.{Text, truthy, text_eq}
use ha_intratone.Fcm.State.{
  Listener, new_listener, same, set_connected, check_token_registration, Health, dead, alive,
  health_checks, Session, refused, up, run_once,
}

-- Each word is the opposite of the one before, from `a` to `b`.
abbrev pub Flips : Bool → List Bool → Bool → Type 0
Flips a [] b = a ≡ b
Flips a (x ∷ xs) b = (x ≡ not a) × Flips x xs b

Flips-append :
    (a : Bool) (xs : List Bool) (b c : Bool) → Flips a xs b → c ≡ not b → Flips a (xs ++ c ∷ []) c
Flips-append a [] b c h e = (e ∙ ap not (sym h), refl)
Flips-append a (x ∷ xs) b c (f, h) e = (f, Flips-append x xs b c h e)

abbrev pub Told : Listener → Type 0
Told l = Flips false l.told l.connected

agree : (a b : Bool) → same a b ≡ true → a ≡ b
agree true b e = sym e
agree false false e = refl
agree false true e = cc

differ : (a b : Bool) → same a b ≡ false → b ≡ not a
differ true b e = e
differ false true e = refl
differ false false e = cc

set_connected-Told : (b : Bool) (l : Listener) → Told l → Told (set_connected b l)
unfolding set_connected
set_connected-Told b l h =
    if-cases Told (same l.connected b) (λ old. h)
      (λ new. Flips-append false l.told l.connected b h (differ l.connected b new))

set_connected_lem : (b : Bool) (l : Listener) → (set_connected b l).connected ≡ b
unfolding set_connected
set_connected_lem b l =
    let P : Listener → Type 0 = λ m. m.connected ≡ b in
    if-cases P (same l.connected b) (λ old. agree l.connected b old) (λ new. refl)

check_token-Told : (r t : Text) (l : Listener) → Told l → Told (check_token_registration r t l)
unfolding check_token_registration
check_token-Told r t l h =
    if-cases Told (truthy r && truthy t && not (text_eq t r)) (λ stale. h) (λ good. h)

health_checks-Told : (hs : List Health) (l : Listener) → Told l → Told (health_checks hs l)
unfolding health_checks
health_checks-Told [] l h = h
health_checks-Told (dead ∷ hs) l h = h
health_checks-Told (alive b ∷ hs) l h =
    if-cases Told l.stopping (λ off. h)
      (λ on. health_checks-Told hs (set_connected b l) (set_connected-Told b l h))

run_once-Told : (s : Session) (l : Listener) → Told l → Told (run_once s l)
unfolding run_once
run_once-Told refused l h = h
run_once-Told (up b r t hs) l h =
    let checked = check_token_registration r t (set_connected b l) in
    set_connected-Told false (health_checks hs checked) (
      health_checks-Told hs checked
        (check_token-Told r t (set_connected b l) (set_connected-Told b l h)))

-- The runs of the client, one after the other.
unfoldable pub sessions : List Session → Listener → Listener
unfolding run_once
sessions [] l = l
sessions (s ∷ ss) l = sessions ss (run_once s l)

sessions-Told : (ss : List Session) (l : Listener) → Told l → Told (sessions ss l)
unfolding sessions
sessions-Told [] l h = h
sessions-Told (s ∷ ss) l h = sessions-Told ss (run_once s l) (run_once-Told s l h)

-- Between the runs the listener is not connected.
run_once_off : (s : Session) (l : Listener) → l.connected ≡ false → (run_once s l).connected ≡ false
unfolding run_once
run_once_off refused l h = h
run_once_off (up b r t hs) l h =
    set_connected_lem false (health_checks hs (check_token_registration r t (set_connected b l)))

sessions_off :
    (ss : List Session) (l : Listener) → l.connected ≡ false → (sessions ss l).connected ≡ false
unfolding sessions
sessions_off [] l h = h
sessions_off (s ∷ ss) l h = sessions_off ss (run_once s l) (run_once_off s l h)

-- After any runs of the client, each failed, ended or looked after for any time: the listener says that
-- it is not connected, and the state listeners were told the connections and disconnections in turn,
-- beginning with a connection and ending with a disconnection, none of them twice.
pub sessions-Flips :
    (ss : List Session)
    → ((sessions ss new_listener).connected ≡ false)
      × Flips false (sessions ss new_listener).told false
unfolding new_listener
sessions-Flips ss =
    let off = sessions_off ss new_listener refl in
    (
      off,
      subst (Flips false (sessions ss new_listener).told) off (sessions-Told ss new_listener refl),
    )
