-- ===== src/Calls/Sockets.antt =====
-- call_manager.py: no RTP socket is lost on its way from the binding to the bridge.
use ha_intratone.Base.{
  ℕ, Bool, false, suc, ◌+◌, Option, none, some, List, [], ◌∷◌, ◌++◌, ◌≡◌, ◌==◌, refl, arith, drop,
  length, if-cases, if◌then◌else◌, is_some, ◌>>=◌,
}
use ha_intratone.Base.Text.{Text}
use ha_intratone.Sip.Types.{CallEstablished, Event, call_established, call_terminated, Client, Libs}
use ha_intratone.Sip.Client.{hang_up}
use ha_intratone.Calls.Manager.{
  Manager, pending, is_active, close_pending_sockets, handle_call_established,
  handle_call_terminated, notify, client_does, on_client, for_active, ask_client, ask_active,
  manager_of, auto_terminate, bridge_stopped, manager_hang_up, cancel_spawn_bridge_task, async_stop,
  aborted, abort_active_call,
}

-- How often a socket stands in a list.
abbrev pub count : ℕ → List ℕ → ℕ
count x [] = 0
count x (y ∷ ys) = if x == y then suc (count x ys) else count x ys

-- Every socket that was bound is pending, closed or with the bridge, and in one place only.
abbrev pub Balanced : Manager → Type 0
Balanced m =
    (x : ℕ) → count x m.bound ≡ count x (pending m) + count x m.closed_sockets + count x m.handed

pub count-append : (x : ℕ) (xs ys : List ℕ) → count x (xs ++ ys) ≡ count x xs + count x ys
count-append x [] ys = omega arith
count-append x (z ∷ xs) ys = ground (arith, count-append x xs ys)

pub close_pending_sockets-Balanced : (m : Manager) → Balanced m → Balanced (close_pending_sockets m)
unfolding close_pending_sockets
close_pending_sockets-Balanced m h x =
    omega (arith, h x, count-append x m.closed_sockets (pending m))

-- The sockets are in one place each; none is pending while no call is active, unless a start waits for
-- its connection (`waits`), nor while the active call is in its grace period.
pub record Tidy (waits : Bool) (m : Manager) : Type 0 where
  pub balanced : Balanced m
  pub idle : waits ≡ false → m.active_call_id ≡ none → pending m ≡ []
  pub graceful : (id : Text) → m.grace_task ≡ some id → m.active_call_id ≡ some id → pending m ≡ []

-- Every result is tidy; an exception leaves none.
abbrev pub AllTidy : Bool → Option Manager → Type 0
AllTidy waits none = Unit {0}
AllTidy waits (some m) = Tidy waits m

module _ {waits : Bool} where
  handle_call_terminated-Tidy :
      (id : Text) {m : Manager} → Tidy waits m → Tidy waits (handle_call_terminated id m)
  unfolding handle_call_terminated close_pending_sockets
  handle_call_terminated-Tidy id {m} h =
      if-cases (Tidy waits) (is_active id m.active_call_id)
        (λ ours. record {
          balanced = close_pending_sockets-Balanced m h.balanced;
          idle = λ w e. refl;
          graceful = λ i e f. refl;
        })
        (λ other. h)

  handle_call_established-Tidy :
      (info : CallEstablished) {m : Manager}
      → Tidy waits m
      → Tidy waits (handle_call_established info m)
  unfolding handle_call_established
  handle_call_established-Tidy info {m} h =
      if-cases (Tidy waits) (is_active info.call_id m.active_call_id)
        (λ ours. record { balanced = h.balanced; idle = h.idle; graceful = h.graceful })
        (λ other. h)

  notify-Tidy : (es : List Event) {m : Manager} → Tidy waits m → Tidy waits (notify es m)
  unfolding notify
  notify-Tidy [] h = h
  notify-Tidy (call_established info ∷ es) h = notify-Tidy es (handle_call_established-Tidy info h)
  notify-Tidy (call_terminated id ∷ es) h = notify-Tidy es (handle_call_terminated-Tidy id h)

  client_does-AllTidy :
      (f : Client → Option Client) (c : Client) {m : Manager}
      → Tidy waits m
      → AllTidy waits (client_does f c m)
  unfolding client_does
  client_does-AllTidy f c {m} h =
      elim (f c)
        as (λ o. AllTidy waits (
          o >>= λ c'.
          some (notify (drop (length c.events) c'.events) (record m { sip_client = some c' })))) [
            | none ↦ tt
            | some c' ↦
                notify-Tidy (drop (length c.events) c'.events)
                  (record { balanced = h.balanced; idle = h.idle; graceful = h.graceful })
          ]

  pub on_client-AllTidy :
      (f : Client → Option Client) {m : Manager} → Tidy waits m → AllTidy waits (on_client f m)
  unfolding on_client
  on_client-AllTidy f {m} h =
      elim m.sip_client
        as (λ o. AllTidy waits (elim o [ none ↦ some m | some c ↦ client_does f c m ])) [
          | none ↦ h
          | some c ↦ client_does-AllTidy f c h
        ]

  ask_client-AllTidy :
      (f : Client → Option (Bool × Client)) (c : Client) {m : Manager}
      → Tidy waits m
      → AllTidy waits (manager_of (ask_client f c m))
  unfolding ask_client
  ask_client-AllTidy f c {m} h =
      elim (f c)
        as (λ o. AllTidy waits (
          manager_of (
            o >>= λ p. some (
              p.0,
              notify (drop (length c.events) p.1.events) (record m { sip_client = some p.1 }),
            )))) [
              | none ↦ tt
              | some p ↦
                  notify-Tidy (drop (length c.events) p.1.events)
                    (record { balanced = h.balanced; idle = h.idle; graceful = h.graceful })
            ]

  pub for_active-AllTidy :
      (f : Text → Client → Option (Bool × Client)) {m : Manager}
      → Tidy waits m
      → AllTidy waits (manager_of (for_active f m))
  unfolding for_active ask_active
  for_active-AllTidy f {m} h =
      elim m.active_call_id as (λ a. AllTidy waits (manager_of (ask_active f a m.sip_client m))) [
        | none ↦ h
        | some id ↦
            elim m.sip_client as (λ o. AllTidy waits (manager_of (ask_active f (some id) o m))) [
              | none ↦ h
              | some c ↦ ask_client-AllTidy (f id) c h
            ]
      ]

  -- A tidy result that is changed in a way that keeps it tidy.
  pub then-AllTidy :
      (o : Option Manager) (g : Manager → Manager)
      → ((m : Manager) → Tidy waits m → Tidy waits (g m))
      → AllTidy waits o
      → AllTidy waits (o >>= λ m. some (g m))
  then-AllTidy none g k h = tt
  then-AllTidy (some m) g k h = k m h

  aborted-Tidy : (id : Text) (m : Manager) → Tidy waits m → Tidy waits (aborted id m)
  unfolding aborted close_pending_sockets cancel_spawn_bridge_task
  aborted-Tidy id m h = record {
    balanced = close_pending_sockets-Balanced m h.balanced;
    idle = λ w e. refl;
    graceful = λ i e f. refl;
  }

  pub async_stop-Tidy : (m : Manager) → Tidy waits m → Tidy waits (async_stop m)
  unfolding async_stop close_pending_sockets cancel_spawn_bridge_task bridge_stopped
  async_stop-Tidy m h = record {
    balanced = close_pending_sockets-Balanced m h.balanced;
    idle = λ w e. refl;
    graceful = λ i e f. refl;
  }

  pub bridge_stopped-Tidy : (m : Manager) → Tidy waits m → Tidy waits (bridge_stopped m)
  unfolding bridge_stopped
  bridge_stopped-Tidy m h = record { balanced = h.balanced; idle = h.idle; graceful = h.graceful }

  pub abort_active_call-AllTidy :
      (libs : Libs) (m : Manager) → Tidy waits m → AllTidy waits (abort_active_call libs m)
  unfolding abort_active_call
  abort_active_call-AllTidy libs m h =
      elim m.active_call_id
        as (λ o. AllTidy waits (elim o [
          | none ↦ some m
          | some id ↦
              on_client (hang_up libs id) (record m { max_duration_task = none; grace_task = none })
              >>= λ m'. some (aborted id m')
        ])) [
          | none ↦ h
          | some id ↦ then-AllTidy _ (aborted id) (aborted-Tidy id) (
              on_client-AllTidy (hang_up libs id)
                (record { balanced = h.balanced; idle = h.idle; graceful = λ i e f. cc }))
        ]

  pub manager_hang_up-AllTidy :
      (libs : Libs) (m : Manager) → Tidy waits m → AllTidy waits (manager_hang_up libs m)
  unfolding manager_hang_up
  manager_hang_up-AllTidy libs m h =
      elim m.active_call_id
        as (λ o. AllTidy waits (elim o [
          | none ↦ some m
          | some id ↦
              if is_some m.sip_client
              then (on_client (hang_up libs id) m >>= λ m'. some (bridge_stopped m'))
              else some m
        ])) [
          | none ↦ h
          | some id ↦
              if-cases (AllTidy waits) (is_some m.sip_client)
                (λ up.
                  then-AllTidy _ bridge_stopped bridge_stopped-Tidy
                    (on_client-AllTidy (hang_up libs id) h))
                (λ down. h)
        ]

  pub auto_terminate-AllTidy :
      (libs : Libs) (id : Text) (m : Manager)
      → Tidy waits m
      → AllTidy waits (auto_terminate libs id m)
  unfolding auto_terminate
  auto_terminate-AllTidy libs id m h =
      let h' : Tidy waits (record m { max_duration_task = none }) = record {
        balanced = h.balanced;
        idle = h.idle;
        graceful = h.graceful;
      } in
      if-cases (AllTidy waits) (is_active id m.active_call_id)
        (λ ours. on_client-AllTidy (hang_up libs id) h') (λ other. h')
