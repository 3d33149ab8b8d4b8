-- ===== src/Calls/Reports.antt =====
-- call_manager.py: what one step of the manager reports to its owner, and of which call.
use ha_intratone.Base.{
  Bool, Option, none, some, List, [], ◌∷◌, ◌++◌, ◌≡◌, ◌⊎◌, inl, refl, sym, ap, ◌∙◌, subst, drop,
  length, if-cases, ◌>>=◌, append_assoc, append-nil,
}
use ha_intratone.Base.Text.{Text}
use ha_intratone.Sip.Types.{CallEstablished, Event, call_established, call_terminated, Client}
use ha_intratone.Calls.Manager.{
  Manager, Effect, bridge_prewarm, bridge_cancel_prewarm, bridge_stop, bridge_start, call_active,
  call_ended, is_active, handle_call_established, handle_call_terminated, close_pending_sockets,
  notify, client_does, on_client, ask_client, ask_active, for_active, manager_of,
}

-- Only an answer of the active call is among the reports.
abbrev pub OnlyActive : Option Text → List Effect → Type 0
OnlyActive a [] = Unit {0}
OnlyActive a (call_active id url ∷ es) = (a ≡ some id) × OnlyActive a es
OnlyActive a (call_ended id ∷ es) = ⊥
OnlyActive a (bridge_prewarm ∷ es) = OnlyActive a es
OnlyActive a (bridge_cancel_prewarm ∷ es) = OnlyActive a es
OnlyActive a (bridge_stop ∷ es) = OnlyActive a es
OnlyActive a (bridge_start info socks ∷ es) = OnlyActive a es

pub OnlyActive-append :
    (a : Option Text) (es fs : List Effect)
    → OnlyActive a es
    → OnlyActive a fs
    → OnlyActive a (es ++ fs)
OnlyActive-append a [] fs h g = g
OnlyActive-append a (call_active id url ∷ es) fs (e, h) g = (e, OnlyActive-append a es fs h g)
OnlyActive-append a (call_ended id ∷ es) fs h g = absurd h
OnlyActive-append a (bridge_prewarm ∷ es) fs h g = OnlyActive-append a es fs h g
OnlyActive-append a (bridge_cancel_prewarm ∷ es) fs h g = OnlyActive-append a es fs h g
OnlyActive-append a (bridge_stop ∷ es) fs h g = OnlyActive-append a es fs h g
OnlyActive-append a (bridge_start info socks ∷ es) fs h g = OnlyActive-append a es fs h g

-- The active call stays, and at most its answer is reported.
pub record Same (m m' : Manager) : Type 0 where
  pub reports : List Effect
  pub added : m'.effects ≡ m.effects ++ reports
  pub active : m'.active_call_id ≡ m.active_call_id
  pub only : OnlyActive m.active_call_id reports

pub same :
    (m m' : Manager) → m'.effects ≡ m.effects → m'.active_call_id ≡ m.active_call_id → Same m m'
same m m' e f = record {
  reports = [];
  added = e ∙ sym (append-nil m.effects);
  active = f;
  only = tt;
}

pub Same-trans : {m₁ m₂ m₃ : Manager} → Same m₁ m₂ → Same m₂ m₃ → Same m₁ m₃
Same-trans {m₁} {m₂} {m₃} s t = record {
  reports = s.reports ++ t.reports;
  added =
      t.added ∙ ap (λ es. es ++ t.reports) s.added ∙ append_assoc m₁.effects s.reports t.reports;
  active = t.active ∙ s.active;
  only =
      OnlyActive-append m₁.active_call_id s.reports t.reports s.only
        (subst (λ a. OnlyActive a t.reports) s.active t.only);
}

handle_call_terminated-Same : (id : Text) (m : Manager) → Same m (handle_call_terminated id m)
unfolding handle_call_terminated close_pending_sockets
handle_call_terminated-Same id m =
    if-cases (Same m) (is_active id m.active_call_id)
      (λ ours. record {
        reports = bridge_cancel_prewarm ∷ [];
        added = refl;
        active = refl;
        only = tt;
      })
      (λ other. same m m refl refl)

handle_call_established-Same :
    (info : CallEstablished) (m : Manager) → Same m (handle_call_established info m)
unfolding handle_call_established
handle_call_established-Same info m =
    if-cases (Same m) (is_active info.call_id m.active_call_id) (λ ours. same m _ refl refl)
      (λ other. same m m refl refl)

notify-Same : (es : List Event) (m : Manager) → Same m (notify es m)
unfolding notify
notify-Same [] m = same m m refl refl
notify-Same (call_established info ∷ es) m =
    Same-trans (handle_call_established-Same info m) (notify-Same es _)
notify-Same (call_terminated id ∷ es) m =
    Same-trans (handle_call_terminated-Same id m) (notify-Same es _)

-- Every result is one that the active call stays in.
abbrev pub AllSame : Manager → Option Manager → Type 0
AllSame m none = Unit {0}
AllSame m (some m') = Same m m'

pub on_client-AllSame : (f : Client → Option Client) (m : Manager) → AllSame m (on_client f m)
unfolding on_client client_does
on_client-AllSame f m =
    elim m.sip_client as (λ o. AllSame m (elim o [ none ↦ some m | some c ↦ client_does f c m ])) [
      | none ↦ same m m refl refl
      | some c ↦
          elim (f c)
            as (λ o. AllSame m (
              o >>= λ c'.
              some
                (notify (drop (length c.events) c'.events) (record m { sip_client = some c' })))) [
                  | none ↦ tt
                  | some c' ↦ Same-trans (same m (record m { sip_client = some c' }) refl refl) (
                      notify-Same (drop (length c.events) c'.events)
                        (record m { sip_client = some c' }))
                ]
    ]

pub for_active-AllSame :
    (f : Text → Client → Option (Bool × Client)) (m : Manager)
    → AllSame m (manager_of (for_active f m))
unfolding for_active ask_active ask_client
for_active-AllSame f m =
    elim m.active_call_id as (λ a. AllSame m (manager_of (ask_active f a m.sip_client m))) [
      | none ↦ same m m refl refl
      | some id ↦ elim m.sip_client as (λ o. AllSame m (manager_of (ask_active f (some id) o m))) [
        | none ↦ same m m refl refl
        | some c ↦
            elim (f id c)
              as (λ o. AllSame m (
                manager_of (
                  o >>= λ p. some (
                    p.0,
                    notify (drop (length c.events) p.1.events) (record m { sip_client = some p.1 }),
                  )))) [
                    | none ↦ tt
                    | some p ↦ Same-trans (same m (record m { sip_client = some p.1 }) refl refl) (
                        notify-Same (drop (length c.events) p.1.events)
                          (record m { sip_client = some p.1 }))
                  ]
      ]
    ]

-- The call that was active has ended, and this is reported last.
pub record Ended (id : Text) (m m' : Manager) : Type 0 where
  pub reports : List Effect
  pub added : m'.effects ≡ m.effects ++ (reports ++ call_ended id ∷ [])
  pub was : m.active_call_id ≡ some id
  pub over : m'.active_call_id ≡ none
  pub only : OnlyActive (some id) reports

-- A step keeps the active call or ends it.
abbrev pub Moves : Manager → Manager → Type 0
Moves m m' = Same m m' ⊎ (id : Text) × Ended id m m'

abbrev pub AllMove : Manager → Option Manager → Type 0
AllMove m none = Unit {0}
AllMove m (some m') = Moves m m'

pub AllSame-AllMove : (m : Manager) (o : Option Manager) → AllSame m o → AllMove m o
AllSame-AllMove m none h = tt
AllSame-AllMove m (some m') h = inl h
