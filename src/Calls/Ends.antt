-- ===== src/Calls/Ends.antt =====
-- call_manager.py: the ends of a call and their reports.
use ha_intratone.Base.{
  true, Option, none, some, [], ◌∷◌, ◌++◌, ◌≡◌, inl, inr, refl, sym, ap, ◌∙◌, subst, if-cases,
  if◌then◌else◌, ◌>>=◌, is_some, append_assoc,
}
use ha_intratone.Base.Text.{Text, text_eq→≡}
use ha_intratone.Sip.Types.{Libs}
use ha_intratone.Sip.Client.{hang_up}
use ha_intratone.Calls.Manager.{
  Manager, bridge_stop, call_ended, is_active, close_pending_sockets, cancel_spawn_bridge_task,
  on_client, bridge_stopped, manager_hang_up, auto_terminate, aborted, abort_active_call,
  teardown_after_grace,
}
use ha_intratone.Calls.Reports.{
  OnlyActive, OnlyActive-append, Same, same, Same-trans, AllSame, on_client-AllSame, Ended, Moves,
  AllMove,
}

pub is_active_lem : (id : Text) (o : Option Text) → is_active id o ≡ true → o ≡ some id
is_active_lem id none e = cc
is_active_lem id (some a) e = ap some (sym (text_eq→≡ id a e))

then-AllSame :
    (m : Manager) (o : Option Manager) (g : Manager → Manager)
    → ((m' : Manager) → Same m m' → Same m' (g m'))
    → AllSame m o
    → AllSame m (o >>= λ m'. some (g m'))
then-AllSame m none g k h = tt
then-AllSame m (some m') g k h = Same-trans h (k m' h)

pub bridge_stopped-Same : (m : Manager) → Same m (bridge_stopped m)
unfolding bridge_stopped
bridge_stopped-Same m = record {
  reports = bridge_stop ∷ [];
  added = refl;
  active = refl;
  only = tt;
}

-- A change of the other fields before a step.
pub after-AllSame :
    (m m₁ : Manager) (o : Option Manager)
    → m₁.effects ≡ m.effects
    → m₁.active_call_id ≡ m.active_call_id
    → AllSame m₁ o
    → AllSame m o
after-AllSame m m₁ none e f h = tt
after-AllSame m m₁ (some m') e f h = Same-trans (same m m₁ e f) h

aborted-Ended :
    (id : Text) (m m' : Manager)
    → m.active_call_id ≡ some id
    → Same m m'
    → Ended id m (aborted id m')
unfolding aborted close_pending_sockets cancel_spawn_bridge_task
aborted-Ended id m m' e s = record {
  reports = s.reports ++ bridge_stop ∷ [];
  added =
      ap (λ es. es ++ bridge_stop ∷ call_ended id ∷ []) s.added
      ∙ append_assoc m.effects s.reports (bridge_stop ∷ call_ended id ∷ [])
      ∙ ap (λ es. m.effects ++ es)
          (sym (append_assoc s.reports (bridge_stop ∷ []) (call_ended id ∷ [])));
  was = e;
  over = refl;
  only =
      OnlyActive-append (some id) s.reports (bridge_stop ∷ [])
        (subst (λ a. OnlyActive a s.reports) e s.only) tt;
}

aborted-AllMove :
    (id : Text) (m : Manager) (o : Option Manager)
    → m.active_call_id ≡ some id
    → AllSame m o
    → AllMove m (o >>= λ m'. some (aborted id m'))
aborted-AllMove id m none e h = tt
aborted-AllMove id m (some m') e h = inr (id, aborted-Ended id m m' e h)

abort_with-AllMove :
    (libs : Libs) (m : Manager) (o : Option Text)
    → m.active_call_id ≡ o
    → AllMove m (elim o [
      | none ↦ some m
      | some id ↦
          on_client (hang_up libs id) (record m { max_duration_task = none; grace_task = none })
          >>= λ m'. some (aborted id m')
    ])
abort_with-AllMove libs m none e = inl (same m m refl refl)
abort_with-AllMove libs m (some id) e =
    let m₁ = record m { max_duration_task = none; grace_task = none } in
    aborted-AllMove id m _ e
      (after-AllSame m m₁ _ refl refl (on_client-AllSame (hang_up libs id) m₁))

pub abort-AllMove : (libs : Libs) (m : Manager) → AllMove m (abort_active_call libs m)
unfolding abort_active_call
abort-AllMove libs m = abort_with-AllMove libs m m.active_call_id refl

pub teardown-Moves : (id : Text) (m : Manager) → Moves m (teardown_after_grace id m)
unfolding teardown_after_grace
teardown-Moves id m =
    if-cases (Moves m) (is_active id m.active_call_id)
      (λ ours. inr (
        id,
        record {
          reports = bridge_stop ∷ [];
          added = refl;
          was = is_active_lem id m.active_call_id ours;
          over = refl;
          only = tt;
        },
      ))
      (λ other. inl (same m _ refl refl))

pub hang_up-AllSame : (libs : Libs) (m : Manager) → AllSame m (manager_hang_up libs m)
unfolding manager_hang_up
hang_up-AllSame libs m =
    elim m.active_call_id
      as (λ o. AllSame m (elim o [
        | none ↦ some m
        | some id ↦
            if is_some m.sip_client
            then (on_client (hang_up libs id) m >>= λ m'. some (bridge_stopped m'))
            else some m
      ])) [
        | none ↦ same m m refl refl
        | some id ↦
            if-cases (AllSame m) (is_some m.sip_client)
              (λ there.
                then-AllSame m _ bridge_stopped (λ m' s. bridge_stopped-Same m')
                  (on_client-AllSame (hang_up libs id) m))
              (λ gone. same m m refl refl)
      ]

pub auto_terminate-AllSame :
    (libs : Libs) (id : Text) (m : Manager) → AllSame m (auto_terminate libs id m)
unfolding auto_terminate
auto_terminate-AllSame libs id m =
    let m₁ = record m { max_duration_task = none } in
    if-cases (AllSame m) (is_active id m.active_call_id)
      (λ ours. after-AllSame m m₁ _ refl refl (on_client-AllSame (hang_up libs id) m₁))
      (λ other. same m m₁ refl refl)
