-- ===== src/Coordinator/Freed.antt =====
-- coordinator.py with call_manager.py: the pushes keep the agreement.
use ha_intratone.Base.{
  none_of, ℕ, Option, none, some, ◌≡◌, refl, sym, ap, ◌∙◌, subst, if-cases, is_some, not, ◌>>=◌,
}
use ha_intratone.Base.Text.{Text, truthy, codes}
use ha_intratone.Sip.Types.{Libs}
use ha_intratone.Calls.Manager.{Manager}
use ha_intratone.Calls.Reports.{AllMove}
use ha_intratone.Calls.Moves.{AllOver, abort-AllOver}
use ha_intratone.Calls.Ends.{abort-AllMove}
use ha_intratone.Coordinator.State.{
  Seconds, Coordinator, async_set_updated_data, drop_pending, manager_changed,
}
use ha_intratone.Coordinator.Push.{
  Payload, abort_of, abort_tracked, cancels_other, handle_call_cancel, ringing_of, ring_begins,
  ring_id, is_cancel, is_unregister, is_call, field, handle_push,
}
use ha_intratone.Coordinator.Agree.{active_of, Tracks, Agrees, like}
use ha_intratone.Coordinator.Changes.{manager_changed-Agrees, manager_changed-manager}

abbrev pub AllAgree : Option Coordinator → Type 0
AllAgree none = Unit {0}
AllAgree (some c) = Agrees c

-- An agreement about a manager that the coordinator holds.
pub agrees :
    (m : Manager) (c : Coordinator) → c.call_manager ≡ some m → Tracks m.active_call_id c → Agrees c
agrees m c e h = subst (λ o. Tracks (active_of o) c) (sym e) h

pub after :
    (m m' : Manager) (c : Coordinator)
    → Tracks m'.active_call_id (manager_changed m m' c)
    → Agrees (manager_changed m m' c)
after m m' c h = agrees m' _ (manager_changed-manager m m' c) h

pub moved-AllAgree :
    (m : Manager) (c : Coordinator) (o : Option Manager)
    → AllMove m o
    → Tracks m.active_call_id c
    → AllAgree (o >>= λ m'. some (manager_changed m m' c))
moved-AllAgree m c none k h = tt
moved-AllAgree m c (some m') k h = after m m' c (manager_changed-Agrees m m' c k h)

-- After the abort no call is active.
abbrev Freed : Option Coordinator → Type 0
Freed none = Unit {0}
Freed (some c) = Agrees c × (active_of c.call_manager ≡ none)

aborted-Freed :
    (m : Manager) (c : Coordinator) (o : Option Manager)
    → AllMove m o
    → AllOver o
    → Tracks m.active_call_id c
    → Freed (o >>= λ m'. some (manager_changed m m' c))
aborted-Freed m c none k f h = tt
aborted-Freed m c (some m') k f h = (
  after m m' c (manager_changed-Agrees m m' c k h),
  ap active_of (manager_changed-manager m m' c) ∙ f,
)

abort_of-Freed :
    (libs : Libs) (o : Option Manager) (c : Coordinator)
    → c.call_manager ≡ o
    → Agrees c
    → Freed (abort_of libs o c)
unfolding abort_of
abort_of-Freed libs none c e h = (h, ap active_of e)
abort_of-Freed libs (some m) c e h =
    if-cases Freed (is_some m.active_call_id)
      (λ busy.
        aborted-Freed m c _ (abort-AllMove libs m) (abort-AllOver libs m)
          (subst (λ a. Tracks (active_of a) c) e h))
      (λ idle. (h, ap active_of e ∙ none_of m.active_call_id idle))

drop_pending-Tracks : (c : Coordinator) → Tracks none c → Tracks none (drop_pending c)
unfolding drop_pending
drop_pending-Tracks c h = record {
  tracked = h.tracked;
  silent = λ k. (refl, refl);
  unused = λ p k s. refl;
  shown = h.shown;
}

drop_pending-manager : (c : Coordinator) → (drop_pending c).call_manager ≡ c.call_manager
unfolding drop_pending
drop_pending-manager c = refl

kept-Freed :
    (o : Option Coordinator) (g : Coordinator → Coordinator)
    → ((c : Coordinator) → (g c).call_manager ≡ c.call_manager)
    → ((c : Coordinator) → Tracks none c → Tracks none (g c))
    → Freed o
    → Freed (o >>= λ c. some (g c))
kept-Freed none g e k h = tt
kept-Freed (some c) g e k (h, f) =
    let free = ap active_of (e c) ∙ f in
    (subst (λ a. Tracks a (g c)) (sym free) (k c (subst (λ a. Tracks a c) f h)), free)

Freed-AllAgree : (o : Option Coordinator) → Freed o → AllAgree o
Freed-AllAgree none h = tt
Freed-AllAgree (some c) (h, f) = h

ring_begins-Tracks :
    (float_of : Text → Option Seconds) (payload : Payload) (id : Text) (now : ℕ) (c : Coordinator)
    → Tracks none c
    → Tracks none (ring_begins float_of payload id now c)
unfolding ring_begins async_set_updated_data ringing_of
ring_begins-Tracks float_of payload id now c h = record {
  tracked = h.tracked;
  silent = λ k. cc;
  unused = λ p k s. refl;
  shown = λ k. refl;
}

ring_begins-manager :
    (float_of : Text → Option Seconds) (payload : Payload) (id : Text) (now : ℕ) (c : Coordinator)
    → (ring_begins float_of payload id now c).call_manager ≡ c.call_manager
unfolding ring_begins async_set_updated_data
ring_begins-manager float_of payload id now c = refl

pub handle_push-AllAgree :
    (libs : Libs) (float_of : Text → Option Seconds) (now : ℕ) (payload : Payload) (c : Coordinator)
    → Agrees c
    → AllAgree (handle_push libs float_of now payload c)
unfolding handle_push handle_call_cancel abort_tracked
handle_push-AllAgree libs float_of now payload c h =
    let freed = abort_of-Freed libs c.call_manager c refl h in
    if-cases AllAgree (is_cancel payload)
      (λ cancel.
        if-cases AllAgree (cancels_other (field payload (codes "call_id")) c.ringing) (λ other. h)
          (λ this.
            Freed-AllAgree _
              (kept-Freed _ drop_pending drop_pending-manager drop_pending-Tracks freed)))
      (λ going.
        if-cases AllAgree (is_unregister payload) (λ out. like c _ refl refl refl h)
          (λ in_use.
            if-cases AllAgree (not (is_call payload)) (λ other. h)
              (λ call.
                if-cases AllAgree (not (truthy (ring_id payload))) (λ anonymous. h)
                  (λ named. Freed-AllAgree _ (
                    kept-Freed _ (ring_begins float_of payload (ring_id payload) now)
                      (ring_begins-manager float_of payload (ring_id payload) now)
                      (ring_begins-Tracks float_of payload (ring_id payload) now) freed)))))
