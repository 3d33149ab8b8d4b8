-- ===== src/Coordinator/Updates.antt =====
-- coordinator.py with event.py: the updates of one ring trigger nothing.
use ha_intratone.Base.{
  ℕ, ◌+◌, ◌==◌, true, Option, none, some, List, [], ◌∷◌, ◌++◌, ◌≡◌, refl, sym, ap, ◌∙◌, subst,
  length, drop, if-cases, is_some, not, ◌>>=◌, ==_iff, arith,
}
use ha_intratone.Base.Text.{Text}
use ha_intratone.Sip.Types.{Libs}
use ha_intratone.Calls.Manager.{
  Manager, is_active, Effect, bridge_prewarm, bridge_cancel_prewarm, bridge_stop, bridge_start,
  call_active, call_ended,
}
use ha_intratone.Coordinator.State.{
  Ringing, Coordinator, async_set_updated_data, drop_pending, same_url, publish, set_stream_url_of,
  set_stream_url, deliver, manager_changed,
}
use ha_intratone.Coordinator.Push.{abort_of}
use ha_intratone.Coordinator.Doorbell.{
  RingEvent, Doorbell, new_doorbell, event_of, handle_update, told, told-append,
}

-- What the entity knows after the updates.
abbrev pub heard : List Ringing → Doorbell
heard ds = told ds new_doorbell

-- The entity triggered one event for each ring, the last of them for the ring at hand.
pub record Rung (seq : ℕ) (ringing : Option Ringing) (updates : List Ringing) : Type 0 where
  pub sequenced : (heard updates).last_seq ≡ seq
  pub counted : length (heard updates).triggered ≡ seq
  pub numbered : (d : Ringing) → ringing ≡ some d → d.ring_seq ≡ seq
  pub latest :
      (d : Ringing)
      → ringing ≡ some d
      → (earlier : List RingEvent) × ((heard updates).triggered ≡ earlier ++ event_of d ∷ [])

abbrev pub RungAt : Coordinator → Type 0
RungAt c = Rung c.ring_seq c.ringing c.updates

-- An update of the ring that is known triggers nothing.
handle_known : (d : Ringing) (b : Doorbell) → b.last_seq ≡ d.ring_seq → handle_update d b ≡ b
unfolding handle_update
handle_known d b e =
    if-cases (λ x. x ≡ b) (not (d.ring_seq == b.last_seq))
      (λ new. cc (new, (==_iff d.ring_seq b.last_seq).1 (sym e))) (λ old. refl)

successor : (a b : ℕ) → a ≡ b + 1 → not (a == b) ≡ true
successor a b e = ground arith

-- A new ring triggers its event.
pub handle_new :
    (d : Ringing) (b : Doorbell)
    → d.ring_seq ≡ b.last_seq + 1
    → handle_update d b
      ≡ record { last_seq = d.ring_seq; triggered = b.triggered ++ event_of d ∷ [] }
unfolding handle_update
handle_new d b e =
    if-cases (λ x. x ≡ record { last_seq = d.ring_seq; triggered = b.triggered ++ event_of d ∷ [] })
      (not (d.ring_seq == b.last_seq)) (λ new. refl)
      (λ old. cc (old, successor d.ring_seq b.last_seq e))

pub some_inj : (d q : Ringing) → some d ≡ some q → d ≡ q
some_inj d q e = cc

-- One more update of the ring at hand.
known :
    (d d' : Ringing) (ds : List Ringing) (n : ℕ)
    → d'.ring_seq ≡ d.ring_seq
    → event_of d' ≡ event_of d
    → Rung n (some d) ds
    → Rung n (some d') (ds ++ d' ∷ [])
unfolding told
known d d' ds n e f h =
    let same : heard (ds ++ d' ∷ []) ≡ heard ds =
      told-append ds (d' ∷ []) new_doorbell
      ∙ handle_known d' (heard ds) (h.sequenced ∙ sym (h.numbered d refl) ∙ sym e) in
    record {
      sequenced = ap (λ b. b.last_seq) same ∙ h.sequenced;
      counted = ap (λ b. length b.triggered) same ∙ h.counted;
      numbered = λ q k. ap (λ r. r.ring_seq) (sym (some_inj d' q k)) ∙ e ∙ h.numbered d refl;
      latest = λ q k.
          let (x, w) = h.latest d refl in
          (
            x,
            ap (λ b. b.triggered) same
                ∙ w
                ∙ ap (λ v. x ++ v ∷ []) (sym f ∙ ap event_of (some_inj d' q k)),
          );
    }

publish-Rung :
    (u : Option Text) (d : Ringing) (c : Coordinator)
    → c.ringing ≡ some d
    → RungAt c
    → RungAt (publish u d c)
unfolding publish async_set_updated_data event_of
publish-Rung u d c e h =
    if-cases RungAt (same_url d.stream_url u) (λ old. h)
      (λ new.
        known d (record d { stream_url = u }) c.updates c.ring_seq refl refl
          (subst (λ o. Rung c.ring_seq o c.updates) e h))

set_stream_url-Rung :
    (o : Option Ringing) (id : Text) (url : Option Text) (c : Coordinator)
    → c.ringing ≡ o
    → RungAt c
    → RungAt (set_stream_url_of o id url c)
unfolding set_stream_url_of drop_pending
set_stream_url-Rung none id url c e h = h
set_stream_url-Rung (some d) id none c e h =
    if-cases RungAt (not (is_active id c.active_sip_call_id)) (λ other. h)
      (λ ours. publish-Rung none d _ e h)
set_stream_url-Rung (some d) id (some url) c e h =
    if-cases RungAt (not (is_active id c.active_sip_call_id)) (λ other. h)
      (λ ours. publish-Rung (some url) d _ e h)

deliver-Rung : (es : List Effect) (c : Coordinator) → RungAt c → RungAt (deliver es c)
unfolding deliver set_stream_url
deliver-Rung [] c h = h
deliver-Rung (call_active id url ∷ es) c h =
    deliver-Rung es _ (set_stream_url-Rung c.ringing id (some url) c refl h)
deliver-Rung (call_ended id ∷ es) c h =
    deliver-Rung es _ (set_stream_url-Rung c.ringing id none c refl h)
deliver-Rung (bridge_prewarm ∷ es) c h = deliver-Rung es c h
deliver-Rung (bridge_cancel_prewarm ∷ es) c h = deliver-Rung es c h
deliver-Rung (bridge_stop ∷ es) c h = deliver-Rung es c h
deliver-Rung (bridge_start info socks ∷ es) c h = deliver-Rung es c h

pub manager_changed-Rung :
    (m m' : Manager) (c : Coordinator) → RungAt c → RungAt (manager_changed m m' c)
unfolding manager_changed
manager_changed-Rung m m' c h =
    deliver-Rung (drop (length m.effects) m'.effects) (record c { call_manager = some m' }) h

abbrev pub AllRung : Option Coordinator → Type 0
AllRung none = Unit {0}
AllRung (some c) = RungAt c

pub then-AllRung :
    (o : Option Manager) (g : Manager → Coordinator)
    → ((a : Manager) → RungAt (g a))
    → AllRung (o >>= λ a. some (g a))
then-AllRung none g k = tt
then-AllRung (some a) g k = k a

pub kept-AllRung :
    (o : Option Coordinator) (g : Coordinator → Coordinator)
    → ((c : Coordinator) → RungAt c → RungAt (g c))
    → AllRung o
    → AllRung (o >>= λ c. some (g c))
kept-AllRung none g k h = tt
kept-AllRung (some c) g k h = k c h

pub abort_of-AllRung :
    (libs : Libs) (o : Option Manager) (c : Coordinator) → RungAt c → AllRung (abort_of libs o c)
unfolding abort_of
abort_of-AllRung libs none c h = h
abort_of-AllRung libs (some m) c h =
    if-cases AllRung (is_some m.active_call_id)
      (λ busy. then-AllRung _ (λ m'. manager_changed m m' c) (λ m'. manager_changed-Rung m m' c h))
      (λ idle. h)

pub drop_pending-Rung : (c : Coordinator) → RungAt c → RungAt (drop_pending c)
unfolding drop_pending
drop_pending-Rung c h = h
