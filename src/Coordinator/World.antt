-- ===== src/Coordinator/World.antt =====
-- coordinator.py with call_manager.py: the starts of a call keep the agreement.
use ha_intratone.Base.{
  Option, none, some, ◌≡◌, ◌≢◌, ==_iff, true, ℕ, ap, refl, sym, ◌∙◌, subst, if-cases, is_some, not,
  ◌||◌,
}
use ha_intratone.Sip.Types.{Libs}
use ha_intratone.Calls.Manager.{Manager}
use ha_intratone.Calls.Start.{
  Outcome, placed, refused, raised, Begun, returned, connecting, start_call_begins,
  start_call_resumes,
}
use ha_intratone.Calls.Reports.{OnlyActive, same}
use ha_intratone.Calls.Moves.{
  Tries, TriesBegun, start_call_begins-TriesBegun, start_call_resumes-Tries,
}
use ha_intratone.Coordinator.State.{PendingInvite, Coordinator, manager_changed}
use ha_intratone.Coordinator.Taps.{
  Network, ring_of, answer_once, call_tried, Placing, Tapped, settled, placing, ensure_with,
  ensure_begins_of, ensure_begins, current, tried_on, ensure_resumes_of, ensure_resumes, tap_of,
  tap_begins,
}
use ha_intratone.Coordinator.Agree.{active_of, Tracks, Agrees}
use ha_intratone.Coordinator.Changes.{manager_changed_quiet}

-- The call that a tap tried.
tried-Agrees :
    (p : PendingInvite) (m : Manager) (r : Outcome × Manager) (c : Coordinator)
    → Tries m r
    → m.active_call_id ≡ none
    → Tracks none c
    → c.pending ≢ none
    → Agrees (call_tried p r.0 (manager_changed m r.1 c)).1
unfolding call_tried answer_once
tried-Agrees p m (placed id, m') c t e h k =
    rw (manager_changed_quiet m m' t.reports c t.added t.only) (
      if-cases Agrees p.answer_called
        (λ done. record {
          tracked = sym t.active;
          silent = λ r. absurd (k (h.silent r).1);
          unused = λ q f s. cc;
          shown = λ r. cc (t.active, r);
        })
        (λ new. record {
          tracked = sym t.active;
          silent = λ r. absurd (k (h.silent r).1);
          unused = λ q f s. cc;
          shown = λ r. cc (t.active, r);
        }))
tried-Agrees p m (refused, m') c t e h k =
    rw
      (manager_changed_quiet m m' t.reports c t.added
        (subst (λ a. OnlyActive a t.reports) e t.only))
      (record {
        tracked = sym (t.active ∙ e);
        silent = λ r. absurd (k (h.silent r).1);
        unused = λ q f s. t.active ∙ e;
        shown = λ r. h.shown refl;
      })
tried-Agrees p m (raised, m') c t e h k =
    rw
      (manager_changed_quiet m m' t.reports c t.added
        (subst (λ a. OnlyActive a t.reports) e t.only))
      (record {
        tracked = h.tracked ∙ sym (t.active ∙ e);
        silent = λ r. absurd (k (h.silent r).1);
        unused = λ q f s. t.active ∙ e;
        shown = λ r. h.shown refl;
      })

-- A start waits for its connection: no call is active, and its invite is the pending one, marked.
pub record Waits (w : Placing) (c : Coordinator) : Type 0 where
  pub idle : active_of c.call_manager ≡ none
  pub invite : PendingInvite
  pub parked : c.pending ≡ some invite
  pub marked : invite.started ≡ true
  pub same_ring : c.ring_seq ≡ w.ring_seq

abbrev pub Holds : Option Placing → Coordinator → Type 0
Holds none c = Agrees c
Holds (some w) c = Agrees c × Waits w c

-- What waits after the first step of a tap.
abbrev pub waits : Option Placing → Tapped → Option Placing
waits w (settled ok) = w
waits w (placing w') = some w'

begun-Holds :
    (p : PendingInvite) (m : Manager) (b : Begun × Manager) (c : Coordinator)
    → TriesBegun m b
    → p.started ≡ true
    → m.active_call_id ≡ none
    → Tracks none c
    → c.pending ≢ none
    → Holds (waits none (ensure_with p m b c).0) (ensure_with p m b c).1
unfolding ensure_with
begun-Holds p m (returned o, m') c t s e h k = tried-Agrees p m (o, m') c t e h k
begun-Holds p m (connecting w, m') c t s e h k =
    rw
      (manager_changed_quiet m m' t.reports c t.added
        (subst (λ a. OnlyActive a t.reports) e t.only))
      (
        record {
          tracked = h.tracked ∙ sym (t.active ∙ e);
          silent = λ r. absurd (k (h.silent r).1);
          unused = λ q f g. t.active ∙ e;
          shown = λ r. h.shown refl;
        },
        record { idle = t.active ∙ e; invite = p; parked = refl; marked = s; same_ring = refl },
      )

ensure_begins_of-Holds :
    (n : Network) (o : Option PendingInvite) (u : Option Manager) (c : Coordinator)
    → c.pending ≡ o
    → c.call_manager ≡ u
    → Agrees c
    → Holds (waits none (ensure_begins_of n o u c).0) (ensure_begins_of n o u c).1
unfolding ensure_begins_of
ensure_begins_of-Holds n none u c e f h = h
ensure_begins_of-Holds n (some p) none c e f h = h
ensure_begins_of-Holds n (some p) (some m) c e f h =
    let k : Tracks m.active_call_id c = subst (λ o. Tracks (active_of o) c) f h in
    if-cases {A = Tapped × Coordinator} (λ r. Holds (waits none r.0) r.1) p.started (λ done. h)
      (λ new.
        let idle = k.unused p e new in
        begun-Holds (record p { started = true }) m (start_call_begins (ring_of p n) m) c
          (start_call_begins-TriesBegun (ring_of p n) m) refl idle (subst (λ a. Tracks a c) idle k)
          (λ none_left. cc (none_left, e)))

-- While a start waits, another tap finds its invite marked.
again-Holds :
    (n : Network) (w : Placing) (o : Option PendingInvite) (u : Option Manager) (c : Coordinator)
    → c.pending ≡ o
    → Holds (some w) c
    → Holds (waits (some w) (ensure_begins_of n o u c).0) (ensure_begins_of n o u c).1
unfolding ensure_begins_of
again-Holds n w none u c e h = h
again-Holds n w (some p) none c e h = h
again-Holds n w (some p) (some m) c e (h, k) =
    if-cases {A = Tapped × Coordinator} (λ r. Holds (waits (some w) r.0) r.1) p.started
      (λ done. (h, k)) (λ new. cc (new, e, k.parked, k.marked))

pub ensure_begins-Holds :
    (n : Network) (w : Option Placing) (c : Coordinator)
    → Holds w c
    → Holds (waits w (ensure_begins n c).0) (ensure_begins n c).1
unfolding ensure_begins
ensure_begins-Holds n none c h = ensure_begins_of-Holds n c.pending c.call_manager c refl refl h
ensure_begins-Holds n (some w) c h = again-Holds n w c.pending c.call_manager c refl h

tap_of-Holds :
    (n : Network) (w : Option Placing) (o : Option PendingInvite) (c : Coordinator)
    → Holds w c
    → Holds (waits w (tap_of n o c).0) (tap_of n o c).1
unfolding tap_of
tap_of-Holds n w none c h = h
tap_of-Holds n w (some p) c h =
    if-cases {A = Tapped × Coordinator} (λ r. Holds (waits w r.0) r.1) p.started (λ done. h)
      (λ new. ensure_begins-Holds n w c h)

pub tap_begins-Holds :
    (n : Network) (w : Option Placing) (c : Coordinator)
    → Holds w c
    → Holds (waits w (tap_begins n c).0) (tap_begins n c).1
unfolding tap_begins
tap_begins-Holds n w c h =
    if-cases {A = Tapped × Coordinator} (λ r. Holds (waits w r.0) r.1)
      (not (is_some c.ringing) || not (is_some c.call_manager)) (λ out. h)
      (λ ready. tap_of-Holds n w c.pending c h)

pub current_lem :
    (seq now : ℕ) (o : Option PendingInvite) (p : PendingInvite)
    → o ≡ some p
    → now ≡ seq
    → current seq o now ≡ some p
unfolding current
current_lem seq now none p e f = cc
current_lem seq now (some q) p e f = rw ((==_iff now seq).1 f) e

resumes_of-Agrees :
    (libs : Libs) (w : Placing) (o : Option (Option ℕ)) (u : Option Manager) (c : Coordinator)
    → c.call_manager ≡ u
    → Holds (some w) c
    → Agrees (ensure_resumes_of libs w o u c).1
unfolding ensure_resumes_of tried_on
resumes_of-Agrees libs w o none c e (h, k) = h
resumes_of-Agrees libs w o (some m) c e (h, k) =
    let idle : m.active_call_id ≡ none = ap active_of (sym e) ∙ k.idle in
    let r = start_call_resumes libs w.start o m in
    subst (λ q. Agrees (tried_on w q r.0 (manager_changed m r.1 c)).1)
      (sym (current_lem w.ring_seq c.ring_seq c.pending k.invite k.parked k.same_ring))
      (tried-Agrees k.invite m r c
        (start_call_resumes-Tries libs w.start o m m (same m m refl refl) idle) idle
        (subst (λ a. Tracks a c) k.idle h) (λ n. cc (n, k.parked)))

pub ensure_resumes-Agrees :
    (libs : Libs) (w : Placing) (o : Option (Option ℕ)) (c : Coordinator)
    → Holds (some w) c
    → Agrees (ensure_resumes libs w o c).1
unfolding ensure_resumes
ensure_resumes-Agrees libs w o c h = resumes_of-Agrees libs w o c.call_manager c refl h
