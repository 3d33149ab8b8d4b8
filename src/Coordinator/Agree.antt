-- ===== src/Coordinator/Agree.antt =====
-- coordinator.py: the coordinator and the manager agree on the call that they have.
use ha_intratone.Base.{
  true, false, Option, none, some, List, [], ◌∷◌, ◌≡◌, refl, sym, ap, ◌∙◌, subst, if-cases, not,
}
use ha_intratone.Base.Text.{Text, text_eq_refl}
use ha_intratone.Calls.Manager.{
  Manager, Effect, bridge_prewarm, bridge_cancel_prewarm, bridge_stop, bridge_start, call_active,
  call_ended, is_active,
}
use ha_intratone.Calls.Reports.{OnlyActive}
use ha_intratone.Coordinator.State.{
  Ringing, PendingInvite, Coordinator, async_set_updated_data, set_ready, drop_pending, same_url,
  publish, set_stream_url_of, set_stream_url, deliver,
}
use ha_intratone.Coordinator.Taps.{url_of}

abbrev pub active_of : Option Manager → Option Text
active_of none = none
active_of (some m) = m.active_call_id

-- The tracked call is `a`. There is a call or an invite only after a ring; an invite that was not
-- used yet leaves no call active, and a stream URL is shown only while a call is.
pub record Tracks (a : Option Text) (c : Coordinator) : Type 0 where
  pub tracked : c.active_sip_call_id ≡ a
  pub silent : c.ringing ≡ none → (a ≡ none) × (c.pending ≡ none)
  pub unused : (p : PendingInvite) → c.pending ≡ some p → p.started ≡ false → a ≡ none
  pub shown : a ≡ none → url_of c.ringing ≡ none

-- The coordinator tracks the call that its manager has.
abbrev pub Agrees : Coordinator → Type 0
Agrees c = Tracks (active_of c.call_manager) c

-- What is left of `Tracks` when nothing that it reads changes.
pub like :
    {a : Option Text} (c c' : Coordinator)
    → c'.active_sip_call_id ≡ c.active_sip_call_id
    → c'.ringing ≡ c.ringing
    → c'.pending ≡ c.pending
    → Tracks a c
    → Tracks a c'
like c c' e f g h = record {
  tracked = e ∙ h.tracked;
  silent = λ k. let (i, j) = h.silent (sym f ∙ k) in (i, g ∙ j);
  unused = λ p k. h.unused p (sym g ∙ k);
  shown = λ k. ap url_of f ∙ h.shown k;
}

unset :
    (o : Option PendingInvite) (p : PendingInvite)
    → set_ready o ≡ some p
    → (q : PendingInvite) × (o ≡ some q) × (q.started ≡ p.started)
unset none p e = cc
unset (some q) p e = (q, refl, cc)

-- The answer of the active call.
publish-Tracks :
    (id url : Text) (d : Ringing) (c : Coordinator)
    → c.ringing ≡ some d
    → Tracks (some id) c
    → Tracks (some id) (publish (some url) d (record c { pending = set_ready c.pending }))
unfolding publish async_set_updated_data
publish-Tracks id url d c e h =
    if-cases (Tracks (some id)) (same_url d.stream_url (some url))
      (λ old. record {
        tracked = h.tracked;
        silent = λ k. cc;
        unused = λ p k s. let (q, f, t) = unset c.pending p k in h.unused q f (t ∙ s);
        shown = λ k. cc;
      })
      (λ new. record {
        tracked = h.tracked;
        silent = λ k. cc;
        unused = λ p k s. let (q, f, t) = unset c.pending p k in h.unused q f (t ∙ s);
        shown = λ k. cc;
      })

answer-Tracks :
    (id url : Text) (o : Option Ringing) (c : Coordinator)
    → c.ringing ≡ o
    → Tracks (some id) c
    → Tracks (some id) (set_stream_url_of o id (some url) c)
unfolding set_stream_url_of
answer-Tracks id url none c e h = h
answer-Tracks id url (some d) c e h =
    if-cases (Tracks (some id)) (not (is_active id c.active_sip_call_id)) (λ other. h)
      (λ ours. publish-Tracks id url d c e h)

-- The reports of a step that keeps the active call.
pub deliver-Tracks :
    (a : Option Text) (es : List Effect) (c : Coordinator)
    → OnlyActive a es
    → Tracks a c
    → Tracks a (deliver es c)
unfolding deliver set_stream_url
deliver-Tracks a [] c o h = h
deliver-Tracks a (call_active id url ∷ es) c (e, o) h = deliver-Tracks a es _ o (
    subst (λ b. Tracks b (set_stream_url id (some url) c)) (sym e)
      (answer-Tracks id url c.ringing c refl (subst (λ b. Tracks b c) e h)))
deliver-Tracks a (call_ended id ∷ es) c o h = absurd o
deliver-Tracks a (bridge_prewarm ∷ es) c o h = deliver-Tracks a es c o h
deliver-Tracks a (bridge_cancel_prewarm ∷ es) c o h = deliver-Tracks a es c o h
deliver-Tracks a (bridge_stop ∷ es) c o h = deliver-Tracks a es c o h
deliver-Tracks a (bridge_start info socks ∷ es) c o h = deliver-Tracks a es c o h

is_active_self : (id : Text) (o : Option Text) → o ≡ some id → is_active id o ≡ true
is_active_self id none e = cc
is_active_self id (some a) e = subst (λ b. is_active id b ≡ true) (sym e) (text_eq_refl id)

no_url : (u : Option Text) → same_url u none ≡ true → u ≡ none
unfolding same_url
no_url none e = refl
no_url (some u) e = cc

-- The end of the active call.
pub ended-Tracks :
    (id : Text) (o : Option Ringing) (c : Coordinator)
    → c.ringing ≡ o
    → Tracks (some id) c
    → Tracks none (set_stream_url_of o id none c)
unfolding set_stream_url_of publish drop_pending async_set_updated_data
ended-Tracks id none c e h = cc (h.silent e).0
ended-Tracks id (some d) c e h =
    if-cases (Tracks none) (not (is_active id c.active_sip_call_id))
      (λ other. cc (other, is_active_self id c.active_sip_call_id h.tracked))
      (λ ours.
        if-cases (Tracks none) (same_url d.stream_url none)
          (λ old. record {
            tracked = refl;
            silent = λ k. (refl, refl);
            unused = λ p k s. refl;
            shown = λ k. ap url_of e ∙ no_url d.stream_url old;
          })
          (λ new. record {
            tracked = refl;
            silent = λ k. (refl, refl);
            unused = λ p k s. refl;
            shown = λ k. refl;
          }))
