-- ===== src/Coordinator/Changes.antt =====
-- coordinator.py: the callbacks of one step of the manager.
use ha_intratone.Base.{
  Option, none, some, List, [], ◌∷◌, ◌++◌, ◌≡◌, inl, inr, refl, sym, ap, ◌∙◌, subst, drop, length,
  if-cases, not, drop-append_all,
}
use ha_intratone.Base.Text.{Text}
use ha_intratone.Calls.Manager.{
  Manager, Effect, bridge_prewarm, bridge_cancel_prewarm, bridge_stop, bridge_start, call_active,
  call_ended, is_active,
}
use ha_intratone.Calls.Reports.{OnlyActive, Moves}
use ha_intratone.Coordinator.State.{
  Ringing, Coordinator, async_set_updated_data, drop_pending, same_url, publish, set_stream_url_of,
  set_stream_url, deliver, manager_changed,
}
use ha_intratone.Coordinator.Agree.{Tracks, like, ended-Tracks, deliver-Tracks}

deliver-append :
    (es fs : List Effect) (c : Coordinator) → deliver (es ++ fs) c ≡ deliver fs (deliver es c)
unfolding deliver
deliver-append [] fs c = refl
deliver-append (call_active id url ∷ es) fs c = deliver-append es fs _
deliver-append (call_ended id ∷ es) fs c = deliver-append es fs _
deliver-append (bridge_prewarm ∷ es) fs c = deliver-append es fs c
deliver-append (bridge_cancel_prewarm ∷ es) fs c = deliver-append es fs c
deliver-append (bridge_stop ∷ es) fs c = deliver-append es fs c
deliver-append (bridge_start info socks ∷ es) fs c = deliver-append es fs c

set_stream_url-manager :
    (o : Option Ringing) (id : Text) (url : Option Text) (c : Coordinator)
    → (set_stream_url_of o id url c).call_manager ≡ c.call_manager
unfolding set_stream_url_of publish drop_pending async_set_updated_data
set_stream_url-manager none id url c = refl
set_stream_url-manager (some d) id none c =
    let P : Coordinator → Type 0 = λ c'. c'.call_manager ≡ c.call_manager in
    if-cases P (not (is_active id c.active_sip_call_id)) (λ a. refl)
      (λ b. if-cases P (same_url d.stream_url none) (λ a. refl) (λ b. refl))
set_stream_url-manager (some d) id (some url) c =
    let P : Coordinator → Type 0 = λ c'. c'.call_manager ≡ c.call_manager in
    if-cases P (not (is_active id c.active_sip_call_id)) (λ a. refl)
      (λ b. if-cases P (same_url d.stream_url (some url)) (λ a. refl) (λ b. refl))

deliver-manager :
    (es : List Effect) (c : Coordinator) → (deliver es c).call_manager ≡ c.call_manager
unfolding deliver set_stream_url
deliver-manager [] c = refl
deliver-manager (call_active id url ∷ es) c =
    deliver-manager es _ ∙ set_stream_url-manager c.ringing id (some url) c
deliver-manager (call_ended id ∷ es) c =
    deliver-manager es _ ∙ set_stream_url-manager c.ringing id none c
deliver-manager (bridge_prewarm ∷ es) c = deliver-manager es c
deliver-manager (bridge_cancel_prewarm ∷ es) c = deliver-manager es c
deliver-manager (bridge_stop ∷ es) c = deliver-manager es c
deliver-manager (bridge_start info socks ∷ es) c = deliver-manager es c

pub manager_changed-manager :
    (m m' : Manager) (c : Coordinator) → (manager_changed m m' c).call_manager ≡ some m'
unfolding manager_changed
manager_changed-manager m m' c =
    deliver-manager (drop (length m.effects) m'.effects) (record c { call_manager = some m' })

-- The reports of a step, when they are known.
changed :
    (m m' : Manager) (es : List Effect) (c : Coordinator)
    → m'.effects ≡ m.effects ++ es
    → manager_changed m m' c ≡ deliver es (record c { call_manager = some m' })
unfolding manager_changed
changed m m' es c e =
    ap (λ fs. deliver fs (record c { call_manager = some m' }))
      (ap (drop (length m.effects)) e ∙ drop-append_all m.effects es)

deliver_end :
    (id : Text) (es : List Effect) (c : Coordinator)
    → OnlyActive (some id) es
    → Tracks (some id) c
    → Tracks none (deliver (es ++ call_ended id ∷ []) c)
unfolding deliver set_stream_url
deliver_end id es c o h =
    subst (Tracks none) (sym (deliver-append es (call_ended id ∷ []) c)) (
      ended-Tracks id (deliver es c).ringing (deliver es c) refl
        (deliver-Tracks (some id) es c o h))

-- Reports that leave the tracked call.
pub quiet-Tracks :
    (a : Option Text) (m m' : Manager) (es : List Effect) (c : Coordinator)
    → m'.effects ≡ m.effects ++ es
    → OnlyActive a es
    → Tracks a c
    → Tracks a (manager_changed m m' c)
quiet-Tracks a m m' es c e o h =
    subst (Tracks a) (sym (changed m m' es c e))
      (deliver-Tracks a es (record c { call_manager = some m' }) o (like c _ refl refl refl h))

-- A step of the manager with its reports keeps the agreement.
pub manager_changed-Agrees :
    (m m' : Manager) (c : Coordinator)
    → Moves m m'
    → Tracks m.active_call_id c
    → Tracks m'.active_call_id (manager_changed m m' c)
manager_changed-Agrees m m' c (inl s) h =
    subst (λ a. Tracks a (manager_changed m m' c)) (sym s.active)
      (quiet-Tracks m.active_call_id m m' s.reports c s.added s.only h)
manager_changed-Agrees m m' c (inr (id, t)) h =
    subst (λ a. Tracks a (manager_changed m m' c)) (sym t.over)
      (subst (Tracks none) (sym (changed m m' (t.reports ++ call_ended id ∷ []) c t.added)) (
        deliver_end id t.reports (record c { call_manager = some m' }) t.only
          (like c _ refl refl refl (subst (λ a. Tracks a c) t.was h))))

deliver_quiet : (es : List Effect) (c : Coordinator) → OnlyActive none es → deliver es c ≡ c
unfolding deliver
deliver_quiet [] c h = refl
deliver_quiet (call_active id url ∷ es) c (e, h) = cc
deliver_quiet (call_ended id ∷ es) c h = absurd h
deliver_quiet (bridge_prewarm ∷ es) c h = deliver_quiet es c h
deliver_quiet (bridge_cancel_prewarm ∷ es) c h = deliver_quiet es c h
deliver_quiet (bridge_stop ∷ es) c h = deliver_quiet es c h
deliver_quiet (bridge_start info socks ∷ es) c h = deliver_quiet es c h

-- A step that reports nothing of a call changes the manager alone.
pub manager_changed_quiet :
    (m m' : Manager) (es : List Effect) (c : Coordinator)
    → m'.effects ≡ m.effects ++ es
    → OnlyActive none es
    → manager_changed m m' c ≡ record c { call_manager = some m' }
manager_changed_quiet m m' es c e o =
    changed m m' es c e ∙ deliver_quiet es (record c { call_manager = some m' }) o
