-- ===== src/Calls/Steps.antt =====
-- call_manager.py: every step keeps the active call or ends it with its report.
use ha_intratone.Base.{
  ℕ, Bool, true, false, Option, none, some, List, [], ◌∷◌, ◌++◌, ◌≡◌, inl, refl, ◌∙◌, if-cases,
  ◌>>=◌, not, ◌||◌,
}
use ha_intratone.Base.Text.{Text}
use ha_intratone.Sip.Types.{CallEstablished, Libs}
use ha_intratone.Sip.Client.{hang_up}
use ha_intratone.Calls.Manager.{
  Manager, bridge_start, call_active, is_active, those, async_start, manager_open_door,
  manager_mute_off, manager_backlight, handle_video_failure, or_unchanged, Spawn, scheduled,
  starting,
}
use ha_intratone.Calls.Bridge.{
  taken, start_with, spawn_with, spawn_of, spawn_bridge, Started, up, stopped, failed, started_of,
  bridge_started,
}
use ha_intratone.Calls.Shutdown.{
  Op, start, stop, mute_off, backlight, video_failure, hang, abort, grace_over, spawned, in_client,
  open_door, too_long, bridge, after_grace, step,
}
use ha_intratone.Calls.Reports.{
  Same, same, Same-trans, AllSame, on_client-AllSame, for_active-AllSame, Moves, AllMove,
  AllSame-AllMove,
}
use ha_intratone.Calls.Ends.{
  abort-AllMove, after-AllSame, auto_terminate-AllSame, bridge_stopped-Same, hang_up-AllSame,
  is_active_lem, teardown-Moves,
}

taken-Same : (m : Manager) → Same m (taken m)
unfolding taken
taken-Same m = same m (taken m) refl refl

joined-AllSame : (m m₁ : Manager) (o : Option Manager) → Same m m₁ → AllSame m₁ o → AllSame m o
joined-AllSame m m₁ none s h = tt
joined-AllSame m m₁ (some m') s h = Same-trans s h

spawn_with-AllSame :
    (libs : Libs) (info : CallEstablished) (o : Option ℕ) (unused : Bool) (video : List ℕ)
    (m : Manager)
    → AllSame m (spawn_with libs info o unused video m)
unfolding spawn_with start_with
spawn_with-AllSame libs info none unused video m =
    let m₁ = record m { spawn_bridge_task = none; closed_sockets = m.closed_sockets ++ video } in
    after-AllSame m m₁ _ refl refl (on_client-AllSame (hang_up libs info.call_id) m₁)
spawn_with-AllSame libs info (some rtp) unused video m =
    if-cases (AllSame m) unused
      (λ closing. record {
        reports = bridge_start info (rtp ∷ []) ∷ [];
        added = refl;
        active = refl;
        only = tt;
      })
      (λ all. record {
        reports = bridge_start info (rtp ∷ video) ∷ [];
        added = refl;
        active = refl;
        only = tt;
      })

spawn-AllSame : (libs : Libs) (o : Option Spawn) (m : Manager) → AllSame m (spawn_of libs o m)
unfolding spawn_of
spawn-AllSame libs none m = same m m refl refl
spawn-AllSame libs (some (starting info)) m = same m m refl refl
spawn-AllSame libs (some (scheduled info)) m = joined-AllSame m (taken m) _ (taken-Same m) (
    spawn_with-AllSame libs info m.pending_rtp_socket _
      (those m.pending_video_rtp_socket ++ those m.pending_video_rtcp_socket) (taken m))

answer-Same :
    (id url : Text) (m m' : Manager)
    → m.active_call_id ≡ some id
    → Same m m'
    → Same m (record m' { effects = m'.effects ++ call_active id url ∷ [] })
answer-Same id url m m' e s = Same-trans s (record {
  reports = call_active id url ∷ [];
  added = refl;
  active = refl;
  only = (s.active ∙ e, tt);
})

answer-AllSame :
    (id url : Text) (m : Manager) (o : Option Manager)
    → m.active_call_id ≡ some id
    → AllSame m o
    → AllSame m (o >>= λ m'. some (record m' { effects = m'.effects ++ call_active id url ∷ [] }))
answer-AllSame id url m none e h = tt
answer-AllSame id url m (some m') e h = answer-Same id url m m' e h

both_hold : (a b : Bool) → (not a || not b) ≡ false → b ≡ true
both_hold true true e = refl
both_hold true false e = cc
both_hold false b e = cc

started-AllSame :
    (libs : Libs) (s : Started) (o : Option Spawn) (m : Manager) → AllSame m (started_of libs s o m)
unfolding started_of manager_mute_off
started-AllSame libs s none m = same m m refl refl
started-AllSame libs s (some (scheduled info)) m = same m m refl refl
started-AllSame libs stopped (some (starting info)) m = same m _ refl refl
started-AllSame libs failed (some (starting info)) m =
    let m₁ = record m { spawn_bridge_task = none } in
    after-AllSame m m₁ _ refl refl (on_client-AllSame (hang_up libs info.call_id) m₁)
started-AllSame libs (up url) (some (starting info)) m =
    let m₁ = record m { spawn_bridge_task = none } in
    if-cases (AllSame m) (not m.started || not (is_active info.call_id m.active_call_id))
      (λ late. Same-trans (same m m₁ refl refl) (bridge_stopped-Same m₁))
      (λ live.
        answer-AllSame info.call_id url m _
          (is_active_lem info.call_id m.active_call_id (both_hold m.started _ live))
          (after-AllSame m m₁ _ refl refl (for_active-AllSame _ m₁)))

or_unchanged-Same : (m : Manager) (o : Option Manager) → AllSame m o → Same m (or_unchanged m o)
unfolding or_unchanged
or_unchanged-Same m none h = same m m refl refl
or_unchanged-Same m (some m') h = h

after_grace-Moves : (o : Option Text) (m : Manager) → Moves m (after_grace o m)
unfolding after_grace
after_grace-Moves none m = inl (same m m refl refl)
after_grace-Moves (some id) m = teardown-Moves id m

-- The steps after which a manager is still in use.
abbrev pub Goes : Op → Type 0
Goes stop = ⊥
Goes _ = Unit {0}

pub step-AllMove : (libs : Libs) (op : Op) (m : Manager) → Goes op → AllMove m (step libs op m)
unfolding step async_start manager_open_door manager_mute_off manager_backlight handle_video_failure
    spawn_bridge bridge_started
step-AllMove libs start m g = inl (same m _ refl refl)
step-AllMove libs stop m g = absurd g
step-AllMove libs mute_off m g = AllSame-AllMove m _ (for_active-AllSame _ m)
step-AllMove libs backlight m g = AllSame-AllMove m _ (for_active-AllSame _ m)
step-AllMove libs video_failure m g = inl (or_unchanged-Same m _ (for_active-AllSame _ m))
step-AllMove libs hang m g = AllSame-AllMove m _ (hang_up-AllSame libs m)
step-AllMove libs abort m g = abort-AllMove libs m
step-AllMove libs grace_over m g = after_grace-Moves m.grace_task m
step-AllMove libs spawned m g = AllSame-AllMove m _ (spawn-AllSame libs m.spawn_bridge_task m)
step-AllMove libs (in_client f) m g = AllSame-AllMove m _ (on_client-AllSame f m)
step-AllMove libs (open_door code) m g = AllSame-AllMove m _ (for_active-AllSame _ m)
step-AllMove libs (too_long id) m g = AllSame-AllMove m _ (auto_terminate-AllSame libs id m)
step-AllMove libs (bridge s) m g =
    AllSame-AllMove m _ (started-AllSame libs s m.spawn_bridge_task m)
