-- ===== src/Coordinator/Answer.antt =====
-- coordinator.py: the call that a tap places (`async_ensure_call_started`).
use ha_intratone.Base.{
  if-cases, not, is_some, ◌≢◌, ℕ, Bool, true, false, Option, none, some, [], ◌∷◌, ◌++◌, ◌≡◌, refl,
  sym, ap, ◌∙◌, subst,
}
use ha_intratone.Base.Text.{Text}
use ha_intratone.Sip.Types.{Libs, Client}
use ha_intratone.Sip.Client.{call, connection_made, init}
use ha_intratone.Sip.Client.Wire.{send, put_call, written}
use ha_intratone.Sip.Client.Api.{Dial, place}
use ha_intratone.Calls.Manager.{Manager}
use ha_intratone.Calls.Start.{
  placed, dial_of, Waiting, Begun, connecting, start_call_begins, start_call_resumes, bind_audio,
  bind_video, dialled,
}
use ha_intratone.Calls.Moves.{
  Called, Tries, TriesBegun, start_call_begins-TriesBegun, start_call_resumes-Tries,
}
use ha_intratone.Calls.Reports.{OnlyActive, Same, same}
use ha_intratone.Coordinator.World.{current_lem}
use ha_intratone.Coordinator.State.{PendingInvite, Coordinator, manager_changed}
use ha_intratone.Coordinator.Taps.{
  Network, ring_of, answer_once, call_tried, Placing, Tapped, placing, ensure_with,
  ensure_begins_of, ensure_begins, tried_on, ensure_resumes_of, ensure_resumes, ensure_resumed,
  ensure_call_started,
}
use ha_intratone.Coordinator.Agree.{active_of}
use ha_intratone.Coordinator.Changes.{manager_changed_quiet}

-- A call on a connection just made is placed.
call_new :
    (libs : Libs) (d : Dial) (port : Option ℕ) (host : Text)
    → (id : Text) × (c : Client) × (call libs d (connection_made port (init host)) ≡ some (id, c))
unfolding call connection_made init place put_call send written
call_new libs d port host = (_, _, refl)

-- What the network gives when nothing fails.
abbrev pub good : ℕ → ℕ → ℕ × ℕ → Option ℕ → Network
good now rtp pair port = record {
  monotonic_ns = now;
  rtp_socket = some rtp;
  rtp_pair = some pair;
  connection = some port;
}

resumes-Placed :
    (libs : Libs) (w : Waiting) (port : Option ℕ) (m : Manager)
    → (id : Text) × (m' : Manager) × (start_call_resumes libs w (some port) m ≡ (placed id, m'))
unfolding start_call_resumes dialled
resumes-Placed libs w port m =
    let (id, c, e) = call_new libs (dial_of w) port m.local_host in
    (id, _, ap (λ o. dialled w.video_rtp_port o m) e)

begins-Waits :
    (p : PendingInvite) (now rtp : ℕ) (pair : ℕ × ℕ) (port : Option ℕ) (m : Manager)
    → m.started ≡ true
    → m.active_call_id ≡ none
    → (w : Waiting) × (m' : Manager) × (start_call_begins (ring_of p (good now rtp pair port)) m
        ≡ (connecting w, m'))
unfolding start_call_begins bind_audio bind_video
begins-Waits p now rtp pair port m s e =
    let T : Begun × Manager → Type 0 =
      λ o. (w : Waiting) × (m' : Manager) × (o ≡ (connecting w, m')) in
    if-cases T (not m.started) (λ off. cc (off, s))
      (λ on.
        if-cases T (is_some m.active_call_id) (λ busy. cc (busy, e))
          (λ idle. if-cases T m.video_enabled (λ video. (_, _, refl)) (λ audio. (_, _, refl))))

-- The call of the invite was placed, and its ring answered.
abbrev pub Picked : PendingInvite → Coordinator → Bool × Coordinator → Type 0
Picked p c (ok, c') =
    (ok ≡ true)
    × (active_of c'.call_manager ≢ none)
    × (c'.active_sip_call_id ≡ active_of c'.call_manager)
    × (c'.pending ≡ some (record p { started = true; answer_called = true }))
    × (c'.answered ≡ c.answered ++ p.fcm_call_id ∷ [])

tried-Picked :
    (p : PendingInvite) (id : Text) (m m' : Manager) (c : Coordinator)
    → Called id m m'
    → p.answer_called ≡ false
    → Picked p c (call_tried p (placed id) (manager_changed m m' c))
unfolding call_tried answer_once
tried-Picked p id m m' c t a = rw (manager_changed_quiet m m' t.reports c t.added t.only) (
    if-cases (λ d. Picked p c (true, d)) p.answer_called (λ done. cc (done, a))
      (λ new. (refl, λ n. cc (n, t.active), sym t.active, refl, refl)))

-- The coordinator while the call of its invite waits for the connection.
abbrev parked : PendingInvite → Manager → Coordinator → Coordinator
parked p m c = record c { call_manager = some m; pending = some (record p { started = true }) }

abbrev kept : PendingInvite → Waiting → Coordinator → Placing
kept p w c = record { ring_seq = c.ring_seq; invite = record p { started = true }; start = w }

begins-parked :
    (n : Network) (p : PendingInvite) (m m₁ : Manager) (w : Waiting) (c : Coordinator)
    → start_call_begins (ring_of (record p { started = true }) n) m ≡ (connecting w, m₁)
    → p.started ≡ false
    → m.active_call_id ≡ none
    → ensure_begins_of n (some p) (some m) c ≡ (placing (kept p w c), parked p m₁ c)
unfolding ensure_begins_of ensure_with
begins-parked n p m m₁ w c k f i =
    let p₁ = record p { started = true } in
    let r = ring_of p₁ n in
    let s : Same m m₁ = subst (TriesBegun m) k (start_call_begins-TriesBegun r m) in
    if-cases {A = Tapped × Coordinator} (λ q. q ≡ (placing (kept p w c), parked p m₁ c)) p.started
      (λ done. cc (done, f))
      (λ new.
        ap (λ b. ensure_with p₁ m b c) k
        ∙ ap (λ d. (placing (kept p w c), record d { pending = some p₁ }))
            (manager_changed_quiet m m₁ s.reports c s.added
              (subst (λ a. OnlyActive a s.reports) i s.only)))

resumes-Picked :
    (libs : Libs) (port : Option ℕ) (p : PendingInvite) (m m' : Manager) (w : Waiting) (id : Text)
    (c : Coordinator)
    → start_call_resumes libs w (some port) m ≡ (placed id, m')
    → m.active_call_id ≡ none
    → p.answer_called ≡ false
    → Picked p c (ensure_resumes libs (kept p w c) (some port) (parked p m c))
unfolding ensure_resumes ensure_resumes_of tried_on
resumes-Picked libs port p m m' w id c k i a =
    let p₁ = record p { started = true } in
    let t : Called id m m' =
      subst (Tries m) k (start_call_resumes-Tries libs w (some port) m m (same m m refl refl) i) in
    subst
      (λ q. Picked p c (
        tried_on (kept p w c) q (start_call_resumes libs w (some port) m).0
          (manager_changed m (start_call_resumes libs w (some port) m).1 (parked p m c))))
      (sym (current_lem c.ring_seq c.ring_seq (some p₁) p₁ refl refl))
      (subst (λ r. Picked p c (call_tried p₁ r.0 (manager_changed m r.1 (parked p m c)))) (sym k)
        (tried-Picked p₁ id m m' (parked p m c) t a))

-- An invite that was not used yet, on a running manager without a call: with a network that gives the
-- sockets and the connection, while nothing else happens, the tap places the call. It answers true, the call placed is the
-- manager's active call and the one tracked, the invite counts as started and as answered, and the
-- server was told once, with the id of the ring, that the call was picked up.
pub ensure-placed :
    (libs : Libs) (now rtp : ℕ) (pair : ℕ × ℕ) (port : Option ℕ) (p : PendingInvite) (m : Manager)
    (c : Coordinator)
    → c.pending ≡ some p
    → p.started ≡ false
    → p.answer_called ≡ false
    → c.call_manager ≡ some m
    → m.started ≡ true
    → m.active_call_id ≡ none
    → Picked p c (ensure_call_started libs (good now rtp pair port) c)
unfolding ensure_call_started ensure_begins ensure_resumed
ensure-placed libs now rtp pair port p m c e f a g s i =
    let n = good now rtp pair port in
    let p₁ = record p { started = true } in
    let (w, m₁, k) = begins-Waits p₁ now rtp pair port m s i in
    let (id, m₂, k₂) = resumes-Placed libs w port m₁ in
    let q : Same m m₁ = subst (TriesBegun m) k (start_call_begins-TriesBegun (ring_of p₁ n) m) in
    let done = resumes-Picked libs port p m₁ m₂ w id c k₂ (q.active ∙ i) a in
    let P : Tapped × Coordinator → Type 0 = λ b. Picked p c (ensure_resumed libs (some port) b) in
    subst (λ o. P (ensure_begins_of n o c.call_manager c)) (sym e)
      (subst (λ o. P (ensure_begins_of n (some p) o c)) (sym g)
        (subst P (sym (begins-parked n p m m₁ w c k f i)) done))
