-- ===== src/Sip/Protocol/Requests.antt =====
-- sip_client.py: what the in-dialog requests send, and when.
use ha_intratone.Base.{
  suc, ◌+◌, true, false, none, some, ◌++◌, ◌≡◌, ◌⊎◌, refl, inl, inr, Bool-cases, is_some, sym,
  subst, ap,
}
use ha_intratone.Base.Text.{Text, codes, text_eq, text_eq_refl, text_eq→≡}
use ha_intratone.Sip.Types.{
  CallState, inviting, authenticating, confirmed, terminated, PendingCall, Client, Libs,
}
use ha_intratone.Sip.Build.{build_message, build_reinvite}
use ha_intratone.Sip.Client.{put_call, send_open_door, send_reinvite_audio_only}
use ha_intratone.Sip.Client.Api.{
  is_confirmed, has_dialog, message_on, send_in_dialog_message, reinvite_on,
}
use ha_intratone.Sip.Protocol.Step.{Live, with_sent, send_lem}

-- The call with the number of its next request.
abbrev pub numbered : PendingCall → PendingCall
numbered k = record k { cseq = k.cseq + 1 }

-- The client that has sent `opendoor:<code>` with a fresh branch in its call.
unfoldable pub after_open_door : Libs → Text → PendingCall → Client → Client
after_open_door libs code k c =
    with_sent
      (build_message (numbered k) (codes "z9hG4bK-" ++ libs.token_hex c.drawn)
        (codes "opendoor:" ++ code))
      (record c { call = some (numbered k); drawn = suc c.drawn })

-- A call can open the door: it is the one that is meant, it is confirmed, and the server's tag of
-- its dialog is known.
abbrev pub CanOpen : Text → PendingCall → Type 0
CanOpen id k = (k.call_id ≡ id) × (k.state ≡ confirmed) × (has_dialog k.remote_to_header ≡ true)

confirmed_of : (s : CallState) → is_confirmed s ≡ true → s ≡ confirmed
confirmed_of inviting h = cc
confirmed_of authenticating h = cc
confirmed_of confirmed h = refl
confirmed_of terminated h = cc

same_text : {s t : Text} → s ≡ t → text_eq s t ≡ true
same_text {s} e = subst (λ t. text_eq s t ≡ true) e (text_eq_refl s)

module _ (libs : Libs) (id code : Text) (k : PendingCall) (c : Client) (l : Live k c) where
  opens :
      text_eq k.call_id id ≡ true
      → is_confirmed k.state ≡ true
      → has_dialog k.remote_to_header ≡ true
      → send_open_door libs id code c ≡ some (true, after_open_door libs code k c)
  unfolding send_open_door send_in_dialog_message after_open_door put_call
  opens a b d =
      subst
        (λ o.
          message_on libs o id (codes "opendoor:" ++ code) c
          ≡ some (true, after_open_door libs code k c))
        (sym l.placed)
        (simp (a, b, d)
          (rw (
            send_lem
              (build_message (numbered k) (codes "z9hG4bK-" ++ libs.token_hex c.drawn)
                (codes "opendoor:" ++ code))
              (record c { call = some (numbered k); drawn = suc c.drawn }) l.connected)))

  refuses : ¬ CanOpen id k → send_open_door libs id code c ≡ some (false, c)
  unfolding send_open_door send_in_dialog_message
  refuses closed =
      subst (λ o. message_on libs o id (codes "opendoor:" ++ code) c ≡ some (false, c))
        (sym l.placed)
        (elim (Bool-cases (text_eq k.call_id id)) [
          | inr foreign ↦ simp foreign
          | inl ours ↦ elim (Bool-cases (is_confirmed k.state)) [
            | inr early ↦ simp (ours, early)
            | inl up ↦ elim (Bool-cases (has_dialog k.remote_to_header)) [
              | inr lost ↦ simp (ours, up, lost)
              | inl known ↦
                  absurd (closed (text_eq→≡ k.call_id id ours, confirmed_of k.state up, known))
            ]
          ]
        ])

-- A live call opens the door if it is the call that is meant, is confirmed and knows the server's
-- tag: then one `opendoor` message is sent, numbered one above the last request, and only the
-- number and the token count change besides. Else nothing is sent and nothing changes.
pub send_open_door_lem :
    (libs : Libs) (id code : Text) (k : PendingCall) (c : Client)
    → Live k c
    → (CanOpen id k × (send_open_door libs id code c ≡ some (true, after_open_door libs code k c)))
      ⊎ ((¬ CanOpen id k) × (send_open_door libs id code c ≡ some (false, c)))
send_open_door_lem libs id code k c l = elim (Bool-cases (text_eq k.call_id id)) [
  | inr foreign ↦
      let closed : ¬ CanOpen id k = λ can. cc (foreign, same_text can.0) in
      inr (closed, refuses libs id code k c l closed)
  | inl ours ↦ elim (Bool-cases (is_confirmed k.state)) [
    | inr early ↦
        let closed : ¬ CanOpen id k = λ can. cc (early, ap is_confirmed can.1) in
        inr (closed, refuses libs id code k c l closed)
    | inl up ↦ elim (Bool-cases (has_dialog k.remote_to_header)) [
      | inr lost ↦
          let closed : ¬ CanOpen id k = λ can. cc (lost, can.2) in
          inr (closed, refuses libs id code k c l closed)
      | inl known ↦ inl (
        (text_eq→≡ k.call_id id ours, confirmed_of k.state up, known),
        opens libs id code k c l ours up known,
      )
    ]
  ]
]

module _ (libs : Libs) (id : Text) (k : PendingCall) (c : Client) (l : Live k c) where
  -- The call and the client after the offer without video.
  abbrev pub dropped : PendingCall
  dropped = record k {
    local_video_rtp_port = none;
    reinvite_in_progress = true;
    cseq = k.cseq + 1;
    via_branch = codes "z9hG4bK-" ++ libs.token_hex c.drawn;
  }

  abbrev pub after_drop : Client
  after_drop =
      with_sent (build_reinvite libs dropped)
        (record c { call = some dropped; drawn = suc c.drawn })

  -- The call is the one that is meant, it is confirmed and has video, and no offer is under way.
  abbrev pub CanDrop : Type 0
  CanDrop =
      (k.call_id ≡ id)
      × (k.state ≡ confirmed)
      × (is_some k.local_video_rtp_port ≡ true)
      × (k.reinvite_in_progress ≡ false)

  abbrev pub Refuses : Type 0
  Refuses = send_reinvite_audio_only libs id c ≡ some (false, c)

  abbrev pub Drops : Type 0
  Drops =
      (send_reinvite_audio_only libs id c ≡ some (true, after_drop))
      × (send_reinvite_audio_only libs id after_drop ≡ some (false, after_drop))

  drops_once :
      text_eq k.call_id id ≡ true
      → is_confirmed k.state ≡ true
      → is_some k.local_video_rtp_port ≡ true
      → k.reinvite_in_progress ≡ false
      → Drops
  unfolding send_reinvite_audio_only put_call
  drops_once ours up video free = (
    subst (λ o. reinvite_on libs o id c ≡ some (true, after_drop)) (sym l.placed)
        (simp (ours, up, video, free)
          (rw (
            send_lem (build_reinvite libs dropped)
              (record c { call = some dropped; drawn = suc c.drawn }) l.connected))),
    simp (ours, up),
  )

  stays : (reinvite_on libs (some k) id c ≡ some (false, c)) → Refuses
  unfolding send_reinvite_audio_only
  stays e = subst (λ o. reinvite_on libs o id c ≡ some (false, c)) (sym l.placed) e

  -- The video of a live call is dropped if it is the call that is meant, is confirmed, has video and
  -- awaits no answer to an offer of its own: then the offer without video is sent, numbered one
  -- above the last request, and a second request does nothing. Else the request does nothing, and
  -- changes nothing.
  pub send_reinvite_audio_only_lem : (CanDrop × Drops) ⊎ ((¬ CanDrop) × Refuses)
  unfolding reinvite_on
  send_reinvite_audio_only_lem = elim (Bool-cases (text_eq k.call_id id)) [
    | inr foreign ↦
        let closed : ¬ CanDrop = λ can. cc (foreign, same_text can.0) in
        inr (closed, stays (simp foreign))
    | inl ours ↦ elim (Bool-cases (is_confirmed k.state)) [
      | inr early ↦
          let closed : ¬ CanDrop = λ can. cc (early, ap is_confirmed can.1) in
          inr (closed, stays (simp (ours, early)))
      | inl up ↦ elim (Bool-cases (is_some k.local_video_rtp_port)) [
        | inr audio ↦
            let closed : ¬ CanDrop = λ can. cc (audio, can.2) in
            inr (closed, stays (simp (ours, up, audio)))
        | inl video ↦ elim (Bool-cases k.reinvite_in_progress) [
          | inl busy ↦
              let closed : ¬ CanDrop = λ can. cc (busy, can.3) in
              inr (closed, stays (simp (ours, up, video, busy)))
          | inr free ↦ inl (
            (text_eq→≡ k.call_id id ours, confirmed_of k.state up, video, free),
            drops_once ours up video free,
          )
        ]
      ]
    ]
  ]
