-- ===== src/Sip/Protocol/Received.antt =====
-- sip_client.py: every received message is one step of the call.
use ha_intratone.Base.{
  ℕ, suc, ◌+◌, Bool, true, false, Option, none, some, List, [], ◌∷◌, ◌++◌, ◌≡◌, refl, inl, inr,
  arith, Bool-cases, ltb, ◌==◌, ◌&&◌, ◌||◌, ◌>>=◌, sym, subst, ◌∙◌, ap,
}
use ha_intratone.Base.Bytes.{Bytes}
use ha_intratone.Base.Text.{Text, codes, text_eq, lookup, lower, or_text, truthy}
use ha_intratone.Sip.Types.{
  CallState, inviting, authenticating, confirmed, terminated, SipMessage, PendingCall, Client, Libs,
}
use ha_intratone.Sip.Build.{
  build_ack, build_200_for, build_reinvite_answer, build_invite, dialog_uri,
}
use ha_intratone.Sip.Client.{terminate, put_call}
use ha_intratone.Sip.Client.Ok.{learn_dialog, offered_video, established, confirm, handle_ok}
use ha_intratone.Sip.Client.Response.{
  reinvite_with, answer_challenge, challenge_value, handle_auth_challenge, success, failure,
  handle_response, handle_code, code_of, names_invite, names_other, cseq_method, is_confirmed,
  is_inviting, auth_header_name,
}
use ha_intratone.Sip.Client.Dispatch.{
  handle_bye, handle_reinvite, handle_server_message, handle_request, by_method, dispatch_to,
  dispatch, is_foreign,
}
use ha_intratone.Sip.Protocol.Step.{
  dialing, phase, Live, Step, kept, answered, with_sent, send_lem, terminate-ended, Does, unchanged,
  sent-Step, updated-Step, after_send, with_sent-Live, draw-Does,
}

&&-right : (a b : Bool) → (a && b) ≡ true → b ≡ true
&&-right true b h = h
&&-right false b h = cc

module _ (libs : Libs) {k : PendingCall} {c : Client} (l : Live k c) (msg : SipMessage)
    (raw : Bytes) where
  handle_bye-Does : Does k c (handle_bye libs k msg raw c)
  unfolding handle_bye
  handle_bye-Does = (
    terminate k (with_sent (build_200_for libs msg raw) c),
    rw (send_lem (build_200_for libs msg raw) c l.connected),
    terminate-ended k k c (with_sent (build_200_for libs msg raw) c) l.going refl refl,
  )

  handle_reinvite-Does : Does k c (handle_reinvite libs k msg raw c)
  unfolding handle_reinvite
  handle_reinvite-Does =
      let m = build_reinvite_answer libs k msg raw in
      (with_sent m c, send_lem m c l.connected, sent-Step l m)

  handle_server_message-Does : Does k c (handle_server_message libs msg raw c)
  unfolding handle_server_message
  handle_server_message-Does =
      let m = build_200_for libs msg raw in (with_sent m c, send_lem m c l.connected, sent-Step l m)

  handle_request-Does : (method : Text) → Does k c (handle_request libs method k msg raw c)
  unfolding handle_request
  handle_request-Does method = elim (Bool-cases (text_eq method (codes "bye"))) [
    | inl bye ↦ rw bye handle_bye-Does
    | inr a ↦ elim (Bool-cases (text_eq method (codes "invite"))) [
      | inl invite ↦ rw (a, invite) handle_reinvite-Does
      | inr b ↦ elim (Bool-cases (text_eq method (codes "message"))) [
        | inl message ↦ rw (a, b, message) handle_server_message-Does
        | inr other ↦ rw (a, b, other) (c, refl, unchanged l)
      ]
    ]
  ]

module _ (libs : Libs) {k : PendingCall} {c : Client} (l : Live k c) (msg : SipMessage) where
  terminate-Does : Does k c (some (terminate k c))
  terminate-Does = (terminate k c, refl, terminate-ended k k c c l.going refl refl)

  -- The end of the call, or the second INVITE.
  reinvite_with-Does :
      phase k.state ≡ dialing
      → (answer : Option Text) → Does k c (reinvite_with libs k msg answer c)
  unfolding reinvite_with put_call phase
  reinvite_with-Does dials none = terminate-Does
  reinvite_with-Does dials (some auth) =
      let k' = record k {
        cseq = k.cseq + 1;
        via_branch = codes "z9hG4bK-" ++ libs.token_hex c.drawn;
        state = authenticating;
      } in
      let c₁ = record c { call = some k'; drawn = suc c.drawn } in
      let m = build_invite libs k' (some (auth_header_name msg, auth)) in
      (
        with_sent m c₁,
        send_lem m c₁ l.connected,
        kept k' (record { placed = refl; going = λ e. cc; connected = l.connected }) refl
            (sym dials) (omega arith) refl,
      )

call_id-established :
    (k : PendingCall) (ip : Text) (port : ℕ) (video : Option (Text × ℕ))
    → (established k ip port video).call_id ≡ k.call_id
unfolding established
call_id-established k ip port none = refl
call_id-established k ip port (some (video_ip, video_port)) = refl

is_inviting-dialing : (s : CallState) → is_inviting s ≡ true → phase s ≡ dialing
unfolding phase
is_inviting-dialing inviting h = refl
is_inviting-dialing authenticating h = cc
is_inviting-dialing confirmed h = cc
is_inviting-dialing terminated h = cc

-- A call with a new token drawn.
drawn-Live : {k : PendingCall} {c : Client} (n : ℕ) → Live k c → Live k (record c { drawn = n })
drawn-Live n l = record { placed = l.placed; going = l.going; connected = l.connected }

-- `int` takes the status code of the message, if it has one.
abbrev pub IsNumeric : Libs → SipMessage → Type 0
IsNumeric libs msg = (code : ℕ) × (code_of libs msg ≡ some code)

module _ (libs : Libs) {k : PendingCall} {c : Client} (l : Live k c) (msg : SipMessage) where
  handle_auth_challenge-Does :
      phase k.state ≡ dialing → Does k c (handle_auth_challenge libs k msg c)
  unfolding handle_auth_challenge
  handle_auth_challenge-Does dials =
      let m = build_ack k msg k.target_uri in
      let c₁ = with_sent m c in
      after_send l m _ (elim (Bool-cases (truthy (challenge_value msg))) [
        | inl given ↦ rw given (
            draw-Does (suc c.drawn) (
              reinvite_with-Does libs (drawn-Live (suc c.drawn) (with_sent-Live l m)) msg dials
                (answer_challenge libs k (challenge_value msg) (libs.token_hex c.drawn))))
        | inr missing ↦ rw missing (terminate-Does libs (with_sent-Live l m) msg)
      ])

  -- The call is confirmed, or it ends where the SDP cannot be parsed.
  confirm-Step :
      (k' : PendingCall) (msgs : List Bytes) (sdp : Text) (found : Option (Text × ℕ))
      → k'.call_id ≡ k.call_id
      → k'.cseq ≡ k.cseq
      → phase k'.state ≡ dialing
      → phase k.state ≡ dialing
      → Step k c (confirm libs k' sdp found (record c { sent = msgs }))
  unfolding confirm put_call phase established
  confirm-Step k' msgs sdp none id same dials' dials =
      terminate-ended k k' c (record c { sent = msgs }) (λ e. cc) id refl
  confirm-Step k' msgs sdp (some (ip, port)) id same dials' dials =
      answered (record k' { state = confirmed })
        (established (record k' { state = confirmed }) ip port
          (offered_video libs k'.local_video_rtp_port sdp))
        (record { placed = refl; going = λ e. cc; connected = l.connected }) id dials refl
        (omega (arith, same))
        (call_id-established (record k' { state = confirmed }) ip port
            (offered_video libs k'.local_video_rtp_port sdp)
          ∙ id)
        refl

  handle_ok-Does : (raw : Bytes) → phase k.state ≡ dialing → Does k c (handle_ok libs k msg raw c)
  unfolding handle_ok learn_dialog
  handle_ok-Does raw dials =
      let k' = learn_dialog libs k msg raw in
      let m = build_ack k' msg (or_text k'.remote_target_uri []) in
      (
        confirm libs k' msg.body (libs.rtp_info msg.body) (with_sent m c),
        rw (send_lem m c l.connected),
        confirm-Step k' (c.sent ++ m ∷ []) msg.body (libs.rtp_info msg.body) refl refl dials dials,
      )

  success-Does : (s : CallState) (raw : Bytes) → k.state ≡ s → Does k c (success libs s k msg raw c)
  unfolding success put_call phase
  success-Does inviting raw e = handle_ok-Does raw (ap phase e)
  success-Does authenticating raw e = handle_ok-Does raw (ap phase e)
  success-Does confirmed raw e = elim (Bool-cases (names_invite (cseq_method msg))) [
    | inl again ↦ rw again (
        let k' = record k { reinvite_in_progress = false } in
        let m = build_ack k msg (dialog_uri k) in
        (
          with_sent m (record c { call = some k' }),
          send_lem m (record c { call = some k' }) l.connected,
          updated-Step l k' (c.sent ++ m ∷ []) c.drawn refl refl (omega arith),
        ))
    | inr other ↦ rw other (c, refl, unchanged l)
  ]
  success-Does terminated raw e = (c, refl, unchanged l)

  failure-Does : Does k c (failure k msg c)
  unfolding failure put_call
  failure-Does = elim (Bool-cases (names_other (cseq_method msg))) [
    | inl other ↦ rw other (c, refl, unchanged l)
    | inr final ↦ elim (Bool-cases (is_confirmed k.state && k.reinvite_in_progress)) [
      | inl refused ↦
          rw (final, refused)
            (after_send l (build_ack k msg (dialog_uri k)) _ (
              _,
              refl,
              updated-Step (with_sent-Live l (build_ack k msg (dialog_uri k)))
                  (record k { reinvite_in_progress = false }) _ _ refl refl (omega arith),
            ))
      | inr fatal ↦
          rw (final, fatal)
            (after_send l (build_ack k msg k.target_uri) _
              (terminate-Does libs (with_sent-Live l (build_ack k msg k.target_uri)) msg))
    ]
  ]

  handle_code-Does : (raw : Bytes) (code : ℕ) → Does k c (handle_code libs k msg raw c code)
  unfolding handle_code
  handle_code-Does raw code = elim (Bool-cases (ltb code 200)) [
    | inl provisional ↦ rw provisional (c, refl, unchanged l)
    | inr final ↦ elim (Bool-cases ((code == 401 || code == 407) && is_inviting k.state)) [
      | inl a ↦
          rw (final, a)
            (handle_auth_challenge-Does
              (is_inviting-dialing k.state (&&-right (code == 401 || code == 407) _ a)))
      | inr b ↦ elim (Bool-cases (ltb code 300)) [
        | inl good ↦ rw (final, b, good) (success-Does k.state raw refl)
        | inr bad ↦ rw (final, b, bad) failure-Does
      ]
    ]
  ]

  handle_response-Does :
      (raw : Bytes) → IsNumeric libs msg → Does k c (handle_response libs k msg raw c)
  unfolding handle_response
  handle_response-Does raw (code, e) =
      subst (λ o. Does k c (o >>= handle_code libs k msg raw c)) (sym e) (handle_code-Does raw code)

  by_method-Does :
      (m : Option Text) (raw : Bytes) → IsNumeric libs msg → Does k c (by_method libs m k msg raw c)
  unfolding by_method
  by_method-Does none raw e = handle_response-Does raw e
  by_method-Does (some m) raw e = handle_request-Does libs l msg raw (lower m)

-- A message received while a call is in progress, whose status code, if it has one, is a number for
-- `int`: it raises nothing and is one step of that call: the
-- call goes on in its phase with no report, or it was being dialled and its answer is reported, or
-- it is gone and its end is reported. The number of the last request never falls.
pub dispatch-Step :
    (libs : Libs) (msg : SipMessage) (raw : Bytes) (k : PendingCall) (c : Client)
    → Live k c
    → IsNumeric libs msg
    → (c' : Client) × (dispatch libs msg raw c ≡ some c') × Step k c c'
unfolding dispatch
dispatch-Step libs msg raw k c l e =
    subst (λ o. Does k c (dispatch_to libs o msg raw c)) (sym l.placed)
      (elim (Bool-cases (is_foreign (lookup (codes "call-id") msg.headers) k.call_id)) [
        | inl foreign ↦ rw foreign (c, refl, unchanged l)
        | inr ours ↦ rw ours (by_method-Does libs l msg msg.method raw e)
      ])
