-- ===== src/Sip/Protocol/Asked.antt =====
-- sip_client.py: every request of the user is one step of the call.
use ha_intratone.Base.{
  suc, ◌+◌, Bool, true, false, Option, none, some, [], ◌∷◌, ◌++◌, ◌≡◌, ◌≢◌, refl, inl, inr, arith,
  Bool-cases, not, sym, subst, is_some,
}
use ha_intratone.Base.Bytes.{Bytes}
use ha_intratone.Base.Text.{Text, codes, text_eq}
use ha_intratone.Sip.Types.{
  CallState, inviting, authenticating, confirmed, terminated, PendingCall, Client, Libs, SipMessage,
  absent,
}
use ha_intratone.Sip.Build.{build_message, build_reinvite, build_bye, build_cancel}
use ha_intratone.Sip.Client.{
  terminate, put_call, connection_lost, send_reinvite_audio_only, hang_up, dispatch,
}
use ha_intratone.Sip.Client.Dispatch.{dispatch_to}
use ha_intratone.Sip.Client.Api.{
  end_live_call, is_confirmed, has_dialog, message_on, send_in_dialog_message, reinvite_on,
  farewell, hang_up_on,
}
use ha_intratone.Sip.Protocol.Step.{
  over, phase, Live, Step, with_sent, send_lem, terminate-ended, terminate_at, is_live_of_going,
  ended, Does, unchanged, updated-Step,
}

-- A request that reports whether it was sent.
abbrev pub Asks : PendingCall → Client → Option (Bool × Client) → Type 0
Asks k c m = (b : Bool) × (c' : Client) × (m ≡ some (b, c')) × Step k c c'

module _ (libs : Libs) (call_id : Text) (k : PendingCall) (c : Client) (l : Live k c) where
  refused : Asks k c (some (false, c))
  refused = (false, c, refl, unchanged l)

  pub send_in_dialog_message-Step :
      (body : Text) → Asks k c (send_in_dialog_message libs call_id body c)
  unfolding send_in_dialog_message put_call
  send_in_dialog_message-Step body =
      subst (λ o. Asks k c (message_on libs o call_id body c)) (sym l.placed)
        (elim (Bool-cases (not (text_eq k.call_id call_id))) [
          | inl foreign ↦ rw foreign refused
          | inr ours ↦ elim (Bool-cases (not (is_confirmed k.state))) [
            | inl early ↦ rw (ours, early) refused
            | inr up ↦ elim (Bool-cases (not (has_dialog k.remote_to_header))) [
              | inl lost ↦ rw (ours, up, lost) refused
              | inr known ↦
                  rw (ours, up, known)
                    (
                      true,
                      with_sent m c₁,
                      rw (send_lem m c₁ l.connected),
                      updated-Step l k' (c.sent ++ m ∷ []) (suc c.drawn) refl refl (omega arith),
                    )
            ]
          ]
        ])
    where
      k' : PendingCall
      k' = record k { cseq = k.cseq + 1 }

      c₁ : Client
      c₁ = record c { call = some k'; drawn = suc c.drawn }

      m : Bytes
      m = build_message k' (codes "z9hG4bK-" ++ libs.token_hex c.drawn) body

  pub send_reinvite_audio_only-Step : Asks k c (send_reinvite_audio_only libs call_id c)
  unfolding send_reinvite_audio_only put_call
  send_reinvite_audio_only-Step =
      subst (λ o. Asks k c (reinvite_on libs o call_id c)) (sym l.placed)
        (elim (Bool-cases (not (text_eq k.call_id call_id))) [
          | inl foreign ↦ rw foreign refused
          | inr ours ↦ elim (Bool-cases (not (is_confirmed k.state))) [
            | inl early ↦ rw (ours, early) refused
            | inr up ↦ elim (Bool-cases (not (is_some k.local_video_rtp_port))) [
              | inl audio ↦ rw (ours, up, audio) refused
              | inr video ↦ elim (Bool-cases k.reinvite_in_progress) [
                | inl pending ↦ simp (ours, up, video, pending) refused
                | inr free ↦
                    simp (ours, up, video, free)
                      (
                        true,
                        with_sent m c₁,
                        rw (send_lem m c₁ l.connected),
                        updated-Step l k' (c.sent ++ m ∷ []) (suc c.drawn) refl refl (omega arith),
                      )
              ]
            ]
          ]
        ])
    where
      k' : PendingCall
      k' = record k {
        local_video_rtp_port = none;
        reinvite_in_progress = true;
        cseq = k.cseq + 1;
        via_branch = codes "z9hG4bK-" ++ libs.token_hex c.drawn;
      }

      c₁ : Client
      c₁ = record c { call = some k'; drawn = suc c.drawn }

      m : Bytes
      m = build_reinvite libs k'

module _ (libs : Libs) {k : PendingCall} {c : Client} (l : Live k c) where
  farewell-sends :
      (s : CallState)
      → phase s ≢ over
      → (c' : Client) × (farewell libs s k c ≡ some c') × (c'.events ≡ c.events)
  unfolding farewell put_call phase
  farewell-sends inviting going =
      let m = build_cancel k in (with_sent m c, send_lem m c l.connected, refl)
  farewell-sends authenticating going =
      let m = build_cancel k in (with_sent m c, send_lem m c l.connected, refl)
  farewell-sends confirmed going =
      let k' = record k { cseq = k.cseq + 1 } in
      let c₁ = record c { call = some k'; drawn = suc c.drawn } in
      let m = build_bye k' (codes "z9hG4bK-" ++ libs.token_hex c.drawn) in
      (with_sent m c₁, send_lem m c₁ l.connected, refl)
  farewell-sends terminated going = absurd (going refl)

  pub hang_up-Step : (call_id : Text) → Does k c (hang_up libs call_id c)
  unfolding hang_up
  hang_up-Step call_id =
      subst (λ o. Does k c (hang_up_on libs o call_id c)) (sym l.placed)
        (elim (Bool-cases (not (text_eq k.call_id call_id))) [
          | inl foreign ↦ rw foreign (c, refl, unchanged l)
          | inr ours ↦
              let (c', sent, quiet) = farewell-sends k.state l.going in
              rw (ours, sent) (terminate k c', refl, terminate-ended k k c c' l.going refl quiet)
        ])

-- A connection that breaks ends the call.
pub connection_lost-Step : (k : PendingCall) (c : Client) → Live k c → Step k c (connection_lost c)
unfolding connection_lost
connection_lost-Step k c l =
    subst (λ o. Step k c (record (end_live_call o c) { transport = absent })) (sym l.placed)
      (rw (is_live_of_going k.state l.going)
        (let (gone, told) = terminate_at k.state k c refl l.going in ended gone told))

-- What a client without a call does: nothing is reported and no call appears.
abbrev pub Rests : Client → Option Client → Type 0
Rests c m = (c' : Client) × (m ≡ some c') × (c'.call ≡ none) × (c'.events ≡ c.events)

abbrev pub RestsAsked : Client → Option (Bool × Client) → Type 0
RestsAsked c m = m ≡ some (false, c)

module _ (libs : Libs) (c : Client) (free : c.call ≡ none) where
  pub send_in_dialog_message-RestsAsked :
      (call_id body : Text) → RestsAsked c (send_in_dialog_message libs call_id body c)
  unfolding send_in_dialog_message
  send_in_dialog_message-RestsAsked call_id body =
      subst (λ o. RestsAsked c (message_on libs o call_id body c)) (sym free) refl

  pub send_reinvite_audio_only-RestsAsked :
      (call_id : Text) → RestsAsked c (send_reinvite_audio_only libs call_id c)
  unfolding send_reinvite_audio_only
  send_reinvite_audio_only-RestsAsked call_id =
      subst (λ o. RestsAsked c (reinvite_on libs o call_id c)) (sym free) refl

  pub hang_up-Rests : (call_id : Text) → Rests c (hang_up libs call_id c)
  unfolding hang_up
  hang_up-Rests call_id =
      subst (λ o. Rests c (hang_up_on libs o call_id c)) (sym free) (c, refl, free, refl)

  pub dispatch-Rests : (msg : SipMessage) (raw : Bytes) → Rests c (dispatch libs msg raw c)
  unfolding dispatch
  dispatch-Rests msg raw =
      subst (λ o. Rests c (dispatch_to libs o msg raw c)) (sym free) (c, refl, free, refl)

pub connection_lost-Rests : (c : Client) → c.call ≡ none → Rests c (some (connection_lost c))
unfolding connection_lost
connection_lost-Rests c free =
    subst (λ o. Rests c (some (record (end_live_call o c) { transport = absent }))) (sym free)
      (record c { transport = absent }, refl, free, refl)
