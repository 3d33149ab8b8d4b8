-- ===== src/Sip/Client/Response.antt =====
-- sip_client.py: the routing of responses.
use ha_intratone.Base.{
  ℕ, ◌+◌, Bool, true, false, Option, none, some, List, [], ◌∷◌, ◌++◌, ◌>>=◌, is_some, ltb, ◌==◌,
  ◌&&◌, ◌||◌, not, if◌then◌else◌,
}
use ha_intratone.Base.Bytes.{Bytes}
use ha_intratone.Base.Text.{Text, codes, or_text, truthy, lookup, text_eq, upper}
use ha_intratone.Digest.{parse_challenge, build_authorization}
use ha_intratone.Sip.Types.{
  SipMessage, CallState, inviting, authenticating, confirmed, terminated, PendingCall, Client, Libs,
}
use ha_intratone.Sip.Header.{words}
use ha_intratone.Sip.Build.{header, dialog_uri, build_ack, build_invite}
use ha_intratone.Sip.Client.Wire.{put_call, send, terminate, draw}
use ha_intratone.Sip.Client.Ok.{handle_ok}

-- `msg.headers.get("proxy-authenticate") or msg.headers.get("www-authenticate")`
unfoldable pub challenge_value : SipMessage → Text
unfolding header
challenge_value msg =
    or_text (lookup (codes "proxy-authenticate") msg.headers)
      (header (codes "www-authenticate") msg)

unfoldable pub auth_header_name : SipMessage → Text
auth_header_name msg =
    if is_some (lookup (codes "proxy-authenticate") msg.headers)
    then codes "Proxy-Authorization"
    else codes "Authorization"

-- `parse_challenge` and `build_authorization`; `none` is the ValueError of either.
unfoldable pub answer_challenge : Libs → PendingCall → Text → Text → Option Text
answer_challenge libs call value cnonce = do
  challenge ← parse_challenge libs value
  build_authorization libs challenge call.sip_username call.sip_password (codes "INVITE")
      call.target_uri cnonce 1

-- The second INVITE, in a new transaction.
unfoldable pub reinvite_with :
    Libs → PendingCall → SipMessage → Option Text → Client → Option Client
unfolding put_call send auth_header_name terminate
reinvite_with libs call msg none c = some (terminate call c)
reinvite_with libs call msg (some auth_value) c =
    let (branch, c') = draw libs c in
    let call' = record call {
      cseq = call.cseq + 1;
      via_branch = codes "z9hG4bK-" ++ branch;
      state = authenticating;
    } in
    send (build_invite libs call' (some (auth_header_name msg, auth_value))) (put_call call' c')

-- `_handle_auth_challenge`. The first token is the cnonce that a qop would use.
unfoldable pub handle_auth_challenge : Libs → PendingCall → SipMessage → Client → Option Client
unfolding send terminate reinvite_with
handle_auth_challenge libs call msg c = do
  c₁ ← send (build_ack call msg call.target_uri) c
  let cnonce = (draw libs c₁).0
  let c₂ = (draw libs c₁).1
  if truthy (challenge_value msg)
      then reinvite_with libs call msg (answer_challenge libs call (challenge_value msg) cnonce) c₂
      else some (terminate call c₁)

unfoldable pub second_of_two : List Text → Option Text
second_of_two [] = none
second_of_two (a ∷ []) = none
second_of_two (a ∷ b ∷ []) = some b
second_of_two (a ∷ b ∷ x ∷ xs) = none

-- The method of a CSeq header of two words, in upper case.
unfoldable pub cseq_method : SipMessage → Option Text
unfolding second_of_two header
cseq_method msg = elim (second_of_two (words (header (codes "cseq") msg))) [
  | none ↦ none
  | some m ↦ some (upper m)
]

-- `len(cseq) == 2 and cseq[1].upper() == "INVITE"`
abbrev pub names_invite : Option Text → Bool
names_invite none = false
names_invite (some m) = text_eq m (codes "INVITE")

-- `len(cseq) == 2 and cseq[1].upper() != "INVITE"`
abbrev pub names_other : Option Text → Bool
names_other none = false
names_other (some m) = not (text_eq m (codes "INVITE"))

-- A 2xx, by the state of the call.
unfoldable pub success :
    Libs → CallState → PendingCall → SipMessage → Bytes → Client → Option Client
unfolding handle_ok put_call send
success libs inviting call msg raw c = handle_ok libs call msg raw c
success libs authenticating call msg raw c = handle_ok libs call msg raw c
success libs confirmed call msg raw c =
    if names_invite (cseq_method msg)
    then send (build_ack call msg (dialog_uri call))
        (put_call (record call { reinvite_in_progress = false }) c)
    else some c
success libs terminated call msg raw c = some c

abbrev pub is_inviting : CallState → Bool
is_inviting inviting = true
is_inviting _ = false

abbrev pub is_confirmed : CallState → Bool
is_confirmed confirmed = true
is_confirmed _ = false

-- A final response that is no success.
unfoldable pub failure : PendingCall → SipMessage → Client → Option Client
unfolding put_call send terminate
failure call msg c =
    if names_other (cseq_method msg)
    then some c
    else if is_confirmed call.state && call.reinvite_in_progress
    then (send (build_ack call msg (dialog_uri call)) c >>= λ c'.
        some (put_call (record call { reinvite_in_progress = false }) c'))
    else (send (build_ack call msg call.target_uri) c >>= λ c'. some (terminate call c'))

unfoldable pub int_or_zero : Libs → Option Text → Option ℕ
int_or_zero libs none = some 0
int_or_zero libs (some s) = if truthy s then libs.int_of s else some 0

-- `int(msg.code) if msg.code else 0`; `none` is the ValueError of `int`.
unfoldable pub code_of : Libs → SipMessage → Option ℕ
unfolding int_or_zero
code_of libs msg = int_or_zero libs msg.status

-- `_handle_response` with the number of its status code.
unfoldable pub handle_code : Libs → PendingCall → SipMessage → Bytes → Client → ℕ → Option Client
unfolding handle_auth_challenge success failure
handle_code libs call msg raw c code =
    if ltb code 200
    then some c
    else if (code == 401 || code == 407) && is_inviting call.state
    then handle_auth_challenge libs call msg c
    else if ltb code 300
    then success libs call.state call msg raw c
    else failure call msg c

-- `_handle_response`
unfoldable pub handle_response : Libs → PendingCall → SipMessage → Bytes → Client → Option Client
unfolding code_of handle_code
handle_response libs call msg raw c = code_of libs msg >>= handle_code libs call msg raw c
