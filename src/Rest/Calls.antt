-- ===== src/Rest/Calls.antt =====
-- rest_api.py: the requests that refresh the JWT once (`answer_call`, `_get_json`, `open_access`,
-- `_mobipass_post`).
use ha_intratone.Base.{ℕ, Bool, none, some, List, [], ◌∷◌, not, if◌then◌else◌}
use ha_intratone.Base.Text.{Text, codes, truthy, text_eq, concat}
use ha_intratone.Digest.{starts_with}
use ha_intratone.Rest.Json.{Json, null, get, holds, str, str_or_empty, error_flag_ok}
use ha_intratone.Rest.Session.{
  World, auth_error, api_error, mobipass_error, Result, done, raised, Api, send, post_form, after,
}
use ha_intratone.Rest.Auth.{refresh_jwt}

-- `try: attempt; except IntratoneConnectionError: raise; except IntratoneApiError: refresh, attempt`.
-- A Mobipass error is let through as well.
unfoldable pub retried :
    {A : Type 0} → World → (Api → Result A × Api) → Result A × Api → Result A × Api
unfolding refresh_jwt
retried w attempt (raised (api_error status body), a) = after (refresh_jwt w a) (λ u. attempt)
retried w attempt r = r

-- The answer of the server to a command.
abbrev pub accepted : Json → Api → Result Bool × Api
accepted body a = (done (error_flag_ok (get (codes "error") body)), a)

unfoldable pub answer_attempt : World → Text → Api → Result Json × Api
unfolding post_form
answer_attempt w path a = post_form w path ((codes "smartphone_id", a.numeric_id) ∷ []) a.jwt a

unfoldable pub answer_path : World → Text → Text
unfolding concat
answer_path w call_id = concat (codes "api/calls/" ∷ w.quote call_id ∷ codes "/answer" ∷ [])

-- `answer_call`
unfoldable pub answer_call : World → Text → Api → Result Bool × Api
unfolding retried answer_attempt error_flag_ok answer_path
answer_call w call_id a =
    let path = answer_path w call_id in
    if not (holds a.jwt)
    then (raised auth_error, a)
    else if not (truthy a.numeric_id)
    then (raised auth_error, a)
    else after (retried w (answer_attempt w path) (answer_attempt w path a)) accepted

-- `_do` of `_get_json`
unfoldable pub get_attempt : World → Text → Api → Result Json × Api
unfolding send str
get_attempt w path a =
    send w (record { path = path; form = none; authorization = some (str w.repr a.jwt) }) a

-- `_get_json`
unfoldable pub get_json : World → Text → Api → Result Json × Api
unfolding retried get_attempt
get_json w path a =
    if not (holds a.jwt)
    then (raised auth_error, a)
    else retried w (get_attempt w path) (get_attempt w path a)

-- `IntratoneAccess`
pub record Access : Type 0 where
  pub access_id : Text
  pub phonenumber : Text
  pub name : Text
  pub residence : Text
  pub openmode : Text

-- `PATH_ACCESS_OPEN`
abbrev pub open_path : Text
open_path = codes "api/access/open/clemobil"

unfoldable pub open_attempt : World → Access → Api → Result Json × Api
unfolding post_form
open_attempt w access a =
    post_form w open_path
      ((codes "phonenumber", access.phonenumber) ∷ (codes "access_id", access.access_id) ∷ []) a.jwt
      a

-- `open_access`
unfoldable pub open_access : World → Access → Api → Result Bool × Api
unfolding retried open_attempt error_flag_ok
open_access w access a =
    if not (holds a.jwt)
    then (raised auth_error, a)
    else after (retried w (open_attempt w access) (open_attempt w access a)) accepted

-- `MOBIPASS_CODE_SMS_SENT`
abbrev pub sms_sent : Text
sms_sent = codes "MOBIPASS_SMS_SENT"

-- The code of a body, `str(body.get("code") or "")`.
abbrev pub code_of : World → Json → Text
code_of w body = str_or_empty w.repr (get (codes "code") body)

-- What `_attempt` makes of a refusal, by the code in it.
unfoldable pub refusal : World → ℕ → Json → Result (Unit {0})
unfolding starts_with str text_eq
refusal w status body =
    let code = code_of w body in
    if text_eq code sms_sent
    then done tt
    else if starts_with code (codes "MOBIPASS")
    then raised (mobipass_error code)
    else raised (api_error status body)

-- What `_attempt` makes of a body.
unfoldable pub transfer : World → Json → Result (Unit {0})
unfolding error_flag_ok str text_eq
transfer w body =
    let flag = get (codes "error") body in
    elim flag [
      | null ↦ done tt
      | value ↦
          if error_flag_ok value
          then done tt
          else if text_eq (code_of w body) sms_sent
          then done tt
          else raised (mobipass_error (code_of w body))
    ]

-- `_attempt` of `_mobipass_post`
unfoldable pub mobipass_result : World → Result Json → Result (Unit {0})
unfolding refusal transfer
mobipass_result w (done body) = transfer w body
mobipass_result w (raised (api_error status body)) = refusal w status body
mobipass_result w (raised e) = raised e

unfoldable pub mobipass_attempt : World → Text → List (Text × Text) → Api → Result (Unit {0}) × Api
unfolding post_form mobipass_result
mobipass_attempt w path form a =
    let (r, a') = post_form w path form a.jwt a in (mobipass_result w r, a')

-- `_mobipass_post`
unfoldable pub mobipass_post : World → Text → List (Text × Text) → Api → Result (Unit {0}) × Api
unfolding retried mobipass_attempt
mobipass_post w path form a =
    if not (holds a.jwt)
    then (raised auth_error, a)
    else retried w (mobipass_attempt w path form) (mobipass_attempt w path form a)

-- `mobipass_activate` and `mobipass_verify`
unfoldable pub mobipass_activate : World → Api → Result (Unit {0}) × Api
unfolding mobipass_post
mobipass_activate w a = mobipass_post w (codes "api/mobipass/activate") [] a

unfoldable pub mobipass_verify : World → Text → Api → Result (Unit {0}) × Api
unfolding mobipass_post
mobipass_verify w otp a =
    mobipass_post w (codes "api/mobipass/otp/verify") ((codes "otp", otp) ∷ []) a
