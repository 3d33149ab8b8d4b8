-- ===== src/Rest/Session.antt =====
-- rest_api.py: one request and its answer, and the exceptions.
use ha_intratone.Base.{
  ℕ, Bool, Option, none, some, List, [], ◌∷◌, ◌++◌, not, if◌then◌else◌, ◌||◌, leb,
}
use ha_intratone.Base.Text.{Text, codes}
use ha_intratone.Rest.Json.{Json, null, get, is_object, is_text, holds, str}

-- A request: its path, its form (none for a GET) and the JWT of its `Authorization`.
pub record Request : Type 0 where
  pub path : Text
  pub form : Option (List (Text × Text))
  pub authorization : Option Text

-- What the server and the network make of a request: a transport error, or an HTTP status with a body,
-- which is none where it is no JSON.
pub data Reply : Type 0 where
  unreachable : Reply
  answered : ℕ → Option Json → Reply

-- What is given: the replies, which may depend on the requests before, `repr` of lists and dicts, and
-- `quote(s, safe="")`.
pub record World : Type 0 where
  pub reply : List Request → Request → Reply
  pub repr : Json → Text
  pub quote : Text → Text

-- The exceptions: `IntratoneAuthError`, `IntratoneConnectionError`, `IntratoneApiError` with status and
-- body, `IntratoneMobipassError` with its code, and Python's own for a body of another shape.
pub data Failure : Type 0 where
  auth_error connection_error shape_error : Failure
  api_error : ℕ → Json → Failure
  mobipass_error : Text → Failure

pub data Result (A : Type 0) : Type 0 where
  done : A → Result A
  raised : Failure → Result A

-- `MobipassState`
pub record MobipassState : Type 0 where
  pub opening_access : Bool
  pub refresh_access : Bool
  pub mobipass_compatible : Bool
  pub mobipass : Bool

-- The client, with the entry's data, the stored JWT (`null` for `None`), and the requests sent.
pub record Api : Type 0 where
  pub tel : Text
  pub device_id : Text
  pub indicatif : Text
  pub app_id : Text
  pub app_token : Text
  pub numeric_id : Text
  pub jwt : Json
  pub mobipass_state : Option MobipassState
  pub sent : List Request

-- `_parse_json_response`
unfoldable pub parse_json_response : ℕ → Option Json → Result Json
parse_json_response status none = raised (api_error status null)
parse_json_response status (some body) =
    if not (is_object body)
    then raised (api_error status body)
    else if is_text (get (codes "state") body) (codes "error") || leb 400 status
    then raised (api_error status body)
    else done body

unfoldable pub result_of : Reply → Result Json
unfolding parse_json_response
result_of unreachable = raised connection_error
result_of (answered status body) = parse_json_response status body

-- The request is sent, and its answer read.
unfoldable pub send : World → Request → Api → Result Json × Api
unfolding result_of
send w r a = (result_of (w.reply a.sent r), record a { sent = a.sent ++ r ∷ [] })

unfoldable pub bearer : World → Json → Option Text
unfolding str
bearer w jwt = if holds jwt then some (str w.repr jwt) else none

-- `_post_form`
unfoldable pub post_form : World → Text → List (Text × Text) → Json → Api → Result Json × Api
unfolding send bearer
post_form w path form jwt a =
    send w (record { path = path; form = some form; authorization = bearer w jwt }) a

-- What follows on a result.
abbrev pub after : {A B : Type 0} → Result A × Api → (A → Api → Result B × Api) → Result B × Api
after (done x, a) k = k x a
after (raised e, a) k = (raised e, a)
