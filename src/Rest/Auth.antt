-- ===== src/Rest/Auth.antt =====
-- rest_api.py: the authentication of the device (`authenticate_device`) and the refresh of the JWT.
use ha_intratone.Base.{
  ℕ, Bool, Option, none, some, List, [], ◌∷◌, ◌++◌, not, if◌then◌else◌, ◌||◌, ◌&&◌, leb, ◌==◌,
}
use ha_intratone.Base.Text.{Text, codes, truthy, text_eq, or_else}
use ha_intratone.Rest.Json.{Json, null, object, no_members, get, is_object, holds, str, or_json}
use ha_intratone.Rest.Session.{
  World, Failure, auth_error, shape_error, api_error, Result, done, raised, MobipassState, Api,
  post_form, after,
}

-- `str(data.get(key, "0")) == "1"`
unfoldable pub flag : World → Json → Text → Bool
unfolding str
flag w block key = text_eq (str w.repr (get key block)) (codes "1")

-- `_parse_mobipass_state`
unfoldable pub parse_mobipass_state : World → Json → MobipassState
unfolding flag
parse_mobipass_state w block = record {
  opening_access = flag w block (codes "openingaccess");
  refresh_access = flag w block (codes "access_refresh");
  mobipass_compatible = flag w block (codes "mobipass_compatible");
  mobipass = flag w block (codes "mobipass");
}

-- `MobipassState.needs_transfer`
unfoldable pub needs_transfer : MobipassState → Bool
needs_transfer s = s.mobipass_compatible && not s.mobipass

-- `tel.lstrip("0")`
unfoldable pub lstrip_zeros : Text → Text
lstrip_zeros [] = []
lstrip_zeros (c ∷ s) = let rest = lstrip_zeros s in if c == b'0' then rest else c ∷ s

-- `_tel_candidates`
unfoldable pub tel_candidates : Text → Text → List Text
unfolding lstrip_zeros
tel_candidates tel indicatif =
    let stripped = lstrip_zeros tel in
    if truthy stripped && not (text_eq stripped tel)
    then tel ∷ (indicatif ++ stripped) ∷ stripped ∷ []
    else tel ∷ []

-- The exception when no candidate gave a JWT: `last_error` is the last API error. A failure without a
-- body or with a status from 500 is re-raised.
unfoldable pub verdict : Option (ℕ × Json) → Failure
verdict none = auth_error
verdict (some (status, null)) = api_error status null
verdict (some (status, body)) = if leb 500 status then api_error status body else auth_error

-- `body.get("data") or {}`
abbrev pub data_of : Json → Json
data_of body = or_json (get (codes "data") body) (object no_members)

abbrev pub device_form : Api → Text → List (Text × Text)
device_form a tel =
    (codes "app_id", a.app_id)
    ∷ (codes "app_token", a.app_token)
    ∷ (codes "tel", tel)
    ∷ (codes "device_id", a.device_id)
    ∷ (codes "appversion", codes "4.6.4")
    ∷ []

-- What the loop makes of the answer to one candidate; `rest` goes on with the others.
unfoldable pub next_candidate :
    World
    → (Option (ℕ × Json) → Api → Result Json × Api)
    → Option (ℕ × Json)
    → Result Json × Api
    → Result Json × Api
unfolding parse_mobipass_state
next_candidate w rest last (raised (api_error status body), a) = rest (some (status, body)) a
next_candidate w rest last (raised e, a) = (raised e, a)
next_candidate w rest last (done body, a) =
    if not (is_object (data_of body))
    then (raised shape_error, a)
    else if holds (get (codes "jwt") (data_of body))
    then (
      done (data_of body),
      record a { mobipass_state = some (parse_mobipass_state w (data_of body)) },
    )
    else rest last a

-- The loop over the candidates.
unfoldable pub try_candidates : World → List Text → Option (ℕ × Json) → Api → Result Json × Api
unfolding post_form verdict next_candidate
try_candidates w [] last a = (raised (verdict last), a)
try_candidates w (tel ∷ tels) last a =
    next_candidate w (try_candidates w tels) last
      (post_form w (codes "api/auth/device") (device_form a tel) null a)

-- `authenticate_device`
unfoldable pub authenticate_device : World → Api → Result Json × Api
unfolding try_candidates tel_candidates
authenticate_device w a =
    if not (truthy a.tel) || not (truthy a.device_id)
    then (raised auth_error, a)
    else try_candidates w (tel_candidates a.tel (or_else a.indicatif (codes "33"))) none a

-- The part of `_refresh_jwt_once` after the authentication.
unfoldable pub store_jwt : World → Json → Api → Result (Unit {0}) × Api
unfolding str
store_jwt w block a =
    if not (holds (get (codes "jwt") block))
    then (raised auth_error, a)
    else if holds (get (codes "id") block)
    then (
      done tt,
      record a { jwt = get (codes "jwt") block; numeric_id = str w.repr (get (codes "id") block) },
    )
    else (done tt, record a { jwt = get (codes "jwt") block })

-- `refresh_jwt`, with one caller at a time.
unfoldable pub refresh_jwt : World → Api → Result (Unit {0}) × Api
unfolding authenticate_device store_jwt
refresh_jwt w a = after (authenticate_device w a) (store_jwt w)

-- What a tick of the periodic refresh does with its outcome.
pub data Ticked : Type 0 where
  refreshed reauth transient : Ticked

abbrev pub ticked : Result (Unit {0}) → Ticked
ticked (done u) = refreshed
ticked (raised auth_error) = reauth
ticked (raised e) = transient

-- `_tick` of `async_start_jwt_refresh`
unfoldable pub tick : World → Api → Ticked × Api
unfolding refresh_jwt
tick w a = let (r, a') = refresh_jwt w a in (ticked r, a')
