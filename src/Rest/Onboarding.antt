-- ===== src/Rest/Onboarding.antt =====
-- rest_api.py: the calls before there is an entry (`register_with_invite`, `verify_user`,
-- `register_phone_for_sms`, `validate_sms_code`, `authenticate_for_invite`).
use ha_intratone.Base.{
  Bool, true, false, none, some, List, [], ◌∷◌, ◌++◌, not, if◌then◌else◌, ◌||◌, ◌&&◌,
}
use ha_intratone.Base.Text.{Text, codes}
use ha_intratone.Rest.Json.{Json, object, no_members, get, is_object, is_text, holds}
use ha_intratone.Rest.Session.{World, Request, Reply, unreachable, answered}
use ha_intratone.Rest.Auth.{data_of, tel_candidates}

-- What the calls raise: `IntratoneConnectionError`, `IntratoneAuthError`, `IntratoneApiError` without a
-- status, and Python's own for a body of another shape.
pub data Problem : Type 0 where
  no_connection rejected bad_answer bad_shape : Problem

pub data Attempt (A : Type 0) : Type 0 where
  given : A → Attempt A
  fails : Problem → Attempt A

-- What the five calls need of the device and the application.
pub record Device : Type 0 where
  pub app_id : Text
  pub app_token : Text
  pub device_id : Text
  pub fcm_token : Text

-- A request of the session, without a JWT, with the requests before it.
unfoldable pub posted : World → Text → List (Text × Text) → List Request → Reply × List Request
posted w path form sent =
    let r : Request = record { path = path; form = some form; authorization = none } in
    (w.reply sent r, sent ++ r ∷ [])

-- The checks of the answer, which do not look at the status; a body without JSON is an API error.
unfoldable pub checked : Reply → Attempt Json
checked unreachable = fails no_connection
checked (answered status none) = fails bad_answer
checked (answered status (some body)) =
    if not (is_object body) || is_text (get (codes "state") body) (codes "error")
    then fails rejected
    else given (data_of body)

-- The fields that describe the device.
abbrev pub described : List (Text × Text)
described =
    (codes "os", codes "ANDROID")
    ∷ (codes "osv", codes "36")
    ∷ (codes "model", codes "SM-S931B")
    ∷ (codes "manufacturer", codes "samsung")
    ∷ []

abbrev pub bundle_id : Text
bundle_id = codes "com.cogelec.notificationpush"

abbrev pub invite_form : Device → Text → Text → List (Text × Text)
invite_form d code codepass =
    (codes "app_id", d.app_id)
      ∷ (codes "app_token", d.app_token)
      ∷ (codes "code", code)
      ∷ (codes "codepass", codepass)
      ∷ described
    ++ (codes "device_id", d.device_id)
      ∷ (codes "description", codes "Galaxy S25")
      ∷ (codes "appversion", codes "4.6.4")
      ∷ (codes "id_fcm", d.fcm_token)
      ∷ (codes "id_wonderpush", [])
      ∷ (codes "pushkit_id", [])
      ∷ (codes "bundleid", bundle_id)
      ∷ (codes "device_country", codes "FRA")
      ∷ (codes "device_language", codes "fr")
      ∷ (codes "carrier_name", codes "Orange")
      ∷ (codes "carrier_countrycode", codes "FR")
      ∷ (codes "carrier_countryiso", codes "fr")
      ∷ (codes "carrier_networkcode", codes "20801")
      ∷ []

-- The answer must carry the account's id and the phone number.
unfoldable pub complete : Attempt Json → Attempt Json
complete (fails e) = fails e
complete (given block) =
    if not (is_object block)
    then fails bad_shape
    else if not (holds (get (codes "id") block)) || not (holds (get (codes "tel") block))
    then fails rejected
    else given block

-- `register_with_invite`
unfoldable pub register_with_invite :
    World → Device → Text → Text → List Request → Attempt Json × List Request
unfolding posted checked complete
register_with_invite w d code codepass sent =
    let (r, sent') = posted w (codes "api/auth/registercodes") (invite_form d code codepass) sent in
    (complete (checked r), sent')

-- `body.get("data") or {}` of any answer, `{}` where there is none.
unfoldable pub best_effort : Reply → Json
best_effort unreachable = object no_members
best_effort (answered status none) = object no_members
best_effort (answered status (some body)) = data_of body

abbrev pub phone_form : Text → Text → List (Text × Text)
phone_form tel indicatif = (codes "tel", tel) ∷ (codes "tel_indicatif", indicatif) ∷ []

-- `verify_user`
unfoldable pub verify_user : World → Text → Text → List Request → Json × List Request
unfolding posted best_effort
verify_user w tel indicatif sent =
    let (r, sent') = posted w (codes "api/auth/verify") (phone_form tel indicatif) sent in
    (best_effort r, sent')

-- `register_phone_for_sms`
unfoldable pub register_phone_for_sms :
    World → Device → Text → Text → List Request → Attempt Json × List Request
unfolding posted checked
register_phone_for_sms w d tel indicatif sent =
    let form =
      phone_form tel indicatif
      ++ described
      ++ (codes "device_id", d.device_id)
        ∷ (codes "description", codes "Galaxy S25")
        ∷ (codes "appversion", codes "4.6.4")
        ∷ (codes "id_fcm", d.fcm_token)
        ∷ (codes "id_wonderpush", [])
        ∷ (codes "bundleid", bundle_id)
        ∷ [] in
    let (r, sent') = posted w (codes "api/auth/register") form sent in (checked r, sent')

abbrev pub no_data : Attempt Json → Attempt (Unit {0})
no_data (given block) = given tt
no_data (fails e) = fails e

-- `validate_sms_code`
unfoldable pub validate_sms_code :
    World → Device → Text → Text → Text → List Request → Attempt (Unit {0}) × List Request
unfolding posted checked
validate_sms_code w d tel indicatif code sent =
    let form =
      phone_form tel indicatif ++ (codes "device_id", d.device_id) ∷ (codes "code", code) ∷ [] in
    let (r, sent') = posted w (codes "api/auth/validate") form sent in (no_data (checked r), sent')

-- The exception when no candidate gave a JWT: `last` is the last body, `failed` tells of an error.
unfoldable pub no_jwt : Json → Bool → Problem
no_jwt last failed = if not (holds last) && failed then bad_answer else rejected

-- What the loop makes of one answer; `rest` goes on with the other candidates.
unfoldable pub next_answer :
    (Json → Bool → List Request → Attempt Json × List Request)
    → Json
    → Bool
    → Reply × List Request
    → Attempt Json × List Request
next_answer rest last failed (unreachable, sent) = rest last true sent
next_answer rest last failed (answered status none, sent) = rest last true sent
next_answer rest last failed (answered status (some body), sent) =
    if not (is_object body)
    then rest body failed sent
    else if not (is_object (data_of body))
    then (fails bad_shape, sent)
    else if holds (get (codes "jwt") (data_of body))
    then (given (data_of body), sent)
    else rest body failed sent

unfoldable pub try_answers :
    World → Device → List Text → Json → Bool → List Request → Attempt Json × List Request
unfolding posted next_answer no_jwt
try_answers w d [] last failed sent = (fails (no_jwt last failed), sent)
try_answers w d (tel ∷ tels) last failed sent = next_answer (try_answers w d tels) last failed (
    posted w (codes "api/auth/device")
      ((codes "app_id", d.app_id)
        ∷ (codes "app_token", d.app_token)
        ∷ (codes "tel", tel)
        ∷ (codes "device_id", d.device_id)
        ∷ (codes "appversion", codes "4.6.4")
        ∷ [])
      sent)

-- `authenticate_for_invite`
unfoldable pub authenticate_for_invite :
    World → Device → Text → Text → List Request → Attempt Json × List Request
unfolding try_answers tel_candidates
authenticate_for_invite w d tel indicatif sent =
    try_answers w d (tel_candidates tel indicatif) (object no_members) false sent
