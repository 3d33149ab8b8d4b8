-- ===== src/Rest/Verdicts.antt =====
-- rest_api.py: an outage of the server is told from its refusal.
use ha_intratone.Base.{
  ℕ, Bool, true, false, Option, none, some, List, [], ◌∷◌, ◌++◌, not, if-cases, ◌||◌, ◌&&◌, ◌≡◌,
  refl, ◌∙◌, ap,
}
use ha_intratone.Base.Text.{Text, codes, truthy, text_eq, or_else}
use ha_intratone.Rest.Json.{Json, null}
use ha_intratone.Rest.Session.{
  World, Request, Failure, auth_error, connection_error, shape_error, api_error, mobipass_error,
  Result, done, raised, Api, result_of, send, post_form, after,
}
use ha_intratone.Rest.Auth.{
  lstrip_zeros, tel_candidates, next_candidate, try_candidates, verdict, device_form,
  authenticate_device, store_jwt, refresh_jwt, transient, reauth, ticked, tick,
}
use ha_intratone.Rest.Failures.{
  Down, Fails, Outage, Refusal, Refused, result_of-Outage, result_of-Refusal, verdict-Outage,
  verdict-Refusal,
}

-- A failed authentication that changes nothing but the requests sent.
abbrev Stays : {A : Type 0} → (Failure → Type 0) → Api → Result A × Api → Type 0
Stays P a (r, a') = Fails P r × (a'.jwt ≡ a.jwt) × (a'.numeric_id ≡ a.numeric_id)

-- A request fails with an API error or without a connection.
record Plain (P : Failure → Type 0) : Type 0 where
  no_auth : P auth_error → ⊥
  no_shape : P shape_error → ⊥
  no_mobipass : (code : Text) → P (mobipass_error code) → ⊥

Outage-Plain : Plain Outage
Outage-Plain = record { no_auth = λ h. h; no_shape = λ h. h; no_mobipass = λ c h. h }

Refusal-Plain : Plain Refusal
Refusal-Plain = record { no_auth = λ h. h; no_shape = λ h. h; no_mobipass = λ c h. h }

abbrev IsAuth : Failure → Type 0
IsAuth e = e ≡ auth_error

pub both_there : (a b : Bool) → a ≡ true → b ≡ true → (not a || not b) ≡ true → ⊥
both_there true true e f h = cc
both_there true false e f h = cc
both_there false b e f h = cc

-- Nothing is stored.
not_stored :
    (Q : Failure → Type 0) (w : World) (a : Api) (p : Result Json × Api)
    → Stays Q a p
    → Stays Q a (after p (store_jwt w))
not_stored Q w a (done x, a') (h, e, f) = absurd h
not_stored Q w a (raised x, a') h = h

-- What `P` is of every request, `Q` of the verdict on them.
module _ (P Q : Failure → Type 0) (plain : Plain P) (lost : P connection_error → Q connection_error)
    (judged : (status : ℕ) (body : Json)
      → P (api_error status body)
      → Q (verdict (some (status, body))))
    (w : World) (fails : (h : List Request) (r : Request) → Fails P (result_of (w.reply h r))) where
  next-Stays :
      (rest : Option (ℕ × Json) → Api → Result Json × Api) (last : Option (ℕ × Json)) (a : Api)
      (p : Result Json × Api)
      → ((status : ℕ) (body : Json) (b : Api)
          → P (api_error status body)
          → Stays Q b (rest (some (status, body)) b))
      → Stays P a p
      → Stays Q a (next_candidate w rest last p)
  unfolding next_candidate
  next-Stays rest last a (done x, a') k (h, e, f) = absurd h
  next-Stays rest last a (raised (api_error s b), a') k (h, e, f) =
      let (i, j, l) = k s b a' h in (i, j ∙ e, l ∙ f)
  next-Stays rest last a (raised connection_error, a') k (h, e, f) = (lost h, e, f)
  next-Stays rest last a (raised auth_error, a') k (h, e, f) = absurd (plain.no_auth h)
  next-Stays rest last a (raised shape_error, a') k (h, e, f) = absurd (plain.no_shape h)
  next-Stays rest last a (raised (mobipass_error c), a') k (h, e, f) =
      absurd (plain.no_mobipass c h)

  post_form-Stays :
      (path : Text) (form : List (Text × Text)) (jwt : Json) (a : Api)
      → Stays P a (post_form w path form jwt a)
  unfolding post_form send
  post_form-Stays path form jwt a = (fails a.sent _, refl, refl)

  others-Stays :
      (tels : List Text) (status : ℕ) (body : Json) (a : Api)
      → P (api_error status body)
      → Stays Q a (try_candidates w tels (some (status, body)) a)
  unfolding try_candidates
  others-Stays [] status body a h = (judged status body h, refl, refl)
  others-Stays (tel ∷ tels) status body a h =
      next-Stays (try_candidates w tels) _ a _ (others-Stays tels)
        (post_form-Stays (codes "api/auth/device") (device_form a tel) null a)

  first-Stays :
      (tel : Text) (tels : List Text) (a : Api) → Stays Q a (try_candidates w (tel ∷ tels) none a)
  unfolding try_candidates
  first-Stays tel tels a =
      next-Stays (try_candidates w tels) none a _ (others-Stays tels)
        (post_form-Stays (codes "api/auth/device") (device_form a tel) null a)

  authenticate_device-Stays :
      (a : Api)
      → truthy a.tel ≡ true
      → truthy a.device_id ≡ true
      → Stays Q a (authenticate_device w a)
  unfolding authenticate_device tel_candidates
  authenticate_device-Stays a t d =
      if-cases (Stays Q a) (not (truthy a.tel) || not (truthy a.device_id))
        (λ missing. absurd (both_there _ _ t d missing))
        (λ there.
          if-cases (λ tels. Stays Q a (try_candidates w tels none a))
            (truthy (lstrip_zeros a.tel) && not (text_eq (lstrip_zeros a.tel) a.tel))
            (λ three.
              first-Stays a.tel
                ((or_else a.indicatif (codes "33") ++ lstrip_zeros a.tel) ∷ lstrip_zeros a.tel ∷ [])
                a)
            (λ one. first-Stays a.tel [] a))

  refresh_jwt-Stays :
      (a : Api) → truthy a.tel ≡ true → truthy a.device_id ≡ true → Stays Q a (refresh_jwt w a)
  unfolding refresh_jwt
  refresh_jwt-Stays a t d =
      not_stored Q w a (authenticate_device w a) (authenticate_device-Stays a t d)

ticked-Outage : (r : Result (Unit {0})) → Fails Outage r → ticked r ≡ transient
ticked-Outage (done u) h = absurd h
ticked-Outage (raised connection_error) h = refl
ticked-Outage (raised (api_error s b)) h = refl
ticked-Outage (raised auth_error) h = absurd h
ticked-Outage (raised shape_error) h = absurd h
ticked-Outage (raised (mobipass_error c)) h = absurd h

ticked-IsAuth : (r : Result (Unit {0})) → Fails IsAuth r → ticked r ≡ reauth
ticked-IsAuth (done u) h = absurd h
ticked-IsAuth (raised e) h = ap (λ f. ticked (raised f)) h

-- If the server is down, so that every request finds no connection, no JSON or a status from 500, then
-- a tick of the periodic refresh, for a client with a phone number and a device, is taken as transient:
-- no reauthentication is asked for, and the stored JWT and the account's id stay.
pub tick-transient :
    (w : World) (a : Api)
    → ((h : List Request) (r : Request) → Down (w.reply h r))
    → truthy a.tel ≡ true
    → truthy a.device_id ≡ true
    → ((tick w a).0 ≡ transient)
      × ((tick w a).1.jwt ≡ a.jwt)
      × ((tick w a).1.numeric_id ≡ a.numeric_id)
unfolding tick
tick-transient w a down t d =
    let (h, e, f) =
      refresh_jwt-Stays Outage Outage Outage-Plain (λ h. h) verdict-Outage w
        (λ h r. result_of-Outage (w.reply h r) (down h r)) a t d in
    (ticked-Outage (refresh_jwt w a).0 h, e, f)

-- If the server answers every request with a refusal, a JSON object with a status from 400 and below
-- 500, then such a tick asks for a reauthentication, and the stored JWT and the account's id stay.
pub tick-reauth :
    (w : World) (a : Api)
    → ((h : List Request) (r : Request) → Refused (w.reply h r))
    → truthy a.tel ≡ true
    → truthy a.device_id ≡ true
    → ((tick w a).0 ≡ reauth)
      × ((tick w a).1.jwt ≡ a.jwt)
      × ((tick w a).1.numeric_id ≡ a.numeric_id)
unfolding tick
tick-reauth w a refused t d =
    let (h, e, f) =
      refresh_jwt-Stays Refusal IsAuth Refusal-Plain (λ h. absurd h) verdict-Refusal w
        (λ h r. result_of-Refusal (w.reply h r) (refused h r)) a t d in
    (ticked-IsAuth (refresh_jwt w a).0 h, e, f)
