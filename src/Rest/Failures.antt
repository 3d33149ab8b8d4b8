-- ===== src/Rest/Failures.antt =====
-- rest_api.py: the failures of an outage and of a refusal.
use ha_intratone.Base.{
  ℕ, ◌≤◌, ◌<◌, Bool, true, false, none, some, not, if◌then◌else◌, if-cases, ◌||◌, arith, ◌≡◌, ◌⊎◌,
  inl, inr, refl, leb,
}
use ha_intratone.Base.Text.{codes}
use ha_intratone.Rest.Json.{
  Json, null, boolean, number, text, array, object, get, is_object, is_text,
}
use ha_intratone.Rest.Session.{
  Reply, unreachable, answered, Failure, auth_error, connection_error, api_error, Result, done,
  raised, parse_json_response, result_of,
}
use ha_intratone.Rest.Auth.{verdict}

-- The server is not reached, or answers with something else than JSON or with a status from 500.
abbrev pub Down : Reply → Type 0
Down unreachable = Unit {0}
Down (answered status none) = Unit {0}
Down (answered status (some body)) = 500 ≤ status

-- The server refuses, with a status from 400 and a JSON object.
abbrev pub Refused : Reply → Type 0
Refused unreachable = ⊥
Refused (answered status none) = ⊥
Refused (answered status (some body)) = (is_object body ≡ true) × (400 ≤ status) × (status < 500)

-- The failures of an outage, and of a refusal.
abbrev pub Outage : Failure → Type 0
Outage connection_error = Unit {0}
Outage (api_error status body) = (body ≡ null) ⊎ (500 ≤ status)
Outage _ = ⊥

abbrev pub Refusal : Failure → Type 0
Refusal (api_error status body) = (is_object body ≡ true) × (status < 500)
Refusal _ = ⊥

-- The failure of a request.
abbrev pub Fails : {A : Type 0} → (Failure → Type 0) → Result A → Type 0
Fails P (done x) = ⊥
Fails P (raised e) = P e

pub at_least : (n : ℕ) → 400 ≤ n → leb 400 n ≡ true
at_least n h = ground arith

pub or_true : (a b : Bool) → b ≡ true → (a || b) ≡ false → ⊥
or_true true b e f = cc
or_true false b e f = cc

-- A status from 400 fails, and the failure has the status and the body.
parse-Fails :
    (P : Failure → Type 0) (status : ℕ) (body : Json)
    → 400 ≤ status
    → P (api_error status body)
    → Fails P (parse_json_response status (some body))
unfolding parse_json_response
parse-Fails P status body h p =
    if-cases (Fails P) (not (is_object body)) (λ shape. p)
      (λ dict.
        if-cases (Fails P) (is_text (get (codes "state") body) (codes "error") || leb 400 status)
          (λ bad. p) (λ good. absurd (or_true _ _ (at_least status h) good)))

pub result_of-Outage : (r : Reply) → Down r → Fails Outage (result_of r)
unfolding result_of parse_json_response
result_of-Outage unreachable h = tt
result_of-Outage (answered status none) h = inl refl
result_of-Outage (answered status (some body)) h =
    parse-Fails Outage status body (omega arith) (inr h)

pub result_of-Refusal : (r : Reply) → Refused r → Fails Refusal (result_of r)
unfolding result_of
result_of-Refusal unreachable h = absurd h
result_of-Refusal (answered status none) h = absurd h
result_of-Refusal (answered status (some body)) (o, l, u) = parse-Fails Refusal status body l (o, u)

-- The verdict on a last failure.
by_status :
    (status : ℕ) (body : Json)
    → 500 ≤ status
    → Outage (if leb 500 status then api_error status body else auth_error)
by_status status body h = if-cases Outage (leb 500 status) (λ up. inr h) (λ down. ground arith)

pub verdict-Outage :
    (status : ℕ) (body : Json)
    → Outage (api_error status body)
    → Outage (verdict (some (status, body)))
unfolding verdict
verdict-Outage status null h = inl refl
verdict-Outage status (boolean b) (inl e) = cc
verdict-Outage status (boolean b) (inr h) = by_status status (boolean b) h
verdict-Outage status (number z t) (inl e) = cc
verdict-Outage status (number z t) (inr h) = by_status status (number z t) h
verdict-Outage status (text t) (inl e) = cc
verdict-Outage status (text t) (inr h) = by_status status (text t) h
verdict-Outage status (array js) (inl e) = cc
verdict-Outage status (array js) (inr h) = by_status status (array js) h
verdict-Outage status (object ms) (inl e) = cc
verdict-Outage status (object ms) (inr h) = by_status status (object ms) h

pub verdict-Refusal :
    (status : ℕ) (body : Json)
    → Refusal (api_error status body)
    → verdict (some (status, body)) ≡ auth_error
unfolding verdict
verdict-Refusal status (object ms) (o, h) = ground arith
verdict-Refusal status null (o, h) = cc
verdict-Refusal status (boolean b) (o, h) = cc
verdict-Refusal status (number z t) (o, h) = cc
verdict-Refusal status (text t) (o, h) = cc
verdict-Refusal status (array js) (o, h) = cc
