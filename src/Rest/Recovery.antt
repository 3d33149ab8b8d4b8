-- ===== src/Rest/Recovery.antt =====
-- rest_api.py: an expired JWT is replaced, and the command repeated.
use ha_intratone.Base.{
  ℕ, ◌≤◌, Bool, true, false, Option, none, some, List, [], ◌∷◌, ◌++◌, not, if-cases, ◌||◌, ◌&&◌,
  ◌≡◌, refl, leb, subst, sym, ◌∙◌, ap,
}
use ha_intratone.Base.Text.{Text, codes, truthy, text_eq, or_else}
use ha_intratone.Rest.Json.{
  Json, text, number, object, member, no_members, get, is_object, is_text, holds, str,
  error_flag_ok,
}
use ha_intratone.Rest.Session.{
  World, Request, answered, api_error, Result, done, raised, Api, bearer, parse_json_response,
  result_of, send, post_form, after,
}
use ha_intratone.Rest.Auth.{
  lstrip_zeros, tel_candidates, next_candidate, try_candidates, authenticate_device, store_jwt,
  refresh_jwt,
}
use ha_intratone.Rest.Calls.{
  Access, retried, answer_attempt, answer_path, answer_call, open_path, open_attempt, open_access,
  accepted,
}
use ha_intratone.Rest.Verdicts.{both_there}
use ha_intratone.Rest.Failures.{at_least, or_true}

-- The answer of the authentication, with a new JWT.
abbrev pub granted : Text → Json
granted jwt =
    object (member (codes "data") (object (member (codes "jwt") (text jwt) no_members)) no_members)

-- The answer to a command that was carried out.
abbrev pub executed : Json
executed = object (member (codes "error") (number true (codes "0")) no_members)

-- A server that knows the JWT `jwt`: it grants it, refuses the others and executes what carries it.
pub record Serves (w : World) (jwt : Text) (path : Text) (stale : Json) : Type 0 where
  pub grants :
      (h : List Request) (r : Request)
      → r.path ≡ codes "api/auth/device"
      → w.reply h r ≡ answered 200 (some (granted jwt))
  pub refuses :
      (h : List Request) (r : Request)
      → r.path ≡ path
      → r.authorization ≡ bearer w stale
      → (status : ℕ) × (body : Json) × (400 ≤ status) × (w.reply h r ≡ answered status (some body))
  pub executes :
      (h : List Request) (r : Request)
      → r.path ≡ path
      → r.authorization ≡ some jwt
      → w.reply h r ≡ answered 200 (some executed)

granted_read :
    (c : ℕ) (s : Text) → parse_json_response 200 (some (granted (c ∷ s))) ≡ done (granted (c ∷ s))
unfolding parse_json_response text_eq
granted_read c s = refl

executed_read : parse_json_response 200 (some executed) ≡ done executed
unfolding parse_json_response text_eq
executed_read = refl

refused_read :
    (status : ℕ) (body : Json)
    → 400 ≤ status
    → parse_json_response status (some body) ≡ raised (api_error status body)
unfolding parse_json_response
refused_read status body h =
    let P : Result Json → Type 0 = λ r. r ≡ raised (api_error status body) in
    if-cases P (not (is_object body)) (λ shape. refl)
      (λ dict.
        if-cases P (is_text (get (codes "state") body) (codes "error") || leb 400 status)
          (λ bad. refl) (λ good. absurd (or_true _ _ (at_least status h) good)))

module _ (w : World) (c : ℕ) (s : Text) (path : Text) (stale : Json)
    (serves : Serves w (c ∷ s) path stale) where
  abbrev Granted : Result Json × Api → Type 0
  Granted (done x, b) = x ≡ get (codes "data") (granted (c ∷ s))
  Granted (raised e, b) = ⊥

  abbrev Renewed : Result (Unit {0}) × Api → Type 0
  Renewed (done u, b) = b.jwt ≡ text (c ∷ s)
  Renewed (raised e, b) = ⊥

  abbrev Executed : Result Json × Api → Type 0
  Executed (r, b) = (r ≡ done executed) × (b.jwt ≡ text (c ∷ s))

  next-Granted :
      (rest : Option (ℕ × Json) → Api → Result Json × Api) (r : Result Json) (b : Api)
      → r ≡ done (granted (c ∷ s))
      → Granted (next_candidate w rest none (r, b))
  unfolding next_candidate text_eq
  next-Granted rest r b e = subst (λ x. Granted (next_candidate w rest none (x, b))) (sym e) refl

  first-Granted :
      (tel : Text) (tels : List Text) (a : Api) → Granted (try_candidates w (tel ∷ tels) none a)
  unfolding try_candidates post_form send result_of
  first-Granted tel tels a =
      next-Granted (try_candidates w tels) _ _
        (ap result_of (serves.grants a.sent _ refl) ∙ granted_read c s)

  authenticate_device-Granted :
      (a : Api)
      → truthy a.tel ≡ true
      → truthy a.device_id ≡ true
      → Granted (authenticate_device w a)
  unfolding authenticate_device tel_candidates
  authenticate_device-Granted a t d =
      if-cases Granted (not (truthy a.tel) || not (truthy a.device_id))
        (λ missing. absurd (both_there _ _ t d missing))
        (λ there.
          if-cases (λ tels. Granted (try_candidates w tels none a))
            (truthy (lstrip_zeros a.tel) && not (text_eq (lstrip_zeros a.tel) a.tel))
            (λ three.
              first-Granted a.tel
                ((or_else a.indicatif (codes "33") ++ lstrip_zeros a.tel) ∷ lstrip_zeros a.tel ∷ [])
                a)
            (λ one. first-Granted a.tel [] a))

  store_jwt-Renewed : (p : Result Json × Api) → Granted p → Renewed (after p (store_jwt w))
  unfolding store_jwt text_eq
  store_jwt-Renewed (done x, b) e = subst (λ y. Renewed (store_jwt w y b)) (sym e) refl
  store_jwt-Renewed (raised x, b) h = absurd h

  refresh_jwt-Renewed :
      (a : Api) → truthy a.tel ≡ true → truthy a.device_id ≡ true → Renewed (refresh_jwt w a)
  unfolding refresh_jwt
  refresh_jwt-Renewed a t d =
      store_jwt-Renewed (authenticate_device w a) (authenticate_device-Granted a t d)

  -- The command with the new JWT.
  again :
      (form : Api → List (Text × Text)) (p : Result (Unit {0}) × Api)
      → Renewed p
      → Executed (after p (λ u b. post_form w path (form b) b.jwt b))
  unfolding post_form send bearer str result_of
  again form (done u, b) e =
      (ap result_of (serves.executes b.sent _ refl (ap (bearer w) e)) ∙ executed_read, e)
  again form (raised x, b) h = absurd h

  retried-Executed :
      (form : Api → List (Text × Text)) (r : Result Json) (a : Api) (status : ℕ) (body : Json)
      → truthy a.tel ≡ true
      → truthy a.device_id ≡ true
      → r ≡ raised (api_error status body)
      → Executed (retried w (λ b. post_form w path (form b) b.jwt b) (r, a))
  unfolding retried
  retried-Executed form r a status body t d e =
      subst (λ x. Executed (retried w (λ b. post_form w path (form b) b.jwt b) (x, a))) (sym e)
        (again form (refresh_jwt w a) (refresh_jwt-Renewed a t d))

  command-Executed :
      (form : Api → List (Text × Text)) (a : Api)
      → a.jwt ≡ stale
      → truthy a.tel ≡ true
      → truthy a.device_id ≡ true
      → Executed
          (retried w (λ b. post_form w path (form b) b.jwt b) (post_form w path (form a) a.jwt a))
  unfolding post_form send result_of
  command-Executed form a j t d =
      let (status, body, h, e) = serves.refuses a.sent _ refl (ap (bearer w) j) in
      retried-Executed form _ _ status body t d (ap result_of e ∙ refused_read status body h)

  abbrev Carried : Result Bool × Api → Type 0
  Carried (r, b) = (r ≡ done true) × (b.jwt ≡ text (c ∷ s))

  accepted-Carried : (p : Result Json × Api) → Executed p → Carried (after p accepted)
  unfolding error_flag_ok text_eq
  accepted-Carried (r, b) (e, j) = subst (λ x. Carried (after (x, b) accepted)) (sym e) (refl, j)

negation_absurd : (b : Bool) → b ≡ true → not b ≡ true → ⊥
negation_absurd true e f = cc
negation_absurd false e f = cc

-- The stored JWT has expired: the server refuses it, grants a new one to the device and executes what
-- carries that. Then `answer_call`, for a client with its phone number, device and account id, returns
-- true, and the new JWT is stored.
pub answer_call-recovers :
    (w : World) (c : ℕ) (s call_id : Text) (a : Api)
    → Serves w (c ∷ s) (answer_path w call_id) a.jwt
    → holds a.jwt ≡ true
    → truthy a.numeric_id ≡ true
    → truthy a.tel ≡ true
    → truthy a.device_id ≡ true
    → ((answer_call w call_id a).0 ≡ done true) × ((answer_call w call_id a).1.jwt ≡ text (c ∷ s))
unfolding answer_call answer_attempt
answer_call-recovers w c s call_id a serves h n t d =
    let path = answer_path w call_id in
    let P : Result Bool × Api → Type 0 = λ p. (p.0 ≡ done true) × (p.1.jwt ≡ text (c ∷ s)) in
    if-cases P (not (holds a.jwt)) (λ gone. absurd (negation_absurd _ h gone))
      (λ there.
        if-cases P (not (truthy a.numeric_id)) (λ unknown. absurd (negation_absurd _ n unknown))
          (λ known. accepted-Carried w c s path a.jwt serves _ (
            command-Executed w c s path a.jwt serves
              (λ b. (codes "smartphone_id", b.numeric_id) ∷ []) a refl t d)))

-- The stored JWT has expired: the server refuses it, grants a new one to the device and executes what
-- carries that. Then `open_access`, for a client with its phone number and device, returns true, and the
-- new JWT is stored.
pub open_access-recovers :
    (w : World) (c : ℕ) (s : Text) (access : Access) (a : Api)
    → Serves w (c ∷ s) open_path a.jwt
    → holds a.jwt ≡ true
    → truthy a.tel ≡ true
    → truthy a.device_id ≡ true
    → ((open_access w access a).0 ≡ done true) × ((open_access w access a).1.jwt ≡ text (c ∷ s))
unfolding open_access open_attempt
open_access-recovers w c s access a serves h t d =
    let P : Result Bool × Api → Type 0 = λ p. (p.0 ≡ done true) × (p.1.jwt ≡ text (c ∷ s)) in
    if-cases P (not (holds a.jwt)) (λ gone. absurd (negation_absurd _ h gone))
      (λ there. accepted-Carried w c s open_path a.jwt serves _ (
        command-Executed w c s open_path a.jwt serves
          (λ b.
            (codes "phonenumber", access.phonenumber) ∷ (codes "access_id", access.access_id) ∷ [])
          a refl t d))
