-- ===== src/Rest/Bounds.antt =====
-- rest_api.py: how many requests an operation makes.
use ha_intratone.Base.{
  ℕ, ◌+◌, ◌≤◌, Option, none, some, List, [], ◌∷◌, ◌++◌, not, if-cases, ◌||◌, ◌&&◌, length,
  length-append, arith,
}
use ha_intratone.Base.Text.{Text, codes, truthy, text_eq, or_else}
use ha_intratone.Rest.Json.{Json, null, get, is_object, holds}
use ha_intratone.Rest.Session.{
  World, Request, auth_error, connection_error, shape_error, api_error, mobipass_error, Result,
  done, raised, Api, send, post_form, after,
}
use ha_intratone.Rest.Auth.{
  lstrip_zeros, tel_candidates, next_candidate, try_candidates, data_of, device_form,
  authenticate_device, store_jwt, refresh_jwt,
}
use ha_intratone.Rest.Calls.{
  Access, retried, answer_attempt, answer_path, answer_call, get_attempt, get_json, open_attempt,
  open_access, accepted, mobipass_attempt, mobipass_post,
}

-- At most `n` requests more.
abbrev pub Within : {A : Type 0} → ℕ → Api → Result A × Api → Type 0
Within n a (r, a') = length a'.sent ≤ length a.sent + n

send-Within : (w : World) (r : Request) (a : Api) → Within 1 a (send w r a)
unfolding send
send-Within w r a = omega (arith, length-append a.sent (r ∷ []))

post_form-Within :
    (w : World) (path : Text) (form : List (Text × Text)) (jwt : Json) (a : Api)
    → Within 1 a (post_form w path form jwt a)
unfolding post_form
post_form-Within w path form jwt a = send-Within w _ a

later :
    {A B : Type 0} (n k : ℕ) (a : Api) (r : Result A × Api) (f : A → Api → Result B × Api)
    → Within n a r
    → ((x : A) (a' : Api) → Within k a' (f x a'))
    → Within (n + k) a (after r f)
later n k a (done x, a') f h g = omega (arith, g x a')
later n k a (raised e, a') f h g = omega (arith)

next_candidate-Within :
    (w : World) (n : ℕ) (rest : Option (ℕ × Json) → Api → Result Json × Api)
    (last : Option (ℕ × Json)) (a : Api) (p : Result Json × Api)
    → ((o : Option (ℕ × Json)) (b : Api) → Within n b (rest o b))
    → Within 1 a p
    → Within (1 + n) a (next_candidate w rest last p)
unfolding next_candidate
next_candidate-Within w n rest last a (raised (api_error s b), a') k h =
    omega (arith, k (some (s, b)) a')
next_candidate-Within w n rest last a (raised auth_error, a') k h = omega arith
next_candidate-Within w n rest last a (raised connection_error, a') k h = omega arith
next_candidate-Within w n rest last a (raised shape_error, a') k h = omega arith
next_candidate-Within w n rest last a (raised (mobipass_error c), a') k h = omega arith
next_candidate-Within w n rest last a (done body, a') k h =
    if-cases (Within (1 + n) a) (not (is_object (data_of body))) (λ shape. omega arith)
      (λ dict.
        if-cases (Within (1 + n) a) (holds (get (codes "jwt") (data_of body)))
          (λ found. omega arith) (λ none. omega (arith, k last a')))

try_candidates-Within :
    (w : World) (tels : List Text) (last : Option (ℕ × Json)) (a : Api)
    → Within (length tels) a (try_candidates w tels last a)
unfolding try_candidates
try_candidates-Within w [] last a = omega arith
try_candidates-Within w (tel ∷ tels) last a = omega (
  arith,
  next_candidate-Within w (length tels) (try_candidates w tels) last a _
      (try_candidates-Within w tels)
      (post_form-Within w (codes "api/auth/device") (device_form a tel) null a),
)

pub tel_candidates_few : (tel indicatif : Text) → length (tel_candidates tel indicatif) ≤ 3
unfolding tel_candidates
tel_candidates_few tel indicatif =
    if-cases (λ ts. length ts ≤ 3)
      (truthy (lstrip_zeros tel) && not (text_eq (lstrip_zeros tel) tel))
      {x = tel ∷ (indicatif ++ lstrip_zeros tel) ∷ lstrip_zeros tel ∷ []} {y = tel ∷ []}
      (λ three. omega arith) (λ one. omega arith)

authenticate_device-Within : (w : World) (a : Api) → Within 3 a (authenticate_device w a)
unfolding authenticate_device
authenticate_device-Within w a =
    let tels = tel_candidates a.tel (or_else a.indicatif (codes "33")) in
    if-cases (Within 3 a) (not (truthy a.tel) || not (truthy a.device_id)) (λ missing. omega arith)
      (λ there. omega (
        arith,
        try_candidates-Within w tels none a,
        tel_candidates_few a.tel (or_else a.indicatif (codes "33")),
      ))

store_jwt-Within : (w : World) (block : Json) (a : Api) → Within 0 a (store_jwt w block a)
unfolding store_jwt
store_jwt-Within w block a =
    if-cases (Within 0 a) (not (holds (get (codes "jwt") block))) (λ gone. omega arith)
      (λ there.
        if-cases (Within 0 a) (holds (get (codes "id") block)) (λ new. omega arith)
          (λ old. omega arith))

refresh_jwt-Within : (w : World) (a : Api) → Within 3 a (refresh_jwt w a)
unfolding refresh_jwt
refresh_jwt-Within w a =
    later 3 0 a (authenticate_device w a) (store_jwt w) (authenticate_device-Within w a)
      (store_jwt-Within w)

retried-Within :
    {A : Type 0} (w : World) (attempt : Api → Result A × Api) (a : Api) (r : Result A × Api)
    → Within 1 a r
    → ((b : Api) → Within 1 b (attempt b))
    → Within 5 a (retried w attempt r)
unfolding retried
retried-Within w attempt a (done x, a') h k = omega arith
retried-Within w attempt a (raised (api_error s b), a') h k =
    omega (arith, later 3 1 a' (refresh_jwt w a') (λ u. attempt) (refresh_jwt-Within w a') (λ u. k))
retried-Within w attempt a (raised auth_error, a') h k = omega arith
retried-Within w attempt a (raised connection_error, a') h k = omega arith
retried-Within w attempt a (raised shape_error, a') h k = omega arith
retried-Within w attempt a (raised (mobipass_error c), a') h k = omega arith

accepted-Within : (body : Json) (a : Api) → Within 0 a (accepted body a)
accepted-Within body a = omega arith

command-Within :
    (w : World) (attempt : Api → Result Json × Api) (a : Api)
    → ((b : Api) → Within 1 b (attempt b))
    → Within 5 a (after (retried w attempt (attempt a)) accepted)
command-Within w attempt a k =
    later 5 0 a (retried w attempt (attempt a)) accepted
      (retried-Within w attempt a (attempt a) (k a) k) accepted-Within

answer_attempt-Within : (w : World) (path : Text) (a : Api) → Within 1 a (answer_attempt w path a)
unfolding answer_attempt
answer_attempt-Within w path a = post_form-Within w path _ a.jwt a

open_attempt-Within : (w : World) (access : Access) (a : Api) → Within 1 a (open_attempt w access a)
unfolding open_attempt
open_attempt-Within w access a = post_form-Within w _ _ a.jwt a

get_attempt-Within : (w : World) (path : Text) (a : Api) → Within 1 a (get_attempt w path a)
unfolding get_attempt
get_attempt-Within w path a = send-Within w _ a

mobipass_attempt-Within :
    (w : World) (path : Text) (form : List (Text × Text)) (a : Api)
    → Within 1 a (mobipass_attempt w path form a)
unfolding mobipass_attempt
mobipass_attempt-Within w path form a = post_form-Within w path form a.jwt a

answer_call-Within : (w : World) (call_id : Text) (a : Api) → Within 5 a (answer_call w call_id a)
unfolding answer_call
answer_call-Within w call_id a =
    let path = answer_path w call_id in
    if-cases (Within 5 a) (not (holds a.jwt)) (λ gone. omega arith)
      (λ there.
        if-cases (Within 5 a) (not (truthy a.numeric_id)) (λ unknown. omega arith)
          (λ known. command-Within w (answer_attempt w path) a (answer_attempt-Within w path)))

open_access-Within : (w : World) (access : Access) (a : Api) → Within 5 a (open_access w access a)
unfolding open_access
open_access-Within w access a =
    if-cases (Within 5 a) (not (holds a.jwt)) (λ gone. omega arith)
      (λ there. command-Within w (open_attempt w access) a (open_attempt-Within w access))

get_json-Within : (w : World) (path : Text) (a : Api) → Within 5 a (get_json w path a)
unfolding get_json
get_json-Within w path a =
    if-cases (Within 5 a) (not (holds a.jwt)) (λ gone. omega arith)
      (λ there.
        retried-Within w (get_attempt w path) a (get_attempt w path a) (get_attempt-Within w path a)
          (get_attempt-Within w path))

mobipass_post-Within :
    (w : World) (path : Text) (form : List (Text × Text)) (a : Api)
    → Within 5 a (mobipass_post w path form a)
unfolding mobipass_post
mobipass_post-Within w path form a =
    if-cases (Within 5 a) (not (holds a.jwt)) (λ gone. omega arith)
      (λ there.
        retried-Within w (mobipass_attempt w path form) a (mobipass_attempt w path form a)
          (mobipass_attempt-Within w path form a) (mobipass_attempt-Within w path form))

-- Whatever the server answers, answering a call, opening an access, a GET and a Mobipass request send at
-- most five requests each: the request, at most three attempts to authenticate, and the request again.
pub commands-Within :
    (w : World) (call_id path : Text) (access : Access) (form : List (Text × Text)) (a : Api)
    → Within 5 a (answer_call w call_id a)
      × Within 5 a (open_access w access a)
      × Within 5 a (get_json w path a)
      × Within 5 a (mobipass_post w path form a)
commands-Within w call_id path access form a = (
  answer_call-Within w call_id a,
  open_access-Within w access a,
  get_json-Within w path a,
  mobipass_post-Within w path form a,
)
