-- ===== src/Rest/Registered.antt =====
-- rest_api.py: what the calls before there is an entry return.
use ha_intratone.Base.{
  ℕ, ◌+◌, ◌≤◌, suc, Bool, true, false, none, some, List, [], ◌∷◌, not, if-cases, ◌||◌, length,
  length-append, arith, ◌≡◌, refl,
}
use ha_intratone.Base.Text.{Text, codes}
use ha_intratone.Rest.Json.{Json, get, is_object, holds, object, no_members}
use ha_intratone.Rest.Session.{World, Request, Reply, unreachable, answered}
use ha_intratone.Rest.Auth.{data_of, tel_candidates}
use ha_intratone.Rest.Bounds.{tel_candidates_few}
use ha_intratone.Rest.Onboarding.{
  Attempt, given, fails, Device, posted, checked, complete, register_with_invite, invite_form,
  next_answer, try_answers, authenticate_for_invite,
}

-- A block that `register_with_invite` returns, and one that `authenticate_for_invite` returns.
abbrev pub Registered : Attempt Json → Type 0
Registered (fails e) = Unit {0}
Registered (given block) =
    (is_object block ≡ true)
    × (holds (get (codes "id") block) ≡ true)
    × (holds (get (codes "tel") block) ≡ true)

abbrev pub Granted : Attempt Json → Type 0
Granted (fails e) = Unit {0}
Granted (given block) = (is_object block ≡ true) × (holds (get (codes "jwt") block) ≡ true)

double_negation : (b : Bool) → not b ≡ false → b ≡ true
double_negation true e = refl
double_negation false e = cc

both_hold : (a b : Bool) → (not a || not b) ≡ false → (a ≡ true) × (b ≡ true)
both_hold true true e = (refl, refl)
both_hold true false e = cc
both_hold false b e = cc

complete-Registered : (r : Attempt Json) → Registered (complete r)
unfolding complete
complete-Registered (fails e) = tt
complete-Registered (given block) =
    if-cases Registered (not (is_object block)) (λ shape. tt)
      (λ dict.
        if-cases Registered
          (not (holds (get (codes "id") block)) || not (holds (get (codes "tel") block)))
          (λ missing. tt)
          (λ whole.
            let (i, t) =
              both_hold (holds (get (codes "id") block)) (holds (get (codes "tel") block)) whole in
            (double_negation (is_object block) dict, i, t)))

-- A granted block or an exception, after at most `n` requests more.
abbrev pub Answered : ℕ → List Request → Attempt Json × List Request → Type 0
Answered n before (r, after) = Granted r × (length after ≤ length before + n)

next_answer-Answered :
    (n : ℕ) (rest : Json → Bool → List Request → Attempt Json × List Request) (last : Json)
    (failed : Bool) (before : List Request) (p : Reply × List Request)
    → ((j : Json) (b : Bool) (after : List Request) → Answered n after (rest j b after))
    → length p.1 ≤ length before + 1
    → Answered (suc n) before (next_answer rest last failed p)
unfolding next_answer
next_answer-Answered n rest last failed before (unreachable, a) k h =
    let (g, l) = k last true a in (g, omega arith)
next_answer-Answered n rest last failed before (answered status none, a) k h =
    let (g, l) = k last true a in (g, omega arith)
next_answer-Answered n rest last failed before (answered status (some body), a) k h =
    let (g, l) = k body failed a in
    if-cases (Answered (suc n) before) (not (is_object body)) (λ other. (g, omega arith))
      (λ dict.
        if-cases (Answered (suc n) before) (not (is_object (data_of body)))
          (λ shape. (tt, omega arith))
          (λ inner.
            if-cases (Answered (suc n) before) (holds (get (codes "jwt") (data_of body)))
              (λ there. ((double_negation (is_object (data_of body)) inner, there), omega arith))
              (λ gone. (g, omega arith))))

posted_once :
    (w : World) (path : Text) (form : List (Text × Text)) (sent : List Request)
    → length (posted w path form sent).1 ≤ length sent + 1
unfolding posted
posted_once w path form sent = omega (
  arith,
  length-append sent (record { path = path; form = some form; authorization = none } ∷ []),
)

try_answers-Answered :
    (w : World) (d : Device) (tels : List Text) (last : Json) (failed : Bool) (sent : List Request)
    → Answered (length tels) sent (try_answers w d tels last failed sent)
unfolding try_answers
try_answers-Answered w d [] last failed sent = (tt, omega arith)
try_answers-Answered w d (tel ∷ tels) last failed sent =
    next_answer-Answered (length tels) (try_answers w d tels) last failed sent _
      (try_answers-Answered w d tels) (posted_once w _ _ sent)

-- Whatever the server answers before there is an entry: what `register_with_invite` returns is a dict with
-- an id and a phone number; what `authenticate_for_invite` returns is a dict with a JWT, and it sends at
-- most three requests.
pub onboarding_answers :
    (w : World) (d : Device) (code codepass tel indicatif : Text) (sent : List Request)
    → Registered (register_with_invite w d code codepass sent).0
      × Answered 3 sent (authenticate_for_invite w d tel indicatif sent)
unfolding register_with_invite authenticate_for_invite
onboarding_answers w d code codepass tel indicatif sent =
    let (g, l) =
      try_answers-Answered w d (tel_candidates tel indicatif) (object no_members) false sent in
    (
      complete-Registered (
          checked (posted w (codes "api/auth/registercodes") (invite_form d code codepass) sent).0),
      (g, omega (arith, tel_candidates_few tel indicatif)),
    )
