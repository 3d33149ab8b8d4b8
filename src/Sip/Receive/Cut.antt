-- ===== src/Sip/Receive/Cut.antt =====
-- sip_client.py: where one message ends does not depend on the bytes behind it.
use ha_intratone.Base.{
  ℕ, suc, ◌+◌, ◌≤◌, ◌<◌, true, Option, none, some, [], ◌∷◌, ◌++◌, ◌≡◌, refl, inl, inr, arith,
  length, take, drop, length-append, length-drop, take-append, drop-append, get_or, ltb,
  if◌then◌else◌, Bool-cases, Option-cases, le→ltb, ap,
}
use ha_intratone.Base.Bytes.{Bytes}
use ha_intratone.Sip.Types.{Libs}
use ha_intratone.Sip.Receive.{at_blank_line, find_blank_line, frame_from, frame}

at_blank_line-length : (buf : Bytes) → at_blank_line buf ≡ true → 4 ≤ length buf
unfolding at_blank_line
at_blank_line-length (a ∷ b ∷ c ∷ d ∷ rest) h = omega arith
at_blank_line-length (a ∷ b ∷ c ∷ []) h = cc
at_blank_line-length (a ∷ b ∷ []) h = cc
at_blank_line-length (a ∷ []) h = cc
at_blank_line-length [] h = cc

le_of_add : (i : ℕ) {n : ℕ} → i + 4 ≤ n → 4 ≤ n
le_of_add i h = omega arith

at_blank_line-append :
    (buf more : Bytes) → 4 ≤ length buf → at_blank_line (buf ++ more) ≡ at_blank_line buf
unfolding at_blank_line
at_blank_line-append (a ∷ b ∷ c ∷ d ∷ rest) more h = refl
at_blank_line-append (a ∷ b ∷ c ∷ []) more h = absurd (omega arith)
at_blank_line-append (a ∷ b ∷ []) more h = absurd (omega arith)
at_blank_line-append (a ∷ []) more h = absurd (omega arith)
at_blank_line-append [] more h = absurd (omega arith)

-- The two ways in which `find` goes on past a byte, with the test kept shut.
find_later : Option ℕ → Option ℕ
find_later none = none
find_later (some i) = some (suc i)

find-cons :
    (b : ℕ) (bs : Bytes)
    → find_blank_line (b ∷ bs)
      ≡ (if at_blank_line (b ∷ bs) then some 0 else find_later (find_blank_line bs))
unfolding find_blank_line find_later
find-cons b bs = ground arith

find-length : (buf : Bytes) (i : ℕ) → find_blank_line buf ≡ some i → i + 4 ≤ length buf
unfolding find_later
find-length [] i h = unfold find_blank_line in cc
find-length (b ∷ bs) i h = elim (Option-cases (find_blank_line bs)) [
  | inl e ↦ ground (arith, find-cons b bs, at_blank_line-length (b ∷ bs))
  | inr (j, e) ↦ ground (arith, find-cons b bs, at_blank_line-length (b ∷ bs), find-length bs j e)
]

find-append :
    (buf more : Bytes) (i : ℕ)
    → find_blank_line buf ≡ some i
    → find_blank_line (buf ++ more) ≡ some i
unfolding find_later
find-append [] more i h = unfold find_blank_line in cc
find-append (b ∷ bs) more i h = elim (Option-cases (find_blank_line bs)) [
  | inl e ↦ ground (
    arith,
    find-cons b bs,
    find-cons b (bs ++ more),
    at_blank_line-append (b ∷ bs) more (le_of_add i (find-length (b ∷ bs) i h)),
  )
  | inr (j, e) ↦ ground (
    arith,
    find-cons b bs,
    find-cons b (bs ++ more),
    at_blank_line-append (b ∷ bs) more (le_of_add i (find-length (b ∷ bs) i h)),
    find-append bs more j e,
  )
]

-- The length of the message whose header block ends before `i + 4`.
abbrev total : Libs → Bytes → ℕ → ℕ
total libs buf i = i + 4 + get_or (libs.content_length (take (i + 4) buf)) 0

cut_at :
    (libs : Libs) (buf : Bytes) (i : ℕ)
    → total libs buf i ≤ length buf
    → frame_from libs buf (some i) ≡ some (take (total libs buf i) buf, drop (total libs buf i) buf)
unfolding frame_from
cut_at libs buf i h = rw (le→ltb _ _ h)

-- What is known where a message was cut off.
record Cut (libs : Libs) (buf raw rest : Bytes) (o : Option ℕ) : Type 0 where
  header_end : ℕ
  found : o ≡ some header_end
  complete : total libs buf header_end ≤ length buf
  front : take (total libs buf header_end) buf ≡ raw
  back : drop (total libs buf header_end) buf ≡ rest

frame_from-Cut :
    (libs : Libs) (buf raw rest : Bytes) (o : Option ℕ)
    → frame_from libs buf o ≡ some (raw, rest)
    → Cut libs buf raw rest o
unfolding frame_from
frame_from-Cut libs buf raw rest none h = cc
frame_from-Cut libs buf raw rest (some i) h =
    elim (Bool-cases (ltb (length buf) (total libs buf i))) [
      | inl short ↦
          let bad : ◌≡◌ {A = Option (Bytes × Bytes)} none (some (raw, rest)) = rw short at h in cc
      | inr long ↦
          let e : ◌≡◌ {A = Option (Bytes × Bytes)}
              (some (take (total libs buf i) buf, drop (total libs buf i) buf)) (some (raw, rest)) =
            rw long at h in
          record { header_end = i; found = refl; complete = ground arith; front = cc; back = cc }
    ]

total-append :
    (libs : Libs) (buf more : Bytes) (i : ℕ)
    → i + 4 ≤ length buf
    → total libs (buf ++ more) i ≡ total libs buf i
total-append libs buf more i h = rw (take-append (i + 4) buf more h)

-- A message that is complete is cut off at the same place whatever follows it.
pub frame-append :
    (libs : Libs) (buf more raw rest : Bytes)
    → frame libs buf ≡ some (raw, rest)
    → frame libs (buf ++ more) ≡ some (raw, rest ++ more)
unfolding frame
frame-append libs buf more raw rest h =
    let c = frame_from-Cut libs buf raw rest (find_blank_line buf) h in
    let i = c.header_end in
    let t = total-append libs buf more i (find-length buf i c.found) in
    let all : total libs (buf ++ more) i ≤ length (buf ++ more) =
      omega (arith, t, c.complete, length-append buf more) in
    rw (
      find-append buf more i c.found,
      cut_at libs (buf ++ more) i all,
      t,
      take-append (total libs buf i) buf more c.complete,
      drop-append (total libs buf i) buf more c.complete,
      c.front,
      c.back,
    )

-- What is left is shorter.
pub frame-shorter :
    (libs : Libs) (buf raw rest : Bytes)
    → frame libs buf ≡ some (raw, rest)
    → length rest < length buf
unfolding frame
frame-shorter libs buf raw rest h =
    let c = frame_from-Cut libs buf raw rest (find_blank_line buf) h in
    omega (arith, c.complete, ap length c.back, length-drop (total libs buf c.header_end) buf)
