-- ===== src/Sip/Receive/Drain.antt =====
-- sip_client.py: the two nested loops of `data_received` are one loop over the stream.
use ha_intratone.Base.{
  ℕ, zero, suc, ◌≤◌, ◌<◌, Option, none, some, ◌++◌, ◌≡◌, refl, sym, inl, inr, arith, length,
  Option-cases, ◌∙◌, ◌>>=◌, ap, fun_ext,
}
use ha_intratone.Base.Bytes.{Bytes}
use ha_intratone.Sip.Types.{SipMessage, Client, Libs}
use ha_intratone.Sip.Client.{dispatch}
use ha_intratone.Sip.Receive.{
  Receiver, frame, extract_one_message, receive, data_received, handle_found,
}
use ha_intratone.Sip.Receive.Cut.{frame-append, frame-shorter}

-- Cut off the next message, handle it if it parses, go on.
pub drain : Libs → ℕ → Bytes → Client → Option Receiver
drain libs zero buf c = some (record { client = c; rx_buf = buf })
drain libs (suc fuel) buf c = elim (frame libs buf) [
  | none ↦ some (record { client = c; rx_buf = buf })
  | some (raw, rest) ↦ elim (libs.parse_sip raw) [
    | none ↦ drain libs fuel rest c
    | some msg ↦ dispatch libs msg raw c >>= λ c'. drain libs fuel rest c'
  ]
]

module _ (libs : Libs) (fuel : ℕ) (buf : Bytes) where
  extract-incomplete : frame libs buf ≡ none → extract_one_message libs (suc fuel) buf ≡ (none, buf)
  unfolding extract_one_message
  extract-incomplete e = rw (e, extract_one_message)

  drain-incomplete :
      (c : Client)
      → frame libs buf ≡ none
      → drain libs (suc fuel) buf c ≡ some (record { client = c; rx_buf = buf })
  unfolding drain
  drain-incomplete c e = rw (e, drain)

  module _ (raw rest : Bytes) (e : frame libs buf ≡ some (raw, rest)) where
    extract-unread :
        libs.parse_sip raw ≡ none
        → extract_one_message libs (suc fuel) buf ≡ extract_one_message libs fuel rest
    unfolding extract_one_message
    extract-unread p = rw (e, extract_one_message) (rw p)

    drain-unread :
        (c : Client)
        → libs.parse_sip raw ≡ none
        → drain libs (suc fuel) buf c ≡ drain libs fuel rest c
    unfolding drain
    drain-unread c p = rw (e, drain) (rw p)

    extract-message :
        (msg : SipMessage)
        → libs.parse_sip raw ≡ some msg
        → extract_one_message libs (suc fuel) buf ≡ (some (raw, msg), rest)
    unfolding extract_one_message
    extract-message msg p = rw (e, extract_one_message) (rw p)

    drain-message :
        (msg : SipMessage) (c : Client)
        → libs.parse_sip raw ≡ some msg
        → drain libs (suc fuel) buf c ≡ (dispatch libs msg raw c >>= λ c'. drain libs fuel rest c')
    unfolding drain
    drain-message msg c p = rw (e, drain) (rw p)

-- A round of the outer loop, from what the inner loop has found.
round-drain :
    (libs : Libs) (n f g : ℕ) (buf : Bytes) (c : Client)
    → length buf < n
    → length buf ≤ f
    → length buf < g
    → handle_found libs (receive libs f) (extract_one_message libs g buf) c ≡ drain libs n buf c
unfolding handle_found receive
round-drain libs zero f g buf c p q r = absurd (omega arith)
round-drain libs (suc n) f zero buf c p q r = absurd (omega arith)
round-drain libs (suc n) zero (suc g) buf c p q r = elim (Option-cases (frame libs buf)) [
  | inl e ↦ rw (extract-incomplete libs g buf e) (sym (drain-incomplete libs n buf c e))
  | inr ((raw, rest), e) ↦ absurd (omega (arith, frame-shorter libs buf raw rest e))
]
round-drain libs (suc n) (suc f) (suc g) buf c p q r = elim (Option-cases (frame libs buf)) [
  | inl e ↦ rw (extract-incomplete libs g buf e) (sym (drain-incomplete libs n buf c e))
  | inr ((raw, rest), e) ↦
      let s = frame-shorter libs buf raw rest e in
      elim (Option-cases (libs.parse_sip raw)) [
        | inl unread ↦
            rw
              (
                extract-unread libs g buf raw rest e unread,
                drain-unread libs n buf raw rest e c unread,
              )
              (round-drain libs n (suc f) g rest c (omega arith) (omega arith) (omega arith))
        | inr (msg, parsed) ↦
            rw
              (
                extract-message libs g buf raw rest e msg parsed,
                drain-message libs n buf raw rest e msg c parsed,
              )
              (elim (Option-cases (dispatch libs msg raw c)) [
                | inl raised ↦ rw raised
                | inr (c', done) ↦ rw done (
                    round-drain libs n f (suc (length rest)) rest c' (omega arith) (omega arith)
                      (omega arith))
              ])
      ]
]

-- `data_received` drains the stream that it has so far, with any fuel above its length.
pub data_received-drain :
    (libs : Libs) (n : ℕ) (chunk : Bytes) (r : Receiver)
    → length (r.rx_buf ++ chunk) < n
    → data_received libs chunk r ≡ drain libs n (r.rx_buf ++ chunk) r.client
unfolding data_received receive
data_received-drain libs n chunk r h =
    let buf = r.rx_buf ++ chunk in
    round-drain libs n (length buf) (suc (length buf)) buf r.client h (omega arith) (omega arith)

-- Fuel above the length of the stream does not matter.
drain_fuel :
    (libs : Libs) (n m : ℕ) (buf : Bytes) (c : Client)
    → length buf < n
    → length buf < m
    → drain libs n buf c ≡ drain libs m buf c
drain_fuel libs zero m buf c p q = absurd (omega arith)
drain_fuel libs (suc n) zero buf c p q = absurd (omega arith)
drain_fuel libs (suc n) (suc m) buf c p q = elim (Option-cases (frame libs buf)) [
  | inl e ↦ rw (drain-incomplete libs n buf c e, drain-incomplete libs m buf c e)
  | inr ((raw, rest), e) ↦
      let s = frame-shorter libs buf raw rest e in
      elim (Option-cases (libs.parse_sip raw)) [
        | inl unread ↦
            rw
              (
                drain-unread libs n buf raw rest e c unread,
                drain-unread libs m buf raw rest e c unread,
              )
              (drain_fuel libs n m rest c (omega arith) (omega arith))
        | inr (msg, parsed) ↦
            rw
              (
                drain-message libs n buf raw rest e msg c parsed,
                drain-message libs m buf raw rest e msg c parsed,
              )
              (ap (λ f. dispatch libs msg raw c >>= f)
                (fun_ext λ c'. drain_fuel libs n m rest c' (omega arith) (omega arith)))
      ]
]

>>=-assoc :
    {A B C : Type 0} (m : Option A) (f : A → Option B) (g : B → Option C)
    → (m >>= λ a. f a >>= g) ≡ (m >>= f >>= g)
>>=-assoc none f g = refl
>>=-assoc (some a) f g = refl

-- Bytes that arrive later change nothing of what was handled before.
pub drain-append :
    (libs : Libs) (n m k : ℕ) (buf more : Bytes) (c : Client)
    → length buf < n
    → length (buf ++ more) < m
    → length (buf ++ more) < k
    → drain libs m (buf ++ more) c
      ≡ (drain libs n buf c >>= λ r. drain libs k (r.rx_buf ++ more) r.client)
drain-append libs zero m k buf more c p q t = absurd (omega arith)
drain-append libs (suc n) zero k buf more c p q t = absurd (omega arith)
drain-append libs (suc n) (suc m) k buf more c p q t = elim (Option-cases (frame libs buf)) [
  | inl e ↦ rw (drain-incomplete libs n buf c e) (drain_fuel libs (suc m) k (buf ++ more) c q t)
  | inr ((raw, rest), e) ↦
      let s = frame-shorter libs buf raw rest e in
      let e' = frame-append libs buf more raw rest e in
      let s' = frame-shorter libs (buf ++ more) raw (rest ++ more) e' in
      elim (Option-cases (libs.parse_sip raw)) [
        | inl unread ↦
            rw
              (
                drain-unread libs m (buf ++ more) raw (rest ++ more) e' c unread,
                drain-unread libs n buf raw rest e c unread,
              )
              (drain-append libs n m k rest more c (omega arith) (omega arith) (omega arith))
        | inr (msg, parsed) ↦
            rw
              (
                drain-message libs m (buf ++ more) raw (rest ++ more) e' msg c parsed,
                drain-message libs n buf raw rest e msg c parsed,
              )
              (ap (λ f. dispatch libs msg raw c >>= f)
                  (fun_ext λ c'.
                    drain-append libs n m k rest more c' (omega arith) (omega arith) (omega arith))
                ∙ >>=-assoc (dispatch libs msg raw c) (drain libs n rest) _)
      ]
]

-- The bytes that are left are not more than there were.
pub drain-shorter :
    (libs : Libs) (n : ℕ) (buf : Bytes) (c : Client) (r : Receiver)
    → drain libs n buf c ≡ some r
    → length r.rx_buf ≤ length buf
drain-shorter libs zero buf c r h = unfold drain in ground arith
drain-shorter libs (suc n) buf c r h = elim (Option-cases (frame libs buf)) [
  | inl e ↦ ground (arith, drain-incomplete libs n buf c e)
  | inr ((raw, rest), e) ↦
      let s = frame-shorter libs buf raw rest e in
      elim (Option-cases (libs.parse_sip raw)) [
        | inl unread ↦ omega (
          arith,
          drain-shorter libs n rest c r (sym (drain-unread libs n buf raw rest e c unread) ∙ h),
          s,
        )
        | inr (msg, parsed) ↦ elim (Option-cases (dispatch libs msg raw c)) [
          | inl raised ↦ ground (arith, drain-message libs n buf raw rest e msg c parsed)
          | inr (c', done) ↦ omega (
            arith,
            drain-shorter libs n rest c' r
                (rw done at (sym (drain-message libs n buf raw rest e msg c parsed) ∙ h)),
            s,
          )
        ]
      ]
]

-- With enough fuel no complete message is left.
pub drain_complete :
    (libs : Libs) (n : ℕ) (buf : Bytes) (c : Client) (r : Receiver)
    → length buf < n
    → drain libs n buf c ≡ some r
    → frame libs r.rx_buf ≡ none
drain_complete libs zero buf c r p h = absurd (omega arith)
drain_complete libs (suc n) buf c r p h = elim (Option-cases (frame libs buf)) [
  | inl e ↦ ground (arith, drain-incomplete libs n buf c e)
  | inr ((raw, rest), e) ↦
      let s = frame-shorter libs buf raw rest e in
      elim (Option-cases (libs.parse_sip raw)) [
        | inl unread ↦
            drain_complete libs n rest c r (omega arith)
              (sym (drain-unread libs n buf raw rest e c unread) ∙ h)
        | inr (msg, parsed) ↦ elim (Option-cases (dispatch libs msg raw c)) [
          | inl raised ↦ ground (arith, drain-message libs n buf raw rest e msg c parsed)
          | inr (c', done) ↦
              drain_complete libs n rest c' r (omega arith)
                (rw done at (sym (drain-message libs n buf raw rest e msg c parsed) ∙ h))
        ]
      ]
]
