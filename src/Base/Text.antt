-- ===== src/Base/Text.antt =====
-- Python's `str` as a list of code points, and the operations of it that the client uses.
use Prim.Native.Char.{code}
use Prim.Native.String.{String}
use mathlib.Core.List.{List, [], ◌∷◌, ◌++◌, reverse}
use mathlib.Core.Bool.{Bool, true, false, ◌&&◌}
use mathlib.Core.Path.{◌≡◌, refl}
use mathlib.Core.Option.{Option, none, some}
use Prim.Native.Nat.{ℕ, zero, suc, ◌+◌, ◌-◌, ◌/◌, ◌%◌}
use native.Mathlib.Omega.{arith}
use ha_intratone.Base.Checks.{ltb, leb, ◌==◌, if◌then◌else◌}
use ha_intratone.Base.Bytes.{Bytes}
use ha_intratone.Base.Lists.{length}

abbrev pub Text : Type 0
Text = List ℕ

abbrev pub codes : String → Text
codes String.[] = []
codes (String.◌∷◌ c s) = code c ∷ codes s

-- `s == t`
unfoldable pub text_eq : Text → Text → Bool
text_eq [] [] = true
text_eq [] (_ ∷ _) = false
text_eq (_ ∷ _) [] = false
text_eq (a ∷ s) (b ∷ t) = a == b && text_eq s t

-- `bool(s)`
abbrev pub truthy : Text → Bool
truthy [] = false
truthy (_ ∷ _) = true

-- `s or t`
abbrev pub or_else : Text → Text → Text
or_else [] t = t
or_else (c ∷ s) t = c ∷ s

-- `o or t`, for a text that may be `None`
abbrev pub or_text : Option Text → Text → Text
or_text none t = t
or_text (some s) t = or_else s t

-- `str.lower` and `str.upper` on the ASCII letters, of which the compared words consist.
lower_char : ℕ → ℕ
lower_char c = if leb b'A' c && leb c b'Z' then c + 32 else c

upper_char : ℕ → ℕ
upper_char c = if leb b'a' c && leb c b'z' then c - 32 else c

unfoldable pub lower : Text → Text
unfolding lower_char
lower [] = []
lower (c ∷ s) = lower_char c ∷ lower s

unfoldable pub upper : Text → Text
unfolding upper_char
upper [] = []
upper (c ∷ s) = upper_char c ∷ upper s

-- `sep.join(parts)`
unfoldable pub join : Text → List Text → Text
join sep [] = []
join sep (p ∷ []) = p
join sep (p ∷ q ∷ ps) = p ++ sep ++ join sep (q ∷ ps)

-- The pieces of an f-string, put together.
unfoldable pub concat : List Text → Text
concat [] = []
concat (p ∷ ps) = p ++ concat ps

-- `s.split(sep)` at one character; the part read so far stands backwards.
split_on_from : ℕ → Text → Text → List Text
split_on_from sep part [] = reverse part ∷ []
split_on_from sep part (c ∷ s) = elim (c == sep) [
  | true ↦ reverse part ∷ split_on_from sep [] s
  | false ↦ split_on_from sep (c ∷ part) s
]

unfoldable pub split_on : ℕ → Text → List Text
unfolding split_on_from
split_on sep s = split_on_from sep [] s

-- The decimal digits of `n` in front of `acc`; `suc n` rounds are enough.
show_from : ℕ → ℕ → Text → Text
show_from zero n acc = acc
show_from (suc f) n acc =
    let digit = b'0' + n % 10 in
    let rest = show_from f (n / 10) (digit ∷ acc) in if ltb n 10 then digit ∷ acc else rest

-- `f"{n}"`
unfoldable pub show : ℕ → Text
unfolding show_from
show n = show_from (suc n) n []

-- The lower case hexadecimal digits, `f"{n:x}"`.
hex_digit : ℕ → ℕ
hex_digit d = if ltb d 10 then b'0' + d else b'a' + d - 10

show_hex_from : ℕ → ℕ → Text → Text
show_hex_from zero n acc = acc
show_hex_from (suc f) n acc =
    let digit = hex_digit (n % 16) in
    let rest = show_hex_from f (n / 16) (digit ∷ acc) in if ltb n 16 then digit ∷ acc else rest

unfoldable pub show_hex : ℕ → Text
unfolding show_hex_from hex_digit
show_hex n = show_hex_from (suc n) n []

-- `s.rjust(width, "0")`, the `0` fill of a format.
pad_from : ℕ → Text → Text
pad_from zero s = s
pad_from (suc k) s = b'0' ∷ pad_from k s

unfoldable pub zero_fill : ℕ → Text → Text
unfolding pad_from
zero_fill width s = pad_from (width - length s) s

-- The UTF-8 bytes of one code point.
encode_char : ℕ → Bytes
encode_char c =
    if ltb c 0x80
    then c ∷ []
    else if ltb c 0x800
    then (0xC0 + c / 64) ∷ (0x80 + c % 64) ∷ []
    else if ltb c 0x10000
    then (0xE0 + c / 4096) ∷ (0x80 + c / 64 % 64) ∷ (0x80 + c % 64) ∷ []
    else (0xF0 + c / 262144) ∷ (0x80 + c / 4096 % 64) ∷ (0x80 + c / 64 % 64) ∷ (0x80 + c % 64) ∷ []

-- `s.encode("utf-8")`
unfoldable pub encode : Text → Bytes
unfolding encode_char
encode [] = []
encode (c ∷ s) = encode_char c ++ encode s

-- A dict of header names, or of query fields: the first entry for a key counts.
abbrev pub lookup {ℓ} : {V : Type ℓ} → Text → List (Text × V) → Option V
lookup k [] = none
lookup k ((j, v) ∷ m) = if text_eq j k then some v else lookup k m

pub text_eq_refl : (s : Text) → text_eq s s ≡ true
unfolding text_eq
text_eq_refl [] = refl
text_eq_refl (c ∷ s) = ground (arith, text_eq_refl s)

pub text_eq→≡ : (s t : Text) → text_eq s t ≡ true → s ≡ t
unfolding text_eq
text_eq→≡ [] [] h = refl
text_eq→≡ [] (b ∷ t) h = cc
text_eq→≡ (a ∷ s) [] h = cc
text_eq→≡ (a ∷ s) (b ∷ t) h = ground (arith, text_eq→≡ s t)

show_runs : show 5060 ≡ codes "5060"
unfolding show
show_runs = refl

encode_runs : encode (233 ∷ 8364 ∷ []) ≡ 0xC3 ∷ 0xA9 ∷ 0xE2 ∷ 0x82 ∷ 0xAC ∷ []
unfolding encode
encode_runs = refl
