-- ===== src/Sip/Header/Split.antt =====
-- sip_client.py: `_split_route_values`, `_extract_record_routes` and the stripping of texts.
use ha_intratone.Base.{
  ℕ, zero, suc, ◌-◌, Bool, true, false, ◌&&◌, ◌||◌, List, [], ◌∷◌, ◌++◌, reverse, ◌==◌, leb,
  if◌then◌else◌,
}
use ha_intratone.Base.Bytes.{Bytes}
use ha_intratone.Base.Text.{Text, truthy}
use ha_intratone.Sip.Types.{Libs}

-- `str.isspace` of one character, as `str.strip` applies it.
is_space : ℕ → Bool
is_space c =
    leb 9 c && leb c 13
    || leb 28 c && leb c 32
    || c == 0x85
    || c == 0xA0
    || c == 0x1680
    || leb 0x2000 c && leb c 0x200A
    || c == 0x2028
    || c == 0x2029
    || c == 0x202F
    || c == 0x205F
    || c == 0x3000

unfoldable pub lstrip : Text → Text
unfolding is_space
lstrip [] = []
lstrip (c ∷ s) = if is_space c then lstrip s else c ∷ s

-- `str.strip`
unfoldable pub strip : Text → Text
strip s = reverse (lstrip (reverse (lstrip s)))

-- The characters that the loop of `_split_route_values` tells apart.
pub data Mark : Type 0 where
  opening separator plain : Mark
  shutting : Mark

unfoldable pub mark : ℕ → Mark
mark ch =
    if ch == b'<'
    then opening
    else if ch == b'>'
    then shutting
    else if ch == b','
    then separator
    else plain

-- The loop: the depth, the entry read so far (backwards), the rest of the line.
unfoldable pub split_from : ℕ → Text → Text → List Text
split_from depth entry [] = reverse entry ∷ []
split_from depth entry (ch ∷ line) = elim (mark ch) [
  | opening ↦ split_from (suc depth) (ch ∷ entry) line
  | separator ↦ elim depth [
    | zero ↦ reverse entry ∷ split_from zero [] line
    | suc d ↦ split_from (suc d) (ch ∷ entry) line
  ]
  | plain ↦ split_from depth (ch ∷ entry) line
  | shutting ↦ split_from (depth - 1) (ch ∷ entry) line
]

-- `_split_route_values`
unfoldable pub split_route_values : Text → List Text
unfolding split_from mark
split_route_values line = split_from 0 [] line

-- The entries of one line that are not empty once stripped.
stripped_entries : List Text → List Text
stripped_entries [] = []
stripped_entries (e ∷ es) =
    let rest = stripped_entries es in if truthy (strip e) then strip e ∷ rest else rest

routes_of_lines : List Text → List Text
routes_of_lines [] = []
routes_of_lines (l ∷ ls) = stripped_entries (split_route_values l) ++ routes_of_lines ls

-- `_extract_record_routes`
unfoldable pub extract_record_routes : Libs → Bytes → List Text
unfolding routes_of_lines stripped_entries split_route_values strip lstrip
extract_record_routes libs raw = routes_of_lines (libs.record_route_lines raw)

-- `str.split()`: the runs of characters between white space; the word read so far stands backwards.
words_from : Text → Text → List Text
unfolding is_space
words_from [] [] = []
words_from (c ∷ w) [] = reverse (c ∷ w) ∷ []
words_from [] (c ∷ s) = elim (is_space c) [ true ↦ words_from [] s | false ↦ words_from (c ∷ []) s ]
words_from (d ∷ w) (c ∷ s) = elim (is_space c) [
  | true ↦ reverse (d ∷ w) ∷ words_from [] s
  | false ↦ words_from (c ∷ d ∷ w) s
]

unfoldable pub words : Text → List Text
unfolding words_from
words s = words_from [] s
