-- ===== src/Sip/Header/Routes.antt =====
-- sip_client.py: the entries of a Record-Route line are found again by `_split_route_values`.
use mathlib.Core.List.{reverse_aux, reverse_aux-append, reverse_aux-reverse_aux-nil}
use ha_intratone.Base.{
  ℕ, suc, List, [], ◌∷◌, ◌++◌, ◌≡◌, ◌⊎◌, inl, inr, refl, ap, sym, ◌∙◌, append_assoc, append-nil,
  map,
}
use ha_intratone.Base.Text.{Text, join}
use ha_intratone.Sip.Header.Split.{separator, plain, mark, split_from, split_route_values}

-- No bracket and no comma.
abbrev pub Plain : Text → Type 0
Plain [] = Unit {0}
Plain (c ∷ s) = (mark c ≡ plain) × Plain s

-- No bracket.
abbrev pub Inner : Text → Type 0
Inner [] = Unit {0}
Inner (c ∷ s) = ((mark c ≡ plain) ⊎ (mark c ≡ separator)) × Inner s

-- An entry: what stands before the URI, the URI, and what stands behind it.
pub record Entry : Type 0 where
  pub display : Text
  pub uri : Text
  pub params : Text
  pub display_plain : Plain display
  pub uri_inner : Inner uri
  pub params_plain : Plain params

unfoldable pub entry_text : Entry → Text
entry_text x = x.display ++ ((b'<' ∷ []) ++ (x.uri ++ ((b'>' ∷ []) ++ x.params)))

-- The loop reads a text through without a cut, and goes from one depth to another.
abbrev Passes : ℕ → ℕ → Text → Type 0
Passes d d' s = (e rest : Text) → split_from d e (s ++ rest) ≡ split_from d' (reverse_aux s e) rest

Passes-append : (a b c : ℕ) (s t : Text) → Passes a b s → Passes b c t → Passes a c (s ++ t)
Passes-append a b c s t p q e rest =
    ap (split_from a e) (append_assoc s t rest)
    ∙ p e (t ++ rest)
    ∙ q (reverse_aux s e) rest
    ∙ ap (λ r. split_from c r rest) (sym (reverse_aux-append s t e))

Passes-Plain : (d : ℕ) (s : Text) → Plain s → Passes d d s
unfolding split_from
Passes-Plain d [] h e rest = refl
Passes-Plain d (c ∷ s) (h, hs) e rest = rw (h, split_from) (Passes-Plain d s hs (c ∷ e) rest)

Passes-Inner : (d : ℕ) (s : Text) → Inner s → Passes (suc d) (suc d) s
unfolding split_from
Passes-Inner d [] h e rest = refl
Passes-Inner d (c ∷ s) (inl h, hs) e rest = rw (h, split_from) (Passes-Inner d s hs (c ∷ e) rest)
Passes-Inner d (c ∷ s) (inr h, hs) e rest = rw (h, split_from) (Passes-Inner d s hs (c ∷ e) rest)

Passes-open : Passes 0 1 (b'<' ∷ [])
unfolding split_from mark
Passes-open e rest = refl

Passes-shut : Passes 1 0 (b'>' ∷ [])
unfolding split_from mark
Passes-shut e rest = refl

Passes-entry_text : (x : Entry) → Passes 0 0 (entry_text x)
unfolding entry_text
Passes-entry_text x = Passes-append 0 0 0 x.display _ (Passes-Plain 0 x.display x.display_plain) (
    Passes-append 0 1 0 (b'<' ∷ []) _ Passes-open (
      Passes-append 1 1 0 x.uri _ (Passes-Inner 0 x.uri x.uri_inner) (
        Passes-append 1 0 0 (b'>' ∷ []) x.params Passes-shut
          (Passes-Plain 0 x.params x.params_plain))))

-- A line of entries, joined by commas, is split into just these entries, in order, though their URIs
-- may contain commas between the angle brackets.
pub split_route_values-join :
    (x : Entry) (xs : List Entry)
    → split_route_values (join (b',' ∷ []) (map entry_text (x ∷ xs))) ≡ map entry_text (x ∷ xs)
unfolding split_route_values split_from join mark
split_route_values-join x [] =
    ap (split_from 0 []) (sym (append-nil (entry_text x)))
    ∙ Passes-entry_text x [] []
    ∙ ap (λ r. r ∷ []) (reverse_aux-reverse_aux-nil (entry_text x) [])
split_route_values-join x (y ∷ ys) =
    let rest = join (b',' ∷ []) (map entry_text (y ∷ ys)) in
    ap (split_from 0 []) (append_assoc (entry_text x) (b',' ∷ []) rest)
    ∙ Passes-entry_text x [] (b',' ∷ rest)
    ∙ ap (λ r. r ∷ split_from 0 [] rest) (reverse_aux-reverse_aux-nil (entry_text x) [])
    ∙ ap (λ r. entry_text x ∷ r) (split_route_values-join y ys)
