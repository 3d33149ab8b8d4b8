-- ===== src/Rest/Openable.antt =====
-- rest_api.py: the accesses that are listed can be opened through the API.
use ha_intratone.Base.{
  ℕ, ◌≤◌, Bool, true, false, Option, none, some, List, [], ◌∷◌, not, if-cases, Bool-cases, ◌||◌,
  ◌>>=◌, suc, ◌≡◌, ◌≢◌, ◌⊎◌, inl, inr, refl, length, arith,
}
use ha_intratone.Base.Text.{Text, codes, truthy, text_eq, text_eq→≡}
use ha_intratone.Rest.Json.{Json, null, boolean, number, text, array, object, get, is_object}
use ha_intratone.Rest.Session.{World, Result, done, raised, Api, after}
use ha_intratone.Rest.Calls.{Access, get_json}
use ha_intratone.Rest.Access.{
  modes_of, items_of, iterated, raw_modes, openable, access_id_of, access_of, with_access,
  accesses_of, items_in, listed, parse_accesses, parsed, parsed_as, list_access,
}

-- An access that `open_access` can name, and whose primary mode the server opens.
abbrev pub Openable : Access → Type 0
Openable a = (a.access_id ≢ []) × ((a.openmode ≡ codes "data") ⊎ (a.openmode ≡ codes "ble"))

abbrev pub AllOpenable : List Access → Type 0
AllOpenable [] = Unit {0}
AllOpenable (a ∷ opened) = Openable a × AllOpenable opened

abbrev Parsed : ℕ → Option (List Access) → Type 0
Parsed n none = Unit {0}
Parsed n (some opened) = AllOpenable opened × (length opened ≤ n)

abbrev Found : Option Access → Type 0
Found none = Unit {0}
Found (some a) = Openable a

one_of : (mode : Text) → openable mode ≡ true → (mode ≡ codes "data") ⊎ (mode ≡ codes "ble")
unfolding openable
one_of mode h = elim (Bool-cases (text_eq mode (codes "data"))) [
  | inl e ↦ inl (text_eq→≡ mode (codes "data") e)
  | inr e ↦ inr (text_eq→≡ mode (codes "ble") (second _ _ e h))
]
  where
    second : (a b : Bool) → a ≡ false → (a || b) ≡ true → b ≡ true
    second true b e h = cc
    second false b e h = h

there : (s : Text) → truthy s ≡ true → s ≢ []
there s h e = cc

passed : (a b : Bool) → (not a || not b) ≡ false → (a ≡ true) × (b ≡ true)
passed true true e = (refl, refl)
passed true false e = cc
passed false b e = cc

access_of-Found : (w : World) (j : Json) (modes : List Text) → Found (access_of w j modes)
unfolding access_of
access_of-Found w j [] = tt
access_of-Found w j (primary ∷ modes) =
    if-cases Found (not (openable primary) || not (truthy (access_id_of w j))) (λ skipped. tt)
      (λ kept.
        let (o, i) = passed (openable primary) (truthy (access_id_of w j)) kept in
        (there _ i, one_of primary o))

more :
    (n : ℕ) (o : Option Access) (opened : List Access)
    → Found o
    → AllOpenable opened × (length opened ≤ n)
    → AllOpenable (with_access o opened) × (length (with_access o opened) ≤ suc n)
more n none opened h (k, l) = (k, omega arith)
more n (some a) opened h (k, l) = ((h, k), omega arith)

one_more :
    (w : World) (j : Json) (n : ℕ) (i : Option (List Json)) (o : Option (List Access))
    → Parsed n o
    → Parsed
        (suc n)
        (i >>= λ ms. o >>= λ opened. some (with_access (access_of w j (modes_of w ms)) opened))
one_more w j n none o h = tt
one_more w j n (some ms) none h = tt
one_more w j n (some ms) (some opened) h =
    more n (access_of w j (modes_of w ms)) opened (access_of-Found w j (modes_of w ms)) h

skipped : (n : ℕ) (o : Option (List Access)) → Parsed n o → Parsed (suc n) o
skipped n none h = tt
skipped n (some opened) (k, l) = (k, omega arith)

accesses_of-Parsed : (w : World) (js : List Json) → Parsed (length js) (accesses_of w js)
unfolding accesses_of
accesses_of-Parsed w [] = (tt, omega arith)
accesses_of-Parsed w (j ∷ js) =
    if-cases (Parsed (suc (length js))) (not (is_object j))
      (λ other. skipped (length js) (accesses_of w js) (accesses_of-Parsed w js))
      (λ dict.
        one_more w j (length js) (iterated (raw_modes j)) (accesses_of w js)
          (accesses_of-Parsed w js))

-- The length of a list of items, 0 for anything else.
abbrev pub size : Json → ℕ
size (array js) = length (items_of js)
size _ = 0

listed-Parsed : (w : World) (j : Json) → Parsed (size j) (listed w j)
unfolding listed
listed-Parsed w (array js) = accesses_of-Parsed w (items_of js)
listed-Parsed w null = (tt, omega arith)
listed-Parsed w (boolean b) = (tt, omega arith)
listed-Parsed w (number z t) = (tt, omega arith)
listed-Parsed w (text t) = (tt, omega arith)
listed-Parsed w (object ms) = (tt, omega arith)

-- What `list_access` returns.
abbrev pub AllListed : Result (List Access) → Type 0
AllListed (done opened) = AllOpenable opened
AllListed (raised e) = Unit {0}

read-AllListed :
    (n : ℕ) (o : Option (List Access)) (a : Api) → Parsed n o → AllListed (parsed_as o a).0
unfolding parsed_as
read-AllListed n none a h = tt
read-AllListed n (some opened) a (k, l) = k

then-AllListed : (w : World) (p : Result Json × Api) → AllListed (after p (parsed w)).0
unfolding parsed parse_accesses
then-AllListed w (done body, a) =
    read-AllListed _ _ a (listed-Parsed w (items_in body (get (codes "data") body)))
then-AllListed w (raised e, a) = tt

-- Whatever the server answers, each access that `list_access` returns has an id, and its primary mode is
-- one that the API opens.
pub list_access-AllListed : (w : World) (a : Api) → AllListed (list_access w a).0
unfolding list_access
list_access-AllListed w a = then-AllListed w (get_json w (codes "api/access") a)
