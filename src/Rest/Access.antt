-- ===== src/Rest/Access.antt =====
-- rest_api.py: the list of accesses (`list_access`, `_parse_accesses`).
use ha_intratone.Base.{Bool, Option, none, some, List, [], ◌∷◌, not, if◌then◌else◌, ◌||◌, ◌>>=◌}
use ha_intratone.Base.Text.{Text, codes, truthy, text_eq, lower}
use ha_intratone.Sip.Header.{strip}
use ha_intratone.Rest.Json.{
  Json, null, text, array, object, Items, no_items, item, Members, no_members, member, get,
  is_object, or_json, str, str_or_empty,
}
use ha_intratone.Rest.Session.{World, shape_error, Result, done, raised, Api, after}
use ha_intratone.Rest.Calls.{Access, get_json}

-- `[str(m).lower() for m in raw_modes if str(m).strip()]`, of a text that is one mode
unfoldable pub modes_of : World → List Json → List Text
unfolding str strip lower
modes_of w [] = []
modes_of w (m ∷ ms) =
    let rest = modes_of w ms in
    if truthy (strip (str w.repr m)) then lower (str w.repr m) ∷ rest else rest

abbrev pub items_of : Items → List Json
items_of no_items = []
items_of (item j js) = j ∷ items_of js

abbrev pub keys_of : Members → List Json
keys_of no_members = []
keys_of (member k v ms) = text k ∷ keys_of ms

-- What a loop over `raw_modes` reads; `none` where it is nothing that can be looped over. A text is put
-- into a list first.
abbrev pub iterated : Json → Option (List Json)
iterated (text s) = some (text s ∷ [])
iterated (array js) = some (items_of js)
iterated (object ms) = some (keys_of ms)
iterated _ = none

abbrev pub raw_modes : Json → Json
raw_modes j =
    or_json
      (or_json (or_json (get (codes "openmode") j) (get (codes "openModes") j))
        (get (codes "openmodes") j))
      (array no_items)

-- `primary in API_OPENABLE_MODES`
unfoldable pub openable : Text → Bool
unfolding text_eq
openable mode = text_eq mode (codes "data") || text_eq mode (codes "ble")

abbrev pub access_id_of : World → Json → Text
access_id_of w j = str_or_empty w.repr (or_json (get (codes "id") j) (get (codes "access_id") j))

-- The access of one item, if it can be opened.
unfoldable pub access_of : World → Json → List Text → Option Access
unfolding openable str
access_of w j [] = none
access_of w j (primary ∷ modes) =
    if not (openable primary) || not (truthy (access_id_of w j))
    then none
    else some (record {
      access_id = access_id_of w j;
      phonenumber = str_or_empty w.repr (
          or_json (or_json (get (codes "phonenumber") j) (get (codes "phone_number") j))
            (get (codes "phone") j));
      name = str_or_empty w.repr (get (codes "name") j);
      residence =
          str_or_empty w.repr
            (or_json (get (codes "residence") j) (get (codes "residence_name") j));
      openmode = primary;
    })

abbrev pub with_access : Option Access → List Access → List Access
with_access none opened = opened
with_access (some a) opened = a ∷ opened

-- The loop over the items; `none` is a TypeError.
unfoldable pub accesses_of : World → List Json → Option (List Access)
unfolding access_of modes_of
accesses_of w [] = some []
accesses_of w (j ∷ js) =
    let rest = accesses_of w js in
    if not (is_object j) then rest else do
      ms ← iterated (raw_modes j)
      opened ← rest
      some (with_access (access_of w j (modes_of w ms)) opened)

-- `data.get("list") or data.get("accesses") or data.get("access")` of a dict, a list itself, and
-- `body.get("list")` where that gives nothing.
unfoldable pub items_in : Json → Json → Json
items_in body (object ms) =
    elim (or_json (or_json (get (codes "list") (object ms)) (get (codes "accesses") (object ms)))
      (get (codes "access") (object ms))) [ null ↦ get (codes "list") body | found ↦ found ]
items_in body (array js) = array js
items_in body _ = get (codes "list") body

unfoldable pub listed : World → Json → Option (List Access)
unfolding accesses_of
listed w (array js) = accesses_of w (items_of js)
listed w _ = some []

-- `_parse_accesses`
unfoldable pub parse_accesses : World → Json → Option (List Access)
unfolding items_in listed
parse_accesses w body = listed w (items_in body (get (codes "data") body))

unfoldable pub parsed_as : Option (List Access) → Api → Result (List Access) × Api
parsed_as none a = (raised shape_error, a)
parsed_as (some opened) a = (done opened, a)

unfoldable pub parsed : World → Json → Api → Result (List Access) × Api
unfolding parse_accesses parsed_as
parsed w body a = parsed_as (parse_accesses w body) a

-- `list_access`
unfoldable pub list_access : World → Api → Result (List Access) × Api
unfolding get_json parsed
list_access w a = after (get_json w (codes "api/access") a) (parsed w)
