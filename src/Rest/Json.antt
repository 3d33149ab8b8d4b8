-- ===== src/Rest/Json.antt =====
-- The JSON bodies that rest_api.py reads, and Python's view of them.
use ha_intratone.Base.{Bool, true, false, Option, none, some, [], not, if◌then◌else◌}
use ha_intratone.Base.Text.{Text, codes, text_eq, truthy}

-- A number is known by whether it is 0 and by what `str` makes of it.
mutual
  pub data Json : Type 0 where
    null : Json
    boolean : Bool → Json
    number : Bool → Text → Json
    text : Text → Json
    array : Items → Json
    object : Members → Json

  pub data Items : Type 0 where
    no_items : Items
    item : Json → Items → Items

  pub data Members : Type 0 where
    no_members : Members
    member : Text → Json → Members → Members

abbrev pub find : Text → Members → Option Json
find key no_members = none
find key (member k v ms) = if text_eq k key then some v else find key ms

abbrev pub is_object : Json → Bool
is_object (object ms) = true
is_object _ = false

-- `d.get(key)` of a dict, `null` for a key that is not there.
abbrev pub get : Text → Json → Json
get key (object ms) = elim (find key ms) [ none ↦ null | some v ↦ v ]
get key _ = null

-- `bool(v)`
abbrev pub holds : Json → Bool
holds null = false
holds (boolean b) = b
holds (number zero t) = not zero
holds (text s) = truthy s
holds (array no_items) = false
holds (array (item j js)) = true
holds (object no_members) = false
holds (object (member k v ms)) = true

-- `a or b`
abbrev pub or_json : Json → Json → Json
or_json a b = if holds a then a else b

-- `v == s` for a text
abbrev pub is_text : Json → Text → Bool
is_text (text t) s = text_eq t s
is_text _ s = false

-- `str(v)`; `repr` is what it makes of a list or a dict.
unfoldable pub str : (Json → Text) → Json → Text
str repr null = codes "None"
str repr (boolean true) = codes "True"
str repr (boolean false) = codes "False"
str repr (number zero t) = t
str repr (text s) = s
str repr (array js) = repr (array js)
str repr (object ms) = repr (object ms)

-- `str(v or "")`
abbrev pub str_or_empty : (Json → Text) → Json → Text
str_or_empty repr v = if holds v then str repr v else []

-- `value in (0, "0")`, as `_error_flag_ok` tests.
unfoldable pub error_flag_ok : Json → Bool
error_flag_ok (number zero t) = zero
error_flag_ok (boolean b) = not b
error_flag_ok (text s) = text_eq s (codes "0")
error_flag_ok _ = false
