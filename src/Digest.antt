-- ===== src/Digest.antt =====
-- custom_components/intratone/digest_auth.py: Digest authentication.
-- `none` is the ValueError that the function raises.
use ha_intratone.Base.{
  ℕ, Bool, true, false, Option, none, some, List, [], ◌∷◌, ◌++◌, drop, ◌&&◌, ◌||◌, ◌==◌,
  if◌then◌else◌, get_or,
}
use ha_intratone.Base.Text.{
  Text, codes, text_eq, truthy, lower, upper, join, zero_fill, encode, lookup, concat, split_on,
  show_hex,
}
use ha_intratone.Sip.Types.{Libs}
use ha_intratone.Sip.Header.{strip}

-- `DigestChallenge`
pub record DigestChallenge : Type 0 where
  pub realm : Text
  pub nonce : Text
  pub qop : Option Text
  pub opaque : Option Text
  pub algorithm : Text

-- `s.startswith(t)`
unfoldable pub starts_with : Text → Text → Bool
starts_with s [] = true
starts_with [] (_ ∷ _) = false
starts_with (c ∷ s) (d ∷ t) = c == d && starts_with s t

-- The dict comprehension: keys in lower case, a later match replacing an earlier one.
unfoldable pub params_of : List (Text × Text) → List (Text × Text)
params_of [] = []
params_of ((k, v) ∷ kvs) = params_of kvs ++ (lower k, v) ∷ []

-- `params["realm"]` and `params["nonce"]` raise where they are missing.
challenge_of : Option Text → Option Text → List (Text × Text) → Option DigestChallenge
challenge_of none found params = none
challenge_of (some realm) none params = none
challenge_of (some realm) (some n) params = some (record {
  realm = realm;
  nonce = n;
  qop = lookup (codes "qop") params;
  opaque = lookup (codes "opaque") params;
  algorithm = upper (get_or (lookup (codes "algorithm") params) (codes "MD5"));
})

unfoldable pub parse_challenge : Libs → Text → Option DigestChallenge
unfolding challenge_of starts_with params_of strip lower
parse_challenge libs header_value =
    let stripped = strip header_value in
    let params = params_of (libs.kv_matches (drop 6 stripped)) in
    if starts_with (lower stripped) (codes "digest")
    then challenge_of (lookup (codes "realm") params) (lookup (codes "nonce") params) params
    else none

-- `"auth" in [q.strip() for q in qop.split(",")]`
offers_auth : List Text → Bool
offers_auth [] = false
offers_auth (q ∷ qs) = text_eq (strip q) (codes "auth") || offers_auth qs

-- `key="value"`
quoted : Text → Text → Text
unfolding concat
quoted key value = concat (key ∷ codes "=\"" ∷ value ∷ codes "\"" ∷ [])

-- `_md5` of the parts joined by colons.
md5_of : Libs → List Text → Text
unfolding join encode
md5_of libs parts = libs.md5_hex (encode (join (codes ":") parts))

-- The parts without a quality of protection: `response` alone.
plain_response : Libs → DigestChallenge → Text → Text → List Text
unfolding quoted md5_of
plain_response libs challenge ha1 ha2 =
    quoted (codes "response") (md5_of libs (ha1 ∷ challenge.nonce ∷ ha2 ∷ [])) ∷ []

-- The four parts with `qop=auth`.
auth_response : Libs → DigestChallenge → Text → Text → Text → Text → List Text
unfolding quoted md5_of
auth_response libs challenge ha1 ha2 cnonce nc_str =
    codes "qop=auth"
    ∷ (codes "nc=" ++ nc_str)
    ∷ quoted (codes "cnonce") cnonce
    ∷ quoted (codes "response")
        (md5_of libs (ha1 ∷ challenge.nonce ∷ nc_str ∷ cnonce ∷ codes "auth" ∷ ha2 ∷ []))
    ∷ []

-- `if challenge.qop: ... else: ...`; no part at all is the ValueError for an unsupported qop.
response_parts : Libs → DigestChallenge → Text → Text → Text → Text → Option (List Text)
unfolding offers_auth auth_response plain_response split_on strip
response_parts libs challenge ha1 ha2 cnonce nc_str =
    let qop = get_or challenge.qop [] in
    if truthy qop
    then if offers_auth (split_on b',' qop)
      then some (auth_response libs challenge ha1 ha2 cnonce nc_str)
      else none
    else some (plain_response libs challenge ha1 ha2)

opaque_part : Option Text → List Text
unfolding quoted
opaque_part none = []
opaque_part (some []) = []
opaque_part (some (c ∷ s)) = quoted (codes "opaque") (c ∷ s) ∷ []

with_parts : DigestChallenge → Text → Text → Option (List Text) → Option Text
unfolding quoted opaque_part join
with_parts challenge username uri none = none
with_parts challenge username uri (some parts) = some (
    codes "Digest "
    ++ join (codes ", ") (
        quoted (codes "username") username
          ∷ quoted (codes "realm") challenge.realm
          ∷ quoted (codes "nonce") challenge.nonce
          ∷ quoted (codes "uri") uri
          ∷ (codes "algorithm=" ++ challenge.algorithm)
          ∷ parts
        ++ opaque_part challenge.opaque))

-- `cnonce` is the argument or the fresh token that stands in for it.
unfoldable pub build_authorization :
    Libs → DigestChallenge → Text → Text → Text → Text → Text → ℕ → Option Text
unfolding md5_of response_parts with_parts show_hex zero_fill text_eq
build_authorization libs challenge username password method uri cnonce nc =
    if text_eq challenge.algorithm (codes "MD5")
    then with_parts challenge username uri (
        response_parts libs challenge (md5_of libs (username ∷ challenge.realm ∷ password ∷ []))
          (md5_of libs (method ∷ uri ∷ [])) cnonce (zero_fill 8 (show_hex nc)))
    else none
