-- ===== src/Sip/Header/Contact.antt =====
-- sip_client.py: `_extract_uri_from_contact` and `_extract_video_endpoint`.
use ha_intratone.Base.{ℕ, Option, none, some, [], ◌∷◌, ◌==◌, if◌then◌else◌}
use ha_intratone.Base.Text.{Text}
use ha_intratone.Sip.Types.{Libs}
use ha_intratone.Sip.Header.Split.{strip}

-- What stands behind the first `c`, and what stands before it: both `none` where `find` gives -1.
unfoldable pub behind : ℕ → Text → Option Text
behind c [] = none
behind c (d ∷ s) = if d == c then some s else behind c s

unfoldable pub before : ℕ → Text → Option Text
before c [] = none
before c (d ∷ s) =
    let rest = before c s in
    if d == c then some [] else elim rest [ none ↦ none | some t ↦ some (d ∷ t) ]

-- `s.split(c, 1)[0]`
unfoldable pub up_to : ℕ → Text → Text
unfolding before
up_to c s = elim (before c s) [ none ↦ s | some t ↦ t ]

-- `s or None`
abbrev pub or_none : Text → Option Text
or_none [] = none
or_none (c ∷ s) = some (c ∷ s)

-- The value itself, up to its parameters.
bare_uri : Text → Option Text
unfolding up_to strip
bare_uri contact = or_none (strip (up_to b';' contact))

between_angles : Text → Option Text → Option Text
unfolding bare_uri
between_angles contact none = bare_uri contact
between_angles contact (some rest) = elim (before b'>' rest) [
  | none ↦ bare_uri contact
  | some uri ↦ some uri
]

-- `_extract_uri_from_contact`
unfoldable pub extract_uri_from_contact : Text → Option Text
unfolding between_angles behind before
extract_uri_from_contact [] = none
extract_uri_from_contact (c ∷ s) = between_angles (c ∷ s) (behind b'<' (c ∷ s))

with_ip : Option Text → ℕ → Option (Text × ℕ)
with_ip none port = none
with_ip (some ip) port = some (ip, port)

-- `_extract_video_endpoint`: `none` where the media line is absent or its port is 0.
unfoldable pub extract_video_endpoint : Libs → Text → Option (Text × ℕ)
unfolding with_ip
extract_video_endpoint libs sdp = elim (libs.video_port sdp) [
  | none ↦ none
  | some port ↦ if port == 0 then none else with_ip (libs.connection_ip sdp) port
]
