-- ===== src/Sip/Header/Tests.antt =====
-- Runs of the header parsers.
use ha_intratone.Base.{[], ◌∷◌, ◌≡◌, inl, inr, refl, map}
use ha_intratone.Base.Text.{codes, join}
use ha_intratone.Sip.Header.{split_route_values, mark}
use ha_intratone.Sip.Header.Routes.{Entry, Inner, Plain, entry_text, split_route_values-join}

comma_uri : Inner (codes "a,b")
unfolding mark
comma_uri = (inl refl, (inr refl, (inl refl, tt)))

loose_route : Plain (codes ";lr")
unfolding mark
loose_route = (refl, (refl, (refl, tt)))

-- `<a,b>;lr`
abbrev proxy : Entry
proxy = record {
  display = [];
  uri = codes "a,b";
  params = codes ";lr";
  display_plain = tt;
  uri_inner = comma_uri;
  params_plain = loose_route;
}

split_route_values-join_example :
    split_route_values (join (b',' ∷ []) (map entry_text (proxy ∷ proxy ∷ [])))
    ≡ map entry_text (proxy ∷ proxy ∷ [])
split_route_values-join_example = split_route_values-join proxy (proxy ∷ [])
