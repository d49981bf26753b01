-- ===== src/Config/OptionDelta.antt =====
-- coap_config.py, CoapOptionDelta: the option numbers.
use coap_share_drive.Base.{ℕ, Bool, true, false, List, [], ◌∷◌, if◌then◌else◌}
use coap_share_drive.Config.Member.{any_member}

pub data OptionDelta : Type 0 where
  if_match uri_host etag if_none_match uri_port location_path uri_path content_format : OptionDelta
  max_age uri_query accept location_query block2 block1 proxy_uri proxy_scheme : OptionDelta
  size1 size2 : OptionDelta

abbrev pub value : OptionDelta → ℕ
value if_match = 1
value uri_host = 3
value etag = 4
value if_none_match = 5
value uri_port = 7
value location_path = 8
value uri_path = 11
value content_format = 12
value max_age = 14
value uri_query = 15
value accept = 17
value location_query = 20
value block2 = 23
value block1 = 27
value proxy_uri = 35
value proxy_scheme = 39
value size1 = 60
value size2 = 28

abbrev pub members : List OptionDelta
members =
    if_match ∷ uri_host ∷ etag ∷ if_none_match ∷ uri_port ∷ location_path ∷ uri_path
    ∷ content_format ∷ max_age ∷ uri_query ∷ accept ∷ location_query ∷ block2 ∷ block1 ∷ proxy_uri
    ∷ proxy_scheme ∷ size1 ∷ size2 ∷ []

-- Iterating over the dict gives its keys; the first one that is no member's value decides.
unfoldable pub is_valid : List ℕ → Bool
is_valid [] = true
is_valid (item ∷ items) = if any_member value members item then is_valid items else false
