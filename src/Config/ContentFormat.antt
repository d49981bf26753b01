-- ===== src/Config/ContentFormat.antt =====
-- coap_config.py, CoapContentFormat.
use coap_share_drive.Base.{ℕ, Bool, List, [], ◌∷◌}
use coap_share_drive.Config.Member.{any_member}

pub data ContentFormat : Type 0 where
  text_plain_utf8 application_link_format application_xml application_octet_stream : ContentFormat
  application_exi application_json : ContentFormat

abbrev pub value : ContentFormat → ℕ
value text_plain_utf8 = 0
value application_link_format = 40
value application_xml = 41
value application_octet_stream = 42
value application_exi = 47
value application_json = 50

abbrev pub members : List ContentFormat
members =
    text_plain_utf8 ∷ application_link_format ∷ application_xml ∷ application_octet_stream
    ∷ application_exi ∷ application_json ∷ []

unfoldable pub is_valid : ℕ → Bool
is_valid item = any_member value members item
