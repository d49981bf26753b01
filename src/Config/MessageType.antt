-- ===== src/Config/MessageType.antt =====
-- coap_config.py, CoapType.
use coap_share_drive.Base.{ℕ, Bool, List, [], ◌∷◌}
use coap_share_drive.Config.Member.{any_member}

pub data CoapType : Type 0 where
  con non ack rst : CoapType

abbrev pub value : CoapType → ℕ
value con = 0
value non = 1
value ack = 2
value rst = 3

abbrev pub members : List CoapType
members = con ∷ non ∷ ack ∷ rst ∷ []

unfoldable pub is_valid : ℕ → Bool
is_valid item = any_member value members item
