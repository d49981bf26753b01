-- ===== src/Packet/Value.antt =====
-- coap_packet.py: the values that the attributes of a CoapPacket hold.
use coap_share_drive.Base.{ℕ, ◌==◌, Bool, true, false, not, List, [], ◌∷◌}
use coap_share_drive.Base.Dict.{Dict}
use coap_share_drive.Bytes.{Bytes, Text}

-- The value of an option; `nothing` is None.
pub data OptionValue : Type 0 where
  str : Text → OptionValue
  int : ℕ → OptionValue
  bytes : Bytes → OptionValue
  nothing : OptionValue

-- A JSON document as the program builds them: an object from strings to strings.
abbrev pub Doc : Type 0
Doc = Dict Text Text

pub data Payload : Type 0 where
  bytes : Bytes → Payload
  str : Text → Payload
  doc : Doc → Payload

abbrev pub is_empty {ℓ} : {A : Type ℓ} → List A → Bool
is_empty [] = true
is_empty (x ∷ xs) = false

-- Python's truth of a value: not None, not 0, not empty.
abbrev pub option_truth : OptionValue → Bool
option_truth (str t) = not (is_empty t)
option_truth (int n) = not (n == 0)
option_truth (bytes b) = not (is_empty b)
option_truth nothing = false

abbrev pub payload_truth : Payload → Bool
payload_truth (bytes b) = not (is_empty b)
payload_truth (str t) = not (is_empty t)
payload_truth (doc d) = not (is_empty d)

-- `payload or b""`
abbrev pub or_no_bytes : Payload → Payload
or_no_bytes (bytes b) = bytes b
or_no_bytes (str []) = bytes []
or_no_bytes (str (c ∷ cs)) = str (c ∷ cs)
or_no_bytes (doc []) = bytes []
or_no_bytes (doc (e ∷ d)) = doc (e ∷ d)

-- value == n, for an option's value and a number
abbrev pub equals_int : OptionValue → ℕ → Bool
equals_int (str t) n = false
equals_int (int k) n = k == n
equals_int (bytes b) n = false
equals_int nothing n = false
