-- ===== src/Packet.antt =====
-- coap_core/coap_packet/coap_packet.py: the CoapPacket object and its accessors. The children model
-- the option block, the options, `encode`, `decode` and verify_format.
pub mod Value
pub mod Block
pub mod Options
pub mod Decode
pub mod Encode
pub mod RoundTrip
pub mod Errors
pub mod Format
pub mod Keys
pub mod Caching
use coap_share_drive.Base.{ℕ, Bool, true, false, ◌||◌, if◌then◌else◌, Option, none, some, List, []}
use coap_share_drive.Base.Eq.{nat_eq}
use coap_share_drive.Base.Outcome.{Outcome, ok, key_error, or_raise, ◌>>=◌}
use coap_share_drive.Base.Dict.{Dict, get, has}
use coap_share_drive.Bytes.{Bytes, Text}
use coap_share_drive.Config.OptionDelta.{value, block1, block2, size1, size2}
use Value.{OptionValue, Payload}
use Block.{block_of}

-- The pair (ip, port).
abbrev pub Address : Type 0
Address = Text × ℕ

-- The attributes of a CoapPacket but the socket, whose only use is to send: what a handler sends
-- is in its result. The address is none where Python has () or None.
pub record Packet : Type 0 where
  pub version : ℕ
  pub message_type : ℕ
  pub token : Bytes
  pub code : ℕ
  pub message_id : ℕ
  pub options : Dict ℕ OptionValue
  pub payload : Payload
  pub sender_ip_port : Option Address
  pub needs_internal_computation : Bool
  pub encoded : Bytes

-- __copy__: every attribute but the cached bytes.
unfoldable pub copy : Packet → Packet
copy p = record p { encoded = [] }

unfoldable pub has_option_block : Packet → Bool
has_option_block p = has (value block1) p.options || has (value block2) p.options

-- options[key], a KeyError where it is missing
unfoldable pub option_at : ℕ → Packet → Outcome OptionValue
option_at key p = or_raise (get key p.options) key_error

unfoldable pub get_block_id : Packet → Outcome (Option ℕ)
unfolding option_at
get_block_id p =
    if has (value block1) p.options
    then (do v ← option_at (value block1) p; b ← block_of v; ok (some b.num))
    else if has (value block2) p.options
    then (do v ← option_at (value block2) p; b ← block_of v; ok (some b.num))
    else ok none

unfoldable pub get_option_code : Packet → Option ℕ
get_option_code p =
    if has (value block1) p.options
    then some (value block1)
    else if has (value block2) p.options
    then some (value block2)
    else none

unfoldable pub get_size_code : Packet → Option ℕ
get_size_code p =
    if has (value size1) p.options
    then some (value size1)
    else if has (value size2) p.options
    then some (value size2)
    else none

unfoldable pub get_size_code_based_on_option : Packet → Option ℕ
get_size_code_based_on_option p =
    if has (value block1) p.options
    then some (value size1)
    else if has (value block2) p.options
    then some (value size2)
    else none

-- The keys of the transaction pool: (sender_ip_port, token, message_id, block id) and its first two.
abbrev pub GeneralWorkId : Type 0
GeneralWorkId = Option Address × Bytes

pub record WorkId : Type 0 where
  pub address : Option Address
  pub token : Bytes
  pub message_id : ℕ
  pub block_id : Option ℕ

unfoldable pub work_id : Packet → Outcome WorkId
work_id p = do
  block_id ← get_block_id p
  ok (record {
    address = p.sender_ip_port;
    token = p.token;
    message_id = p.message_id;
    block_id = block_id;
  })

unfoldable pub general_work_id : Packet → GeneralWorkId
general_work_id p = (p.sender_ip_port, p.token)
