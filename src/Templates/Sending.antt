-- ===== src/Templates/Sending.antt =====
-- Every ready-made reply can be sent and passes the format check of the receiver.
use coap_share_drive.Base.{ℕ, ◌<◌, ◌≡◌, refl, true, Option, arith, length}
use coap_share_drive.Base.Eq.{nat_eq}
use coap_share_drive.Base.Dict.{get}
use coap_share_drive.Bytes.{Bytes}
use coap_share_drive.Config.MessageType
use coap_share_drive.Config.Code
use coap_share_drive.Config.OptionDelta
use coap_share_drive.Packet.{Address}
use coap_share_drive.Packet.Decode.{JsonCodec}
use coap_share_drive.Packet.Encode.{sorted_items}
use coap_share_drive.Packet.Format.{verify_format}
use coap_share_drive.Packet.RoundTrip.{IsSendable}
use coap_share_drive.Templates.{Template, not_implemented, value_with}

-- For a token of fewer than 16 bytes a reply made from a template meets the conditions of the round
-- trip through `encode` and `decode`, whatever message id is asked for, and passes the format check.
pub value_with-IsSendable :
    (json : JsonCodec) (t : Template) (tkn : Bytes) (msg_id : ℕ) (ip_port : Option Address)
    → length tkn < 16
    → IsSendable json (value_with t tkn msg_id ip_port)
      × (verify_format (value_with t tkn msg_id ip_port) ≡ true)
unfolding value_with verify_format sorted_items get MessageType.is_valid Code.is_valid
    OptionDelta.is_valid
value_with-IsSendable json not_implemented tkn msg_id ip_port h = (
  record {
    version_fits = omega arith;
    type_fits = omega arith;
    token_fits = h;
    code_fits = omega arith;
    id_fits = omega arith;
    rising = tt;
    payload_fits = tt;
    not_encoded = refl;
  },
  refl,
)
value_with-IsSendable json _ tkn msg_id ip_port h = (
  record {
    version_fits = omega arith;
    type_fits = omega arith;
    token_fits = h;
    code_fits = omega arith;
    id_fits = omega arith;
    rising = tt;
    payload_fits = tt;
    not_encoded = refl;
  },
  refl,
)
