-- ===== src/Drive/DriveTemplates.antt =====
-- share_drive/share_drive_helpers/drive_templates.py: the requests and responses of the file
-- service.
use coap_share_drive.Base.{ℕ, ◌<◌, ◌≡◌, refl, arith, Bool, true, false, Option, none, [], ◌∷◌}
use coap_share_drive.Bytes.{Bytes}
use coap_share_drive.Config.MessageType.{con}
use coap_share_drive.Config.MessageType
use coap_share_drive.Config.Code
use coap_share_drive.Config.Code.{Code}
use coap_share_drive.Config.OptionDelta
use coap_share_drive.Config.OptionDelta.{
  OptionDelta, block1, block2, uri_path, location_path, content_format,
}
use coap_share_drive.Config.ContentFormat
use coap_share_drive.Config.ContentFormat.{application_json, application_octet_stream}
use coap_share_drive.Packet.{Packet, Address, copy}
use coap_share_drive.Packet.Value.{bytes, OptionValue, str, int}
use coap_share_drive.Packet.Decode.{Options}
use coap_share_drive.Templates.{addressed}
use coap_share_drive.Packet.Format.{verify_format}

pub data DriveTemplate : Type 0 where
  download upload change delete fetch content_response path_response : DriveTemplate

-- "<UNDEFINED>"
abbrev undefined : OptionValue
undefined = str (60 ∷ 85 ∷ 78 ∷ 68 ∷ 69 ∷ 70 ∷ 73 ∷ 78 ∷ 69 ∷ 68 ∷ 62 ∷ [])

abbrev confirmable : Code → Options → Bool → Packet
confirmable code options internal_computation = record {
  version = 1;
  message_type = MessageType.value con;
  token = [];
  code = Code.value code;
  message_id = 0;
  options = options;
  payload = bytes [];
  sender_ip_port = none;
  needs_internal_computation = internal_computation;
  encoded = [];
}

unfoldable pub coap_packet : DriveTemplate → Packet
coap_packet download =
    confirmable Code.get
      ((OptionDelta.value block2, int 6)
        ∷ (OptionDelta.value uri_path, undefined)
        ∷ (OptionDelta.value location_path, undefined)
        ∷ [])
      false
coap_packet upload =
    confirmable Code.put
      ((OptionDelta.value block1, int 6)
        ∷ (OptionDelta.value uri_path, undefined)
        ∷ (OptionDelta.value location_path, undefined)
        ∷ (OptionDelta.value content_format, int (ContentFormat.value application_json))
        ∷ [])
      true
coap_packet change =
    confirmable Code.post
      ((OptionDelta.value uri_path, undefined)
        ∷ (OptionDelta.value content_format, int (ContentFormat.value application_json))
        ∷ [])
      false
coap_packet delete =
    confirmable Code.delete
      ((OptionDelta.value uri_path, undefined) ∷ (OptionDelta.value location_path, undefined) ∷ [])
      false
coap_packet fetch =
    confirmable Code.fetch
      ((OptionDelta.value block2, int 6) ∷ (OptionDelta.value uri_path, undefined) ∷ []) false
coap_packet content_response =
    confirmable Code.success_content
      ((OptionDelta.value location_path, str [])
        ∷ (OptionDelta.value content_format, int (ContentFormat.value application_octet_stream))
        ∷ [])
      false
coap_packet path_response =
    confirmable Code.success_content
      ((OptionDelta.value content_format, int (ContentFormat.value application_json))
        ∷ (OptionDelta.value block2, int 6)
        ∷ [])
      false

unfoldable pub value_with : DriveTemplate → Bytes → ℕ → Option Address → Packet
unfolding addressed coap_packet
value_with template tkn msg_id ip_port = addressed (coap_packet template) tkn msg_id ip_port

unfoldable pub value : DriveTemplate → Packet
unfolding copy coap_packet
value template = copy (coap_packet template)

-- Every packet that a template of the drive gives passes the receiver's format check, and its
-- message id fits 16 bits, whatever token, message id and address are asked for; without them the
-- packet is the same but for those three.
pub value_with-IsWellFormed :
    (t : DriveTemplate) (tkn : Bytes) (msg_id : ℕ) (ip_port : Option Address)
    → (verify_format (value_with t tkn msg_id ip_port) ≡ true)
      × ((value_with t tkn msg_id ip_port).message_id < 65536)
      × (value_with t [] 0 none ≡ value t)
unfolding value_with value verify_format MessageType.is_valid Code.is_valid OptionDelta.is_valid
value_with-IsWellFormed download tkn msg_id ip_port = (refl, omega arith, refl)
value_with-IsWellFormed _ tkn msg_id ip_port = (refl, omega arith, refl)
