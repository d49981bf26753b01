-- ===== src/Templates.antt =====
-- coap_core/coap_packet/coap_templates.py: the ready-made replies.
pub mod Sending
use coap_share_drive.Base.{ℕ, ◌%◌, false, Option, none, []}
use coap_share_drive.Bytes.{Bytes}
use coap_share_drive.Config.MessageType.{con, non, ack, rst, CoapType}
use coap_share_drive.Config.MessageType
use coap_share_drive.Config.Code
use coap_share_drive.Config.Code.{Code}
use coap_share_drive.Packet.{Packet, Address, copy}
use coap_share_drive.Packet.Value.{bytes}

pub data Template : Type 0 where
  not_implemented bad_request conflict not_found failed_request internal_error : Template
  empty_ack success_continue_ack success_deleted success_changed : Template

-- CoapPacket(version=1, message_type=…, token=b"", code=…, message_id=0, options={}, payload="")
abbrev plain_packet : CoapType → Code → Packet
plain_packet message_type code = record {
  version = 1;
  message_type = MessageType.value message_type;
  token = [];
  code = Code.value code;
  message_id = 0;
  options = [];
  payload = bytes [];
  sender_ip_port = none;
  needs_internal_computation = false;
  encoded = [];
}

unfoldable pub coap_packet : Template → Packet
coap_packet not_implemented = plain_packet rst Code.server_error_not_implemented
coap_packet bad_request = plain_packet rst Code.client_error_bad_request
coap_packet conflict = plain_packet rst Code.client_error_conflict
coap_packet not_found = plain_packet rst Code.client_error_not_found
coap_packet failed_request = plain_packet rst Code.client_entity_incomplete
coap_packet internal_error = plain_packet rst Code.server_error_internal_server_error
coap_packet empty_ack = plain_packet ack Code.empty
coap_packet success_continue_ack = plain_packet ack Code.success_continue
coap_packet success_deleted = plain_packet ack Code.success_deleted
coap_packet success_changed = plain_packet ack Code.success_changed

-- The attributes that value_with sets on a copy of a template's packet.
unfoldable pub addressed : Packet → Bytes → ℕ → Option Address → Packet
unfolding copy
addressed packet tkn msg_id ip_port = record (copy packet) {
  token = tkn;
  message_id = msg_id % 65536;
  sender_ip_port = ip_port;
}

unfoldable pub value_with : Template → Bytes → ℕ → Option Address → Packet
unfolding addressed coap_packet
value_with template tkn msg_id ip_port = addressed (coap_packet template) tkn msg_id ip_port

unfoldable pub value : Template → Packet
unfolding coap_packet copy
value template = copy (coap_packet template)
