-- ===== src/Config.antt =====
-- coap_core/coap_packet/coap_config.py: the enumerations of the protocol, one module each, the
-- tokens of the client, and the format check of a received packet (in Packet/Format).
pub mod Member
pub mod MessageType
pub mod Code
pub mod OptionDelta
pub mod ContentFormat
pub mod Token
