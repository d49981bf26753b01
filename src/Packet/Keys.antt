-- ===== src/Packet/Keys.antt =====
-- Equality of the keys by which the pool knows packets.
use coap_share_drive.Base.{ℕ, ◌≡◌, ◌↔◌, Bool, true, ◌&&◌, Option, arith}
use coap_share_drive.Base.Eq.{Eq, nat_eq, list_eq, option_eq, pair_eq}
use coap_share_drive.Bytes.{Bytes}
use coap_share_drive.Packet.{WorkId, Address, GeneralWorkId}

instance abbrev pub address_eq : Eq (Option Address)
address_eq = option_eq ⦃e = pair_eq ⦃e = list_eq ⦃e = nat_eq⦄⦄ ⦃f = nat_eq⦄⦄

instance abbrev pub general_work_id_eq : Eq GeneralWorkId
general_work_id_eq = pair_eq ⦃e = address_eq⦄ ⦃f = list_eq ⦃e = nat_eq⦄⦄

abbrev token_eq : Eq Bytes
token_eq = list_eq ⦃e = nat_eq⦄

abbrev block_eq : Eq (Option ℕ)
block_eq = option_eq ⦃e = nat_eq⦄

abbrev pub work_id_beq : WorkId → WorkId → Bool
work_id_beq a b =
    address_eq.beq a.address b.address
    && token_eq.beq a.token b.token
    && nat_eq.beq a.message_id b.message_id
    && block_eq.beq a.block_id b.block_id

pub work_id_beq_iff : (a b : WorkId) → (work_id_beq a b ≡ true) ↔ (a ≡ b)
work_id_beq_iff a b = ground (
  arith,
  address_eq.beq_iff a.address b.address,
  token_eq.beq_iff a.token b.token,
  nat_eq.beq_iff a.message_id b.message_id,
  block_eq.beq_iff a.block_id b.block_id,
)

instance abbrev pub work_id_eq : Eq WorkId
work_id_eq = record { beq = work_id_beq; beq_iff = work_id_beq_iff }
