-- ===== src/Worker/Pool/Answers/Keys.antt =====
-- The work id of a packet at the receiver, and of its acknowledgement at the sender.
use coap_share_drive.Base.{ℕ, ◌%◌, ◌<◌, ◌≡◌, refl, inl, inr, Option, arith, ap, sym, ◌∙◌}
use coap_share_drive.Base.Eq.{nat_eq}
use coap_share_drive.Base.Outcome.{Exc, Outcome-cases, ok, err, ok-inj, ◌>>=◌}
use coap_share_drive.Base.Dict.{get, has}
use coap_share_drive.Packet.{Packet, Address, WorkId, work_id, get_block_id, option_at}
use coap_share_drive.Packet.Keys.{work_id_eq, general_work_id_eq}
use coap_share_drive.Packet.Encode.{sorted_items, insert_sorted}
use coap_share_drive.Packet.RoundTrip.{arrived}
use coap_share_drive.Templates.{Template, value_with}
use coap_share_drive.Worker.Pool.Answers.{
  BlockOption, unblocked, first, second, copied, acked, block_id, get_block_id-block_id,
  arrived-BlockOption,
}

-- An acknowledgement is known by the work id of what it acknowledges.
get_block_id-acked :
    (t : Template) (p : Packet) (here there : Option Address) (o : BlockOption p)
    → get_block_id (arrived (acked t (copied p o) p here) there) ≡ block_id p o
unfolding get_block_id option_at has get block_id acked sorted_items insert_sorted
get_block_id-acked t p here there (unblocked _ _) = refl
get_block_id-acked t p here there (first _ _ _) = refl
get_block_id-acked t p here there (second _ _ _ _) = refl

block_id-arrived :
    (p : Packet) (here : Option Address) (o : BlockOption p)
    → block_id (arrived p here) (arrived-BlockOption p here o) ≡ block_id p o
unfolding block_id arrived-BlockOption
block_id-arrived p here (unblocked _ _) = refl
block_id-arrived p here (first _ _ _) = refl
block_id-arrived p here (second _ _ _ _) = refl

same_block :
    (p : Packet) (here : Option Address) (o : BlockOption p)
    → get_block_id (arrived p here) ≡ get_block_id p
same_block p here o =
    get_block_id-block_id (arrived p here) (arrived-BlockOption p here o)
    ∙ block_id-arrived p here o
    ∙ sym (get_block_id-block_id p o)

-- The work id with this block id, at this address.
named : Packet → Option Address → ℕ → Option ℕ → WorkId
named p address message_id block = record {
  address = address;
  token = p.token;
  message_id = message_id;
  block_id = block;
}

pub work_id-acked :
    (t : Template) (p : Packet) (here : Option Address) (o : BlockOption p)
    → p.message_id < 65536
    → work_id (
        arrived
          (acked t (copied (arrived p here) (arrived-BlockOption p here o)) (arrived p here) here)
          p.sender_ip_port)
      ≡ work_id p
unfolding work_id named acked value_with
work_id-acked t p here o fits =
    ap (λ b. b >>= λ n. ok (named p p.sender_ip_port (p.message_id % 65536) n)) same
    ∙ ap (λ i. get_block_id p >>= λ n. ok (named p p.sender_ip_port i n)) (omega (arith, fits))
  where
    same :
        get_block_id (
          arrived
            (acked t (copied (arrived p here) (arrived-BlockOption p here o)) (arrived p here) here)
            p.sender_ip_port)
        ≡ get_block_id p
    same =
        get_block_id-acked t (arrived p here) here p.sender_ip_port (arrived-BlockOption p here o)
        ∙ block_id-arrived p here o
        ∙ sym (get_block_id-block_id p o)

-- At the receiver the packet has its own address in the place of the sender's.
pub work_id-arrived :
    (p : Packet) (here : Option Address) (o : BlockOption p) (key : WorkId)
    → work_id p ≡ ok key
    → work_id (arrived p here) ≡ ok (record key { address = here })
unfolding work_id named
work_id-arrived p here o key w = elim (Outcome-cases (get_block_id p)) [
  | inl (b, e) ↦
      let k : named p p.sender_ip_port p.message_id b ≡ key =
        ok-inj (ap (λ m. m >>= λ n. ok (named p p.sender_ip_port p.message_id n)) (sym e) ∙ w) in
      ap (λ m. m >>= λ n. ok (named p here p.message_id n)) (same_block p here o ∙ e)
      ∙ ap {A = WorkId} (λ k. ok (record k { address = here })) k
  | inr (x, e) ↦
      absurd
        (raised (ap (λ m. m >>= λ n. ok (named p p.sender_ip_port p.message_id n)) (sym e) ∙ w))
]
  where
    raised : {x : Exc} {k : WorkId} → err x ≡ ok k → ⊥
    raised h = cc
