-- ===== src/Worker/Pool/Answers.antt =====
-- The acknowledgement of a confirmable packet: its options, and that it can be sent. Exchange has what
-- it does at the sender's side.
pub mod Keys
pub mod Exchange
use coap_share_drive.Base.{
  ℕ, ◌^◌, ◌%◌, ◌<◌, ◌==◌, ◌≡◌, ◌≢◌, refl, ◌⊎◌, inl, inr, Bool, true, false, ◌||◌, if◌then◌else◌,
  Option, none, some, List, [], ◌∷◌, arith, Bool-cases, ap, sym, ◌∙◌, length,
}
use coap_share_drive.Base.Eq.{nat_eq}
use coap_share_drive.Base.Outcome.{Outcome, ok, ◌>>=◌}
use coap_share_drive.Base.Dict.{get, has, put, has-get}
use coap_share_drive.Bytes.{Bytes}
use coap_share_drive.Config.Code
use coap_share_drive.Config.MessageType
use coap_share_drive.Config.OptionDelta
use coap_share_drive.Packet.{
  Packet, Address, WorkId, work_id, get_block_id, get_option_code, option_at,
}
use coap_share_drive.Packet.Value.{OptionValue, int, bytes}
use coap_share_drive.Packet.Block.{block_of}
use coap_share_drive.Packet.Options.{is_text_option, value_bytes}
use coap_share_drive.Bytes.Int.{
  big_endian, byte_length, to_bytes-byte_length, length-big_endian, byte_length-le_four,
}
use coap_share_drive.Packet.Format.{verify_format}
use coap_share_drive.Packet.Decode.{JsonCodec, Options, decode}
use coap_share_drive.Packet.Encode.{encode, sorted_items, insert_sorted}
use coap_share_drive.Packet.RoundTrip.{arrived, IsSendable, decode-encode}
use coap_share_drive.Packet.RoundTrip.PayloadPart.{
  LoadsDumps, PayloadFits, format_of, get-sorted_items,
}
use coap_share_drive.Packet.RoundTrip.Numbers.{number-Survives}
use coap_share_drive.Packet.RoundTrip.OptionList.{Survives, Rising}
use coap_share_drive.Templates
use coap_share_drive.Templates.{Template, empty_ack, success_continue_ack, value_with}
use coap_share_drive.Worker.Pool.Filter.{acknowledgement, with_block}

-- The option of the block is missing, or it is BLOCK1 or else BLOCK2 with a number.
pub data BlockOption (p : Packet) : Type 0 where
  unblocked :
      get (OptionDelta.value OptionDelta.block1) p.options ≡ none
      → get (OptionDelta.value OptionDelta.block2) p.options ≡ none
      → BlockOption p
  first :
      (n : ℕ)
      → n < 2 ^ 32
      → get (OptionDelta.value OptionDelta.block1) p.options ≡ some (int n)
      → BlockOption p
  second :
      (n : ℕ)
      → n < 2 ^ 32
      → get (OptionDelta.value OptionDelta.block1) p.options ≡ none
      → get (OptionDelta.value OptionDelta.block2) p.options ≡ some (int n)
      → BlockOption p

-- The options of the acknowledgement.
abbrev pub copied : (p : Packet) → BlockOption p → Options
copied p (unblocked _ _) = []
copied p (first n _ _) = (27, int n) ∷ []
copied p (second n _ _ _) = (23, int n) ∷ []

pub arrived-BlockOption :
    (p : Packet) (address : Option Address) → BlockOption p → BlockOption (arrived p address)
arrived-BlockOption p address (unblocked e f) =
    unblocked (get-sorted_items 27 p.options ∙ e) (get-sorted_items 23 p.options ∙ f)
arrived-BlockOption p address (first n h e) = first n h (get-sorted_items 27 p.options ∙ e)
arrived-BlockOption p address (second n h e f) =
    second n h (get-sorted_items 27 p.options ∙ e) (get-sorted_items 23 p.options ∙ f)

unfoldable pub block_id : (p : Packet) → BlockOption p → Outcome (Option ℕ)
block_id p (unblocked _ _) = ok none
block_id p (first n _ _) = do b ← block_of (int n); ok (some b.num)
block_id p (second n _ _ _) = do b ← block_of (int n); ok (some b.num)

pub get_block_id-block_id : (p : Packet) (o : BlockOption p) → get_block_id p ≡ block_id p o
unfolding get_block_id option_at block_id
get_block_id-block_id p (unblocked e f) = rw (has-get 27 p.options, has-get 23 p.options, e, f) refl
get_block_id-block_id p (first n h e) = rw (has-get 27 p.options, e) refl
get_block_id-block_id p (second n h e f) =
    rw (has-get 27 p.options, has-get 23 p.options, e, f) refl

code_of : (p : Packet) → BlockOption p → Option ℕ
code_of p (unblocked _ _) = none
code_of p (first n _ _) = some 27
code_of p (second n _ _ _) = some 23

get_option_code-code_of : (p : Packet) (o : BlockOption p) → get_option_code p ≡ code_of p o
unfolding get_option_code code_of
get_option_code-code_of p (unblocked e f) =
    rw (has-get 27 p.options, has-get 23 p.options, e, f) refl
get_option_code-code_of p (first n h e) = rw (has-get 27 p.options, e) refl
get_option_code-code_of p (second n h e f) =
    rw (has-get 27 p.options, has-get 23 p.options, e, f) refl

with_block-copied :
    (p ack : Packet) (o : BlockOption p)
    → ack.options ≡ []
    → with_block p ack ≡ record ack { options = copied p o }
unfolding put code_of
with_block-copied p ack (unblocked e f) a =
    let c : get_option_code p ≡ none = get_option_code-code_of p (unblocked e f) in
    rw (c, with_block) (ap (λ l. record ack { options = l }) a)
with_block-copied p ack (first n h e) a =
    let c : get_option_code p ≡ some 27 = get_option_code-code_of p (first n h e) in
    rw (c, e, with_block) (ap (λ l. record ack { options = put 27 (int n) l }) a)
with_block-copied p ack (second n h e f) a =
    let c : get_option_code p ≡ some 23 = get_option_code-code_of p (second n h e f) in
    rw (c, f, with_block) (ap (λ l. record ack { options = put 23 (int n) l }) a)

-- The codes whose acknowledgement carries the block option: methods and content.
abbrev pub IsAcknowledged : ℕ → Type 0
IsAcknowledged code = (Code.is_method code || code == 69) ≡ true

pub data IsPlainAck : Template → Type 0 where
  of_method : IsPlainAck empty_ack
  of_content : IsPlainAck success_continue_ack

unfoldable pub acked : Template → Options → Packet → Option Address → Packet
acked t options p address = record (value_with t p.token p.message_id address) {
  options = options;
  sender_ip_port = p.sender_ip_port;
}

pub acknowledgement-acked :
    (p : Packet) (address : Option Address) (o : BlockOption p)
    → IsAcknowledged p.code
    → (t : Template) × IsPlainAck t × (acknowledgement p address ≡ acked t (copied p o) p address)
unfolding acknowledgement acked
acknowledgement-acked p address o k = elim (Bool-cases (Code.is_method p.code)) [
  | inl method ↦ (
    empty_ack,
    of_method,
    rw method (
        ap {A = Packet} (λ q. record q { sender_ip_port = p.sender_ip_port })
          (with_block-copied p (value_with empty_ack p.token p.message_id address) o
            (unfold value_with in refl))),
  )
  | inr other ↦
      let content : (p.code == 69) ≡ true = rw other at k in
      (
        success_continue_ack,
        of_content,
        rw (other, content)
            (ap {A = Packet} (λ q. record q { sender_ip_port = p.sender_ip_port })
              (with_block-copied p (value_with success_continue_ack p.token p.message_id address) o
                (unfold value_with in refl))),
      )
]

-- Such an acknowledgement can be sent.
pub acked-IsSendable :
    (json : JsonCodec) (t : Template) (p : Packet) (address : Option Address) (o : BlockOption p)
    → IsPlainAck t
    → length p.token < 16
    → IsSendable json (acked t (copied p o) p address)
acked-IsSendable json t p address o k short = sendable t o k
  where
    rising : (o : BlockOption p) → Rising 0 0 (sorted_items (copied p o))
    rising (unblocked _ _) = unfold sorted_items in tt
    rising (first n h _) =
        unfold sorted_items insert_sorted in
        (
          omega arith,
          omega arith,
          number-Survives 27 27 n (omega arith) (unfold is_text_option in refl) (λ e. omega arith)
              h,
          tt,
        )
    rising (second n h _ _) =
        unfold sorted_items insert_sorted in
        (
          omega arith,
          omega arith,
          number-Survives 23 23 n (omega arith) (unfold is_text_option in refl) (λ e. omega arith)
              h,
          tt,
        )

    format : (o : BlockOption p) → PayloadFits json (format_of (copied p o)) (bytes [])
    format (unblocked _ _) = unfold get in tt
    format (first n h _) = unfold get in tt
    format (second n h _ _) = unfold get in tt

    sendable :
        (t : Template) (o : BlockOption p)
        → IsPlainAck t
        → IsSendable json (acked t (copied p o) p address)
    sendable _ o of_method =
        unfold acked value_with in
        (record {
          version_fits = omega arith;
          type_fits = omega arith;
          token_fits = short;
          code_fits = omega arith;
          id_fits = omega arith;
          rising = rising o;
          payload_fits = format o;
          not_encoded = refl;
        })
    sendable _ o of_content =
        unfold acked value_with in
        (record {
          version_fits = omega arith;
          type_fits = omega arith;
          token_fits = short;
          code_fits = omega arith;
          id_fits = omega arith;
          rising = rising o;
          payload_fits = format o;
          not_encoded = refl;
        })
