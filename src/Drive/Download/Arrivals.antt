-- ===== src/Drive/Download/Arrivals.antt =====
-- The datagrams as they arrive: the receiver's calls are those of `deliver`.
use coap_share_drive.Base.{
  ℕ, zero, suc, ◌+◌, ◌-◌, ◌^◌, ◌<◌, ◌≡◌, refl, inl, inr, ◌==◌, Bool, Bool-cases, true, false,
  Option, some, List, [], ◌∷◌, arith, ap, ◌∙◌, length,
}
use coap_share_drive.Base.Outcome.{Outcome, err, ok}
use coap_share_drive.Base.Dict.{get}
use coap_share_drive.Base.Eq.{nat_eq, list_eq}
use coap_share_drive.Bytes.{Bytes, Text}
use coap_share_drive.Packet.{get_size_code_based_on_option, Packet, Address, copy}
use coap_share_drive.Packet.Keys.{general_work_id_eq}
use coap_share_drive.Packet.Value.{str}
use coap_share_drive.Packet.Block.{Block}
use coap_share_drive.Packet.Decode.{JsonCodec, decode}
use coap_share_drive.Packet.Encode.{sorted_items}
use coap_share_drive.Packet.RoundTrip.{arrived}
use coap_share_drive.Packet.RoundTrip.PayloadPart.{LoadsDumps}
use coap_share_drive.Templates.{addressed}
use coap_share_drive.Transaction.{Datagram}
use coap_share_drive.Drive.DriveTemplates
use coap_share_drive.Drive.Assembler.{Assembler, Files}
use coap_share_drive.Drive.Assembler.Handling.{handle_packets}
use coap_share_drive.Drive.Assembler.Storing.{with_packet}
use coap_share_drive.Drive.Assembler.Transfer.{nth}
use coap_share_drive.Drive.Assembler.Delivery.{
  full_path-LeadsThere, deliver, go_on, Completes, IsBlockOf,
}
use coap_share_drive.Drive.Splitter.{response}
use coap_share_drive.Drive.Splitter.Responses.{
  Direction, block_code, size_code, block_of_index, response-IsBlockOf, response-options_first,
  response-options_later,
}
use coap_share_drive.Drive.Splitter.Loop.{MakesRoom, AllSendable, datagrams}
use coap_share_drive.Worker.Resources.{Handler}
use coap_share_drive.Drive.Download.{nth_payload, in_order, receive}
use coap_share_drive.Drive.Download.Sent.{IsTransfer, make}

-- The numbers of the datagrams in the order of their arrival: all of them are there after the last
-- one, and not before.
abbrev pub CompletesAt : ℕ → (ℕ → Bool) → List ℕ → Type 0
CompletesAt n seen [] = ⊥
CompletesAt n seen (i ∷ []) = (i < n) × ((j : ℕ) → j < n → with_packet i seen j ≡ true)
CompletesAt n seen (i ∷ k ∷ order) =
    (i < n)
    × ((j : ℕ) × (j < n) × (with_packet i seen j ≡ false))
    × CompletesAt n (with_packet i seen) (k ∷ order)

pub pow_pos : (n : ℕ) → 0 < 2 ^ n
pow_pos zero = omega arith
pow_pos (suc n) = omega (arith, pow_pos n)

pub receive-step :
    (json : JsonCodec) (handle : Handler Assembler) (address : Option Address) (b : Bytes)
    (later : List Bytes) (a a' : Assembler) (p : Packet)
    → decode json b address ≡ ok p
    → handle p a ≡ (a', [], ok tt)
    → receive json handle address (b ∷ later) a ≡ receive json handle address later a'
unfolding receive
receive-step json handle address b later a a' p e h = rw (e, h, receive) refl

-- A handler that stores content with this LOCATION_PATH, and sends nothing then.
abbrev pub StoresContent : (Text → Files → Files) → ℕ → Text → Handler Assembler → Type 0
StoresContent decompress now name handle =
    (p : Packet) (a a' : Assembler)
    → p.code ≡ 69
    → p.needs_internal_computation ≡ false
    → get 8 p.options ≡ some (str name)
    → handle_packets decompress now p name a ≡ (a', ok tt)
    → handle p a ≡ (a', [], ok tt)

-- Where the whole goes well, its first part does.
go_on-ok :
    (r : Assembler × Outcome (Unit {0})) (later : Assembler → Assembler × Outcome (Unit {0}))
    (a' : Assembler)
    → go_on r later ≡ (a', ok tt)
    → (a₁ : Assembler) × (r ≡ (a₁, ok tt)) × (later a₁ ≡ (a', ok tt))
go_on-ok (a₁, ok u) later a' h = (a₁, refl, h)
go_on-ok (a₁, err e) later a' h = absurd (cc (ap (λ x. x.1) h))

response-named :
    (way : Direction) (request : Packet) (name : Text) (szx total index : ℕ) (payload : Bytes)
    → get_size_code_based_on_option request ≡ some (size_code way)
    → get 8 (sorted_items (response request name (block_code way) szx total index payload).options)
      ≡ some (str name)
response-named way request name szx total index payload sized = elim (Bool-cases (index == 1)) [
  | inl e ↦
      rw (response-options_first way request name szx total index payload sized e)
        (unfold get in refl)
  | inr e ↦
      rw (response-options_later way request name szx total index payload sized e)
        (unfold get in refl)
]

module _ (json : JsonCodec) (law : LoadsDumps json) (way : Direction) (request : Packet)
    (name : Text) (szx total : ℕ) (d : IsTransfer way request name szx total)
    (address : Option Address) (blocks : List Bytes) (whole : length blocks ≡ total) where
  unfoldable pub packet : ℕ → Packet
  packet i =
      arrived (response request name (block_code way) szx total (suc i) (nth blocks i)) address

  unfoldable pub arrivals : List ℕ → List (Block × Packet)
  arrivals [] = []
  arrivals (i ∷ order) = (block_of_index szx total (suc i), packet i) ∷ arrivals order

  named : (i : ℕ) → get 8 (packet i).options ≡ some (str name)
  unfolding packet
  named i = response-named way request name szx total (suc i) (nth blocks i) d.sized

  content : (i : ℕ) → (packet i).code ≡ 69
  content i =
      unfold packet response DriveTemplates.value_with DriveTemplates.coap_packet addressed copy in
      refl

  external : (i : ℕ) → (packet i).needs_internal_computation ≡ false
  external i = unfold packet in refl

  abbrev pub Near : List ℕ → Type 0
  Near [] = Unit {0}
  Near (i ∷ order) = (i < total) × Near order

  is_block :
      (i : ℕ)
      → i < total
      → IsBlockOf
          (address, request.token)
          total
          (nth blocks)
          (block_of_index szx total (suc i))
          (packet i)
  unfolding packet
  is_block i near =
      response-IsBlockOf way request name szx total (suc i) (nth blocks i) (nth blocks) address
        d.sized d.some_bit d.szx_fits (omega arith) (omega (arith, near))
        (ap (nth blocks) (omega arith))

  numbered : (i : ℕ) → suc i - 1 ≡ i
  numbered i = omega arith

  pub completes :
      (save : Option Text) (seen : ℕ → Bool) (order : List ℕ)
      → CompletesAt total seen order
      → Completes (address, request.token) total (nth blocks) name save seen (arrivals order)
  unfolding arrivals
  completes save seen [] c = c
  completes save seen (i ∷ []) (near, all) =
      (is_block i near, full_path-LeadsThere save name (packet i) (named i), rw (numbered i) all)
  completes save seen (i ∷ k ∷ order) (near, one, c) = (
    is_block i near,
    full_path-LeadsThere save name (packet i) (named i),
    rw (numbered i) one,
    rw (numbered i) (completes save (with_packet i seen) (k ∷ order) c),
  )

  pub CompletesAt-Near :
      (seen : ℕ → Bool) (order : List ℕ) → CompletesAt total seen order → Near order
  CompletesAt-Near seen [] c = tt
  CompletesAt-Near seen (i ∷ []) (near, _) = (near, tt)
  CompletesAt-Near seen (i ∷ k ∷ order) (near, _, c) =
      (near, CompletesAt-Near (with_packet i seen) (k ∷ order) c)

  module _ (clock : ℕ → ℕ) (lengths : ℕ → List ℕ) (message_id : ℕ)
      (room : (i : ℕ) → MakesRoom (lengths i)) where
    abbrev pub Prepared : ℕ → List Bytes → Type 0
    Prepared =
        AllSendable json clock lengths (make json law way request name szx total d) total message_id
          (request.sender_ip_port, request.token) room

    abbrev pub sent : (index : ℕ) (bs : List Bytes) → Prepared index bs → List Datagram
    sent =
        datagrams json clock lengths (make json law way request name szx total d) total message_id
          (request.sender_ip_port, request.token) room

    shifted :
        (b : Bytes) {k m : ℕ}
        → k ≡ m
        → ok (arrived (response request name (block_code way) szx total k b) address)
          ≡ ok (arrived (response request name (block_code way) szx total m b) address)
    shifted b e =
        ap (λ k. ok (arrived (response request name (block_code way) szx total k b) address)) e

    decode-nth_payload :
        (i index : ℕ) (bs : List Bytes) (s : Prepared index bs)
        → i < length bs
        → decode json (nth_payload (sent index bs s) i) address
          ≡ ok (
              arrived
                (response request name (block_code way) szx total (index + i) (nth bs i))
                address)
    decode-nth_payload i index [] s near = absurd (omega arith)
    decode-nth_payload zero index (b ∷ bs) (s, more) near =
        s.arrives address ∙ shifted b (omega arith)
    decode-nth_payload (suc i) index (b ∷ bs) (s, more) near =
        decode-nth_payload i (suc index) bs more (omega (arith, near))
        ∙ shifted (nth bs i) (omega arith)

    decode-sent :
        (i : ℕ) (s : Prepared 1 blocks)
        → i < total
        → decode json (nth_payload (sent 1 blocks s) i) address ≡ ok (packet i)
    unfolding packet
    decode-sent i s near =
        decode-nth_payload i 1 blocks s (omega (arith, near, whole))
        ∙ shifted (nth blocks i) (omega arith)

    pub receive-deliver :
        (decompress : Text → Files → Files) (now : ℕ) (handle : Handler Assembler)
        (stores : StoresContent decompress now name handle) (s : Prepared 1 blocks) (order : List ℕ)
        (a a' : Assembler)
        → Near order
        → deliver decompress now name (arrivals order) a ≡ (a', ok tt)
        → receive json handle address (in_order (sent 1 blocks s) order) a ≡ (a', [], ok tt)
    unfolding deliver arrivals
    receive-deliver decompress now handle stores s [] a a' near e =
        unfold receive in ap (λ b. (b, [], ok tt)) (ap (λ x. x.0) e)
    receive-deliver decompress now handle stores s (i ∷ order) a a' (near, rest) e =
        let (a₁, first, later) =
          go_on-ok (handle_packets decompress now (packet i) name a)
            (λ b. deliver decompress now name (arrivals order) b) a' e in
        receive-step json handle address (nth_payload (sent 1 blocks s) i)
          (in_order (sent 1 blocks s) order) a a₁ (packet i) (decode-sent i s near)
          (stores (packet i) a a₁ (content i) (external i) (named i) first)
        ∙ receive-deliver decompress now handle stores s order a₁ a' rest later
