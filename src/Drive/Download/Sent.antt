-- ===== src/Drive/Download/Sent.antt =====
-- The datagrams of a file: every response can be sent, and its datagram decodes to it.
use coap_share_drive.Base.{
  ℕ, suc, ◌+◌, ◌-◌, ◌%◌, ◌^◌, ◌<◌, ◌≤◌, ◌≡◌, refl, inl, inr, ◌==◌, Bool-cases, Option, none, some,
  List, [], ◌∷◌, arith, ap, ◌∙◌, sym, length,
}
use coap_share_drive.Base.Outcome.{ok, ok-inj}
use coap_share_drive.Base.Dict.{get, has, put}
use coap_share_drive.Base.Eq.{nat_eq}
use coap_share_drive.Bytes.{Bytes, Text}
use coap_share_drive.Bytes.Utf8
use coap_share_drive.Packet.{
  Packet, Address, WorkId, work_id, general_work_id, get_block_id, option_at,
  get_size_code_based_on_option, copy,
}
use coap_share_drive.Packet.Value.{int}
use coap_share_drive.Packet.Block.{block_of, encode_option_block, decode-encode_option_block}
use coap_share_drive.Packet.Decode.{JsonCodec, decode}
use coap_share_drive.Packet.Encode.{encode}
use coap_share_drive.Packet.RoundTrip.{arrived}
use coap_share_drive.Packet.RoundTrip.PayloadPart.{LoadsDumps}
use coap_share_drive.Templates.{addressed}
use coap_share_drive.Drive.DriveTemplates
use coap_share_drive.Drive.Splitter.{response}
use coap_share_drive.Drive.Splitter.Responses.{
  Direction, download, upload, block_code, size_code, flag, flag-lt, block_of_index,
}
use coap_share_drive.Drive.Splitter.Datagrams.{response-arrives}
use coap_share_drive.Drive.Splitter.Loop.{Sendable, AllSendable, MakesRoom}

-- A request with BLOCK1 or BLOCK2 for blocks of 2 ^ (szx + 4) bytes, and what the limits of the format ask of
-- its token and of the file's name and size.
pub record IsTransfer (way : Direction) (request : Packet) (name : Text) (szx total : ℕ)
    : Type 0 where
  pub raw : Bytes
  pub name_encodes : Utf8.encode name ≡ ok raw
  pub name_fits : length raw ≤ 65804
  pub token_fits : length request.token < 16
  pub sized : get_size_code_based_on_option request ≡ some (size_code way)
  pub some_bit : 0 < szx
  pub szx_fits : szx < 8
  pub few : total < 2 ^ 27

-- The key of a response in the pool.
abbrev key_of : Packet → ℕ → WorkId
key_of request index = record {
  address = request.sender_ip_port;
  token = request.token;
  message_id = (request.message_id + index) % 65536;
  block_id = some (index - 1);
}

response-work_id :
    (way : Direction) (request : Packet) (name : Text) (szx total index : ℕ) (payload : Bytes)
    → get_size_code_based_on_option request ≡ some (size_code way)
    → block_of (int (encode_option_block (index - 1) (flag index total) szx))
      ≡ ok (block_of_index szx total index)
    → work_id (response request name (block_code way) szx total index payload)
      ≡ ok (key_of request index)
unfolding work_id get_block_id option_at has get put response DriveTemplates.value_with
    DriveTemplates.coap_packet addressed copy
response-work_id download request name szx total index payload sized read =
    elim (Bool-cases (index == 1)) [
      | inl e ↦ rw (sized, e, read) refl
      | inr e ↦ rw (sized, e, read) refl
    ]
response-work_id upload request name szx total index payload sized read =
    elim (Bool-cases (index == 1)) [
      | inl e ↦ rw (sized, e, read) refl
      | inr e ↦ rw (sized, e, read) refl
    ]

module _ (json : JsonCodec) (law : LoadsDumps json) (way : Direction) (request : Packet)
    (name : Text) (szx total : ℕ) (d : IsTransfer way request name szx total) where
  abbrev pub make : ℕ → Bytes → Packet
  make = response request name (block_code way) szx total

  read :
      (index : ℕ)
      → block_of (int (encode_option_block (index - 1) (flag index total) szx))
        ≡ ok (block_of_index szx total index)
  read index =
      unfold block_of in
      rw
        (decode-encode_option_block (index - 1) (flag index total) szx (flag-lt index total)
          d.szx_fits d.some_bit)
        refl

  -- Each response can be sent, its datagram is the same for every receiver.
  make-Sendable :
      (index : ℕ) (payload : Bytes)
      → index ≤ total
      → Sendable json (request.sender_ip_port, request.token) (make index payload)
  make-Sendable index payload last =
      let (bytes, sent, e, _) = at none in
      record {
        bytes = bytes;
        sent = sent;
        encodes = e;
        key = key_of request index;
        keyed = response-work_id way request name szx total index payload d.sized (read index);
        of_work = unfold general_work_id response DriveTemplates.value_with addressed in refl;
        arrives = λ address.
            let (bytes', sent', e', r) = at address in
            let same : bytes' ≡ bytes = ap (λ x. x.0) (ok-inj (sym e' ∙ e)) in
            ap (λ b. decode json b address) (sym same) ∙ r;
      }
    where
      at :
          (address : Option Address)
          → (datagram : Bytes) × (sent : Packet) × (encode json (make index payload)
              ≡ ok (datagram, sent))
            × (decode json datagram address ≡ ok (arrived (make index payload) address))
      at address =
          response-arrives json way request name d.raw szx total index payload address law
            d.name_encodes d.name_fits d.token_fits d.sized d.szx_fits last d.few

  module _ (clock : ℕ → ℕ) (lengths : ℕ → List ℕ) (message_id : ℕ)
      (room : (i : ℕ) → MakesRoom (lengths i)) where
    pub prepared :
        (index : ℕ) (blocks : List Bytes)
        → index + length blocks ≤ suc total
        → AllSendable json clock lengths make total message_id
            (request.sender_ip_port, request.token)
            room
            index
            blocks
    prepared index [] fits = tt
    prepared index (b ∷ rest) fits = (
      make-Sendable index b (omega (arith, fits)),
      prepared (suc index) rest (omega (arith, fits)),
    )
