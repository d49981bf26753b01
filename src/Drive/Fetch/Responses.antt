-- ===== src/Drive/Fetch/Responses.antt =====
-- The responses of split_on_paths_and_send: they can be sent, and their datagrams decode to them.
use coap_share_drive.Base.{
  ℕ, ◌-◌, ◌^◌, ◌%◌, ◌<◌, ◌≤◌, ◌≡◌, refl, false, Option, none, some, [], ◌∷◌, arith, length, ap, ◌∙◌,
  sym,
}
use coap_share_drive.Base.Eq.{nat_eq}
use coap_share_drive.Base.Outcome.{ok, ok-inj}
use coap_share_drive.Base.Dict.{put, get, has}
use coap_share_drive.Bytes.{Bytes}
use coap_share_drive.Bytes.Utf8
use coap_share_drive.Packet.{
  Packet, Address, WorkId, work_id, general_work_id, get_block_id, option_at, get_option_code, copy,
}
use coap_share_drive.Packet.Value.{Doc, doc, int, is_empty}
use coap_share_drive.Packet.Block.{
  block_of, encode_option_block, encode_option_block-sum, decode-encode_option_block,
}
use coap_share_drive.Packet.Options.{is_text_option}
use coap_share_drive.Packet.Decode.{JsonCodec, decode}
use coap_share_drive.Packet.Encode.{sorted_items, insert_sorted, encode}
use coap_share_drive.Packet.RoundTrip.{IsSendable, arrived, decode-encode}
use coap_share_drive.Packet.RoundTrip.Numbers.{number-Survives}
use coap_share_drive.Packet.RoundTrip.OptionList.{Rising}
use coap_share_drive.Packet.RoundTrip.PayloadPart.{LoadsDumps}
use coap_share_drive.Templates.{addressed}
use coap_share_drive.Drive.DriveTemplates
use coap_share_drive.Drive.DriveTemplates.{path_response, value_with}
use coap_share_drive.Drive.Splitter.Paths.{path_packet}
use coap_share_drive.Drive.Splitter.Responses.{flag, flag-lt, block_of_index}
use coap_share_drive.Drive.Splitter.Loop.{Sendable}

-- The response to a request with BLOCK2.
unfoldable pub path_response_to : Packet → ℕ → ℕ → Doc → Packet
path_response_to request total index d =
    let template = value_with path_response request.token index request.sender_ip_port in
    record template {
      payload = doc d;
      options =
          put 23 (int (encode_option_block (index - 1) (flag index total) 6)) template.options;
    }

pub path_packet-path_response_to :
    (request : Packet) (total index : ℕ) (d : Doc)
    → get_option_code request ≡ some 23
    → path_packet request total index d ≡ ok (path_response_to request total index d)
unfolding path_packet path_response_to
path_packet-path_response_to request total index d code = rw (code, path_packet) refl

pub path_response_to-options :
    (request : Packet) (total index : ℕ) (d : Doc)
    → sorted_items (path_response_to request total index d).options
      ≡ (12, int 50) ∷ (23, int (encode_option_block (index - 1) (flag index total) 6)) ∷ []
unfolding path_response_to sorted_items insert_sorted put value_with DriveTemplates.coap_packet
    addressed copy
path_response_to-options request total index d = refl

-- A document that json writes as text with a UTF-8 form.
abbrev pub IsWritable : JsonCodec → Doc → Type 0
IsWritable json d = (is_empty d ≡ false) × ((raw : Bytes) × (Utf8.encode (json.dumps d) ≡ ok raw))

path_response_to-Rising :
    (request : Packet) (total index : ℕ) (d : Doc)
    → index ≤ total
    → total < 2 ^ 27
    → Rising 0 0 (sorted_items (path_response_to request total index d).options)
unfolding is_text_option
path_response_to-Rising request total index d last few =
    rw (path_response_to-options request total index d) (
      omega arith,
      omega arith,
      number-Survives 12 12 50 (omega arith) refl (λ h. omega arith) (omega arith),
      (
        omega arith,
        omega arith,
        number-Survives 11 23 _ (omega arith) refl (λ h. omega arith)
            (omega (
              arith,
              encode_option_block-sum (index - 1) (flag index total) 6 (flag-lt index total)
                  (omega arith),
              flag-lt index total,
            )),
        tt,
      ),
    )

path_response_to-IsSendable :
    (json : JsonCodec) (request : Packet) (total index : ℕ) (d : Doc)
    → length request.token < 16
    → index ≤ total
    → total < 2 ^ 27
    → IsWritable json d
    → IsSendable json (path_response_to request total index d)
path_response_to-IsSendable json request total index d token last few (filled, (raw, writes)) =
    record {
      version_fits =
          unfold path_response_to value_with DriveTemplates.coap_packet addressed in omega arith;
      type_fits =
          unfold path_response_to value_with DriveTemplates.coap_packet addressed in omega arith;
      token_fits = unfold path_response_to value_with DriveTemplates.coap_packet addressed in token;
      code_fits =
          unfold path_response_to value_with DriveTemplates.coap_packet addressed in omega arith;
      id_fits =
          unfold path_response_to value_with DriveTemplates.coap_packet addressed in omega arith;
      rising = path_response_to-Rising request total index d last few;
      payload_fits =
          unfold path_response_to value_with DriveTemplates.coap_packet addressed copy put get in
          ((refl, refl), filled, (raw, writes));
      not_encoded = unfold path_response_to value_with DriveTemplates.coap_packet addressed in refl;
    }

abbrev key_of : Packet → ℕ → WorkId
key_of request index = record {
  address = request.sender_ip_port;
  token = request.token;
  message_id = index % 65536;
  block_id = some (index - 1);
}

path_response_to-work_id :
    (request : Packet) (total index : ℕ) (d : Doc)
    → block_of (int (encode_option_block (index - 1) (flag index total) 6))
      ≡ ok (block_of_index 6 total index)
    → work_id (path_response_to request total index d) ≡ ok (key_of request index)
unfolding work_id get_block_id option_at has get put path_response_to value_with
    DriveTemplates.coap_packet addressed copy
path_response_to-work_id request total index d read = rw read refl

-- Each response can be sent: for a request with a token of fewer than 16 bytes, and fewer than 2 ^ 27
-- paths, the datagram of the response decodes to it at every receiver.
pub path_response_to-Sendable :
    (json : JsonCodec) (law : LoadsDumps json) (request : Packet) (total index : ℕ) (d : Doc)
    → length request.token < 16
    → index ≤ total
    → total < 2 ^ 27
    → IsWritable json d
    → Sendable json (request.sender_ip_port, request.token) (path_response_to request total index d)
path_response_to-Sendable json law request total index d token last few w =
    let (bytes, sent, e, _) = at none in
    record {
      bytes = bytes;
      sent = sent;
      encodes = e;
      key = key_of request index;
      keyed = path_response_to-work_id request total index d read;
      of_work = unfold general_work_id path_response_to value_with addressed in refl;
      arrives = λ address.
          let (bytes', sent', e', r) = at address in
          let same : bytes' ≡ bytes = ap (λ x. x.0) (ok-inj (sym e' ∙ e)) in
          ap (λ b. decode json b address) (sym same) ∙ r;
    }
  where
    at :
        (address : Option Address)
        → (datagram : Bytes) × (sent : Packet) × (encode json
              (path_response_to request total index d)
            ≡ ok (datagram, sent))
          × (decode json datagram address
              ≡ ok (arrived (path_response_to request total index d) address))
    at address =
        decode-encode json (path_response_to request total index d) address law
          (path_response_to-IsSendable json request total index d token last few w)

    read :
        block_of (int (encode_option_block (index - 1) (flag index total) 6))
        ≡ ok (block_of_index 6 total index)
    read =
        unfold block_of in
        rw
          (decode-encode_option_block (index - 1) (flag index total) 6 (flag-lt index total)
            (omega arith) (omega arith))
          refl
