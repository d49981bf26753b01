-- ===== src/Tests/SplitterTests.antt =====
-- The first response to a download, as it arrives.
use coap_share_drive.Base.Outcome.{ok}
use coap_share_drive.Bytes.Utf8
use coap_share_drive.Packet.Decode
use coap_share_drive.Packet.Encode.{encode}
use coap_share_drive.Drive.Splitter.Datagrams.{response-arrives}
use coap_share_drive.Tests.Json.{codec, codec-LoadsDumps}
use coap_share_drive.Base.{◌≡◌, refl, false, none, some, [], ◌∷◌, arith}
use coap_share_drive.Base.Dict.{has}
use coap_share_drive.Bytes.{Bytes, Text}
use coap_share_drive.Packet.{Packet, get_size_code_based_on_option}
use coap_share_drive.Packet.Value.{int, bytes}
use coap_share_drive.Base.{inl, ℕ, List, ◌<◌, true}
use coap_share_drive.Drive.Assembler.Storing.{with_packet}
use coap_share_drive.Base.Dict.{get}
use coap_share_drive.Base.Eq.{nat_eq, list_eq}
use coap_share_drive.Packet.{get_option_code, option_at}
use coap_share_drive.Packet.Block.{Block, decode_option_block}
use coap_share_drive.Packet.Keys.{general_work_id_eq}
use coap_share_drive.Transaction.{Datagram}
use coap_share_drive.Transaction.Pool
use coap_share_drive.Transaction.Pool.{Pool, spin_while, finish_overall_transaction}
use coap_share_drive.Drive.Chunks.{get_total_packets}
use coap_share_drive.Drive.Assembler.{Assembler, Files, content_of}
use coap_share_drive.Drive.Splitter.{Ending, send_packets, split_on_bytes_and_send}
use coap_share_drive.Drive.Splitter
use coap_share_drive.Drive.Splitter.Loop.{MakesRoom, AllSendable, datagrams, send_packets-all_sent}
use coap_share_drive.Drive.Download.{in_order, receive, solved_by}
use coap_share_drive.Drive.Download.Sent.{IsTransfer, make, prepared}
use coap_share_drive.Drive.Download.Arrivals.{CompletesAt}
use coap_share_drive.Worker.Resources.{ResourceManager}
use coap_share_drive.Drive.ClientResource.Served.{client_manager}
use coap_share_drive.Drive.Download.Content.{client_manager-StoresContent}
use coap_share_drive.Drive.ServerResource.{Os}
use coap_share_drive.Drive.Splitter.Responses.{download}
use coap_share_drive.Drive.Assembler.Handling.{saved_path}
use coap_share_drive.Drive.Download.EndToEnd.{split_on_bytes_and_send-receive}
use coap_share_drive.Packet.RoundTrip.{arrived}
use coap_share_drive.Drive.Assembler.Delivery.{IsBlockOf}
use coap_share_drive.Drive.Assembler.Transfer.{nth}
use coap_share_drive.Drive.Splitter.{response}
use coap_share_drive.Drive.Splitter.Responses.{block_of_index, response-IsBlockOf}

abbrev download_request : Packet
download_request = record {
  version = 1;
  message_type = 0;
  token = 7 ∷ [];
  code = 1;
  message_id = 3;
  options = (23, int 6) ∷ [];
  payload = bytes [];
  sender_ip_port = some (49 ∷ [], 5683);
  needs_internal_computation = false;
  encoded = [];
}

-- "a.txt"
abbrev file_name : Text
file_name = 97 ∷ 46 ∷ 116 ∷ 120 ∷ 116 ∷ []

response-IsBlockOf_example :
    IsBlockOf
      (some (50 ∷ [], 5683), 7 ∷ [])
      2
      (nth ((1 ∷ 2 ∷ []) ∷ (3 ∷ []) ∷ []))
      (block_of_index 6 2 1)
      (arrived (response download_request file_name 23 6 2 1 (1 ∷ 2 ∷ [])) (some (50 ∷ [], 5683)))
response-IsBlockOf_example =
    response-IsBlockOf download download_request file_name 6 2 1 (1 ∷ 2 ∷ [])
      (nth ((1 ∷ 2 ∷ []) ∷ (3 ∷ []) ∷ [])) (some (50 ∷ [], 5683))
      (unfold get_size_code_based_on_option has in refl) (omega arith) (omega arith) (omega arith)
      (omega arith) refl

response-arrives_example :
    (datagram : Bytes) × (sent : Packet) × (encode codec
        (response download_request file_name 23 6 2 1 (1 ∷ 2 ∷ []))
      ≡ ok (datagram, sent))
    × (Decode.decode codec datagram none
        ≡ ok (arrived (response download_request file_name 23 6 2 1 (1 ∷ 2 ∷ [])) none))
response-arrives_example =
    response-arrives codec download download_request file_name file_name 6 2 1 (1 ∷ 2 ∷ []) none
      codec-LoadsDumps (unfold Utf8.encode Utf8.encode_char in refl) (omega arith) (omega arith)
      (unfold get_size_code_based_on_option has in refl) (omega arith) (omega arith) (omega arith)

-- Two blocks of 32 bytes at most.
abbrev small_request : Packet
small_request = record download_request { options = (23, int 1) ∷ [] }

-- 40 bytes
abbrev content : Bytes
content =
    1 ∷ 2 ∷ 3 ∷ 4 ∷ 5 ∷ 6 ∷ 7 ∷ 8 ∷ 9 ∷ 10 ∷ 11 ∷ 12 ∷ 13 ∷ 14 ∷ 15 ∷ 16 ∷ 17 ∷ 18 ∷ 19 ∷ 20 ∷ 21
    ∷ 22 ∷ 23 ∷ 24 ∷ 25 ∷ 26 ∷ 27 ∷ 28 ∷ 29 ∷ 30 ∷ 31 ∷ 32 ∷ 33 ∷ 34 ∷ 35 ∷ 36 ∷ 37 ∷ 38 ∷ 39 ∷ 40
    ∷ []

abbrev fields : Block
fields = record { num = 0; m = 0; szx = 1; block_size = 32 }

-- "d/a.txt"
abbrev path : Text
path = 100 ∷ 47 ∷ file_name

abbrev files : Files
files = (path, content) ∷ []

-- An old file of the same name is in the receiver's directory.
abbrev receiver : Assembler
receiver = record {
  in_assembly = [];
  assembled = [];
  save_path = none;
  files = (file_name, 9 ∷ []) ∷ [];
  pool = Pool.empty;
  folder_paths = [];
  file_paths = [];
}

abbrev lengths : ℕ → List ℕ
lengths i = 20000 ∷ 3 ∷ 5 ∷ 0 ∷ []

lengths-MakesRoom : (i : ℕ) → MakesRoom (lengths i)
unfolding spin_while
lengths-MakesRoom i = (5 ∷ 0 ∷ [], refl, [], refl)

small-IsTransfer : IsTransfer download small_request file_name 1 (get_total_packets content 32)
unfolding get_total_packets
small-IsTransfer = record {
  raw = file_name;
  name_encodes = unfold Utf8.encode Utf8.encode_char in refl;
  name_fits = omega arith;
  token_fits = omega arith;
  sized = unfold get_size_code_based_on_option has in refl;
  some_bit = omega arith;
  szx_fits = omega arith;
  few = omega arith;
}

-- The second datagram arrives first, and once more.
order-CompletesAt : CompletesAt (get_total_packets content 32) (λ i. false) (1 ∷ 1 ∷ 0 ∷ [])
unfolding get_total_packets
order-CompletesAt = (
  omega arith,
  (0, omega arith, refl),
  (omega arith, (0, omega arith, refl), (omega arith, λ j h. all_there j h)),
)
  where
    all_there :
        (j : ℕ) → j < 2 → with_packet 0 (with_packet 1 (with_packet 1 (λ i. false))) j ≡ true
    all_there j h = ground arith

-- A disk without folders, on which nothing is renamed or moved.
abbrev disk : Os
disk = record {
  is_folder = λ files path. false;
  rename = λ dirs name target files. (files, ok tt);
  move = λ path target files. (files, ok tt);
  rmtree = λ path files. (files, ok tt);
  remove = λ path files. (files, ok tt);
  zip = λ files path. [];
  decompress = λ path files. files;
  walk = λ files. [];
}

abbrev manager : ResourceManager Assembler
manager = client_manager codec disk (λ i. 9) lengths [] []

split_on_bytes_and_send-receive_example :
    (after : Pool) × (ds : List Datagram) × (a' : Assembler) × (split_on_bytes_and_send codec
        (λ i. 5)
        lengths
        (λ p. false)
        (λ p. [])
        small_request
        path
        files
        Pool.empty
      ≡ (files, finish_overall_transaction small_request 5 after, ds, ok Ending.all_sent))
    × (receive codec (solved_by codec manager) none (in_order ds (1 ∷ 1 ∷ 0 ∷ [])) receiver
        ≡ (a', [], ok tt))
    × (content_of (get (saved_path receiver.save_path file_name) a'.files) ≡ content)
unfolding Splitter.basename Splitter.has_slash
split_on_bytes_and_send-receive_example =
    split_on_bytes_and_send-receive codec download (λ i. 5) lengths small_request fields path
      content files Pool.empty (λ p. false) (λ p. []) (λ p f. f) 9 (solved_by codec manager) none
      receiver (1 ∷ 1 ∷ 0 ∷ []) codec-LoadsDumps refl (unfold get_option_code has in refl)
      (unfold option_at get has decode_option_block in refl) refl small-IsTransfer
      (record {
        there = unfold get in refl;
        room = lengths-MakesRoom;
        fine = unfold has in refl;
        stores = client_manager-StoresContent codec disk (λ i. 9) lengths [] [] file_name;
        new = unfold has in refl;
        plain = refl;
        plain_there = refl;
        free = inl refl;
      })
      order-CompletesAt

blocks-AllSendable :
    AllSendable codec
      (λ i. 5)
      lengths
      (make codec codec-LoadsDumps download small_request file_name 1
        (get_total_packets content 32)
        small-IsTransfer)
      (get_total_packets content 32)
      3
      (small_request.sender_ip_port, small_request.token)
      lengths-MakesRoom
      1
      ((1 ∷ []) ∷ (2 ∷ []) ∷ [])
blocks-AllSendable =
    prepared codec codec-LoadsDumps download small_request file_name 1
      (get_total_packets content 32) small-IsTransfer (λ i. 5) lengths 3 lengths-MakesRoom 1
      ((1 ∷ []) ∷ (2 ∷ []) ∷ []) (unfold get_total_packets in omega arith)

send_packets-all_sent_example :
    (after : Pool) × (send_packets codec
        (λ i. 5)
        lengths
        (make codec codec-LoadsDumps download small_request file_name 1
          (get_total_packets content 32)
          small-IsTransfer)
        (get_total_packets content 32)
        3
        1
        ((1 ∷ []) ∷ (2 ∷ []) ∷ [])
        Pool.empty
        []
      ≡ (
        after,
        datagrams codec
            (λ i. 5)
            lengths
            (make codec codec-LoadsDumps download small_request file_name 1
              (get_total_packets content 32)
              small-IsTransfer)
            (get_total_packets content 32)
            3
            (small_request.sender_ip_port, small_request.token)
            lengths-MakesRoom
            1
            ((1 ∷ []) ∷ (2 ∷ []) ∷ [])
            blocks-AllSendable,
        ok Ending.all_sent,
      ))
    × (after.failed ≡ [])
send_packets-all_sent_example =
    send_packets-all_sent codec (λ i. 5) lengths
      (make codec codec-LoadsDumps download small_request file_name 1 (get_total_packets content 32)
        small-IsTransfer)
      (get_total_packets content 32) 3 (small_request.sender_ip_port, small_request.token)
      lengths-MakesRoom ((1 ∷ []) ∷ (2 ∷ []) ∷ []) 1 Pool.empty [] blocks-AllSendable
      (unfold has in refl)
