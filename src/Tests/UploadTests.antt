-- ===== src/Tests/UploadTests.antt =====
-- A file of three bytes, uploaded into the folder "up" by a command of the client.
use coap_share_drive.Base.{
  ℕ, List, ◌≡◌, ◌<◌, ◌^◌, ◌++◌, refl, true, false, none, some, [], ◌∷◌, arith,
}
use coap_share_drive.Base.Outcome.{ok}
use coap_share_drive.Base.Dict.{get, has, put}
use coap_share_drive.Base.Eq.{◌=?◌, nat_eq, list_eq}
use coap_share_drive.Bytes.{Bytes, Text}
use coap_share_drive.Bytes.Utf8
use coap_share_drive.Packet.{Packet, Address, work_id, get_block_id, option_at}
use coap_share_drive.Packet.Block.{block_of, decode_option_block}
use coap_share_drive.Packet.Decode.{decode}
use coap_share_drive.Packet.Encode.{encode}
use coap_share_drive.Packet.Keys.{general_work_id_eq, work_id_eq}
use coap_share_drive.Transaction.{Datagram}
use coap_share_drive.Transaction.Pool
use coap_share_drive.Transaction.Pool.{Pool, spin_while, is_transaction_finished}
use coap_share_drive.Worker.Task.{solve_task}
use coap_share_drive.Drive.Chunks.{get_total_packets}
use coap_share_drive.Drive.DriveTemplates
use coap_share_drive.Drive.Assembler.{Assembler, content_of}
use coap_share_drive.Drive.Assembler.Storing.{with_packet}
use coap_share_drive.Drive.Client.{upload_message}
use coap_share_drive.Drive.ClientResource.{await_finished}
use coap_share_drive.Drive.ClientResource.Served.{client_manager}
use coap_share_drive.Drive.Splitter
use coap_share_drive.Drive.Splitter.{basename}
use coap_share_drive.Drive.Splitter.Loop.{MakesRoom}
use coap_share_drive.Drive.ServerResource.{Os}
use coap_share_drive.Drive.ServerResource.Served.{server_manager}
use coap_share_drive.Drive.Download.{in_order, receive, solved_by}
use coap_share_drive.Drive.Download.Arrivals.{CompletesAt}
use coap_share_drive.Drive.Download.Message.{IsShort}
use coap_share_drive.Drive.Upload.Message.{message, request, HasText}
use coap_share_drive.Drive.Upload.Request.{below, solve_task-receive_upload}
use coap_share_drive.Tests.Json.{codec, codec-LoadsDumps, print, marked}

-- "up"
abbrev remote : Text
remote = 117 ∷ 112 ∷ []

-- The server's only folder is "up"; nothing is renamed or moved.
abbrev disk : Os
disk = record {
  is_folder = λ files p. p =? remote;
  rename = λ dirs name target files. (files, ok tt);
  move = λ path target files. (files, ok tt);
  rmtree = λ path files. (files, ok tt);
  remove = λ path files. (files, ok tt);
  zip = λ files path. [];
  decompress = λ path files. files;
  walk = λ files. [];
}

-- The client has no folder.
abbrev home : Os
home = record disk { is_folder = λ files p. false }

abbrev server : Address
server = (49 ∷ [], 5683)

abbrev client : Address
client = (50 ∷ [], 6000)

-- "d/a"
abbrev path : Text
path = 100 ∷ 47 ∷ 97 ∷ []

-- "drive"
abbrev drive_name : Text
drive_name = 100 ∷ 114 ∷ 105 ∷ 118 ∷ 101 ∷ []

abbrev token : Bytes
token = 7 ∷ []

abbrev content : Bytes
content = 1 ∷ 2 ∷ 3 ∷ []

abbrev serving : Assembler
serving = record {
  in_assembly = [];
  assembled = [];
  save_path = none;
  files = [];
  pool = Pool.empty;
  folder_paths = [];
  file_paths = [];
}

abbrev sending : Assembler
sending = record serving { files = (path, content) ∷ [] }

-- The pool of the client once the request has been acknowledged.
abbrev acknowledged : Pool
acknowledged = record Pool.empty {
  finished =
      (record { address = some server; token = token; message_id = 0; block_id = some 0 }, 1) ∷ [];
}

abbrev lengths : ℕ → List ℕ
lengths i = 20000 ∷ 3 ∷ 5 ∷ 0 ∷ []

lengths-MakesRoom : (i : ℕ) → MakesRoom (lengths i)
unfolding spin_while
lengths-MakesRoom i = (5 ∷ 0 ∷ [], refl, [], refl)

path-IsShort : IsShort path
path-IsShort = record {
  raw = path;
  encodes = unfold Utf8.encode Utf8.encode_char in refl;
  fits = omega arith;
}

name-IsShort : IsShort (basename path)
unfolding Splitter.basename Splitter.has_slash
name-IsShort = record {
  raw = 97 ∷ [];
  encodes = unfold Utf8.encode Utf8.encode_char in refl;
  fits = omega arith;
}

message-HasText : HasText server path remote token (some client) codec
unfolding codec print marked Utf8.encode Utf8.encode_char
message-HasText = (
  1 ∷ 117 ∷ 1 ∷ 112 ∷ 1 ∷ 108 ∷ 1 ∷ 111 ∷ 1 ∷ 97 ∷ 1 ∷ 100 ∷ 1 ∷ 95 ∷ 1 ∷ 112 ∷ 1 ∷ 97 ∷ 1 ∷ 116 ∷ 1
      ∷ 104 ∷ 2 ∷ 117 ∷ 2 ∷ 112 ∷ 0 ∷ 0 ∷ [],
  refl,
)

message-acknowledged :
    await_finished (message server path remote token (some client)) (Pool.empty ∷ acknowledged ∷ [])
    ≡ some (ok acknowledged)
unfolding await_finished is_transaction_finished work_id get_block_id option_at block_of
    decode_option_block get has put upload_message DriveTemplates.value DriveTemplates.coap_packet
message-acknowledged = refl

few_packets : get_total_packets content 1024 < 2 ^ 27
unfolding get_total_packets
few_packets = omega arith

order-CompletesAt : CompletesAt (get_total_packets content 1024) (λ i. false) (0 ∷ [])
unfolding get_total_packets
order-CompletesAt = (omega arith, λ j h. all_there j h)
  where
    all_there : (j : ℕ) → j < 1 → with_packet 0 (λ i. false) j ≡ true
    all_there j h = ground arith

solve_task-receive_upload_example :
    (payload : Bytes) × (cached : Packet) × (after : Pool) × (ds : List Datagram) × (a' : Assembler)
    × (encode codec (message server path remote token (some client)) ≡ ok (payload, cached))
    × (decode codec payload (some client) ≡ ok (request server path remote token (some client)))
    × (solve_task codec
          (server_manager codec disk (λ i. 5) lengths drive_name [])
          (request server path remote token (some client))
          false
          serving
        ≡ record {
          heavy_work = false;
          state = record serving { save_path = some (below remote) };
          sent = [];
          ended = ok tt;
        })
    × (solve_task codec
          (client_manager codec home (λ i. 9) lengths (Pool.empty ∷ acknowledged ∷ []) drive_name)
          (message server path remote token (some client))
          false
          sending
        ≡ record {
          heavy_work = false;
          state = record sending { pool = after };
          sent = ds;
          ended = ok tt;
        })
    × (receive codec
          (solved_by codec (server_manager codec disk (λ i. 5) lengths drive_name []))
          (some client)
          (in_order ds (0 ∷ []))
          (record serving { save_path = some (below remote) })
        ≡ (a', [], ok tt))
    × (content_of (get (below remote ++ basename path) a'.files) ≡ content)
solve_task-receive_upload_example =
    solve_task-receive_upload codec disk home (λ i. 5) (λ i. 9) lengths lengths
      (Pool.empty ∷ acknowledged ∷ []) drive_name drive_name [] server path remote token
      (some client) content serving sending acknowledged (0 ∷ []) codec-LoadsDumps lengths-MakesRoom
      refl path-IsShort name-IsShort message-HasText (omega arith) few_packets (unfold get in refl)
      refl message-acknowledged (unfold has in refl) refl
      (unfold Splitter.basename Splitter.has_slash has in refl)
      (unfold Splitter.basename Splitter.has_slash has in refl) (unfold has in refl)
      (unfold Splitter.basename Splitter.has_slash in refl)
      (unfold Splitter.basename Splitter.has_slash in refl) order-CompletesAt
