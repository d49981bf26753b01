-- ===== src/Tests/ServerTests.antt =====
-- The server at concrete requests.
use coap_share_drive.Base.{◌≡◌, ◌≢◌, refl, ◌⊎◌, inl, false, true, none, some, [], ◌∷◌, arith}
use coap_share_drive.Base.Eq.{nat_eq}
use coap_share_drive.Base.Outcome.{ok, err, os_error}
use coap_share_drive.Base.Dict.{get, has}
use coap_share_drive.Packet.{Packet, WorkId, work_id, get_block_id}
use coap_share_drive.Packet.Keys.{work_id_eq}
use coap_share_drive.Packet.Value.{str, doc}
use coap_share_drive.Templates.{Template, bad_request}
use coap_share_drive.Transaction.{Datagram}
use coap_share_drive.Transaction.Pool
use coap_share_drive.Worker.{run_round, solved}
use coap_share_drive.Drive.Assembler.{Assembler}
use coap_share_drive.Drive.ServerResource.{Os}
use coap_share_drive.Drive.ServerResource.Changes.{move_word}
use coap_share_drive.Drive.ServerResource.Replies.{IsReply}
use coap_share_drive.Drive.ServerResource.Served.{server_manager, run_round-answered}
use coap_share_drive.Packet.{Address}
use coap_share_drive.Base.Eq.{list_eq, pair_eq}
use coap_share_drive.Drive.Server.{listen, extended, sent_by, listen-sent_by}
use coap_share_drive.Tests.Json.{codec, codec-LoadsDumps}

-- A disk without folders that can be neither written nor read.
abbrev broken : Os
broken = record {
  is_folder = λ files path. false;
  rename = λ dirs name target files. (files, err os_error);
  move = λ path target files. (files, err os_error);
  rmtree = λ path files. (files, err os_error);
  remove = λ path files. (files, err os_error);
  zip = λ files path. [];
  decompress = λ path files. files;
  walk = λ files. [];
}

-- POST with URI_PATH "s" and LOCATION_PATH "a", which asks to move the file to "b"
abbrev move_request : Packet
move_request = record {
  version = 1;
  message_type = 0;
  token = 7 ∷ [];
  code = 2;
  message_id = 300;
  options = (11, str (115 ∷ [])) ∷ (8, str (97 ∷ [])) ∷ [];
  payload = doc ((move_word, 98 ∷ []) ∷ []);
  sender_ip_port = some (50 ∷ [], 6000);
  needs_internal_computation = false;
  encoded = [];
}

abbrev move_key : WorkId
move_key = record {
  address = some (50 ∷ [], 6000);
  token = 7 ∷ [];
  message_id = 300;
  block_id = none;
}

abbrev drive : Assembler
drive = record {
  in_assembly = [];
  assembled = [];
  save_path = none;
  files = (97 ∷ [], 1 ∷ 2 ∷ []) ∷ [];
  pool = Pool.empty;
  folder_paths = [];
  file_paths = [];
}

run_round-answered_example :
    let round =
      run_round codec
        (server_manager codec broken (λ i. 5) (λ i. []) (115 ∷ []) [])
        9
        (record {
          is_running = true;
          heavy_work = false;
          request_queue = move_request ∷ [];
          started = 1;
        })
        ((move_key, 3) ∷ [])
        drive in
    (t : Template) × (d : Datagram) × (round.ended ≡ ok solved)
    × (round.sent ≡ d ∷ [])
    × IsReply codec codec-LoadsDumps move_request (omega arith) none t d
    × ((round.state ≡ drive) ⊎ (t ≢ bad_request))
    × (has move_key round.shared_work ≡ false)
run_round-answered_example =
    run_round-answered codec broken (λ i. 5) (λ i. []) (115 ∷ []) [] move_request [] none drive 9 1
      ((move_key, 3) ∷ []) move_key codec-LoadsDumps (omega arith) (unfold get in refl) refl
      (inl refl) (unfold work_id get_block_id has in refl)

abbrev alice : Address
alice = (50 ∷ [], 6000)

abbrev bob : Address
bob = (51 ∷ [], 6000)

listen-sent_by_example :
    get alice (listen ((1 ∷ [], alice) ∷ (2 ∷ [], bob) ∷ (3 ∷ [], alice) ∷ []) [])
    ≡ extended
        (get alice [])
        (sent_by alice ((1 ∷ [], alice) ∷ (2 ∷ [], bob) ∷ (3 ∷ [], alice) ∷ []))
listen-sent_by_example =
    listen-sent_by ((1 ∷ [], alice) ∷ (2 ∷ [], bob) ∷ (3 ∷ [], alice) ∷ []) alice []
