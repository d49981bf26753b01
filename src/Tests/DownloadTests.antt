-- ===== src/Tests/DownloadTests.antt =====
-- A file of three bytes in a folder, downloaded by a command of the client.
use coap_share_drive.Base.{
  inr, ℕ, List, ◌≡◌, ◌<◌, ◌^◌, refl, true, false, none, some, [], ◌∷◌, arith,
}
use coap_share_drive.Base.Outcome.{ok}
use coap_share_drive.Base.Dict.{get, has}
use coap_share_drive.Base.Eq.{nat_eq, list_eq}
use coap_share_drive.Bytes.{Bytes, Text}
use coap_share_drive.Bytes.Utf8
use coap_share_drive.Packet.{Packet, Address}
use coap_share_drive.Packet.Decode.{decode}
use coap_share_drive.Packet.Encode.{encode}
use coap_share_drive.Packet.Keys.{general_work_id_eq}
use coap_share_drive.Transaction.{Datagram}
use coap_share_drive.Transaction.Pool
use coap_share_drive.Transaction.Pool.{Pool, spin_while}
use coap_share_drive.Drive.Chunks.{get_total_packets}
use coap_share_drive.Drive.Assembler.{Assembler, content_of}
use coap_share_drive.Drive.Assembler.Storing.{with_packet}
use coap_share_drive.Drive.Splitter
use coap_share_drive.Drive.Splitter.{basename, all_sent}
use coap_share_drive.Drive.Splitter.Loop.{MakesRoom}
use coap_share_drive.Worker.Task.{solve_task}
use coap_share_drive.Drive.ServerResource.{Os}
use coap_share_drive.Drive.ServerResource.Served.{server_manager}
use coap_share_drive.Drive.ClientResource.Served.{client_manager}
use coap_share_drive.Drive.Assembler.Handling.{saved_path}
use coap_share_drive.Drive.Download.{solved_by, in_order, receive}
use coap_share_drive.Drive.Download.Arrivals.{CompletesAt}
use coap_share_drive.Drive.Download.Message.{IsShort, message, request}
use coap_share_drive.Drive.Download.Request.{solve_task-receive}
use coap_share_drive.Tests.Json.{codec, codec-LoadsDumps}

-- A disk without folders, on which nothing is renamed or moved.
abbrev disk : Os
disk = record {
  is_folder = λ files path. false;
  rename = λ dirs name target files. (files, ok tt);
  move = λ path target files. (files, ok tt);
  rmtree = λ path files. (files, ok tt);
  remove = λ path files. (files, ok tt);
  zip = λ files path. [];
  decompress = λ path files. files;
  walk = λ files. [];
}

abbrev server : Address
server = (49 ∷ [], 5683)

abbrev client : Address
client = (50 ∷ [], 6000)

-- "d/a"
abbrev path : Text
path = 100 ∷ 47 ∷ 97 ∷ []

-- "drive"
abbrev drive_name : Text
drive_name = 100 ∷ 114 ∷ 105 ∷ 118 ∷ 101 ∷ []

abbrev token : Bytes
token = 7 ∷ []

abbrev content : Bytes
content = 1 ∷ 2 ∷ 3 ∷ []

abbrev serving : Assembler
serving = record {
  in_assembly = [];
  assembled = [];
  save_path = none;
  files = (path, content) ∷ [];
  pool = Pool.empty;
  folder_paths = [];
  file_paths = [];
}

-- It saves to "h/".
abbrev asking : Assembler
asking = record serving { files = []; save_path = some (104 ∷ 47 ∷ []) }

abbrev lengths : ℕ → List ℕ
lengths i = 20000 ∷ 3 ∷ 5 ∷ 0 ∷ []

lengths-MakesRoom : (i : ℕ) → MakesRoom (lengths i)
unfolding spin_while
lengths-MakesRoom i = (5 ∷ 0 ∷ [], refl, [], refl)

path-IsShort : IsShort path
path-IsShort = record {
  raw = path;
  encodes = unfold Utf8.encode Utf8.encode_char in refl;
  fits = omega arith;
}

name-IsShort : IsShort (basename path)
unfolding Splitter.basename Splitter.has_slash
name-IsShort = record {
  raw = 97 ∷ [];
  encodes = unfold Utf8.encode Utf8.encode_char in refl;
  fits = omega arith;
}

few_packets : get_total_packets content 1024 < 2 ^ 27
unfolding get_total_packets
few_packets = omega arith

order-CompletesAt : CompletesAt (get_total_packets content 1024) (λ i. false) (0 ∷ [])
unfolding get_total_packets
order-CompletesAt = (omega arith, λ j h. all_there j h)
  where
    all_there : (j : ℕ) → j < 1 → with_packet 0 (λ i. false) j ≡ true
    all_there j h = ground arith

solve_task-receive_example :
    (payload : Bytes) × (cached : Packet) × (pool : Pool) × (ds : List Datagram) × (b' : Assembler)
    × (encode codec (message server path token (some client)) ≡ ok (payload, cached))
    × (decode codec payload (some client) ≡ ok (request server path token (some client)))
    × (solve_task codec
          (server_manager codec disk (λ i. 5) lengths drive_name [])
          (request server path token (some client))
          false
          serving
        ≡ record {
          heavy_work = false;
          state = record serving { pool = pool };
          sent = ds;
          ended = ok tt;
        })
    × (receive codec
          (solved_by codec (client_manager codec disk (λ i. 9) lengths [] drive_name))
          (some server)
          (in_order ds (0 ∷ []))
          asking
        ≡ (b', [], ok tt))
    × (content_of (get (saved_path asking.save_path (basename path)) b'.files) ≡ content)
solve_task-receive_example =
    solve_task-receive codec disk (λ i. 5) lengths server path token (some client) content serving
      asking disk (λ i. 9) lengths [] drive_name (0 ∷ []) drive_name [] codec-LoadsDumps
      lengths-MakesRoom refl path-IsShort name-IsShort (omega arith) few_packets
      (unfold get in refl) refl (unfold has in refl)
      (unfold Splitter.basename Splitter.has_slash in refl) (unfold has in refl)
      (unfold Splitter.basename Splitter.has_slash in refl) (inr (unfold has in refl))
      order-CompletesAt
