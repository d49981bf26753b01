-- ===== src/Tests/FetchTests.antt =====
-- A drive with one folder and one file, asked for by the client.
use coap_share_drive.Base.{ℕ, List, ◌≡◌, refl, false, none, some, [], ◌∷◌, arith}
use coap_share_drive.Base.Outcome.{ok}
use coap_share_drive.Base.Dict.{has}
use coap_share_drive.Base.Eq.{nat_eq, list_eq}
use coap_share_drive.Bytes.{Bytes, Text}
use coap_share_drive.Bytes.Utf8
use coap_share_drive.Packet.{Packet, Address}
use coap_share_drive.Packet.Value.{Doc}
use coap_share_drive.Packet.Decode.{decode}
use coap_share_drive.Packet.Encode.{encode}
use coap_share_drive.Packet.Keys.{general_work_id_eq}
use coap_share_drive.Transaction.{Datagram}
use coap_share_drive.Transaction.Pool
use coap_share_drive.Transaction.Pool.{Pool, spin_while}
use coap_share_drive.Worker.Task.{solve_task}
use coap_share_drive.Drive.Assembler.{Assembler}
use coap_share_drive.Drive.Assembler.Paths.{folder_word, file_word}
use coap_share_drive.Drive.ClientResource.Served.{client_manager}
use coap_share_drive.Drive.ServerResource.{Os}
use coap_share_drive.Drive.ServerResource.Served.{server_manager}
use coap_share_drive.Drive.Splitter.Loop.{MakesRoom}
use coap_share_drive.Drive.Splitter.Paths
use coap_share_drive.Drive.Splitter.Paths.{dummy, split_on_paths}
use coap_share_drive.Drive.Download.{solved_by, in_order, receive}
use coap_share_drive.Drive.Fetch.{folder_told, file_told, told}
use coap_share_drive.Drive.Fetch.Collected.{Collected}
use coap_share_drive.Drive.Fetch.Loop.{AllWritable}
use coap_share_drive.Drive.Fetch.Message.{message, request}
use coap_share_drive.Drive.Fetch.Request.{solve_task-receive_paths}
use coap_share_drive.Tests.Json
use coap_share_drive.Tests.Json.{codec, codec-LoadsDumps}

-- "x" and "f" in "h/drv"
abbrev disk : Os
disk = record {
  is_folder = λ files path. false;
  rename = λ dirs name target files. (files, ok tt);
  move = λ path target files. (files, ok tt);
  rmtree = λ path files. (files, ok tt);
  remove = λ path files. (files, ok tt);
  zip = λ files path. [];
  decompress = λ path files. files;
  walk = λ files. (104 ∷ 47 ∷ 100 ∷ 114 ∷ 118 ∷ [], (120 ∷ []) ∷ [], (102 ∷ []) ∷ []) ∷ [];
}

abbrev server : Address
server = (49 ∷ [], 5683)

abbrev client : Address
client = (50 ∷ [], 6000)

abbrev drive_name : Text
drive_name = 100 ∷ 114 ∷ 118 ∷ []

abbrev token : Bytes
token = 7 ∷ []

abbrev empty : Assembler
empty = record {
  in_assembly = [];
  assembled = [];
  save_path = none;
  files = [];
  pool = Pool.empty;
  folder_paths = [];
  file_paths = [];
}

abbrev docs : List Doc
docs = dummy ∷ ((folder_word, 120 ∷ []) ∷ []) ∷ ((file_word, 102 ∷ []) ∷ []) ∷ []

docs-listed : split_on_paths drive_name (disk.walk []) ≡ ok docs
unfolding split_on_paths Paths.walked Paths.entries Paths.split_second Paths.after_separator
    Paths.before_separator Paths.strip_prefix Paths.ends_with_slash
docs-listed = refl

docs-AllWritable : AllWritable codec docs
unfolding codec Json.print Json.marked Utf8.encode Utf8.encode_char
docs-AllWritable = ((refl, (_, refl)), ((refl, (_, refl)), ((refl, (_, refl)), tt)))

abbrev lengths : ℕ → List ℕ
lengths i = 20000 ∷ 3 ∷ 5 ∷ 0 ∷ []

lengths-MakesRoom : (i : ℕ) → MakesRoom (lengths i)
unfolding spin_while
lengths-MakesRoom i = (5 ∷ 0 ∷ [], refl, [], refl)

-- The file arrives first, then the folder, then the file once more.
abbrev order : List ℕ
order = 2 ∷ 1 ∷ 2 ∷ []

solve_task-receive_paths_example :
    (payload : Bytes) × (cached : Packet) × (pool : Pool) × (ds : List Datagram) × (b' : Assembler)
    × (encode codec (message server token (some client)) ≡ ok (payload, cached))
    × (decode codec payload (some client) ≡ ok (request server token (some client)))
    × (solve_task codec
          (server_manager codec disk (λ i. 5) lengths drive_name [])
          (request server token (some client))
          false
          empty
        ≡ record {
          heavy_work = false;
          state = record empty { pool = pool };
          sent = ds;
          ended = ok tt;
        })
    × (receive codec
          (solved_by codec (client_manager codec disk (λ i. 9) lengths [] drive_name))
          (some server)
          (in_order ds order)
          empty
        ≡ (b', [], ok tt))
    × Collected empty b' (told folder_told docs order) (told file_told docs order)
solve_task-receive_paths_example =
    solve_task-receive_paths codec disk (λ i. 5) lengths server token (some client) docs empty empty
      disk (λ i. 9) lengths [] drive_name order drive_name [] codec-LoadsDumps lengths-MakesRoom
      (omega arith) docs-listed (omega arith) docs-AllWritable (unfold has in refl)
      (omega arith, (omega arith, (omega arith, tt)))
