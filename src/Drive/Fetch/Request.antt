-- ===== src/Drive/Fetch/Request.antt =====
-- A fetch from the request of share_drive_client/client.py to the lists of the client's assembler, through
-- the worker and server_resource.py.
use coap_share_drive.Base.{
  ℕ, ◌^◌, ◌<◌, ◌==◌, ◌≡◌, refl, true, false, Option, none, some, List, [], arith, ◌∙◌, ap, length,
}
use coap_share_drive.Base.Outcome.{ok}
use coap_share_drive.Base.Dict.{get, has}
use coap_share_drive.Base.Eq.{nat_eq}
use coap_share_drive.Bytes.{Bytes, Text}
use coap_share_drive.Packet.{Packet, Address}
use coap_share_drive.Packet.Keys.{general_work_id_eq}
use coap_share_drive.Packet.Value.{Doc}
use coap_share_drive.Packet.Decode.{JsonCodec, decode}
use coap_share_drive.Packet.Encode.{encode}
use coap_share_drive.Packet.RoundTrip.{decode-encode}
use coap_share_drive.Packet.RoundTrip.PayloadPart.{LoadsDumps}
use coap_share_drive.Transaction.{Datagram}
use coap_share_drive.Transaction.Pool.{Pool}
use coap_share_drive.Worker.Resources.{Resource}
use coap_share_drive.Worker.Task.{solve_task, lightly}
use coap_share_drive.Worker.Task.Dispatch.{solve_task-dispatch, dispatch-fetch}
use coap_share_drive.Drive.Assembler.{Assembler}
use coap_share_drive.Drive.Assembler.Paths.{handle_paths}
use coap_share_drive.Drive.Splitter.{all_sent}
use coap_share_drive.Drive.Splitter.Loop.{MakesRoom}
use coap_share_drive.Drive.Splitter.Paths.{
  Folder, split_on_paths, split_on_paths_and_send, send_paths,
}
use coap_share_drive.Drive.ClientResource
use coap_share_drive.Drive.ClientResource.Served.{client_resource, client_manager, answered}
use coap_share_drive.Drive.ServerResource.{Os, handle_fetch, guarded, logged, with_paths}
use coap_share_drive.Drive.ServerResource.Served.{server_resource, server_manager, returned}
use coap_share_drive.Drive.Download.{solved_by, in_order, receive}
use coap_share_drive.Drive.Download.Content.{solved_by-response}
use coap_share_drive.Drive.Fetch.{folder_told, file_told, told}
use coap_share_drive.Drive.Fetch.Loop.{
  AllSendable, AllWritable, datagrams, prepared, send_paths-all_sent,
}
use coap_share_drive.Drive.Fetch.Collected.{Collected, CollectsPaths, Near, receive-Collected}
use coap_share_drive.Drive.Fetch.Message.{
  message, request, message-IsSendable, request-option, request-named, request-fetch,
  request-external,
}

handle_response-paths :
    (os : Os) (now : ℕ) (p : Packet) (a : Assembler)
    → p.code ≡ 69
    → get 8 p.options ≡ none
    → ClientResource.handle_response os.decompress now p a ≡ handle_paths now p a
unfolding ClientResource.handle_response
handle_response-paths os now p a content no_path =
    let test : (p.code == 69) ≡ true = ground arith in rw (test, no_path) refl

client_manager-CollectsPaths :
    (json : JsonCodec) (os : Os) (clock : ℕ → ℕ) (lengths : ℕ → List ℕ) (pools : List Pool)
    (name : Text)
    → CollectsPaths (clock 0) (solved_by json (client_manager json os clock lengths pools name))
client_manager-CollectsPaths json os clock lengths pools name p a a' content external no_path
      collected =
    solved_by-response json (client_manager json os clock lengths pools name)
      (client_resource json os clock lengths pools name) p a a' refl content external
      (ap answered (handle_response-paths os (clock 0) p a content no_path ∙ collected))

split_on_paths_and_send-send_paths :
    (json : JsonCodec) (clock : ℕ → ℕ) (lengths : ℕ → List ℕ) (walk : List Folder) (q : Packet)
    (name : Text) (docs : List Doc) (pool : Pool)
    → split_on_paths name walk ≡ ok docs
    → split_on_paths_and_send json clock lengths walk q name pool
      ≡ send_paths json clock lengths q (length docs) 1 docs pool []
unfolding split_on_paths_and_send
split_on_paths_and_send-send_paths json clock lengths walk q name docs pool listed =
    rw (listed, split_on_paths_and_send) refl

-- The handler's loop ends with one datagram for each document.
handle_fetch-sent :
    (json : JsonCodec) (law : LoadsDumps json) (os : Os) (clock : ℕ → ℕ) (lengths : ℕ → List ℕ)
    (name : Text) (server : Address) (token : Bytes) (client : Option Address) (docs : List Doc)
    (a : Assembler) (s : AllSendable json (request server token client) (length docs) 1 docs)
    → ((i : ℕ) → MakesRoom (lengths i))
    → split_on_paths name (os.walk a.files) ≡ ok docs
    → has (client, token) a.pool.failed ≡ false
    → (pool : Pool) × (handle_fetch json os clock lengths name (request server token client) a ≡ (
      record a { pool = pool },
      datagrams json (request server token client) (length docs) 1 docs s,
      ok all_sent,
    ))
unfolding handle_fetch guarded
handle_fetch-sent json law os clock lengths name server token client docs a s room listed fine =
    let q : Packet = request server token client in
    let (pool, e, _) =
      send_paths-all_sent json q (length docs) clock lengths room
        (request-option server token client) docs 1 a.pool [] s fine in
    (
      pool,
      ap (λ r. logged (guarded json q (with_paths json os a r)))
          (split_on_paths_and_send-send_paths json clock lengths (os.walk a.files) q name docs
              a.pool listed
            ∙ e),
    )

-- A fetch from the client's request to its lists. The token and the documents of the paths are within
-- the limits of the format, no transfer with the token has failed at the server, and its congestion
-- check lets every packet through. Then the datagram of the request decodes at the server to a packet
-- that its worker solves by sending the documents of split_on_paths, one datagram for each, without an
-- exception; and once the client's workers have got some of these datagrams, in any order, any of them
-- more than once, its lists of folders and files have grown by the paths that these tell of, in the
-- order of their arrival.
pub solve_task-receive_paths :
    (json : JsonCodec) (os : Os) (clock : ℕ → ℕ) (lengths : ℕ → List ℕ) (server : Address)
    (token : Bytes) (client : Option Address) (docs : List Doc) (a b : Assembler) (home : Os)
    (timer : ℕ → ℕ) (room_there : ℕ → List ℕ) (pools : List Pool) (folder : Text) (order : List ℕ)
    (name : Text) (others : List (Resource Assembler))
    → LoadsDumps json
    → ((i : ℕ) → MakesRoom (lengths i))
    → length token < 16
    → split_on_paths name (os.walk a.files) ≡ ok docs
    → length docs < 2 ^ 27
    → AllWritable json docs
    → has (client, token) a.pool.failed ≡ false
    → Near docs order
    → (payload : Bytes) × (cached : Packet) × (pool : Pool) × (ds : List Datagram)
      × (b' : Assembler) × (encode json (message server token client) ≡ ok (payload, cached))
      × (decode json payload client ≡ ok (request server token client))
      × (solve_task json
            (server_manager json os clock lengths name others)
            (request server token client)
            false
            a
          ≡ record {
            heavy_work = false;
            state = record a { pool = pool };
            sent = ds;
            ended = ok tt;
          })
      × (receive json
            (solved_by json (client_manager json home timer room_there pools folder))
            (some server)
            (in_order ds order)
            b
          ≡ (b', [], ok tt))
      × Collected b b' (told folder_told docs order) (told file_told docs order)
solve_task-receive_paths json os clock lengths server token client docs a b home timer room_there
      pools folder order name others law room few_bytes listed few writable fine near =
    let q : Packet = request server token client in
    let (payload, cached, e, d) =
      decode-encode json (message server token client) client law
        (message-IsSendable server token client json few_bytes) in
    let s : AllSendable json q (length docs) 1 docs =
      prepared json q (length docs) law 1 docs few_bytes few (omega arith) writable in
    let (pool, sent) =
      handle_fetch-sent json law os clock lengths name server token client docs a s room listed
        fine in
    let (b', r, k) =
      receive-Collected json q (length docs) (some server) (timer 0)
        (solved_by json (client_manager json home timer room_there pools folder)) docs s order b
        (client_manager-CollectsPaths json home timer room_there pools folder) near in
    (
      payload,
      cached,
      pool,
      datagrams json q (length docs) 1 docs s,
      b',
      e,
      d,
      solve_task-dispatch json (server_manager json os clock lengths name others)
            (server_resource json os clock lengths name) q false a
            (request-named server token client) refl
          ∙ dispatch-fetch (server_resource json os clock lengths name) q false a
              (request-external server token client) (request-fetch server token client)
          ∙ ap (λ x. lightly false (returned x)) sent,
      r,
      k,
    )
