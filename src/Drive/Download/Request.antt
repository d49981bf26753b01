-- ===== src/Drive/Download/Request.antt =====
-- A download from the request of share_drive_client/client.py to the file on the client's disk, through the
-- worker and server_resource.py.
use coap_share_drive.Base.{
  [], ℕ, ◌^◌, ◌<◌, ◌≡◌, refl, true, false, Option, some, List, arith, ◌∙◌, ap, length,
}
use coap_share_drive.Base.Outcome.{ok}
use coap_share_drive.Base.Dict.{get, has, has-get}
use coap_share_drive.Base.Eq.{nat_eq, list_eq}
use coap_share_drive.Bytes.{Bytes, Text}
use coap_share_drive.Packet.{Packet, Address, has_option_block}
use coap_share_drive.Packet.Keys.{general_work_id_eq}
use coap_share_drive.Packet.Value.{is_empty}
use coap_share_drive.Packet.Decode.{JsonCodec, decode}
use coap_share_drive.Packet.Encode.{encode}
use coap_share_drive.Packet.RoundTrip.{decode-encode}
use coap_share_drive.Packet.RoundTrip.PayloadPart.{LoadsDumps}
use coap_share_drive.Transaction.{Datagram}
use coap_share_drive.Worker.Task.{is_given}
use coap_share_drive.Transaction.Pool.{Pool, finish_overall_transaction}
use coap_share_drive.Drive.Chunks.{get_total_packets}
use coap_share_drive.Drive.Assembler.{Assembler, Files, content_of}
use coap_share_drive.Drive.Assembler.Handling.{contains, zip_ending, saved_path}
use coap_share_drive.Drive.Splitter.{split_on_bytes_and_send, basename, all_sent}
use coap_share_drive.Drive.Splitter.Loop.{MakesRoom}
use coap_share_drive.Drive.ServerResource.{
  Os, handle_get, try_get, guarded, logged, location, with_sent,
}
use coap_share_drive.Drive.Download.{solved_by, in_order, receive}
use coap_share_drive.Drive.Download.Arrivals.{CompletesAt}
use coap_share_drive.Drive.Download.Sent.{IsTransfer}
use coap_share_drive.Drive.Download.EndToEnd.{IsReady, split_on_bytes_and_send-receive}
use coap_share_drive.Worker.Resources.{Resource}
use coap_share_drive.Worker.Task.{solve_task, under_heavy_work}
use coap_share_drive.Drive.ServerResource.Served.{server_resource, server_manager, returned}
use coap_share_drive.Drive.Splitter.Responses.{download}
use coap_share_drive.Drive.ClientResource.Served.{client_manager}
use coap_share_drive.Drive.Download.Content.{client_manager-StoresContent}
use coap_share_drive.Worker.Task.Dispatch.{solve_task-dispatch, dispatch-get}
use coap_share_drive.Drive.Assembler.Delivery.{IsFree}
use coap_share_drive.Drive.Download.Message.{
  IsShort, message, request, fields, message-IsSendable, request-option, request-fields,
  request-size, request-block, request-given, request-path, request-named, request-get,
  request-external,
}

-- The handler serves a file that is there.
try_get-served :
    (json : JsonCodec) (os : Os) (clock : ℕ → ℕ) (lengths : ℕ → List ℕ) (q : Packet) (path : Text)
    (a : Assembler)
    → is_given 8 q ≡ true
    → has_option_block q ≡ true
    → location q ≡ ok path
    → has path a.files ≡ true
    → try_get json os clock lengths q a
      ≡ with_sent a (
          split_on_bytes_and_send json clock lengths
            (os.is_folder a.files)
            (os.zip a.files)
            q
            path
            a.files
            a.pool)
unfolding try_get
try_get-served json os clock lengths q path a given block at there =
    rw (given, block, at, there) refl

handle_get-served :
    (json : JsonCodec) (os : Os) (clock : ℕ → ℕ) (lengths : ℕ → List ℕ) (q : Packet) (path : Text)
    (a : Assembler) (files : Files) (pool : Pool) (ds : List Datagram)
    → is_given 8 q ≡ true
    → has_option_block q ≡ true
    → location q ≡ ok path
    → has path a.files ≡ true
    → split_on_bytes_and_send json clock lengths
        (os.is_folder a.files)
        (os.zip a.files)
        q
        path
        a.files
        a.pool
      ≡ (files, pool, ds, ok all_sent)
    → handle_get json os clock lengths q a
      ≡ (record a { files = files; pool = pool }, ds, ok all_sent)
unfolding handle_get guarded
handle_get-served json os clock lengths q path a files pool ds given block at there e =
    ap (λ s. logged (guarded json q s))
      (try_get-served json os clock lengths q path a given block at there ∙ ap (with_sent a) e)

-- A worker with the server's resource solves a request that its handler answers.
solve_task-served :
    (json : JsonCodec) (os : Os) (clock : ℕ → ℕ) (lengths : ℕ → List ℕ) (name : Text)
    (others : List (Resource Assembler)) (q : Packet) (a after : Assembler) (ds : List Datagram)
    → is_given 11 q ≡ true
    → q.needs_internal_computation ≡ false
    → q.code ≡ 1
    → handle_get json os clock lengths q a ≡ (after, ds, ok all_sent)
    → solve_task json (server_manager json os clock lengths name others) q false a
      ≡ record { heavy_work = false; state = after; sent = ds; ended = ok tt }
solve_task-served json os clock lengths name others q a after ds named external is_get e =
    solve_task-dispatch json (server_manager json os clock lengths name others)
      (server_resource json os clock lengths name) q false a named refl
    ∙ dispatch-get (server_resource json os clock lengths name) q false a external is_get
    ∙ ap (λ s. under_heavy_work (returned s)) e

-- A download from the client's request to its disk. The server has the file, which is no folder; the
-- path, the base name, the token and the file are within the limits of the format; no transfer with
-- the token has failed at the server or is under way at the client; neither the base name nor the place
-- it is saved at holds ".zip", and no file is below the save path under that name; and the server's
-- congestion check lets every packet through. Then the datagram of the request decodes
-- at the server to a packet that its worker solves by sending all blocks of the file, without an
-- exception; and once the client's workers have got these datagrams, in any order and any of them more than once,
-- up to the first after which none is missing, it has a file with the server's content under its base
-- name, below the save path if one is set.
pub solve_task-receive :
    (json : JsonCodec) (os : Os) (clock : ℕ → ℕ) (lengths : ℕ → List ℕ) (server : Address)
    (path : Text) (token : Bytes) (client : Option Address) (content : Bytes) (a b : Assembler)
    (home : Os) (timer : ℕ → ℕ) (room_there : ℕ → List ℕ) (pools : List Pool) (folder : Text)
    (order : List ℕ) (name : Text) (others : List (Resource Assembler))
    → LoadsDumps json
    → ((i : ℕ) → MakesRoom (lengths i))
    → is_empty path ≡ false
    → IsShort path
    → IsShort (basename path)
    → length token < 16
    → get_total_packets content 1024 < 2 ^ 27
    → get path a.files ≡ some content
    → os.is_folder a.files path ≡ false
    → has (client, token) a.pool.failed ≡ false
    → contains zip_ending (basename path) ≡ false
    → has (some server, token) b.in_assembly ≡ false
    → contains zip_ending (saved_path b.save_path (basename path)) ≡ false
    → IsFree b.save_path (basename path) b.files
    → CompletesAt (get_total_packets content 1024) (λ i. false) order
    → (payload : Bytes) × (cached : Packet) × (pool : Pool) × (ds : List Datagram)
      × (b' : Assembler) × (encode json (message server path token client) ≡ ok (payload, cached))
      × (decode json payload client ≡ ok (request server path token client))
      × (solve_task json
            (server_manager json os clock lengths name others)
            (request server path token client)
            false
            a
          ≡ record {
            heavy_work = false;
            state = record a { pool = pool };
            sent = ds;
            ended = ok tt;
          })
      × (receive json
            (solved_by json (client_manager json home timer room_there pools folder))
            (some server)
            (in_order ds order)
            b
          ≡ (b', [], ok tt))
      × (content_of (get (saved_path b.save_path (basename path)) b'.files) ≡ content)
solve_task-receive json os clock lengths server path token client sent_bytes a b home timer
      room_there pools folder order name others law room some_path short base few_bytes few there
      file fine plain new plain_there free c =
    let q : Packet = request server path token client in
    let (payload, cached, e, d) =
      decode-encode json (message server path token client) client law
        (message-IsSendable server path token client json short few_bytes) in
    let transfer : IsTransfer download q (basename path) 6 (get_total_packets sent_bytes 1024) =
      record {
        raw = base.raw;
        name_encodes = base.encodes;
        name_fits = base.fits;
        token_fits = few_bytes;
        sized = request-size server path token client;
        some_bit = omega arith;
        szx_fits = omega arith;
        few = few;
      } in
    let ready : IsReady home.decompress (timer 0) q path sent_bytes a.files a.pool lengths
        (solved_by json (client_manager json home timer room_there pools folder)) (some server) b =
      record {
        there = there;
        room = room;
        fine = fine;
        stores =
            client_manager-StoresContent json home timer room_there pools folder (basename path);
        new = new;
        plain = plain;
        plain_there = plain_there;
        free = free;
      } in
    let (after, ds, b', s, r, got) =
      split_on_bytes_and_send-receive json download clock lengths q
        (fields server path token client) path sent_bytes a.files a.pool (os.is_folder a.files)
        (os.zip a.files) home.decompress (timer 0)
        (solved_by json (client_manager json home timer room_there pools folder)) (some server) b
        order law file (request-option server path token client)
        (request-fields server path token client) refl transfer ready c in
    (
      payload,
      cached,
      finish_overall_transaction q (clock 0) after,
      ds,
      b',
      e,
      d,
      solve_task-served json os clock lengths name others q a
          (record a { pool = finish_overall_transaction q (clock 0) after }) ds
          (request-named server path token client) (request-external server path token client)
          (request-get server path token client)
          (handle_get-served json os clock lengths q path a a.files
            (finish_overall_transaction q (clock 0) after) ds
            (request-given server path token client some_path)
            (request-block server path token client) (request-path server path token client)
            (rw (has-get path a.files, there) refl) s),
      r,
      got,
    )
