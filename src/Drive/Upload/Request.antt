-- ===== src/Drive/Upload/Request.antt =====
-- An upload from the client's request to the file on the server's disk: client.py, client_resource.py
-- and server_resource.py.
use coap_share_drive.Base.{
  ℕ, ◌^◌, ◌<◌, ◌≡◌, refl, inr, Bool, true, false, Option, some, List, [], ◌∷◌, ◌++◌, arith, ◌∙◌, ap,
  sym, length,
}
use coap_share_drive.Base.Outcome.{ok, ◌>>=◌}
use coap_share_drive.Base.Dict.{get, has, has-get}
use coap_share_drive.Base.Eq.{nat_eq, list_eq}
use coap_share_drive.Bytes.{Bytes, Text}
use coap_share_drive.Packet.{Packet, Address, option_at}
use coap_share_drive.Packet.Keys.{general_work_id_eq}
use coap_share_drive.Packet.Value.{is_empty}
use coap_share_drive.Packet.Decode.{JsonCodec, decode}
use coap_share_drive.Packet.Encode.{encode}
use coap_share_drive.Packet.RoundTrip.{decode-encode}
use coap_share_drive.Packet.RoundTrip.PayloadPart.{LoadsDumps}
use coap_share_drive.Transaction.{Datagram}
use coap_share_drive.Transaction.Pool.{Pool, finish_overall_transaction}
use coap_share_drive.Worker.Resources.{Resource}
use coap_share_drive.Worker.Task.{solve_task, is_given, lightly, under_heavy_work}
use coap_share_drive.Worker.Task.Dispatch.{solve_task-dispatch, dispatch-put, dispatch-internal}
use coap_share_drive.Drive.Chunks.{get_total_packets}
use coap_share_drive.Drive.Assembler.{Assembler, Files, content_of}
use coap_share_drive.Drive.Assembler.Handling.{contains, zip_ending, saved_path}
use coap_share_drive.Drive.Assembler.Paths.{set_save_path}
use coap_share_drive.Drive.Splitter.{split_on_bytes_and_send, basename, all_sent}
use coap_share_drive.Drive.Splitter.Loop.{MakesRoom}
use coap_share_drive.Drive.Splitter.Responses.{upload}
use coap_share_drive.Drive.ClientResource.{handle_internal, await_finished, path_of}
use coap_share_drive.Drive.ClientResource.Served.{client_manager, client_resource, uploaded}
use coap_share_drive.Drive.ServerResource.{
  Os, location, exists, upload_path, try_put, handle_put, guarded, logged, reset_on_error,
}
use coap_share_drive.Drive.ServerResource.Served.{server_manager, server_resource, returned}
use coap_share_drive.Drive.Download.{in_order, receive, solved_by}
use coap_share_drive.Drive.Download.Arrivals.{CompletesAt}
use coap_share_drive.Drive.Download.Sent.{IsTransfer}
use coap_share_drive.Drive.Download.EndToEnd.{IsReady, split_on_bytes_and_send-receive}
use coap_share_drive.Drive.Download.Content.{server_manager-StoresContent}
use coap_share_drive.Drive.Client.{upload_message}
use coap_share_drive.Drive.Download.Message.{IsShort}
use coap_share_drive.Drive.Upload.Message.{
  message, request, fields, HasText, message-IsSendable, message-option, message-fields,
  message-size, message-path, message-named, message-internal, request-given, request-path,
  request-named, request-blocks, request-remote, request-put, request-external,
}

-- The server's save path for a folder.
abbrev pub below : Text → Text
below folder = folder ++ b'/' ∷ []

saved_path-below :
    (folder name : Text) → saved_path (some (below folder)) name ≡ below folder ++ name
saved_path-below [] name = refl
saved_path-below (c ∷ cs) name = refl

set_save_path-below :
    (is_folder : Text → Bool) (folder : Text) (a : Assembler)
    → is_folder folder ≡ true
    → set_save_path is_folder [] folder false a ≡ record a { save_path = some (below folder) }
unfolding set_save_path
set_save_path-below is_folder folder a there = rw there refl

-- A PUT into a folder, where no conflict is found, sets the save path and is not answered.
try_put-accepted :
    (json : JsonCodec) (os : Os) (q : Packet) (a : Assembler) (path folder : Text)
    → is_given 8 q ≡ true
    → is_given 27 q ≡ true
    → upload_path json os q.payload ≡ ok folder
    → location q ≡ ok path
    → os.is_folder a.files folder ≡ true
    → exists os (folder ++ basename path) a ≡ false
    → try_put json os q a ≡ (record a { save_path = some (below folder) }, [], ok all_sent)
unfolding try_put
try_put-accepted json os q a path folder given blocks told at there free =
    rw
      (
        given,
        blocks,
        told,
        at,
        set_save_path-below (os.is_folder a.files) folder a there,
        free,
        try_put,
      )
      refl

-- The waiting is over, and the file is there: handle_internal sends it.
handle_internal-sends :
    (json : JsonCodec) (clock : ℕ → ℕ) (lengths : ℕ → List ℕ) (is_folder : Text → Bool)
    (zip : Text → Bytes) (q : Packet) (files : Files) (pools : List Pool) (pool pool' : Pool)
    (path : Text)
    → (option_at 8 q >>= path_of) ≡ ok path
    → has path files ≡ true
    → await_finished q pools ≡ some (ok pool')
    → handle_internal json clock lengths is_folder zip q files pools pool
      ≡ some (split_on_bytes_and_send json clock lengths is_folder zip q path files pool')
unfolding handle_internal
handle_internal-sends json clock lengths is_folder zip q files pools pool pool' path at there
      acknowledged =
    rw (at, there, acknowledged, handle_internal) refl

-- The two sides of an upload: the request of the client for the file at `path`, and what their workers
-- and disks are like.
module _ (json : JsonCodec) (os home : Os) (clock timer : ℕ → ℕ) (lengths room_there : ℕ → List ℕ)
    (pools : List Pool) (name folder : Text) (others : List (Resource Assembler)) (server : Address)
    (path remote : Text) (token : Bytes) (client : Option Address) where
  -- The server's worker answers the request by setting the save path.
  request-accepted :
      (a : Assembler)
      → is_empty path ≡ false
      → os.is_folder a.files remote ≡ true
      → exists os (remote ++ basename path) a ≡ false
      → solve_task json
          (server_manager json os clock lengths name others)
          (request server path remote token client)
          false
          a
        ≡ record {
          heavy_work = false;
          state = record a { save_path = some (below remote) };
          sent = [];
          ended = ok tt;
        }
  unfolding handle_put guarded
  request-accepted a some_path there free =
      let q : Packet = request server path remote token client in
      solve_task-dispatch json (server_manager json os clock lengths name others)
        (server_resource json os clock lengths name) q false a
        (request-named server path remote token client) refl
      ∙ dispatch-put (server_resource json os clock lengths name) q false a
          (request-external server path remote token client)
          (request-put server path remote token client)
      ∙ ap (λ s. under_heavy_work (returned (logged (guarded json q (reset_on_error json os s)))))
          (try_put-accepted json os q a path remote
            (request-given server path remote token client some_path)
            (request-blocks server path remote token client)
            (request-remote server path remote token client json os)
            (request-path server path remote token client) there free)

  -- The client's worker sends the file once the request has been acknowledged.
  message-sent :
      (b : Assembler) (pool' after : Pool) (ds : List Datagram)
      → has path b.files ≡ true
      → await_finished (message server path remote token client) pools ≡ some (ok pool')
      → split_on_bytes_and_send json timer room_there
          (home.is_folder b.files)
          (home.zip b.files)
          (message server path remote token client)
          path
          b.files
          pool'
        ≡ (b.files, after, ds, ok all_sent)
      → solve_task json
          (client_manager json home timer room_there pools folder)
          (message server path remote token client)
          false
          b
        ≡ record { heavy_work = false; state = record b { pool = after }; sent = ds; ended = ok tt }
  message-sent b pool' after ds there acknowledged e =
      let q : Packet = message server path remote token client in
      solve_task-dispatch json (client_manager json home timer room_there pools folder)
        (client_resource json home timer room_there pools folder) q false b
        (message-named server path remote token client) refl
      ∙ dispatch-internal (client_resource json home timer room_there pools folder) q false b
          (message-internal server path remote token client)
      ∙ ap (λ s. lightly false (uploaded b s))
          (handle_internal-sends json timer room_there (home.is_folder b.files) (home.zip b.files) q
              b.files pools b.pool pool' path (message-path server path remote token client) there
              acknowledged
            ∙ ap some e)

  -- An upload from the client's request to the server's disk. The client has the file, which is no
  -- folder, and finds its request acknowledged; the server has the folder, and no file at the place of
  -- the upload or where handle_put looks for a conflict; path, base name, request, token and file are
  -- within the limits of the format; no transfer with the token has failed at the client or is under
  -- way at the server; no name holds ".zip"; and the client's congestion check lets every packet
  -- through. Then the datagram of the request decodes at the server to a packet that its worker solves
  -- by setting the save path, without an answer; the client's worker solves the request by sending all
  -- blocks of the file; and once the server's workers have got these datagrams, in any order and any
  -- of them more than once, up to the first after which none is missing, the file is in the folder
  -- with its content, and the server has sent nothing.
  pub solve_task-receive_upload :
      (content : Bytes) (a b : Assembler) (pool' : Pool) (order : List ℕ)
      → LoadsDumps json
      → ((i : ℕ) → MakesRoom (room_there i))
      → is_empty path ≡ false
      → IsShort path
      → IsShort (basename path)
      → HasText server path remote token client json
      → length token < 16
      → get_total_packets content 1024 < 2 ^ 27
      → get path b.files ≡ some content
      → home.is_folder b.files path ≡ false
      → await_finished (message server path remote token client) pools ≡ some (ok pool')
      → has (some server, token) pool'.failed ≡ false
      → os.is_folder a.files remote ≡ true
      → exists os (remote ++ basename path) a ≡ false
      → has (below remote ++ basename path) a.files ≡ false
      → has (client, token) a.in_assembly ≡ false
      → contains zip_ending (basename path) ≡ false
      → contains zip_ending (below remote ++ basename path) ≡ false
      → CompletesAt (get_total_packets content 1024) (λ i. false) order
      → (payload : Bytes) × (cached : Packet) × (after : Pool) × (ds : List Datagram)
        × (a' : Assembler) × (encode json (message server path remote token client)
            ≡ ok (payload, cached))
        × (decode json payload client ≡ ok (request server path remote token client))
        × (solve_task json
              (server_manager json os clock lengths name others)
              (request server path remote token client)
              false
              a
            ≡ record {
              heavy_work = false;
              state = record a { save_path = some (below remote) };
              sent = [];
              ended = ok tt;
            })
        × (solve_task json
              (client_manager json home timer room_there pools folder)
              (message server path remote token client)
              false
              b
            ≡ record {
              heavy_work = false;
              state = record b { pool = after };
              sent = ds;
              ended = ok tt;
            })
        × (receive json
              (solved_by json (server_manager json os clock lengths name others))
              client
              (in_order ds order)
              (record a { save_path = some (below remote) })
            ≡ (a', [], ok tt))
        × (content_of (get (below remote ++ basename path) a'.files) ≡ content)
  solve_task-receive_upload sent_bytes a b pool' order law room some_path short base told few_bytes
        few there file acknowledged fine folder_there free none_there new plain plain_there c =
      let q : Packet = message server path remote token client in
      let (payload, cached, e, d) =
        decode-encode json q client law
          (message-IsSendable server path remote token client json short told few_bytes) in
      let place = saved_path-below remote (basename path) in
      let transfer : IsTransfer upload q (basename path) 6 (get_total_packets sent_bytes 1024) =
        record {
          raw = base.raw;
          name_encodes = base.encodes;
          name_fits = base.fits;
          token_fits = few_bytes;
          sized = message-size server path remote token client;
          some_bit = omega arith;
          szx_fits = omega arith;
          few = few;
        } in
      let set : Assembler = record a { save_path = some (below remote) } in
      let ready : IsReady os.decompress (clock 0) q path sent_bytes b.files pool' room_there
          (solved_by json (server_manager json os clock lengths name others)) client set =
        record {
          there = there;
          room = room;
          fine = unfold upload_message in fine;
          stores = server_manager-StoresContent json os clock lengths name others (basename path);
          new = unfold upload_message in new;
          plain = plain;
          plain_there = rw place plain_there;
          free = inr (rw place none_there);
        } in
      let (after, ds, a', s, r, got) =
        split_on_bytes_and_send-receive json upload timer room_there q
          (fields server path remote token client) path sent_bytes b.files pool'
          (home.is_folder b.files) (home.zip b.files) os.decompress (clock 0)
          (solved_by json (server_manager json os clock lengths name others)) client set order law
          file (message-option server path remote token client)
          (message-fields server path remote token client) refl transfer ready c in
      (
        payload,
        cached,
        finish_overall_transaction q (timer 0) after,
        ds,
        a',
        e,
        d,
        request-accepted a some_path folder_there free,
        message-sent b pool' (finish_overall_transaction q (timer 0) after) ds
            (rw (has-get path b.files, there) refl) acknowledged s,
        r,
        ap (λ p. content_of (get p a'.files)) (sym place) ∙ got,
      )
