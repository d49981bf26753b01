-- ===== src/Drive/ClientResource.antt =====
-- share_drive/share_drive_client/client_resource.py. The resource's directory, which __init__ makes, is
-- taken to be there still, so os.chdir succeeds.
pub mod Served
use coap_share_drive.Base.{
  ℕ, ◌==◌, Bool, true, false, ◌&&◌, not, if◌then◌else◌, Option, none, some, List, [], ◌∷◌,
}
use coap_share_drive.Base.Eq.{nat_eq, list_eq}
use coap_share_drive.Base.Outcome.{Outcome, ok, err, type_error, ◌>>=◌}
use coap_share_drive.Base.Dict.{get, has}
use coap_share_drive.Bytes.{Bytes, Text}
use coap_share_drive.Config.Code
use coap_share_drive.Config.OptionDelta
use coap_share_drive.Packet.{Packet, option_at}
use coap_share_drive.Packet.Value.{OptionValue, str, int, bytes, nothing}
use coap_share_drive.Packet.Decode.{JsonCodec}
use coap_share_drive.Packet.Encode.{encode}
use coap_share_drive.Templates
use coap_share_drive.Templates.{Template, not_implemented}
use coap_share_drive.Transaction.{Datagram}
use coap_share_drive.Transaction.Pool.{Pool, is_transaction_finished}
use coap_share_drive.Drive.Assembler.{Assembler, Files}
use coap_share_drive.Drive.Assembler.Handling.{handle_packets}
use coap_share_drive.Drive.Assembler.Paths.{handle_paths}
use coap_share_drive.Drive.Splitter.{Ending, split_on_bytes_and_send}

-- `skt.sendto(TEMPLATE.value_with(request.token, request.message_id).encode(), request.sender_ip_port)`
unfoldable pub reply : JsonCodec → Template → Packet → Outcome (List Datagram)
reply json template request = do
  (encoded, _) ← encode json (Templates.value_with template request.token request.message_id none)
  ok (record { payload = encoded; to = request.sender_ip_port } ∷ [])

-- handle_get, handle_post, handle_put, handle_delete and handle_fetch: a client serves nothing.
unfoldable pub handle_request : JsonCodec → Packet → Outcome (List Datagram)
handle_request json request = reply json not_implemented request

-- The value of LOCATION_PATH as a path: `decode` makes a str of it.
abbrev pub path_of : OptionValue → Outcome Text
path_of (str t) = ok t
path_of (int n) = err type_error
path_of (bytes b) = err type_error
path_of nothing = err type_error

-- handle_response
unfoldable pub handle_response :
    (Text → Files → Files) → ℕ → Packet → Assembler → Assembler × Outcome (Unit {0})
handle_response decompress now request a =
    if request.code == Code.value Code.success_content
    then (elim (get (OptionDelta.value OptionDelta.location_path) request.options) [
      | none ↦ handle_paths now request a
      | some v ↦ elim (path_of v) [
        | err e ↦ (a, err e)
        | ok path ↦ handle_packets decompress now request path a
      ]
    ])
    else (a, ok tt)

-- `while not is_transaction_finished(request): pass`, over the pools that it finds: the pool that
-- lets it go on, an exception, or none while it waits.
unfoldable pub await_finished : Packet → List Pool → Option (Outcome Pool)
await_finished request [] = none
await_finished request (pool ∷ later) = elim (is_transaction_finished request pool) [
  | err e ↦ some (err e)
  | ok true ↦ some (ok pool)
  | ok false ↦ await_finished request later
]

-- handle_internal: the file of an upload is sent once the request has been acknowledged. The answer
-- is none while it waits.
unfoldable pub handle_internal :
    JsonCodec
    → (ℕ → ℕ)
    → (ℕ → List ℕ)
    → (Text → Bool)
    → (Text → Bytes)
    → Packet
    → Files
    → List Pool
    → Pool
    → Option (Files × Pool × List Datagram × Outcome Ending)
handle_internal json clock lengths is_folder zip request files pools pool =
    elim (option_at (OptionDelta.value OptionDelta.location_path) request >>= path_of) [
      | err e ↦ some (files, pool, [], err e)
      | ok path ↦
          (if not (has path files) && not (is_folder path)
            then some (files, pool, [], ok Ending.all_sent)
            else (elim (await_finished request pools) [
              | none ↦ none
              | some (err e) ↦ some (files, pool, [], err e)
              | some (ok pool') ↦ some (
                  split_on_bytes_and_send json clock lengths is_folder zip request path files pool')
            ]))
    ]
