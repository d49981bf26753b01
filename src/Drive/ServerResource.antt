-- ===== src/Drive/ServerResource.antt =====
-- share_drive/share_drive_server/server_resource.py. The resource's directory, which __init__ makes, is
-- taken to be there still, so os.chdir to it succeeds; paths are relative to it. What os and shutil do
-- to the disk is the record Os. Changes has handle_post and handle_delete.
pub mod Changes
pub mod Replies
pub mod Served
use coap_share_drive.Base.{
  ℕ, ◌==◌, Bool, true, false, not, ◌&&◌, ◌||◌, if◌then◌else◌, Option, none, some, List, [], ◌∷◌,
  ◌++◌,
}
use coap_share_drive.Base.Eq.{nat_eq, list_eq}
use coap_share_drive.Base.Outcome.{
  Outcome, Exc, ok, err, type_error, attribute_error, key_error, out_of_fuel, or_raise, ◌>>=◌,
}
use coap_share_drive.Base.Dict.{get, has, del}
use coap_share_drive.Bytes.{Bytes, Text}
use coap_share_drive.Config.Code
use coap_share_drive.Config.OptionDelta
use coap_share_drive.Packet.{Packet, option_at, has_option_block}
use coap_share_drive.Packet.Value.{
  OptionValue, Payload, Doc, str, int, bytes, nothing, doc, is_empty,
}
use coap_share_drive.Packet.Decode.{JsonCodec}
use coap_share_drive.Packet.Encode.{encode}
use coap_share_drive.Templates
use coap_share_drive.Templates.{
  Template, not_found, bad_request, conflict, internal_error, success_changed, success_deleted,
}
use coap_share_drive.Transaction.{Datagram}
use coap_share_drive.Transaction.Pool.{Pool}
use coap_share_drive.Worker.Task.{is_given}
use coap_share_drive.Drive.Assembler.{Assembler, Files}
use coap_share_drive.Drive.Assembler.Handling.{handle_packets}
use coap_share_drive.Drive.Assembler.Paths.{set_save_path, reset_save_path}
use coap_share_drive.Drive.Splitter.{
  Ending, all_sent, refused, waiting, basename, has_slash, split_on_bytes_and_send,
}
use coap_share_drive.Drive.Splitter.Paths.{Folder, split_on_paths_and_send}
use coap_share_drive.Drive.ClientResource.{reply, path_of}

-- What the disk does: which paths are folders, what os.rename (in a directory), shutil.move and
-- shutil.rmtree leave, with their exception, the archive that zipfile makes of a folder, what
-- unpacking leaves, and os.walk of the resource's directory.
pub record Os : Type 0 where
  pub is_folder : Files → Text → Bool
  pub rename : Text → Text → Text → Files → Files × Outcome (Unit {0})
  pub move : Text → Text → Files → Files × Outcome (Unit {0})
  pub remove : Text → Files → Files × Outcome (Unit {0})
  pub rmtree : Text → Files → Files × Outcome (Unit {0})
  pub zip : Files → Text → Bytes
  pub decompress : Text → Files → Files
  pub walk : Files → List Folder

-- The drive, what was sent, and how the handler ends.
abbrev pub Served : Type 0
Served = Assembler × List Datagram × Outcome Ending

-- A reply and the end of the handler.
unfoldable pub answer : JsonCodec → Template → Packet → Assembler → Served
answer json template request a = elim (reply json template request) [
  | err e ↦ (a, [], err e)
  | ok sent ↦ (a, sent, ok all_sent)
]

-- `except Exception as e:` INTERNAL_ERROR to the sender, and the exception once more.
unfoldable pub guarded : JsonCodec → Packet → Served → Served
guarded json request (a, sent, ok ending) = (a, sent, ok ending)
guarded json request (a, sent, err e) = elim (reply json internal_error request) [
  | err x ↦ (a, sent, err x)
  | ok more ↦ (a, sent ++ more, err e)
]

-- The wrapper of the logger, which swallows the exception.
abbrev pub logged : Served → Served
logged (a, sent, ok ending) = (a, sent, ok ending)
logged (a, sent, err e) = (a, sent, ok all_sent)

-- options[LOCATION_PATH] as a path
abbrev pub location : Packet → Outcome Text
location request = option_at (OptionDelta.value OptionDelta.location_path) request >>= path_of

abbrev pub exists : Os → Text → Assembler → Bool
exists os path a = has path a.files || os.is_folder a.files path

-- What the handler leaves of the files and the pool.
abbrev pub with_sent : Assembler → Files × Pool × List Datagram × Outcome Ending → Served
with_sent a (files, pool, sent, ended) = (record a { files = files; pool = pool }, sent, ended)

-- `BAD_REQUEST.value()` with the token of the request: the message id stays 0.
unfoldable pub bare_bad_request : JsonCodec → Packet → Assembler → Served
bare_bad_request json request a =
    elim (encode json (record (Templates.value bad_request) { token = request.token })) [
      | err e ↦ (a, [], err e)
      | ok (payload, _) ↦
          (a, record { payload = payload; to = request.sender_ip_port } ∷ [], ok all_sent)
    ]

module _ (json : JsonCodec) (os : Os) (clock : ℕ → ℕ) (lengths : ℕ → List ℕ) where
  unfoldable pub try_get : Packet → Assembler → Served
  try_get request a =
      if is_given (OptionDelta.value OptionDelta.location_path) request && has_option_block request
      then (elim (location request) [
        | err e ↦ (a, [], err e)
        | ok path ↦
            if not (exists os path a)
            then answer json not_found request a
            else with_sent a (
                split_on_bytes_and_send json clock lengths (os.is_folder a.files) (os.zip a.files)
                  request path a.files a.pool)
      ])
      else bare_bad_request json request a

  unfoldable pub handle_get : Packet → Assembler → Served
  handle_get request a = logged (guarded json request (try_get request a))

-- "upload_path"
abbrev pub upload_word : Text
upload_word = b'u' ∷ b'p' ∷ b'l' ∷ b'o' ∷ b'a' ∷ b'd' ∷ b'_' ∷ b'p' ∷ b'a' ∷ b't' ∷ b'h' ∷ []

module _ (json : JsonCodec) (os : Os) where
  -- `request.payload["upload_path"]`
  abbrev pub upload_path : Payload → Outcome Text
  upload_path (doc d) = or_raise (get upload_word d) key_error
  upload_path (str t) = err type_error
  upload_path (bytes b) = err type_error

  -- The save path is set; a conflict is told, success is not. `home` plays no part where the home
  -- directory is not asked for.
  unfoldable pub try_put : Packet → Assembler → Served
  try_put request a =
      if is_given (OptionDelta.value OptionDelta.location_path) request
        && is_given (OptionDelta.value OptionDelta.block1) request
      then (elim (upload_path request.payload) [
        | err e ↦ (a, [], err e)
        | ok upload ↦
            (let set = set_save_path (os.is_folder a.files) [] upload false a in
              elim (location request) [
                | err e ↦ (set, [], err e)
                | ok path ↦
                    if exists os (upload ++ basename path) set
                    then answer json conflict request set
                    else (set, [], ok all_sent)
              ])
      ])
      else answer json bad_request request a

  -- The except branch also resets the save path.
  abbrev pub reset_on_error : Served → Served
  reset_on_error (a, sent, ok ending) = (a, sent, ok ending)
  reset_on_error (a, sent, err e) = (reset_save_path a, sent, err e)

  unfoldable pub handle_put : Packet → Assembler → Served
  handle_put request a = logged (guarded json request (reset_on_error (try_put request a)))

  abbrev pub with_paths : Assembler → Pool × List Datagram × Outcome Ending → Served
  with_paths a (pool, sent, ended) = (record a { pool = pool }, sent, ended)

  unfoldable pub handle_fetch : (ℕ → ℕ) → (ℕ → List ℕ) → Text → Packet → Assembler → Served
  handle_fetch clock lengths name request a = logged (
      guarded json request (
        with_paths a
          (split_on_paths_and_send json clock lengths (os.walk a.files) request name a.pool)))

  -- handle_internal: pass
  abbrev pub handle_internal : Packet → Assembler → Served
  handle_internal request a = (a, [], ok all_sent)

  abbrev pub handled : Assembler × Outcome (Unit {0}) → Served
  handled (a, ok u) = (a, [], ok all_sent)
  handled (a, err e) = (a, [], err e)

  unfoldable pub try_response : ℕ → Packet → Assembler → Served
  try_response now request a =
      if request.code == Code.value Code.success_content
      then (elim (get (OptionDelta.value OptionDelta.location_path) request.options) [
        | none ↦ (a, [], ok all_sent)
        | some v ↦ elim (path_of v) [
          | err e ↦ (a, [], err e)
          | ok path ↦ handled (handle_packets os.decompress now request path a)
        ]
      ])
      else (a, [], ok all_sent)

  -- The except branch of handle_response: INTERNAL_ERROR, and a line in the log.
  abbrev pub replied : Packet → Served → Served
  replied request (a, sent, ok ending) = (a, sent, ok ending)
  replied request (a, sent, err e) = answer json internal_error request a

  unfoldable pub handle_response : ℕ → Packet → Assembler → Served
  handle_response now request a = replied request (try_response now request a)
