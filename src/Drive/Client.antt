-- ===== src/Drive/Client.antt =====
-- share_drive/share_drive_client/client.py: the requests of the client's commands. What the user types
-- is an argument. Questions and sockets are left out.
pub mod Session
use coap_share_drive.Base.{ℕ, Bool, true, if◌then◌else◌, Option, none, some, List, [], ◌∷◌}
use coap_share_drive.Base.Eq.{nat_eq}
use coap_share_drive.Base.Outcome.{Outcome, ok, err}
use coap_share_drive.Base.Dict.{put}
use coap_share_drive.Bytes.{Text}
use coap_share_drive.Config.OptionDelta
use coap_share_drive.Packet.{Packet, Address}
use coap_share_drive.Packet.Value.{Doc, doc, str, is_empty}
use coap_share_drive.Packet.Decode.{JsonCodec}
use coap_share_drive.Transaction.{Datagram}
use coap_share_drive.Worker.Pool.{WorkerPool, handle_internal_task}
use coap_share_drive.Drive.DriveTemplates
use coap_share_drive.Drive.DriveTemplates.{DriveTemplate}
use coap_share_drive.Drive.Assembler.{Assembler}
use coap_share_drive.Drive.Assembler.Paths.{get_content, set_save_path, clear_content}
use coap_share_drive.Drive.ServerResource.{upload_word}
use coap_share_drive.Drive.ServerResource.Changes.{rename_word, move_word}

-- "share_drive"
abbrev pub share_drive : Text
share_drive = b's' ∷ b'h' ∷ b'a' ∷ b'r' ∷ b'e' ∷ b'_' ∷ b'd' ∷ b'r' ∷ b'i' ∷ b'v' ∷ b'e' ∷ []

-- A template's packet for this server, with URI_PATH.
abbrev pub to_server : Address → Packet → Packet
to_server server message = record message {
  options = put (OptionDelta.value OptionDelta.uri_path) (str share_drive) message.options;
  sender_ip_port = some server;
}

abbrev pub at_path : Text → Packet → Packet
at_path path message = record message {
  options = put (OptionDelta.value OptionDelta.location_path) (str path) message.options;
}

abbrev pub telling : Doc → Packet → Packet
telling d message = record message { payload = doc d }

unfoldable pub download_message : Address → Text → Packet
download_message server file_name =
    to_server server (at_path file_name (DriveTemplates.value DriveTemplates.download))

unfoldable pub upload_message : Address → Text → Text → Packet
upload_message server local_file_path remote_path =
    record (telling ((upload_word, remote_path) ∷ [])
      (to_server server (at_path local_file_path (DriveTemplates.value DriveTemplates.upload)))) {
        needs_internal_computation = true;
      }

unfoldable pub rename_message : Address → Text → Text → Packet
rename_message server file_name new_name =
    telling ((rename_word, new_name) ∷ [])
      (to_server server (at_path file_name (DriveTemplates.value DriveTemplates.change)))

unfoldable pub move_message : Address → Text → Text → Packet
move_message server file_path new_location =
    telling ((move_word, new_location) ∷ [])
      (to_server server (at_path file_path (DriveTemplates.value DriveTemplates.change)))

unfoldable pub delete_message : Address → Text → Packet
delete_message server file_path =
    to_server server (at_path file_path (DriveTemplates.value DriveTemplates.delete))

unfoldable pub fetch_message : Address → Packet
fetch_message server = to_server server (DriveTemplates.value DriveTemplates.fetch)

-- The client: its pool with the transactions, its assembler, and the state of gen_token.
pub record Client : Type 0 where
  pub workers : WorkerPool
  pub assembler : Assembler
  pub tokens : ℕ

-- The client after a command, and the request with its datagrams; none where nothing is sent.
abbrev pub Sent : Type 0
Sent = Client × Outcome (Option (Packet × List Datagram))

abbrev pub sent_task : Assembler → WorkerPool × ℕ × Outcome (Packet × List Datagram) → Sent
sent_task a (workers, tokens, ended) = (
  record { workers = workers; assembler = a; tokens = tokens },
  elim ended [ err e ↦ err e | ok sent ↦ ok (some sent) ],
)

-- The commands, up to the wait for the answer. `content` is asked for first by those that choose from
-- what the server has.
module _ (json : JsonCodec) (now : ℕ) (server : Address) where
  abbrev pub send_task : Packet → Assembler → Client → Sent
  send_task message a c = sent_task a (handle_internal_task json now message c.tokens c.workers)

  abbrev pub if_content : Client → Sent → Sent
  if_content c sent = if is_empty (get_content c.assembler) then (c, ok none) else sent

  unfoldable pub download_file : (Text → Bool) → Text → Text → Text → Client → Sent
  download_file is_folder home file_name local_path c = if_content c (
      send_task (download_message server file_name)
        (set_save_path is_folder home local_path true c.assembler) c)

  unfoldable pub upload_file : Text → Text → Client → Sent
  upload_file local_file_path remote_path c =
      send_task (upload_message server local_file_path remote_path) c.assembler c

  unfoldable pub rename_file : Text → Text → Client → Sent
  rename_file file_name new_name c =
      if_content c (send_task (rename_message server file_name new_name) c.assembler c)

  unfoldable pub move_file : Text → Text → Client → Sent
  move_file file_path new_location c =
      if_content c (send_task (move_message server file_path new_location) c.assembler c)

  unfoldable pub delete_file : Text → Client → Sent
  delete_file file_path c = if_content c (send_task (delete_message server file_path) c.assembler c)

  unfoldable pub fetch_server_data : Client → Sent
  fetch_server_data c = send_task (fetch_message server) (clear_content c.assembler) c
