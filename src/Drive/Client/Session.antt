-- ===== src/Drive/Client/Session.antt =====
-- client.py: client_cli. The user's choices are a list; what the other threads do is an argument.
pub mod Requests
pub mod Tokens
use coap_share_drive.Base.{
  ℕ, suc, ◌+◌, ◌*◌, ◌<◌, ◌≤◌, ◌≡◌, refl, ◌⊎◌, inl, inr, Bool, true, false, Option, none, some, List,
  [], ◌∷◌, ◌++◌, arith, length,
}
use coap_share_drive.Base.Outcome.{Outcome, Exc, ok, err}
use coap_share_drive.Bytes.{Text}
use coap_share_drive.Packet.{Packet, Address}
use coap_share_drive.Packet.Decode.{JsonCodec}
use coap_share_drive.Transaction.{Datagram}
use coap_share_drive.Transaction.Pool.{Pool, wait_util_finish}
use coap_share_drive.Worker.Pool.{WorkerPool}
use coap_share_drive.Drive.Assembler.{Assembler}
use coap_share_drive.Drive.Client.{
  Client, Sent, download_file, upload_file, rename_file, move_file, delete_file, fetch_server_data,
}

-- An operation, with the answers to its questions.
pub data Command : Type 0 where
  download : Text → Text → Command
  upload : Text → Text → Command
  rename : Text → Text → Command
  move : Text → Text → Command
  delete : Text → Command
  exit : Command

-- Where the thread of the session is: it asks for the next operation, has left, or waits for an answer.
pub data SessionEnd : Type 0 where
  asks left waits : SessionEnd

abbrev pub Session : Type 0
Session = Client × List Datagram × Outcome SessionEnd

-- What surrounds the session: the server and the home directory; the time of a request; the pools
-- that a wait finds; what the other threads have made of workers, transactions and assembler when the
-- session goes on after a request. Each is numbered by its round and its place in it: false for the
-- request of the server's data, true for the operation.
pub record Surroundings : Type 0 where
  pub server : Address
  pub home : Text
  pub is_folder : Text → Bool
  pub now : ℕ → Bool → ℕ
  pub pools : ℕ → Bool → List Pool
  pub meanwhile : ℕ → Bool → WorkerPool → Assembler → WorkerPool × Assembler

abbrev pub changed : WorkerPool × Assembler → Client → Client
changed (workers, a) c = record c { workers = workers; assembler = a }

-- A command that waits until its transfer is finished.
abbrev pub and_wait : List Pool → Sent → Session
and_wait pools (c, err e) = (c, [], err e)
and_wait pools (c, ok none) = (c, [], ok asks)
and_wait pools (c, ok (some (packet, sent))) =
    (c, sent, ok (elim (wait_util_finish packet pools) [ true ↦ asks | false ↦ waits ]))

abbrev pub without_wait : Sent → Session
without_wait (c, err e) = (c, [], err e)
without_wait (c, ok none) = (c, [], ok asks)
without_wait (c, ok (some (packet, sent))) = (c, sent, ok asks)

-- What comes next, where the session has not ended yet.
abbrev pub sent_before : List Datagram → Session → Session
sent_before sent (c, more, ended) = (c, sent ++ more, ended)

abbrev pub then_next : Session → (Client → Session) → Session
then_next (c, sent, err e) next = (c, sent, err e)
then_next (c, sent, ok left) next = (c, sent, ok left)
then_next (c, sent, ok waits) next = (c, sent, ok waits)
then_next (c, sent, ok asks) next = sent_before sent (next c)

module _ (json : JsonCodec) (s : Surroundings) where
  -- The match over the commands; the answer None, which fits no case, is none.
  unfoldable pub run_command : ℕ → Option Command → Client → Session
  run_command i none c = (c, [], ok asks)
  run_command i (some (download file_name local_path)) c =
      and_wait (s.pools i true)
        (download_file json (s.now i true) s.server s.is_folder s.home file_name local_path c)
  run_command i (some (upload local_file_path remote_path)) c =
      and_wait (s.pools i true)
        (upload_file json (s.now i true) s.server local_file_path remote_path c)
  run_command i (some (rename file_name new_name)) c =
      without_wait (rename_file json (s.now i true) s.server file_name new_name c)
  run_command i (some (move file_path new_location)) c =
      without_wait (move_file json (s.now i true) s.server file_path new_location c)
  run_command i (some (delete file_path)) c =
      without_wait (delete_file json (s.now i true) s.server file_path c)
  run_command i (some exit) c = (c, [], ok left)

  -- One round: the server's data, then the operation.
  unfoldable pub run_choice : ℕ → Option Command → Client → Session
  run_choice i choice c =
      then_next (and_wait (s.pools i false) (fetch_server_data json (s.now i false) s.server c))
        (λ c'. run_command i choice (changed (s.meanwhile i false c'.workers c'.assembler) c'))

  unfoldable pub client_cli : ℕ → List (Option Command) → Client → Session
  client_cli i [] c = (c, [], ok asks)
  client_cli i (choice ∷ later) c =
      then_next (run_choice i choice c)
        (λ c'. client_cli (suc i) later (changed (s.meanwhile i true c'.workers c'.assembler) c'))
