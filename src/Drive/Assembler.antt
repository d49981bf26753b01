-- ===== src/Drive/Assembler.antt =====
-- share_drive/share_drive_helpers/drive_assembler.py: DriveAssembler.handle_packets, which puts the
-- blocks of a file into a file. The files are a dict from paths to contents.
pub mod Handling
pub mod Paths
pub mod Sorted
pub mod Storing
pub mod Arrival
pub mod Delivery
pub mod Complete
pub mod Whole
pub mod Transfer
use coap_share_drive.Base.{
  ℕ, zero, suc, ◌+◌, ◌-◌, max, ◌==◌, Bool, true, false, ◌||◌, not, if◌then◌else◌, Option, none,
  some, List, [], ◌∷◌, ◌++◌, length, take,
}
use coap_share_drive.Base.Eq.{nat_eq, list_eq, ◌=?◌}
use coap_share_drive.Base.Outcome.{Outcome, ok, err, key_error, type_error, or_raise, ◌>>=◌}
use coap_share_drive.Base.Dict.{Dict, get, has, put, del}
use coap_share_drive.Bytes.{Bytes, Text}
use coap_share_drive.Config.OptionDelta
use coap_share_drive.Packet.{
  Packet, GeneralWorkId, general_work_id, get_option_code, get_size_code, get_block_id, option_at,
}
use coap_share_drive.Packet.Keys.{general_work_id_eq}
use coap_share_drive.Packet.Value.{OptionValue, Payload, str, int, bytes, nothing, doc}
use coap_share_drive.Packet.Block.{Block, decode_option_block}
use coap_share_drive.Transaction.Pool.{Pool, finish_overall_transaction}

abbrev pub Files : Type 0
Files = Dict Text Bytes

-- The dict of an operation; the total is none where the source has -1.
pub record Operation : Type 0 where
  pub total_responses : Option ℕ
  pub write_index : ℕ
  pub received_packets : Dict ℕ Payload

abbrev pub fresh : Operation
fresh = record { total_responses = none; write_index = 0; received_packets = [] }

-- The attributes, the files of the disk and the shared pool; the two lists are those of the content
-- dict.
pub record Assembler : Type 0 where
  pub in_assembly : Dict GeneralWorkId Operation
  pub assembled : List GeneralWorkId
  pub save_path : Option Text
  pub files : Files
  pub pool : Pool
  pub folder_paths : List Text
  pub file_paths : List Text

-- The content of a file, nothing where there is none.
abbrev pub content_of : Option Bytes → Bytes
content_of none = []
content_of (some b) = b

-- `with open(path, 'ab') as file: file.write(b)`, on a disk that lets the path be opened
unfoldable pub append : Text → Bytes → Files → Files
append path b files = put path (content_of (get path files) ++ b) files

-- A number above all keys.
unfoldable pub bound : Dict ℕ Payload → ℕ
bound [] = 0
bound ((k, v) ∷ d) = max (suc k) (bound d)

-- `while write_index + 1 in received_packets: write_index += 1`
unfoldable pub advance : ℕ → ℕ → Dict ℕ Payload → ℕ
advance zero index received = index
advance (suc fuel) index received =
    let later = advance fuel (suc index) received in
    if has (suc index) received then later else index

-- The loop that writes `n` packets from index `i` on and takes each out of the dict. Each time it
-- opens the file, which makes one where there is none, before it looks the packet up.
unfoldable pub write_packets :
    ℕ → ℕ → Text → Dict ℕ Payload → Files → Dict ℕ Payload × Files × Outcome (Unit {0})
write_packets zero i path received files = (received, files, ok tt)
write_packets (suc n) i path received files = elim (get i received) [
  | none ↦ (received, append path [] files, err key_error)
  | some (bytes b) ↦ write_packets n (suc i) path (del i received) (append path b files)
  | some (str t) ↦ (received, append path [] files, err type_error)
  | some (doc d) ↦ (received, append path [] files, err type_error)
]

-- What is left of storing once the packets have been written.
abbrev written :
    Operation
    → ℕ
    → Text
    → Dict ℕ Payload × Files × Outcome (Unit {0})
    → Operation × Files × Outcome Text
written op last path (received, files, ok _) =
    (record op { write_index = suc last; received_packets = received }, files, ok path)
written op last path (received, files, err e) =
    (record op { write_index = last; received_packets = received }, files, err e)

-- Storing a packet, and writing all that is then in order. The path is the argument of
-- handle_packets where nothing is written, and the full path where something is.
unfoldable pub store_packet :
    ℕ → Payload → Text → Outcome Text → Operation → Files → Operation × Files × Outcome Text
unfolding advance bound
store_packet num payload path full_path op files =
    let received = put num payload op.received_packets in
    let last = advance (bound received) num received in
    if op.write_index == num
    then (elim full_path [
      | err e ↦ (record op { write_index = last; received_packets = received }, files, err e)
      | ok full ↦ written op last full (write_packets (suc (last - num)) num full received files)
    ])
    else (record op { received_packets = received }, files, ok path)
