-- ===== src/Drive/Assembler/Handling.antt =====
-- drive_assembler.py: the whole of handle_packets.
use coap_share_drive.Base.{
  ℕ, suc, ◌==◌, Bool, false, ◌||◌, not, if◌then◌else◌, Option, none, some, [], ◌∷◌, ◌++◌, length,
  take,
}
use coap_share_drive.Base.Eq.{nat_eq, list_eq, ◌=?◌}
use coap_share_drive.Base.Outcome.{Outcome, ok, err, key_error, type_error, ◌>>=◌}
use coap_share_drive.Base.Dict.{get, has, put, del}
use coap_share_drive.Bytes.{Text}
use coap_share_drive.Config.OptionDelta
use coap_share_drive.Packet.{
  Packet, general_work_id, get_option_code, get_size_code, get_block_id, option_at,
}
use coap_share_drive.Packet.Keys.{general_work_id_eq}
use coap_share_drive.Packet.Value.{OptionValue, str, int, bytes, nothing, is_empty}
use coap_share_drive.Packet.Block.{Block, decode_option_block}
use coap_share_drive.Transaction.Pool.{finish_overall_transaction}
use coap_share_drive.Drive.Assembler.{Operation, Assembler, Files, fresh, store_packet}

-- packet.options[packet.get_option_code()], and the same for the size: a KeyError for None
unfoldable pub option_of : Option ℕ → Packet → Outcome OptionValue
option_of none p = err key_error
option_of (some code) p = option_at code p

-- The registration of the work, and the deletion of a file that is there, with the first packet.
unfoldable pub register : Packet → Text → Assembler → Assembler
register packet path a =
    if not (has (general_work_id packet) a.in_assembly)
    then record a {
      in_assembly = put (general_work_id packet) fresh a.in_assembly;
      files = if has path a.files then del path a.files else a.files;
    }
    else a

-- packet.get_block_id() == 0
abbrev pub is_first : Option ℕ → Bool
is_first none = false
is_first (some n) = n == 0

-- `if packet.get_block_id() == 0: logger.log(… packet.options[packet.get_size_code()] …)`
unfoldable pub check_size : Packet → Outcome (Option OptionValue)
unfolding option_of
check_size packet = do
  block_id ← get_block_id packet
  if is_first block_id
      then (do v ← option_of (get_size_code packet) packet; ok (some v))
      else ok none

-- `if not option["M"]: operation_dict["TOTAL_RESPONSES"] = option["NUM"]`
abbrev pub note_total : Block → Operation → Operation
note_total b op = if b.m == 0 then record op { total_responses = some b.num } else op

-- save_path + packet.options[LOCATION_PATH]: a str only takes a str.
abbrev pub after_save_path : Text → OptionValue → Outcome Text
after_save_path save (str t) = ok (save ++ t)
after_save_path save (int n) = err type_error
after_save_path save (bytes b) = err type_error
after_save_path save nothing = err type_error

unfoldable pub full_path : Option Text → Packet → Text → Outcome Text
full_path none packet path = ok path
full_path (some []) packet path = ok path
full_path (some (c ∷ cs)) packet path = do
  v ← option_at (OptionDelta.value OptionDelta.location_path) packet
  after_save_path (c ∷ cs) v

-- Where the blocks of a file at `path` are written.
abbrev pub saved_path : Option Text → Text → Text
saved_path none path = path
saved_path (some []) path = path
saved_path (some (c ∷ cs)) path = (c ∷ cs) ++ path

-- `part in text`
abbrev pub contains : Text → Text → Bool
contains part [] = is_empty part
contains part (c ∷ cs) = (take (length part) (c ∷ cs) =? part) || contains part cs

-- ".zip"
abbrev pub zip_ending : Text
zip_ending = 46 ∷ 122 ∷ 105 ∷ 112 ∷ []

-- TOTAL_RESPONSES is set and WRITE_INDEX - 1 is equal to it.
abbrev pub is_complete : Operation → Bool
is_complete op = elim op.total_responses [ none ↦ false | some total ↦ op.write_index == suc total ]

-- The end of an operation. `decompress` is DriveUtilities.decompress_folder, on the files.
unfoldable pub finish : (Text → Files → Files) → ℕ → Packet → Text → Assembler → Assembler
finish decompress now packet path a = record a {
  in_assembly = del (general_work_id packet) a.in_assembly;
  assembled = a.assembled ++ general_work_id packet ∷ [];
  pool = finish_overall_transaction packet now a.pool;
  files = if contains zip_ending path then del path (decompress path a.files) else a.files;
  save_path = none;
}

-- The operation's dict after storing is the one in __in_assembly; then the test for the end.
abbrev pub stored :
    (Text → Files → Files)
    → ℕ
    → Packet
    → Assembler
    → Operation × Files × Outcome Text
    → Assembler × Outcome (Unit {0})
stored decompress now packet a (op, files, result) =
    let a' = record a {
      in_assembly = put (general_work_id packet) op a.in_assembly;
      files = files;
    } in
    elim result [
      | err e ↦ (a', err e)
      | ok path ↦
          (if is_complete op then (finish decompress now packet path a', ok tt) else (a', ok tt))
    ]

-- What follows the registration, for the operation of the packet's work.
unfoldable pub handle_block :
    (Text → Files → Files)
    → ℕ
    → Packet
    → Text
    → Block
    → Operation
    → Assembler
    → Assembler × Outcome (Unit {0})
unfolding finish
handle_block decompress now packet path b op a = stored decompress now packet a (
    store_packet b.num packet.payload path (full_path a.save_path packet path) (note_total b op)
      a.files)

-- handle_packets. An exception leaves the state as it was changed until then.
unfoldable pub handle_packets :
    (Text → Files → Files) → ℕ → Packet → Text → Assembler → Assembler × Outcome (Unit {0})
handle_packets decompress now packet path a =
    let a' = register packet path a in
    elim (option_of (get_option_code packet) packet >>= decode_option_block) [
      | err e ↦ (a, err e)
      | ok option ↦ elim (check_size packet) [
        | err e ↦ (a', err e)
        | ok _ ↦ elim option [
          | none ↦ (a', err type_error)
          | some b ↦ elim (get (general_work_id packet) a'.in_assembly) [
            | none ↦ (a', err key_error)
            | some op ↦ handle_block decompress now packet path b op a'
          ]
        ]
      ]
    ]
