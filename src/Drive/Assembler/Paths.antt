-- ===== src/Drive/Assembler/Paths.antt =====
-- drive_assembler.py: handle_paths, which collects the paths of the server, their lists, and the save
-- path.
use coap_share_drive.Base.{
  ℕ, leb, ◌==◌, Bool, if◌then◌else◌, none, some, List, [], ◌∷◌, ◌++◌, length,
}
use coap_share_drive.Base.Eq.{list_eq, nat_eq}
use coap_share_drive.Base.Outcome.{Outcome, ok, err, type_error, ◌>>=◌}
use coap_share_drive.Base.Dict.{get}
use coap_share_drive.Bytes.{Text}
use coap_share_drive.Packet.{Packet, get_option_code}
use coap_share_drive.Packet.Value.{Payload, Doc, bytes, str, doc}
use coap_share_drive.Packet.Block.{decode_option_block}
use coap_share_drive.Transaction.Pool.{finish_overall_transaction}
use coap_share_drive.Drive.Assembler.{Assembler}
use coap_share_drive.Drive.Assembler.Handling.{contains, option_of}

-- "folder" and "file"
abbrev pub folder_word : Text
folder_word = b'f' ∷ b'o' ∷ b'l' ∷ b'd' ∷ b'e' ∷ b'r' ∷ []

abbrev pub file_word : Text
file_word = b'f' ∷ b'i' ∷ b'l' ∷ b'e' ∷ []

-- The path that a document tells is added to its list.
abbrev pub collect_doc : Doc → Assembler → Assembler
collect_doc d a = elim (get folder_word d) [
  | some path ↦ record a { folder_paths = a.folder_paths ++ path ∷ [] }
  | none ↦ elim (get file_word d) [
    | some path ↦ record a { file_paths = a.file_paths ++ path ∷ [] }
    | none ↦ a
  ]
]

-- `"folder" in response.payload` and what follows: a str has substrings, but no item "folder", and a
-- str is never in bytes.
unfoldable pub collect : Payload → Assembler → Assembler × Outcome (Unit {0})
collect (doc d) a = (collect_doc d a, ok tt)
collect (str t) a =
    if contains folder_word t
    then (a, err type_error)
    else if contains file_word t
    then (a, err type_error)
    else (a, ok tt)
collect (bytes b) a = (a, err type_error)

-- `decode_option_block(…)["M"]`, a TypeError for None
unfoldable pub flag_of : Packet → Outcome ℕ
flag_of response = do
  option ← option_of (get_option_code response) response >>= decode_option_block
  elim option [ none ↦ err type_error | some b ↦ ok b.m ]

abbrev pub after_collect :
    ℕ → Packet → Assembler × Outcome (Unit {0}) → Assembler × Outcome (Unit {0})
after_collect now response (a, err e) = (a, err e)
after_collect now response (a, ok _) = elim (flag_of response) [
  | err e ↦ (a, err e)
  | ok m ↦ (
    if m == 0 then record a { pool = finish_overall_transaction response now a.pool } else a,
    ok tt,
  )
]

unfoldable pub handle_paths : ℕ → Packet → Assembler → Assembler × Outcome (Unit {0})
handle_paths now response a = after_collect now response (collect response.payload a)

-- sorted(l, key=len): the sort is stable.
unfoldable pub insert_by_length : Text → List Text → List Text
insert_by_length t [] = t ∷ []
insert_by_length t (u ∷ l) =
    if leb (length t) (length u) then t ∷ u ∷ l else u ∷ insert_by_length t l

unfoldable pub sorted_by_length : List Text → List Text
unfolding insert_by_length
sorted_by_length [] = []
sorted_by_length (t ∷ l) = insert_by_length t (sorted_by_length l)

unfoldable pub get_files_list : Assembler → List Text
get_files_list a = sorted_by_length a.file_paths

unfoldable pub get_folders_list : Assembler → List Text
get_folders_list a = sorted_by_length a.folder_paths

unfoldable pub get_content : Assembler → List Text
get_content a = sorted_by_length (a.file_paths ++ a.folder_paths)

unfoldable pub clear_content : Assembler → Assembler
clear_content a = record a { folder_paths = []; file_paths = [] }

-- `f"{path}/"`, below the home directory `home` if asked for; `is_folder` is folder_exists.
unfoldable pub set_save_path : (Text → Bool) → Text → Text → Bool → Assembler → Assembler
set_save_path is_folder home path home_root a =
    if is_folder path
    then (if home_root
        then record a { save_path = some (home ++ b'/' ∷ path ++ b'/' ∷ []) }
        else record a { save_path = some (path ++ b'/' ∷ []) })
    else a

unfoldable pub reset_save_path : Assembler → Assembler
reset_save_path a = record a { save_path = none }
