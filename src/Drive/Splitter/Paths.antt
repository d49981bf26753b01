-- ===== src/Drive/Splitter/Paths.antt =====
-- share_drive/share_drive_helpers/drive_utils.py, split_on_paths, and drive_spliter.py,
-- split_on_paths_and_send. What os.walk yields is an argument: each folder's path with the names of its
-- folders and files.
use coap_share_drive.Base.{
  ℕ, suc, ◌+◌, ◌-◌, ◌==◌, Bool, true, false, if◌then◌else◌, Option, none, some, List, [], ◌∷◌, ◌++◌,
  length,
}
use coap_share_drive.Base.Eq.{nat_eq}
use coap_share_drive.Base.Outcome.{Outcome, ok, err, index_error, value_error, type_error, ◌>>=◌}
use coap_share_drive.Base.Dict.{put}
use coap_share_drive.Bytes.{Text}
use coap_share_drive.Packet.{Packet, get_option_code}
use coap_share_drive.Packet.Value.{Doc, doc, int}
use coap_share_drive.Packet.Block.{encode_option_block}
use coap_share_drive.Packet.Decode.{JsonCodec}
use coap_share_drive.Transaction.{Datagram}
use coap_share_drive.Transaction.Pool.{Pool, handle_congestions, add_transaction}
use coap_share_drive.Drive.DriveTemplates.{path_response, value_with}
use coap_share_drive.Drive.Assembler.Paths.{folder_word, file_word}
use coap_share_drive.Drive.Splitter.{Ending, all_sent, refused, waiting}

-- What follows a prefix.
unfoldable pub strip_prefix : Text → Text → Option Text
strip_prefix [] t = some t
strip_prefix (p ∷ ps) [] = none
strip_prefix (p ∷ ps) (c ∷ cs) = let rest = strip_prefix ps cs in if p == c then rest else none

-- What follows the first occurrence of a separator, and what stands in front of it.
unfoldable pub after_separator : Text → Text → Option Text
unfolding strip_prefix
after_separator sep [] = strip_prefix sep []
after_separator sep (c ∷ cs) =
    let later = after_separator sep cs in
    elim (strip_prefix sep (c ∷ cs)) [ none ↦ later | some rest ↦ some rest ]

unfoldable pub before_separator : Text → Text → Text
unfolding strip_prefix
before_separator sep [] = []
before_separator sep (c ∷ cs) =
    let later = before_separator sep cs in
    elim (strip_prefix sep (c ∷ cs)) [ none ↦ c ∷ later | some rest ↦ [] ]

-- `t.split(sep)[1]`
unfoldable pub split_second : Text → Text → Outcome Text
split_second [] t = err value_error
split_second (s ∷ sep) t = elim (after_separator (s ∷ sep) t) [
  | none ↦ err index_error
  | some rest ↦ ok (before_separator (s ∷ sep) rest)
]

-- `t.removeprefix("/")`
abbrev pub without_slash : Text → Text
without_slash [] = []
without_slash (c ∷ cs) = if c == 47 then cs else c ∷ cs

-- os.path.join for a name without '/'
unfoldable pub ends_with_slash : Text → Bool
ends_with_slash [] = true
ends_with_slash (c ∷ []) = c == 47
ends_with_slash (c ∷ d ∷ cs) = ends_with_slash (d ∷ cs)

abbrev pub join : Text → Text → Text
join root name = if ends_with_slash root then root ++ name else root ++ 47 ∷ name

-- The documents of the entries of one folder, under the word "folder" or "file".
unfoldable pub entries : Text → Text → Text → List Text → Outcome (List Doc)
entries word relative_to root [] = ok []
entries word relative_to root (name ∷ names) = do
  path ← split_second relative_to (join root name)
  rest ← entries word relative_to root names
  ok (((word, without_slash path) ∷ []) ∷ rest)

-- os.walk's triple
abbrev pub Folder : Type 0
Folder = Text × List Text × List Text

unfoldable pub walked : Text → List Folder → Outcome (List Doc)
walked relative_to [] = ok []
walked relative_to ((root, dirs, files) ∷ walk) = do
  folders_here ← entries folder_word relative_to root dirs
  files_here ← entries file_word relative_to root files
  rest ← walked relative_to walk
  ok (folders_here ++ (files_here ++ rest))

-- {"dummy_key": "dummy_value"}
abbrev pub dummy : Doc
dummy =
    (
      b'd' ∷ b'u' ∷ b'm' ∷ b'm' ∷ b'y' ∷ b'_' ∷ b'k' ∷ b'e' ∷ b'y' ∷ [],
      b'd' ∷ b'u' ∷ b'm' ∷ b'm' ∷ b'y' ∷ b'_' ∷ b'v' ∷ b'a' ∷ b'l' ∷ b'u' ∷ b'e' ∷ [],
    )
    ∷ []

unfoldable pub split_on_paths : Text → List Folder → Outcome (List Doc)
split_on_paths relative_to walk = do paths ← walked relative_to walk; ok (dummy ∷ paths)

-- get_total_paths
unfoldable pub get_total_paths : List Folder → ℕ
get_total_paths [] = 0
get_total_paths ((root, dirs, files) ∷ walk) = length dirs + length files + get_total_paths walk

-- The response number `index`, from 1 on. Without a block option its options get the key None, which
-- `sorted` cannot compare with the others when it is encoded.
unfoldable pub path_packet : Packet → ℕ → ℕ → Doc → Outcome Packet
path_packet request total index payload = elim (get_option_code request) [
  | none ↦ err type_error
  | some code ↦
      (let template = value_with path_response request.token index request.sender_ip_port in
        ok (record template {
          payload = doc payload;
          options =
              put code (int (encode_option_block (index - 1) (if index == total then 0 else 1) 6))
                template.options;
        }))
]

-- The loop over the documents.
unfoldable pub send_paths :
    JsonCodec
    → (ℕ → ℕ)
    → (ℕ → List ℕ)
    → Packet
    → ℕ
    → ℕ
    → List Doc
    → Pool
    → List Datagram
    → Pool × List Datagram × Outcome Ending
send_paths json clock lengths request total index [] pool sent = (pool, sent, ok all_sent)
send_paths json clock lengths request total index (d ∷ rest) pool sent =
    elim (path_packet request total index d) [
      | err e ↦ (pool, sent, err e)
      | ok packet ↦ (elim (handle_congestions packet (index - 1 == total) pool (lengths index)) [
        | none ↦ (pool, sent, ok waiting)
        | some true ↦ (pool, sent, ok refused)
        | some false ↦ (elim (add_transaction json packet request.message_id (clock index) pool) [
          | err e ↦ (pool, sent, err e)
          | ok (pool', _, datagrams) ↦
              send_paths json clock lengths request total (suc index) rest pool' (sent ++ datagrams)
        ])
      ])
    ]

unfoldable pub split_on_paths_and_send :
    JsonCodec
    → (ℕ → ℕ)
    → (ℕ → List ℕ)
    → List Folder
    → Packet
    → Text
    → Pool
    → Pool × List Datagram × Outcome Ending
split_on_paths_and_send json clock lengths walk request relative_to pool =
    elim (split_on_paths relative_to walk) [
      | err e ↦ (pool, [], err e)
      | ok paths ↦ send_paths json clock lengths request (length paths) 1 paths pool []
    ]
