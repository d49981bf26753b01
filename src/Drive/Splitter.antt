-- ===== src/Drive/Splitter.antt =====
-- share_drive/share_drive_helpers/drive_spliter.py, split_on_bytes_and_send: the responses that carry
-- a file, or a folder that is packed first. The children prove what the responses and the loop
-- do; Paths has split_on_paths_and_send.
pub mod Responses
pub mod Datagrams
pub mod Loop
pub mod Paths
use coap_share_drive.Base.{
  ℕ, suc, ◌+◌, ◌-◌, ◌==◌, Bool, true, false, if◌then◌else◌, Option, none, some, List, [], ◌∷◌, ◌++◌,
  ◌||◌,
}
use coap_share_drive.Base.Eq.{nat_eq, list_eq}
use coap_share_drive.Base.Outcome.{Outcome, ok, err, key_error, type_error, os_error, ◌>>=◌}
use coap_share_drive.Base.Dict.{get, has, put, del}
use coap_share_drive.Bytes.{Bytes, Text}
use coap_share_drive.Config.OptionDelta
use coap_share_drive.Packet.{Packet, get_size_code_based_on_option, get_option_code, option_at}
use coap_share_drive.Packet.Value.{str, int, bytes}
use coap_share_drive.Packet.Block.{Block, encode_option_block, decode_option_block}
use coap_share_drive.Packet.Decode.{JsonCodec, Options}
use coap_share_drive.Packet.Encode.{encode}
use coap_share_drive.Transaction.{Datagram}
use coap_share_drive.Transaction.Pool.{
  Pool, handle_congestions, add_transaction, finish_overall_transaction,
}
use coap_share_drive.Drive.Chunks.{get_total_packets, split_on_packets}
use coap_share_drive.Drive.Assembler.{Files}
use coap_share_drive.Drive.Assembler.Handling.{zip_ending}
use coap_share_drive.Drive.DriveTemplates.{content_response, value_with}

-- `if index == 1: response.options[request.get_size_code_based_on_option()] = total_packets`. The
-- code is there whenever the request has a block option, which has been read by then.
abbrev pub with_total : Option ℕ → ℕ → ℕ → Options → Options
with_total none total index options = options
with_total (some code) total index options =
    if index == 1 then put code (int total) options else options

-- The response number `index`, from 1 on, before it is encoded.
unfoldable pub response : Packet → Text → ℕ → ℕ → ℕ → ℕ → Bytes → Packet
response request basename block_option szx total index payload =
    let template =
      value_with content_response request.token (request.message_id + index)
        request.sender_ip_port in
    record template {
      payload = bytes payload;
      options = with_total (get_size_code_based_on_option request) total index (
          put block_option
            (int (encode_option_block (index - 1) (if index == total then 0 else 1) szx))
            (put (OptionDelta.value OptionDelta.location_path) (str basename) template.options));
    }

-- How the loop ends: all is sent, the congestion check refuses, or it still waits.
pub data Ending : Type 0 where
  all_sent refused waiting : Ending

-- The loop over the blocks, from `index` on: the pool, the datagrams sent and the ending. `lengths`
-- are those that the congestion check of an index sees; no other thread changes the pool otherwise.
unfoldable pub send_packets :
    JsonCodec
    → (ℕ → ℕ)
    → (ℕ → List ℕ)
    → (ℕ → Bytes → Packet)
    → ℕ
    → ℕ
    → ℕ
    → List Bytes
    → Pool
    → List Datagram
    → Pool × List Datagram × Outcome Ending
send_packets json clock lengths make total message_id index [] pool sent = (pool, sent, ok all_sent)
send_packets json clock lengths make total message_id index (payload ∷ rest) pool sent =
    elim (encode json (make index payload)) [
      | err e ↦ (pool, sent, err e)
      | ok (encoded, packet) ↦
          (elim (handle_congestions packet (index == total) pool (lengths index)) [
            | none ↦ (pool, sent, ok waiting)
            | some true ↦ (pool, sent, ok refused)
            | some false ↦ (elim (add_transaction json packet message_id (clock index) pool) [
              | err e ↦ (pool, sent, err e)
              | ok (pool', _, datagrams) ↦
                  send_packets json clock lengths make total message_id (suc index) rest pool'
                    (sent ++ datagrams)
            ])
          ])
    ]

-- os.path.basename: what follows the last '/'
unfoldable pub has_slash : Text → Bool
has_slash [] = false
has_slash (c ∷ cs) = c == b'/' || has_slash cs

unfoldable pub basename : Text → Text
unfolding has_slash
basename [] = []
basename (c ∷ cs) =
    let rest = basename cs in if has_slash cs then rest else if c == b'/' then cs else c ∷ cs

-- The path that is sent, the files, and the archive to be deleted: DriveUtilities.compress_folder
-- makes the archive "<folder>.zip", with the bytes that `zip` gives.
abbrev pub packed : (Text → Bool) → (Text → Bytes) → Text → Files → Text × Files × Option Text
packed is_folder zip path files =
    if is_folder path
    then (path ++ zip_ending, put (path ++ zip_ending) (zip path) files, some (path ++ zip_ending))
    else (path, files, none)

abbrev pub without : Option Text → Files → Files
without none files = files
without (some path) files = if has path files then del path files else files

-- What follows the loop: nothing after a refusal, which leaves an archive where it is.
abbrev pub after_loop :
    Packet
    → ℕ
    → Option Text
    → Files
    → Pool × List Datagram × Outcome Ending
    → Files × Pool × List Datagram × Outcome Ending
after_loop request now archive files (pool, sent, ok all_sent) =
    (without archive files, finish_overall_transaction request now pool, sent, ok all_sent)
after_loop request now archive files (pool, sent, ok refused) = (files, pool, sent, ok refused)
after_loop request now archive files (pool, sent, ok waiting) = (files, pool, sent, ok waiting)
after_loop request now archive files (pool, sent, err e) = (files, pool, sent, err e)

-- The responses with the content of the file at `path`; os.path.getsize raises where there is none.
unfoldable pub send_file :
    JsonCodec
    → (ℕ → ℕ)
    → (ℕ → List ℕ)
    → Packet
    → ℕ
    → Block
    → Text
    → Files
    → Pool
    → Pool × List Datagram × Outcome Ending
send_file json clock lengths request code fields path files pool = elim (get path files) [
  | none ↦ (pool, [], err os_error)
  | some content ↦
      send_packets json clock lengths
        (response request (basename path) code fields.szx
          (get_total_packets content fields.block_size))
        (get_total_packets content fields.block_size) request.message_id 1
        (split_on_packets content fields.block_size) pool []
]

-- The whole of split_on_bytes_and_send. `clock 0` is the time at its end.
unfoldable pub split_on_bytes_and_send :
    JsonCodec
    → (ℕ → ℕ)
    → (ℕ → List ℕ)
    → (Text → Bool)
    → (Text → Bytes)
    → Packet
    → Text
    → Files
    → Pool
    → Files × Pool × List Datagram × Outcome Ending
split_on_bytes_and_send json clock lengths is_folder zip request path files pool =
    elim (get_option_code request) [
      | none ↦ (files, pool, [], err key_error)
      | some code ↦ elim (option_at code request >>= decode_option_block) [
        | err e ↦ (files, pool, [], err e)
        | ok none ↦ ((packed is_folder zip path files).1, pool, [], err type_error)
        | ok (some fields) ↦
            after_loop request (clock 0) (packed is_folder zip path files).2
              (packed is_folder zip path files).1
              (send_file json clock lengths request code fields (packed is_folder zip path files).0
                (packed is_folder zip path files).1 pool)
      ]
    ]
