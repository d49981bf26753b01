-- ===== src/Drive/Download/EndToEnd.antt =====
-- A download from the sender's file to the receiver's.
use coap_share_drive.Base.{
  ℕ, ◌+◌, ◌^◌, ◌<◌, ◌≡◌, refl, Bool, false, Option, some, List, [], arith, ◌∙◌, sym, subst, length,
}
use coap_share_drive.Base.Outcome.{ok, ◌>>=◌}
use coap_share_drive.Base.Dict.{get, has}
use coap_share_drive.Base.Eq.{nat_eq, list_eq}
use coap_share_drive.Bytes.{Bytes, Text}
use coap_share_drive.Packet.{Packet, Address, get_option_code, option_at}
use coap_share_drive.Packet.Keys.{general_work_id_eq}
use coap_share_drive.Packet.Block.{Block, decode_option_block}
use coap_share_drive.Packet.Decode.{JsonCodec}
use coap_share_drive.Packet.RoundTrip.PayloadPart.{LoadsDumps}
use coap_share_drive.Transaction.{Datagram}
use coap_share_drive.Transaction.Pool.{Pool, finish_overall_transaction}
use coap_share_drive.Drive.Chunks.{split_on_packets, get_total_packets}
use coap_share_drive.Drive.Chunks.Counting.{length-split_on_packets}
use coap_share_drive.Drive.Assembler.{Assembler, Files, content_of}
use coap_share_drive.Drive.Assembler.Handling.{contains, zip_ending, saved_path}
use coap_share_drive.Drive.Assembler.Transfer.{nth, deliver-split_on_packets}
use coap_share_drive.Drive.Assembler.Delivery.{IsFree, Completes}
use coap_share_drive.Drive.Splitter.{
  send_file, send_packets, split_on_bytes_and_send, basename, all_sent, response,
}
use coap_share_drive.Drive.Splitter.Loop.{MakesRoom, send_packets-all_sent}
use coap_share_drive.Drive.Download.{in_order, receive}
use coap_share_drive.Drive.Download.Arrivals.{
  pow_pos, CompletesAt, StoresContent, arrivals, completes, CompletesAt-Near, receive-deliver,
}
use coap_share_drive.Worker.Resources.{Handler}
use coap_share_drive.Drive.Splitter.Responses.{Direction, block_code}
use coap_share_drive.Drive.Download.Sent.{IsTransfer, make, prepared}

send_file-there :
    (json : JsonCodec) (clock : ℕ → ℕ) (lengths : ℕ → List ℕ) (request : Packet) (code : ℕ)
    (fields : Block) (path : Text) (content : Bytes) (files : Files) (pool : Pool)
    → get path files ≡ some content
    → send_file json clock lengths request code fields path files pool
      ≡ send_packets json clock lengths
          (response request
            (basename path)
            code
            fields.szx
            (get_total_packets content fields.block_size))
          (get_total_packets content fields.block_size)
          request.message_id
          1
          (split_on_packets content fields.block_size)
          pool
          []
unfolding send_file
send_file-there json clock lengths request code fields path sent_bytes files pool h =
    rw (h, send_file) refl

-- What the sender and the receiver of a file must have: the sender has the file, room for every packet
-- and no failed transfer; the receiver's handler stores content, nothing is under way for the token,
-- the file's name and place are no archive's, and no old file is in the way.
pub record IsReady (decompress : Text → Files → Files) (now : ℕ) (request : Packet) (path : Text)
    (content : Bytes) (files : Files) (pool : Pool) (lengths : ℕ → List ℕ)
    (handle : Handler Assembler) (address : Option Address) (a : Assembler) : Type 0 where
  pub there : get path files ≡ some content
  pub room : (i : ℕ) → MakesRoom (lengths i)
  pub fine : has (request.sender_ip_port, request.token) pool.failed ≡ false
  pub stores : StoresContent decompress now (basename path) handle
  pub new : has (address, request.token) a.in_assembly ≡ false
  pub plain : contains zip_ending (basename path) ≡ false
  pub plain_there : contains zip_ending (saved_path a.save_path (basename path)) ≡ false
  pub free : IsFree a.save_path (basename path) a.files

send_file-receive :
    (json : JsonCodec) (way : Direction) (clock : ℕ → ℕ) (lengths : ℕ → List ℕ) (request : Packet)
    (fields : Block) (path : Text) (content : Bytes) (files : Files) (pool : Pool)
    (decompress : Text → Files → Files) (now : ℕ) (handle : Handler Assembler)
    (address : Option Address) (a : Assembler) (order : List ℕ)
    → LoadsDumps json
    → fields.block_size ≡ 2 ^ (fields.szx + 4)
    → IsTransfer way request
        (basename path)
        fields.szx
        (get_total_packets content fields.block_size)
    → IsReady decompress now request path content files pool lengths handle address a
    → CompletesAt (get_total_packets content fields.block_size) (λ i. false) order
    → (after : Pool) × (ds : List Datagram) × (a' : Assembler) × (send_file json clock lengths
          request
          (block_code way)
          fields
          path
          files
          pool
        ≡ (after, ds, ok all_sent))
      × (receive json handle address (in_order ds order) a ≡ (a', [], ok tt))
      × (content_of (get (saved_path a.save_path (basename path)) a'.files) ≡ content)
send_file-receive json way clock lengths request fields path sent_bytes files pool decompress now
      handle address a order law size d ready c =
    let total : ℕ = get_total_packets sent_bytes fields.block_size in
    let blocks : List Bytes = split_on_packets sent_bytes fields.block_size in
    let pos : 0 < fields.block_size = rw size (pow_pos (fields.szx + 4)) in
    let whole : length blocks ≡ total = length-split_on_packets sent_bytes fields.block_size pos in
    let name : Text = basename path in
    let s =
      prepared json law way request name fields.szx total d clock lengths request.message_id
        ready.room 1 blocks (omega (arith, whole)) in
    let (after, e, _) =
      send_packets-all_sent json clock lengths (make json law way request name fields.szx total d)
        total request.message_id (request.sender_ip_port, request.token) ready.room blocks 1 pool []
        s ready.fine in
    let completed =
      completes json law way request name fields.szx total d address blocks whole a.save_path
        (λ i. false) order c in
    let (a', e', got) =
      deliver-split_on_packets decompress now (address, request.token) sent_bytes fields.block_size
        name a.save_path
        (arrivals json law way request name fields.szx total d address blocks whole order) a pos
        ready.plain ready.plain_there ready.new refl ready.free
        (subst
          (λ n.
            Completes (address, request.token) n (nth blocks) name a.save_path (λ i. false)
              (arrivals json law way request name fields.szx total d address blocks whole order))
          (sym whole) completed) in
    (
      after,
      _,
      a',
      send_file-there json clock lengths request (block_code way) fields path sent_bytes files pool
            ready.there
          ∙ e,
      receive-deliver json law way request name fields.szx total d address blocks whole clock
          lengths request.message_id ready.room decompress now handle ready.stores s order a a'
          (CompletesAt-Near json law way request name fields.szx total d address blocks whole
            (λ i. false) order c)
          e',
      got,
    )

split_on_bytes_and_send-send_file :
    (json : JsonCodec) (clock : ℕ → ℕ) (lengths : ℕ → List ℕ) (request : Packet) (code : ℕ)
    (fields : Block) (path : Text) (files : Files) (pool after : Pool) (ds : List Datagram)
    (is_folder : Text → Bool) (zip : Text → Bytes)
    → is_folder path ≡ false
    → get_option_code request ≡ some code
    → (option_at code request >>= decode_option_block) ≡ ok (some fields)
    → send_file json clock lengths request code fields path files pool ≡ (after, ds, ok all_sent)
    → split_on_bytes_and_send json clock lengths is_folder zip request path files pool
      ≡ (files, finish_overall_transaction request (clock 0) after, ds, ok all_sent)
unfolding split_on_bytes_and_send
split_on_bytes_and_send-send_file json clock lengths request code fields path files pool after ds
      is_folder zip file coded decoded e =
    rw (coded, decoded, file, e, split_on_bytes_and_send) refl

-- A transfer of a file, not a folder, by blocks of `fields`, in either direction, where both sides are
-- ready: the sender sends all, and once its datagrams have arrived, in any order and any of them more
-- than once, up to the first after which none is missing, the receiver has the content that was sent,
-- under the file's base name, below the save path if one is set, and has sent nothing itself.
pub split_on_bytes_and_send-receive :
    (json : JsonCodec) (way : Direction) (clock : ℕ → ℕ) (lengths : ℕ → List ℕ) (request : Packet)
    (fields : Block) (path : Text) (content : Bytes) (files : Files) (pool : Pool)
    (is_folder : Text → Bool) (zip : Text → Bytes) (decompress : Text → Files → Files) (now : ℕ)
    (handle : Handler Assembler) (address : Option Address) (a : Assembler) (order : List ℕ)
    → LoadsDumps json
    → is_folder path ≡ false
    → get_option_code request ≡ some (block_code way)
    → (option_at (block_code way) request >>= decode_option_block) ≡ ok (some fields)
    → fields.block_size ≡ 2 ^ (fields.szx + 4)
    → IsTransfer way request
        (basename path)
        fields.szx
        (get_total_packets content fields.block_size)
    → IsReady decompress now request path content files pool lengths handle address a
    → CompletesAt (get_total_packets content fields.block_size) (λ i. false) order
    → (after : Pool) × (ds : List Datagram) × (a' : Assembler) × (split_on_bytes_and_send json clock
          lengths is_folder zip request path files pool
        ≡ (files, finish_overall_transaction request (clock 0) after, ds, ok all_sent))
      × (receive json handle address (in_order ds order) a ≡ (a', [], ok tt))
      × (content_of (get (saved_path a.save_path (basename path)) a'.files) ≡ content)
split_on_bytes_and_send-receive json way clock lengths request fields path sent_bytes files pool
      is_folder zip decompress now handle address a order law file coded decoded size d ready c =
    let (after, ds, a', e, r, got) =
      send_file-receive json way clock lengths request fields path sent_bytes files pool decompress
        now handle address a order law size d ready c in
    (
      after,
      ds,
      a',
      split_on_bytes_and_send-send_file json clock lengths request (block_code way) fields path
          files pool after ds is_folder zip file coded decoded e,
      r,
      got,
    )
