-- ===== src/Tests/AssemblerTests.antt =====
-- A file of three blocks that arrives out of order, one of its packets twice.
use coap_share_drive.Base.{
  ℕ, ◌⊎◌, inl, ◌<◌, ◌≡◌, refl, true, false, none, some, List, [], ◌∷◌, arith, length,
}
use coap_share_drive.Base.Outcome.{ok}
use coap_share_drive.Base.Dict.{get, has}
use coap_share_drive.Base.Eq.{list_eq, nat_eq}
use coap_share_drive.Bytes.{Bytes, Text}
use coap_share_drive.Packet.{
  Packet, GeneralWorkId, general_work_id, get_option_code, get_size_code, get_block_id, option_at,
}
use coap_share_drive.Packet.Keys.{general_work_id_eq}
use coap_share_drive.Packet.Value.{str, int, bytes}
use coap_share_drive.Packet.Block.{Block, decode_option_block, block_of}
use coap_share_drive.Drive.Chunks.{split_on_packets, read_blocks}
use coap_share_drive.Transaction.Pool
use coap_share_drive.Drive.Assembler.{Operation, Assembler, Files, fresh, content_of, store_packet}
use coap_share_drive.Drive.Assembler.Handling.{handle_packets, option_of, check_size, full_path}
use coap_share_drive.Drive.Assembler.Storing.{InProgress, with_packet, upto}
use coap_share_drive.Drive.Assembler.Arrival.{store_packet-InProgress}
use coap_share_drive.Drive.Assembler.Delivery.{IsBlockOf, Completes, Finished, deliver}
use coap_share_drive.Drive.Assembler.Whole.{deliver-Finished, handle_packets-Finished}
use coap_share_drive.Drive.Assembler.Transfer.{nth, deliver-split_on_packets}

abbrev content : Bytes
content = 1 ∷ 2 ∷ 3 ∷ 4 ∷ 5 ∷ []

abbrev block : ℕ → Bytes
block = nth ((1 ∷ 2 ∷ []) ∷ (3 ∷ 4 ∷ []) ∷ (5 ∷ []) ∷ [])

-- "a.txt"
abbrev path : Text
path = 97 ∷ 46 ∷ 116 ∷ 120 ∷ 116 ∷ []

abbrev work : GeneralWorkId
work = (some (49 ∷ [], 5683), 7 ∷ [])

-- A response with this message id, block option and payload.
abbrev packet_of : ℕ → ℕ → Bytes → Packet
packet_of num option payload = record {
  version = 1;
  message_type = 0;
  token = 7 ∷ [];
  code = 69;
  message_id = num;
  options = (8, str path) ∷ (23, int option) ∷ (28, int 3) ∷ [];
  payload = bytes payload;
  sender_ip_port = some (49 ∷ [], 5683);
  needs_internal_computation = false;
  encoded = [];
}

abbrev block_number : ℕ → ℕ → Block
block_number num m = record { num = num; m = m; szx = 0; block_size = 16 }

first-IsBlockOf : IsBlockOf work 3 block (block_number 0 1) (packet_of 1 8 (1 ∷ 2 ∷ []))
unfolding general_work_id option_of get_option_code option_at check_size get_block_id get_size_code
    block_of decode_option_block get has
first-IsBlockOf = record {
  of_work = refl;
  option = refl;
  size = some (int 3);
  size_there = refl;
  in_range = omega arith;
  more = refl;
  carries = refl;
}

second-IsBlockOf : IsBlockOf work 3 block (block_number 1 1) (packet_of 2 24 (3 ∷ 4 ∷ []))
unfolding general_work_id option_of get_option_code option_at check_size get_block_id get_size_code
    block_of decode_option_block get has
second-IsBlockOf = record {
  of_work = refl;
  option = refl;
  size = none;
  size_there = refl;
  in_range = omega arith;
  more = refl;
  carries = refl;
}

third-IsBlockOf : IsBlockOf work 3 block (block_number 2 0) (packet_of 3 32 (5 ∷ []))
unfolding general_work_id option_of get_option_code option_at check_size get_block_id get_size_code
    block_of decode_option_block get has
third-IsBlockOf = record {
  of_work = refl;
  option = refl;
  size = none;
  size_there = refl;
  in_range = omega arith;
  more = refl;
  carries = refl;
}

abbrev packets : List (Block × Packet)
packets =
    (block_number 2 0, packet_of 3 32 (5 ∷ []))
    ∷ (block_number 0 1, packet_of 1 8 (1 ∷ 2 ∷ []))
    ∷ (block_number 2 0, packet_of 3 32 (5 ∷ []))
    ∷ (block_number 1 1, packet_of 2 24 (3 ∷ 4 ∷ []))
    ∷ []

all_three :
    (i : ℕ)
    → i < 3
    → with_packet 1 (with_packet 2 (with_packet 0 (with_packet 2 (λ j. false)))) i ≡ true
all_three i h = ground arith

packets-Completes : Completes work 3 block path none (λ i. false) packets
unfolding full_path
packets-Completes = (
  third-IsBlockOf,
  refl,
  (0, omega arith, refl),
  (
    first-IsBlockOf,
    refl,
    (1, omega arith, refl),
    (third-IsBlockOf, refl, (1, omega arith, refl), (second-IsBlockOf, refl, all_three)),
  ),
)

-- A file with an old content is at the path.
abbrev idle : Assembler
idle = record {
  in_assembly = [];
  assembled = [];
  save_path = none;
  files = (path, 9 ∷ []) ∷ [];
  pool = Pool.empty;
  folder_paths = [];
  file_paths = [];
}

abbrev same_files : Text → Files → Files
same_files p f = f

deliver-Finished_example :
    (a' : Assembler) × (deliver same_files 5 path packets idle ≡ (a', ok tt))
    × Finished work 3 block path none a'
deliver-Finished_example =
    deliver-Finished same_files 5 work 3 block path none packets idle refl refl (unfold has in refl)
      refl (inl refl) packets-Completes

content-blocks : split_on_packets content 2 ≡ (1 ∷ 2 ∷ []) ∷ (3 ∷ 4 ∷ []) ∷ (5 ∷ []) ∷ []
unfolding split_on_packets read_blocks
content-blocks = refl

content-Completes :
    Completes work
      (length (split_on_packets content 2))
      (nth (split_on_packets content 2))
      path
      none
      (λ i. false)
      packets
content-Completes = rw content-blocks packets-Completes

deliver-split_on_packets_example :
    (a' : Assembler) × (deliver same_files 5 path packets idle ≡ (a', ok tt))
    × (content_of (get path a'.files) ≡ content)
deliver-split_on_packets_example =
    deliver-split_on_packets same_files 5 work content 2 path none packets idle (omega arith) refl
      refl (unfold has in refl) refl (inl refl) content-Completes

nothing-InProgress : InProgress block (λ i. false) fresh (content_of (get path []))
unfolding get upto
nothing-InProgress = record {
  before = λ i h. absurd (omega arith);
  missing = refl;
  kept = λ i h. refl;
  in_file = refl;
}

store_packet-InProgress_example :
    (after : Operation) × (files' : Files) × (final : Text) × (store_packet 2
        (bytes (block 2))
        path
        (ok path)
        fresh
        []
      ≡ (after, files', ok final))
    × ((final ≡ path) ⊎ (final ≡ path))
    × InProgress block (with_packet 2 (λ i. false)) after (content_of (get path files'))
    × (after.total_responses ≡ none)
store_packet-InProgress_example =
    store_packet-InProgress block 2 (λ i. false) fresh path path [] nothing-InProgress

-- The same assembler once the file is there.
abbrev done : Assembler
done = record {
  in_assembly = [];
  assembled = work ∷ [];
  save_path = none;
  files = (path, content) ∷ [];
  pool = record Pool.empty { overall_finished = (work, 5) ∷ [] };
  folder_paths = [];
  file_paths = [];
}

done-Finished : Finished work 3 block path none done
unfolding has get upto
done-Finished = record {
  whole = refl;
  gone = refl;
  told = refl;
  earlier = [];
  listed = refl;
  save_path_reset = refl;
}

handle_packets-Finished_example :
    (a' : Assembler) × (handle_packets same_files 6 (packet_of 3 32 (5 ∷ [])) path done
      ≡ (a', ok tt))
    × (has work a'.in_assembly ≡ true)
    × (content_of (get path a'.files) ≡ [])
handle_packets-Finished_example =
    handle_packets-Finished same_files 6 work 3 block path (block_number 2 0)
      (packet_of 3 32 (5 ∷ [])) done done-Finished third-IsBlockOf (omega arith)
