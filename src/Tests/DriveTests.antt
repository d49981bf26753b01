-- ===== src/Tests/DriveTests.antt =====
-- The theorems on the file service at concrete files.
use coap_share_drive.Base.{◌≡◌, ◌<◌, ◌≤◌, All, true, none, [], ◌∷◌, arith, length}
use coap_share_drive.Bytes.{Bytes}
use coap_share_drive.Packet.Format.{verify_format}
use coap_share_drive.Drive.Chunks.{
  split_on_packets, get_total_packets, joined, split_on_packets-joined,
}
use coap_share_drive.Drive.Chunks.Counting.{length-split_on_packets, split_on_packets-sizes}
use coap_share_drive.Drive.DriveTemplates.{download, value_with, value, value_with-IsWellFormed}

abbrev five_bytes : Bytes
five_bytes = 1 ∷ 2 ∷ 3 ∷ 4 ∷ 5 ∷ []

split_on_packets-joined_example : joined (split_on_packets five_bytes 2) ≡ five_bytes
split_on_packets-joined_example = split_on_packets-joined five_bytes 2 (omega arith)

length-split_on_packets_example :
    length (split_on_packets five_bytes 2) ≡ get_total_packets five_bytes 2
length-split_on_packets_example = length-split_on_packets five_bytes 2 (omega arith)

split_on_packets-sizes_example :
    All (λ b. (0 < length b) × (length b ≤ 2)) (split_on_packets five_bytes 2)
split_on_packets-sizes_example = split_on_packets-sizes five_bytes 2

value_with-IsWellFormed_example :
    (verify_format (value_with download (7 ∷ []) 70000 none) ≡ true)
    × ((value_with download (7 ∷ []) 70000 none).message_id < 65536)
    × (value_with download [] 0 none ≡ value download)
value_with-IsWellFormed_example = value_with-IsWellFormed download (7 ∷ []) 70000 none
