-- ===== src/Drive/Assembler/Transfer.antt =====
-- From the sender's file to the receiver's: the blocks of split_on_packets, put together by
-- handle_packets.
use coap_share_drive.Base.{
  ℕ, zero, suc, ◌<◌, ◌≡◌, refl, false, Option, List, [], ◌∷◌, ◌++◌, append_assoc, append-nil, ap,
  ◌∙◌, sym, length,
}
use coap_share_drive.Base.Outcome.{ok}
use coap_share_drive.Base.Dict.{get, has}
use coap_share_drive.Base.Eq.{nat_eq, list_eq}
use coap_share_drive.Bytes.{Bytes, Text}
use coap_share_drive.Packet.{Packet, GeneralWorkId}
use coap_share_drive.Packet.Keys.{general_work_id_eq}
use coap_share_drive.Packet.Block.{Block}
use coap_share_drive.Drive.Chunks.{split_on_packets, joined, split_on_packets-joined}
use coap_share_drive.Drive.Assembler.{Assembler, Files, content_of}
use coap_share_drive.Drive.Assembler.Handling.{contains, zip_ending, saved_path}
use coap_share_drive.Drive.Assembler.Storing.{upto}
use coap_share_drive.Drive.Assembler.Delivery.{deliver, Completes, IsFree}
use coap_share_drive.Drive.Assembler.Whole.{deliver-Finished}

-- The block with this number, nothing behind the last one.
abbrev pub nth : List Bytes → ℕ → Bytes
nth [] i = []
nth (b ∷ bs) zero = b
nth (b ∷ bs) (suc i) = nth bs i

upto-cons :
    (block : ℕ → Bytes) (n : ℕ) → upto block (suc n) ≡ block 0 ++ upto (λ i. block (suc i)) n
unfolding upto
upto-cons block zero = sym (append-nil (block 0))
upto-cons block (suc n) =
    ap (λ l. l ++ block (suc n)) (upto-cons block n)
    ∙ append_assoc (block 0) (upto (λ i. block (suc i)) n) (block (suc n))

upto-joined : (bs : List Bytes) → upto (nth bs) (length bs) ≡ joined bs
unfolding joined
upto-joined [] = unfold upto in refl
upto-joined (b ∷ bs) = upto-cons (nth (b ∷ bs)) (length bs) ∙ ap (λ l. b ++ l) (upto-joined bs)

-- A file cut into blocks of any size but 0 arrives as it is: for paths without ".zip" and a new work,
-- once packets with its blocks have been handled, in any order and any of them more than once, up to
-- the first after which none is missing, the file has its content: the one at the packets' path if no
-- save path is set, and else the one below the save path, where none may be before.
pub deliver-split_on_packets :
    (decompress : Text → Files → Files) (now : ℕ) (work : GeneralWorkId) (content : Bytes)
    (size : ℕ) (path : Text) (save : Option Text) (ps : List (Block × Packet)) (a : Assembler)
    → 0 < size
    → contains zip_ending path ≡ false
    → contains zip_ending (saved_path save path) ≡ false
    → has work a.in_assembly ≡ false
    → a.save_path ≡ save
    → IsFree save path a.files
    → Completes work
        (length (split_on_packets content size))
        (nth (split_on_packets content size))
        path
        save
        (λ i. false)
        ps
    → (a' : Assembler) × (deliver decompress now path ps a ≡ (a', ok tt))
      × (content_of (get (saved_path save path) a'.files) ≡ content)
deliver-split_on_packets decompress now work content size path save ps a pos plain plain_there h s
      free c =
    let blocks : List Bytes = split_on_packets content size in
    let (a', e, f) =
      deliver-Finished decompress now work (length blocks) (nth blocks) path save ps a plain
        plain_there h s free c in
    (a', e, f.whole ∙ upto-joined blocks ∙ split_on_packets-joined content size pos)
