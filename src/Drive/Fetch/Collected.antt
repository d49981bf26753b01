-- ===== src/Drive/Fetch/Collected.antt =====
-- The client collects the paths that arrive: handle_paths of drive_assembler.py behind its worker.
use coap_share_drive.Base.{
  ℕ, zero, suc, ◌+◌, ◌-◌, ◌<◌, ◌==◌, ◌≡◌, refl, false, Bool-cases, Option-cases, inl, inr, Option,
  none, some, List, [], ◌∷◌, ◌++◌, append_assoc, append-nil, arith, ap, ◌∙◌, length,
}
use coap_share_drive.Base.Eq.{nat_eq, list_eq}
use coap_share_drive.Base.Outcome.{ok, ◌>>=◌}
use coap_share_drive.Base.Dict.{get, has}
use coap_share_drive.Bytes.{Text}
use coap_share_drive.Packet.{Packet, Address, get_option_code, option_at, copy}
use coap_share_drive.Packet.Value.{Doc, doc}
use coap_share_drive.Packet.Block.{Block, decode_option_block, decode-encode_option_block}
use coap_share_drive.Packet.Decode.{JsonCodec, decode}
use coap_share_drive.Packet.RoundTrip.{arrived}
use coap_share_drive.Transaction.Pool.{finish_overall_transaction}
use coap_share_drive.Worker.Resources.{Handler}
use coap_share_drive.Templates.{addressed}
use coap_share_drive.Drive.DriveTemplates
use coap_share_drive.Drive.DriveTemplates.{value_with}
use coap_share_drive.Drive.Assembler.{Assembler}
use coap_share_drive.Drive.Assembler.Handling.{option_of}
use coap_share_drive.Drive.Assembler.Paths.{
  folder_word, file_word, collect_doc, collect, after_collect, flag_of, handle_paths,
}
use coap_share_drive.Drive.Splitter.Responses.{flag, flag-lt, block_of_index}
use coap_share_drive.Drive.Download.{nth_payload, in_order, receive}
use coap_share_drive.Drive.Download.Arrivals.{receive-step}
use coap_share_drive.Drive.Fetch.{folder_told, file_told, nth_doc, told}
use coap_share_drive.Drive.Fetch.Responses.{path_response_to, path_response_to-options}
use coap_share_drive.Drive.Fetch.Loop.{AllSendable, datagrams}

-- The lists after a document, or several: what they were, and what has been told.
pub record Collected (a a' : Assembler) (folders files : List Text) : Type 0 where
  pub folders_after : a'.folder_paths ≡ a.folder_paths ++ folders
  pub files_after : a'.file_paths ≡ a.file_paths ++ files

collect_doc-Collected :
    (d : Doc) (a : Assembler) → Collected a (collect_doc d a) (folder_told d) (file_told d)
collect_doc-Collected d a = elim (Option-cases (get folder_word d)) [
  | inr (path, e) ↦ record {
    folders_after = rw (e, collect_doc, folder_told) refl;
    files_after = rw (e, collect_doc, file_told, append-nil) refl;
  }
  | inl e ↦ elim (Option-cases (get file_word d)) [
    | inr (path, e') ↦ record {
      folders_after = rw (e, e', collect_doc, folder_told, append-nil) refl;
      files_after = rw (e, e', collect_doc, file_told) refl;
    }
    | inl e' ↦ record {
      folders_after = rw (e, e', collect_doc, folder_told, append-nil) refl;
      files_after = rw (e, e', collect_doc, file_told, append-nil) refl;
    }
  ]
]

Collected-later :
    {a b c : Assembler} {folders files more_folders more_files : List Text}
    → Collected a b folders files
    → Collected b c more_folders more_files
    → Collected a c (folders ++ more_folders) (files ++ more_files)
Collected-later {a} {folders = folders} {files} {more_folders} {more_files} k l = record {
  folders_after =
      l.folders_after ∙ rw k.folders_after (append_assoc a.folder_paths folders more_folders);
  files_after = l.files_after ∙ rw k.files_after (append_assoc a.file_paths files more_files);
}

read_flag :
    (p : Packet) (b : Block)
    → (option_of (get_option_code p) p >>= decode_option_block) ≡ ok (some b)
    → flag_of p ≡ ok b.m
unfolding flag_of
read_flag p b read = rw read refl

-- A document with a block option is collected, whether or not it is the last one.
handle_paths-Collected :
    (now : ℕ) (p : Packet) (d : Doc) (b : Block) (a : Assembler)
    → p.payload ≡ doc d
    → (option_of (get_option_code p) p >>= decode_option_block) ≡ ok (some b)
    → (a' : Assembler) × (handle_paths now p a ≡ (a', ok tt))
      × Collected a a' (folder_told d) (file_told d)
unfolding handle_paths collect
handle_paths-Collected now p d b a carries read =
    let k = collect_doc-Collected d a in
    let flagged : flag_of p ≡ ok b.m = read_flag p b read in
    let start : handle_paths now p a ≡ after_collect now p (collect_doc d a, ok tt) =
      ap (λ y. after_collect now p (collect y a)) carries in
    elim (Bool-cases (b.m == 0)) [
      | inl e ↦ (
        record (collect_doc d a) { pool = finish_overall_transaction p now (collect_doc d a).pool },
        start ∙ rw (flagged, after_collect) (rw e refl),
        record { folders_after = k.folders_after; files_after = k.files_after },
      )
      | inr e ↦ (collect_doc d a, start ∙ rw (flagged, after_collect) (rw e refl), k)
    ]

-- A handler that collects what has no LOCATION_PATH, and sends nothing then.
abbrev pub CollectsPaths : ℕ → Handler Assembler → Type 0
CollectsPaths now handle =
    (p : Packet) (a a' : Assembler)
    → p.code ≡ 69
    → p.needs_internal_computation ≡ false
    → get 8 p.options ≡ none
    → handle_paths now p a ≡ (a', ok tt)
    → handle p a ≡ (a', [], ok tt)

-- Numbers of documents.
abbrev pub Near : List Doc → List ℕ → Type 0
Near docs [] = Unit {0}
Near docs (i ∷ order) = (i < length docs) × Near docs order

module _ (json : JsonCodec) (request : Packet) (total : ℕ) (address : Option Address) where
  unfoldable pub packet : ℕ → Doc → Packet
  packet index d = arrived (path_response_to request total index d) address

  packet-option :
      (index : ℕ) (d : Doc)
      → (option_of (get_option_code (packet index d)) (packet index d) >>= decode_option_block)
        ≡ ok (some (block_of_index 6 total index))
  unfolding packet option_of get_option_code get has option_at decode_option_block
  packet-option index d = rw (path_response_to-options request total index d) (
      decode-encode_option_block (index - 1) (flag index total) 6 (flag-lt index total)
        (omega arith) (omega arith))

  packet-place : (index : ℕ) (d : Doc) → get 8 (packet index d).options ≡ none
  unfolding packet get
  packet-place index d = rw (path_response_to-options request total index d) refl

  packet-code : (index : ℕ) (d : Doc) → (packet index d).code ≡ 69
  packet-code index d =
      unfold packet path_response_to value_with DriveTemplates.coap_packet addressed copy in refl

  packet-carries : (index : ℕ) (d : Doc) → (packet index d).payload ≡ doc d
  packet-carries index d = unfold packet path_response_to in refl

  moved : (d : Doc) {k m : ℕ} → k ≡ m → ok (packet k d) ≡ ok (packet m d)
  moved d e = ap (λ k. ok (packet k d)) e

  decode-nth_payload :
      (i index : ℕ) (docs : List Doc) (s : AllSendable json request total index docs)
      → i < length docs
      → decode json (nth_payload (datagrams json request total index docs s) i) address
        ≡ ok (packet (index + i) (nth_doc docs i))
  unfolding packet
  decode-nth_payload i index [] s near = absurd (omega arith)
  decode-nth_payload zero index (d ∷ docs) (s, more) near =
      s.arrives address ∙ moved d (omega arith)
  decode-nth_payload (suc i) index (d ∷ docs) (s, more) near =
      decode-nth_payload i (suc index) docs more (omega (arith, near))
      ∙ moved (nth_doc docs i) (omega arith)

  -- The client that gets datagrams of the responses, in any order, any of them more than once or not at
  -- all, has the paths that their documents tell of at the end of its lists, in the order of arrival.
  pub receive-Collected :
      (now : ℕ) (handle : Handler Assembler) (docs : List Doc)
      (s : AllSendable json request total 1 docs) (order : List ℕ) (a : Assembler)
      → CollectsPaths now handle
      → Near docs order
      → (a' : Assembler) × (receive json handle address
            (in_order (datagrams json request total 1 docs s) order)
            a
          ≡ (a', [], ok tt))
        × Collected a a' (told folder_told docs order) (told file_told docs order)
  receive-Collected now handle docs s [] a collects near = (
    a,
    unfold receive in refl,
    record { folders_after = rw append-nil refl; files_after = rw append-nil refl },
  )
  receive-Collected now handle docs s (i ∷ order) a collects (near, rest) =
      let d : Doc = nth_doc docs i in
      let p : Packet = packet (suc i) d in
      let (a₁, e, k) =
        handle_paths-Collected now p d (block_of_index 6 total (suc i)) a (packet-carries (suc i) d)
          (packet-option (suc i) d) in
      let (a', r, l) = receive-Collected now handle docs s order a₁ collects rest in
      (
        a',
        receive-step json handle address (nth_payload (datagrams json request total 1 docs s) i)
              (in_order (datagrams json request total 1 docs s) order) a a₁ p
              (decode-nth_payload i 1 docs s near ∙ moved d (omega arith))
              (collects p a a₁ (packet-code (suc i) d) (unfold packet in refl)
                (packet-place (suc i) d) e)
            ∙ r,
        Collected-later k l,
      )
