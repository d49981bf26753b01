-- ===== src/Drive/Assembler/Complete.antt =====
-- One packet of a work that is under way: what it does to the assembler.
use native.Mathlib.Decide.{dec_le}
use mathlib.Core.Bool.{false≢true}
use coap_share_drive.Base.{
  ℕ, suc, ◌-◌, ◌<◌, ◌≡◌, refl, inl, inr, Bool, true, false, Bool-cases, ==_iff, ◌==◌, if◌then◌else◌,
  Option, ◌⊎◌, none, some, arith, ap, ◌∙◌, sym,
}
use coap_share_drive.Base.Eq.{nat_eq, list_eq, =?_refl}
use coap_share_drive.Base.Outcome.{Outcome, ok}
use coap_share_drive.Base.Dict.{get, put, get-put}
use coap_share_drive.Bytes.{Bytes, Text}
use coap_share_drive.Packet.{Packet, GeneralWorkId, general_work_id}
use coap_share_drive.Packet.Keys.{general_work_id_eq}
use coap_share_drive.Packet.Value.{bytes}
use coap_share_drive.Packet.Block.{Block}
use coap_share_drive.Drive.Assembler.{Operation, Assembler, Files, content_of, store_packet}
use coap_share_drive.Drive.Assembler.Handling.{
  register, note_total, full_path, saved_path, is_complete, stored, handle_block, handle_packets,
}
use coap_share_drive.Drive.Assembler.Storing.{InProgress, with_packet}
use coap_share_drive.Drive.Assembler.Arrival.{store_packet-InProgress}
use coap_share_drive.Drive.Assembler.Delivery.{IsBlockOf, LeadsThere, Running}

module _ (work : GeneralWorkId) (n : ℕ) (block : ℕ → Bytes) (path : Text) (save : Option Text)
    (b : Block) (p : Packet) (s : IsBlockOf work n block b p) (leads : LeadsThere save path p)
    (seen : ℕ → Bool) where
  note_total-InProgress :
      (op : Operation) (content : Bytes)
      → InProgress block seen op content
      → InProgress block seen (note_total b op) content
  note_total-InProgress op content r = elim (Bool-cases (b.m == 0)) [
    | inl e ↦
        rw e (record { before = r.before; missing = r.missing; kept = r.kept; in_file = r.in_file })
    | inr e ↦ rw e r
  ]

  -- The total is known once the last block has arrived.
  note_total-total :
      (op : Operation)
      → op.total_responses ≡ (if seen (n - 1) then some (n - 1) else none)
      → (note_total b op).total_responses
        ≡ (if with_packet b.num seen (n - 1) then some (n - 1) else none)
  note_total-total op t = elim (Bool-cases (b.num == n - 1)) [
    | inl e ↦
        let here : b.num ≡ n - 1 = ground arith in
        let final : (b.m == 0) ≡ true = s.more ∙ ground (arith, s.in_range) in
        rw (final, e) (ap some here)
    | inr e ↦
        let between : (b.m == 0) ≡ false = s.more ∙ ground (arith, s.in_range) in rw (between, e) t
  ]

  -- What handle_packets does with the packet, for the operation that is registered.
  handle_packets-block :
      (decompress : Text → Files → Files) (now : ℕ) (a a' : Assembler) (op : Operation)
      → register p path a ≡ a'
      → get work a'.in_assembly ≡ some op
      → handle_packets decompress now p path a ≡ handle_block decompress now p path b op a'
  unfolding handle_packets
  handle_packets-block decompress now a a' op r g =
      rw (s.option, s.size_there, r, s.of_work, g, handle_packets)
        (ap (handle_block decompress now p path b op) r)

  handle_block-stored :
      (decompress : Text → Files → Files) (now : ℕ) (a : Assembler) (op : Operation)
      (result : Operation × Files × Outcome Text)
      → a.save_path ≡ save
      → store_packet b.num
          (bytes (block b.num))
          path
          (ok (saved_path save path))
          (note_total b op)
          a.files
        ≡ result
      → handle_block decompress now p path b op a ≡ stored decompress now p a result
  unfolding handle_block
  handle_block-stored decompress now a op result saved w = ap (stored decompress now p a) (
      ap (λ q. store_packet b.num q path (full_path a.save_path p path) (note_total b op) a.files)
        s.carries
      ∙ ap (λ f. store_packet b.num (bytes (block b.num)) path f (note_total b op) a.files)
          (ap (λ o. full_path o p path) saved ∙ leads)
      ∙ w)

  -- The operation and the files after the packet, and that nothing is raised.
  pub record Step (a : Assembler) : Type 0 where
    pub after : Operation
    pub files : Files
    pub final : Text
    pub final_path : (final ≡ saved_path save path) ⊎ (final ≡ path)
    pub stores :
        (decompress : Text → Files → Files) (now : ℕ)
        → handle_packets decompress now p path a
          ≡ stored decompress now p (register p path a) (after, files, ok final)
    pub progress :
        InProgress block
          (with_packet b.num seen)
          after
          (content_of (get (saved_path save path) files))
    pub total :
        after.total_responses ≡ (if with_packet b.num seen (n - 1) then some (n - 1) else none)
    pub few : (i : ℕ) → with_packet b.num seen i ≡ true → i < n

  pub step : (a : Assembler) → Running work n block path save seen (register p path a) → Step a
  step a r =
      let (after, files, final, w, final_path, progress, t) =
        store_packet-InProgress block b.num seen (note_total b r.op) path (saved_path save path)
          (register p path a).files (note_total-InProgress r.op _ r.progress) in
      record {
        after = after;
        files = files;
        final = final;
        final_path = final_path;
        stores = λ decompress now.
            handle_packets-block decompress now a (register p path a) r.op refl r.registered
            ∙ handle_block-stored decompress now (register p path a) r.op (after, files, ok final)
                r.saved w;
        progress = progress;
        total = t ∙ note_total-total r.op r.total;
        few = λ i e. elim (Bool-cases (b.num == i)) [
          | inl x ↦ ground (arith, s.in_range)
          | inr x ↦ r.few i (rw x at e)
        ];
      }

  -- The assembler after the packet, before the test for the end.
  abbrev pub after_step : (a : Assembler) → Step a → Assembler
  after_step a t = record (register p path a) {
    in_assembly = put (general_work_id p) t.after (register p path a).in_assembly;
    files = t.files;
  }

  incomplete :
      (a : Assembler) (t : Step a) (j : ℕ)
      → j < n
      → with_packet b.num seen j ≡ false
      → is_complete t.after ≡ false
  incomplete a t j h m = elim (Bool-cases (with_packet b.num seen (n - 1))) [
    | inr unknown ↦ rw (t.total, unknown) refl
    | inl known ↦ elim (Bool-cases (t.after.write_index == suc (n - 1))) [
      | inr e ↦ rw (t.total, known) e
      | inl e ↦ absurd (false≢true (sym m ∙ t.progress.before j (ground arith)))
    ]
  ]

  pub at_end :
      (a : Assembler) (t : Step a)
      → ((i : ℕ) → i < n → with_packet b.num seen i ≡ true)
      → t.after.write_index ≡ n
  at_end a t all = elim (dec_le n t.after.write_index) [
    | no short ↦
        absurd (false≢true (sym t.progress.missing ∙ all t.after.write_index (omega arith)))
    | yes enough ↦ elim (dec_le t.after.write_index n) [
      | yes exact ↦ omega arith
      | no more ↦
          let far : n < n = t.few n (t.progress.before n (omega arith)) in absurd (omega arith)
    ]
  ]

  pub complete :
      (a : Assembler) (t : Step a)
      → ((i : ℕ) → i < n → with_packet b.num seen i ≡ true)
      → is_complete t.after ≡ true
  complete a t all =
      let last : with_packet b.num seen (n - 1) ≡ true = all (n - 1) (omega (arith, s.in_range)) in
      let w : t.after.write_index ≡ suc (n - 1) = omega (arith, at_end a t all, s.in_range) in
      rw (t.total, last) ((==_iff t.after.write_index (suc (n - 1))).1 w)

  -- While a block is missing the work stays under way.
  pub step-Running :
      (decompress : Text → Files → Files) (now : ℕ) (a : Assembler)
      → Running work n block path save seen (register p path a)
      → (j : ℕ) → j < n
      → with_packet b.num seen j ≡ false
      → (a' : Assembler) × (handle_packets decompress now p path a ≡ (a', ok tt))
        × Running work n block path save (with_packet b.num seen) a'
  step-Running decompress now a r j h m =
      let t : Step a = step a r in
      (
        after_step a t,
        t.stores decompress now ∙ rw (incomplete a t j h m) refl,
        record {
          op = t.after;
          registered = rw s.of_work (get-put work work t.after _ ∙ rw (=?_refl work) refl);
          progress = t.progress;
          total = t.total;
          few = t.few;
          saved = r.saved;
        },
      )
