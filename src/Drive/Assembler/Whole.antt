-- ===== src/Drive/Assembler/Whole.antt =====
-- The file is whole once its last packet has been handled, whatever the order of the packets.
use mathlib.Core.Bool.{false≢true}
use coap_share_drive.Base.{
  ℕ, zero, suc, ◌<◌, ◌≡◌, refl, inl, inr, Bool, true, false, Bool-cases, ◌==◌, none, List, [], ◌∷◌,
  Option, ◌⊎◌, arith, ap, ◌∙◌,
}
use coap_share_drive.Base.Eq.{nat_eq, list_eq, =?_refl}
use coap_share_drive.Base.Outcome.{ok}
use coap_share_drive.Base.Dict.{get, has, has-put, has-get, has-del}
use coap_share_drive.Bytes.{Bytes, Text}
use coap_share_drive.Packet.{Packet, GeneralWorkId, general_work_id}
use coap_share_drive.Packet.Keys.{general_work_id_eq}
use coap_share_drive.Packet.Block.{Block}
use coap_share_drive.Transaction.Pool.{finish_overall_transaction}
use coap_share_drive.Drive.Assembler.{Assembler, Files, content_of}
use coap_share_drive.Drive.Assembler.Handling.{
  register, contains, zip_ending, finish, handle_packets, full_path, saved_path,
}
use coap_share_drive.Drive.Assembler.Storing.{with_packet, upto}
use coap_share_drive.Drive.Assembler.Delivery.{
  deliver, IsBlockOf, LeadsThere, IsFree, Running, Finished, Completes, register-Running,
  register-again,
}
use coap_share_drive.Drive.Assembler.Complete.{
  Step, step, complete, at_end, after_step, step-Running,
}
use coap_share_drive.Packet.{Packet}
use coap_share_drive.Transaction.Pool.{Pool}

finished_overall :
    (p : Packet) (now : ℕ) (pool : Pool)
    → has (general_work_id p) (finish_overall_transaction p now pool).overall_finished ≡ true
unfolding finish_overall_transaction
finished_overall p now pool = elim (Bool-cases (has (general_work_id p) pool.overall_finished)) [
  | inl e ↦ rw (e, e) refl
  | inr e ↦ rw e (
      has-put (general_work_id p) (general_work_id p) now pool.overall_finished
      ∙ rw (=?_refl (general_work_id p)) refl)
]

module _ (work : GeneralWorkId) (n : ℕ) (block : ℕ → Bytes) (path : Text) (save : Option Text)
    (plain : contains zip_ending path ≡ false)
    (plain_there : contains zip_ending (saved_path save path) ≡ false)
    (decompress : Text → Files → Files) (now : ℕ) where
  plain_final :
      (final : Text)
      → (final ≡ saved_path save path) ⊎ (final ≡ path)
      → contains zip_ending final ≡ false
  plain_final final (inl e) = rw e plain_there
  plain_final final (inr e) = rw e plain

  finish-Finished :
      (p : Packet) (a : Assembler) (final : Text)
      → general_work_id p ≡ work
      → (final ≡ saved_path save path) ⊎ (final ≡ path)
      → content_of (get (saved_path save path) a.files) ≡ upto block n
      → Finished work n block path save (finish decompress now p final a)
  unfolding finish
  finish-Finished p a final w path_of c = record {
    whole = rw (plain_final final path_of) c;
    gone = rw w (has-del work work a.in_assembly ∙ rw (=?_refl work) refl);
    told = rw⁻¹ w (finished_overall p now a.pool);
    earlier = a.assembled;
    listed = rw w refl;
    save_path_reset = refl;
  }

  -- The packet after which none is missing finishes the work.
  step-Finished :
      (b : Block) (p : Packet) (s : IsBlockOf work n block b p) (leads : LeadsThere save path p)
      (seen : ℕ → Bool) (a : Assembler)
      → Running work n block path save seen (register p path a)
      → ((i : ℕ) → i < n → with_packet b.num seen i ≡ true)
      → (a' : Assembler) × (handle_packets decompress now p path a ≡ (a', ok tt))
        × Finished work n block path save a'
  step-Finished b p s leads seen a r all =
      let t : Step work n block path save b p s leads seen a =
        step work n block path save b p s leads seen a r in
      let a' : Assembler = after_step work n block path save b p s leads seen a t in
      (
        finish decompress now p t.final a',
        t.stores decompress now
            ∙ rw (complete work n block path save b p s leads seen a t all) refl,
        finish-Finished p a' t.final s.of_work t.final_path (
            t.progress.in_file
            ∙ ap (upto block) (at_end work n block path save b p s leads seen a t all)),
      )

  deliver-Running :
      (ps : List (Block × Packet)) (seen : ℕ → Bool) (a : Assembler)
      → Completes work n block path save seen ps
      → ((p : Packet)
          → general_work_id p ≡ work
          → Running work n block path save seen (register p path a))
      → (a' : Assembler) × (deliver decompress now path ps a ≡ (a', ok tt))
        × Finished work n block path save a'
  unfolding deliver
  deliver-Running [] seen a c r = absurd c
  deliver-Running ((b, p) ∷ []) seen a (s, leads, all) r =
      let (a', e, f) = step-Finished b p s leads seen a (r p s.of_work) all in (a', rw e refl, f)
  deliver-Running ((b, p) ∷ d ∷ ds) seen a (s, leads, (j, h, m), c) r =
      let (a₁, e, r₁) =
        step-Running work n block path save b p s leads seen decompress now a (r p s.of_work) j h
          m in
      let again : (q : Packet)
          → general_work_id q ≡ work
          → Running work n block path save (with_packet b.num seen) (register q path a₁) =
        λ q w. rw (register-again work n block path save q a₁ (with_packet b.num seen) w r₁) r₁ in
      let (a₂, e₂, f) = deliver-Running (d ∷ ds) (with_packet b.num seen) a₁ c again in
      (a₂, rw e e₂, f)

-- For paths without ".zip" and a work that is not in the assembly: the packets of a file's blocks, in
-- any order and any of them more than once, up to the first after which none is missing, are handled
-- without an exception, and then the file is the blocks in order, and the work is out of the assembly
-- and finished in the pool. Without a save path the file is the one at the packets' path, whatever it
-- held before; with one it is below the save path, where no file may be before.
pub deliver-Finished :
    (decompress : Text → Files → Files) (now : ℕ) (work : GeneralWorkId) (n : ℕ) (block : ℕ → Bytes)
    (path : Text) (save : Option Text) (ps : List (Block × Packet)) (a : Assembler)
    → contains zip_ending path ≡ false
    → contains zip_ending (saved_path save path) ≡ false
    → has work a.in_assembly ≡ false
    → a.save_path ≡ save
    → IsFree save path a.files
    → Completes work n block path save (λ i. false) ps
    → (a' : Assembler) × (deliver decompress now path ps a ≡ (a', ok tt))
      × Finished work n block path save a'
deliver-Finished decompress now work n block path save ps a plain plain_there h s free c =
    deliver-Running work n block path save plain plain_there decompress now ps (λ i. false) a c
      (λ p w. register-Running work n block path save p a w h s free)

-- Where no save path was set: a packet of a block other than the first that comes once more after its
-- file is whole is handled without an exception, registers the work again and leaves no byte of the
-- file.
pub handle_packets-Finished :
    (decompress : Text → Files → Files) (now : ℕ) (work : GeneralWorkId) (n : ℕ) (block : ℕ → Bytes)
    (path : Text) (b : Block) (p : Packet) (a : Assembler)
    → Finished work n block path none a
    → IsBlockOf work n block b p
    → 0 < b.num
    → (a' : Assembler) × (handle_packets decompress now p path a ≡ (a', ok tt))
      × (has work a'.in_assembly ≡ true)
      × (content_of (get path a'.files) ≡ [])
handle_packets-Finished decompress now work n block path b p a f s later =
    let other : (b.num == 0) ≡ false = ground arith in
    let (a', e, r) =
      step-Running work n block path none b p s (unfold full_path in refl) (λ i. false) decompress
        now a
        (register-Running work n block path none p a s.of_work f.gone f.save_path_reset (inl refl))
        0 (omega (arith, s.in_range)) (rw other refl) in
    (
      a',
      e,
      has-get work a'.in_assembly ∙ rw r.registered refl,
      r.progress.in_file
          ∙ nothing_yet r.op.write_index (λ h. false≢true (rw other at (r.progress.before 0 h))),
    )
  where
    nothing_yet : (w : ℕ) → ¬ (0 < w) → upto block w ≡ []
    nothing_yet zero h = unfold upto in refl
    nothing_yet (suc w) h = absurd (h (omega arith))
