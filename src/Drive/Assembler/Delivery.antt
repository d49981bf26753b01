-- ===== src/Drive/Assembler/Delivery.antt =====
-- A whole file, from its first packet to its last.
use mathlib.Core.Bool.{false≢true}
use coap_share_drive.Base.{
  ◌⊎◌, inl, inr, Bool-cases, sym, ℕ, suc, ◌-◌, ◌<◌, ◌≡◌, refl, Bool, true, false, ◌==◌,
  if◌then◌else◌, Option, none, some, List, [], ◌∷◌, ◌++◌, arith, ◌∙◌,
}
use coap_share_drive.Base.Eq.{nat_eq, list_eq, =?_refl, ◌=?◌}
use coap_share_drive.Base.Outcome.{Outcome, ok, err, ◌>>=◌}
use coap_share_drive.Base.Dict.{get, has, get-put, has-get, get-del_if_has, del}
use coap_share_drive.Bytes.{Bytes, Text}
use coap_share_drive.Packet.{Packet, GeneralWorkId, general_work_id, get_option_code, option_at}
use coap_share_drive.Packet.Keys.{general_work_id_eq}
use coap_share_drive.Packet.Value.{OptionValue, bytes, str}
use coap_share_drive.Packet.Block.{Block, decode_option_block}
use coap_share_drive.Drive.Assembler.{Operation, Assembler, Files, content_of, fresh}
use coap_share_drive.Drive.Assembler.Handling.{
  option_of, register, check_size, handle_packets, full_path, saved_path,
}
use coap_share_drive.Drive.Assembler.Storing.{InProgress, with_packet, upto}

-- The handling of packets one after the other, up to the first exception.
abbrev pub go_on :
    Assembler × Outcome (Unit {0})
    → (Assembler → Assembler × Outcome (Unit {0}))
    → Assembler × Outcome (Unit {0})
go_on (a, ok _) later = later a
go_on (a, err e) later = (a, err e)

not-has-content_of :
    (path : Text) (files : Files) → has path files ≡ false → content_of (get path files) ≡ []
not-has-content_of path files h =
    elim (get path files) as (λ o. get path files ≡ o → content_of o ≡ []) [
      | none ↦ λ e. refl
      | some b ↦ λ e. absurd (false≢true (sym h ∙ has-get path files ∙ rw e refl))
    ]
      refl

-- The files that unpacking makes, and the time.
module _ (decompress : Text → Files → Files) (now : ℕ) where
  unfoldable pub deliver : Text → List (Block × Packet) → Assembler → Assembler × Outcome (Unit {0})
  deliver path [] a = (a, ok tt)
  deliver path ((b, p) ∷ ps) a =
      go_on (handle_packets decompress now p path a) (λ a'. deliver path ps a')

-- A packet of the work `work` with the block `b` of a file of `n` blocks: its block option reads as
-- `b`, with the number of a block, the flag that says whether a later one follows, and that block as
-- the payload; the first packet tells the total.
pub record IsBlockOf (work : GeneralWorkId) (n : ℕ) (block : ℕ → Bytes) (b : Block) (p : Packet)
    : Type 0 where
  pub of_work : general_work_id p ≡ work
  pub option : (option_of (get_option_code p) p >>= decode_option_block) ≡ ok (some b)
  pub size : Option OptionValue
  pub size_there : check_size p ≡ ok size
  pub in_range : b.num < n
  pub more : (b.m == 0) ≡ (suc b.num == n)
  pub carries : p.payload ≡ bytes (block b.num)

-- The packet's LOCATION_PATH leads to the file.
abbrev pub LeadsThere : Option Text → Text → Packet → Type 0
LeadsThere save path p = full_path save p path ≡ ok (saved_path save path)

-- No old file is in the way: one in the resource's directory is deleted, and none is at a save path.
abbrev pub IsFree : Option Text → Text → Files → Type 0
IsFree save path files = (saved_path save path ≡ path) ⊎ (has (saved_path save path) files ≡ false)

-- It does where the packet's LOCATION_PATH is the path.
pub full_path-LeadsThere :
    (save : Option Text) (path : Text) (p : Packet)
    → get 8 p.options ≡ some (str path)
    → LeadsThere save path p
unfolding full_path option_at
full_path-LeadsThere none path p h = refl
full_path-LeadsThere (some []) path p h = refl
full_path-LeadsThere (some (c ∷ cs)) path p h = rw h refl

-- The packets' path, and the save path; the file is written where the two lead.
module _ (work : GeneralWorkId) (n : ℕ) (block : ℕ → Bytes) (path : Text) (save : Option Text) where
  -- The work is under way, with the packets in `seen`.
  pub record Running (seen : ℕ → Bool) (a : Assembler) : Type 0 where
    pub op : Operation
    pub registered : get work a.in_assembly ≡ some op
    pub progress : InProgress block seen op (content_of (get (saved_path save path) a.files))
    pub total : op.total_responses ≡ (if seen (n - 1) then some (n - 1) else none)
    pub few : (i : ℕ) → seen i ≡ true → i < n
    pub saved : a.save_path ≡ save

  -- The file is whole, the work is out of the assembly, and it is finished in the pool.
  pub record Finished (a : Assembler) : Type 0 where
    pub whole : content_of (get (saved_path save path) a.files) ≡ upto block n
    pub gone : has work a.in_assembly ≡ false
    pub told : has work a.pool.overall_finished ≡ true
    pub earlier : List GeneralWorkId
    pub listed : a.assembled ≡ earlier ++ work ∷ []
    pub save_path_reset : a.save_path ≡ none

  -- The last packet is the first one after which no block is missing.
  abbrev pub Completes : (ℕ → Bool) → List (Block × Packet) → Type 0
  Completes seen [] = ⊥
  Completes seen ((b, p) ∷ []) =
      IsBlockOf work n block b p
      × LeadsThere save path p
      × ((i : ℕ) → i < n → with_packet b.num seen i ≡ true)
  Completes seen ((b, p) ∷ d ∷ ds) =
      IsBlockOf work n block b p
      × LeadsThere save path p
      × ((i : ℕ) × (i < n) × (with_packet b.num seen i ≡ false))
      × Completes (with_packet b.num seen) (d ∷ ds)

  deleted :
      (p : Packet) (a : Assembler)
      → IsFree save path a.files
      → content_of
          (get (saved_path save path) (if has path a.files then del path a.files else a.files))
        ≡ []
  deleted p a (inl same) =
      rw (get-del_if_has path (saved_path save path) a.files, same, =?_refl path) refl
  deleted p a (inr none_there) = elim (Bool-cases (path =? saved_path save path)) [
    | inl e ↦ rw (get-del_if_has path (saved_path save path) a.files, e) refl
    | inr e ↦
        rw (get-del_if_has path (saved_path save path) a.files, e)
          (not-has-content_of (saved_path save path) a.files none_there)
  ]

  -- The first packet registers the work and deletes an old file.
  pub register-Running :
      (p : Packet) (a : Assembler)
      → general_work_id p ≡ work
      → has work a.in_assembly ≡ false
      → a.save_path ≡ save
      → IsFree save path a.files
      → Running (λ i. false) (register p path a)
  unfolding register
  register-Running p a w h s free =
      rw (w, h)
        (record {
          op = fresh;
          registered = get-put work work fresh a.in_assembly ∙ rw (=?_refl work) refl;
          progress = record {
            before = λ i h. absurd (omega arith);
            missing = refl;
            kept = λ i h. unfold get in refl;
            in_file = unfold upto in deleted p a free;
          };
          total = refl;
          few = λ i e. absurd (ground arith);
          saved = s;
        })

  -- Later packets of the work find it registered.
  pub register-again :
      (p : Packet) (a : Assembler) (seen : ℕ → Bool)
      → general_work_id p ≡ work
      → Running seen a
      → register p path a ≡ a
  unfolding register
  register-again p a seen w r = rw (w, has-get work a.in_assembly, r.registered) refl
