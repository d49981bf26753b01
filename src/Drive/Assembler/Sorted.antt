-- ===== src/Drive/Assembler/Sorted.antt =====
-- drive_assembler.py, get_content, get_files_list and get_folders_list: the lists that the user chooses
-- from.
use mathlib.Core.List.Perm
use mathlib.Core.List.{Perm}
use coap_share_drive.Base.{ℕ, ◌≤◌, Bool-cases, inl, inr, leb, List, [], ◌∷◌, ◌++◌, arith, length}
use coap_share_drive.Bytes.{Text}
use coap_share_drive.Drive.Assembler.{Assembler}
use coap_share_drive.Drive.Assembler.Paths.{
  insert_by_length, sorted_by_length, get_files_list, get_folders_list, get_content,
}

-- No text is shorter than n.
abbrev pub NoneShorter : ℕ → List Text → Type 0
NoneShorter n [] = Unit {0}
NoneShorter n (t ∷ l) = (n ≤ length t) × NoneShorter n l

-- No text is followed by a shorter one.
abbrev pub IsByLength : List Text → Type 0
IsByLength [] = Unit {0}
IsByLength (t ∷ l) = NoneShorter (length t) l × IsByLength l

NoneShorter-le : (m n : ℕ) (l : List Text) → m ≤ n → NoneShorter n l → NoneShorter m l
NoneShorter-le m n [] h k = tt
NoneShorter-le m n (t ∷ l) h (k, ks) = (omega (arith, h, k), NoneShorter-le m n l h ks)

-- A list with the elements of another one, by length.
pub record Sorted (sorted l : List Text) : Type 0 where
  pub same : Perm sorted l
  pub by_length : IsByLength sorted

insert_by_length-NoneShorter :
    (n : ℕ) (t : Text) (l : List Text)
    → n ≤ length t
    → NoneShorter n l
    → NoneShorter n (insert_by_length t l)
unfolding insert_by_length
insert_by_length-NoneShorter n t [] h k = (h, tt)
insert_by_length-NoneShorter n t (u ∷ l) h (k, ks) = elim (Bool-cases (leb (length t) (length u))) [
  | inl e ↦ rw e (h, (k, ks))
  | inr e ↦ rw e (k, insert_by_length-NoneShorter n t l h ks)
]

insert_by_length-Sorted :
    (t : Text) (l : List Text) → IsByLength l → Sorted (insert_by_length t l) (t ∷ l)
unfolding insert_by_length
insert_by_length-Sorted t [] k = record { same = Perm.refl (t ∷ []); by_length = (tt, tt) }
insert_by_length-Sorted t (u ∷ l) (below, k) = elim (Bool-cases (leb (length t) (length u))) [
  | inl e ↦
      let shorter : length t ≤ length u = ground arith in
      rw e (record {
        same = Perm.refl (t ∷ u ∷ l);
        by_length = ((shorter, NoneShorter-le (length t) (length u) l shorter below), (below, k));
      })
  | inr e ↦
      let s : Sorted (insert_by_length t l) (t ∷ l) = insert_by_length-Sorted t l k in
      rw e (record {
        same = Perm.trans (Perm.cons u s.same) (Perm.swap t u l);
        by_length = (insert_by_length-NoneShorter (length u) t l (ground arith) below, s.by_length);
      })
]

sorted_by_length-Sorted : (l : List Text) → Sorted (sorted_by_length l) l
unfolding sorted_by_length
sorted_by_length-Sorted [] = record { same = Perm.nil; by_length = tt }
sorted_by_length-Sorted (t ∷ l) =
    let s : Sorted (sorted_by_length l) l = sorted_by_length-Sorted l in
    let i = insert_by_length-Sorted t (sorted_by_length l) s.by_length in
    record { same = Perm.trans i.same (Perm.cons t s.same); by_length = i.by_length }

-- Each of the three lists has the paths that were collected, each as often as it was collected, and
-- no path is followed by a shorter one.
pub get_content-Sorted :
    (a : Assembler)
    → Sorted (get_content a) (a.file_paths ++ a.folder_paths)
      × Sorted (get_files_list a) a.file_paths
      × Sorted (get_folders_list a) a.folder_paths
unfolding get_content get_files_list get_folders_list
get_content-Sorted a = (
  sorted_by_length-Sorted (a.file_paths ++ a.folder_paths),
  sorted_by_length-Sorted a.file_paths,
  sorted_by_length-Sorted a.folder_paths,
)
