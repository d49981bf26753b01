-- ===== src/Drive/DriveUtilities.antt =====
-- share_drive/share_drive_helpers/drive_utils.py: the functions on files and folders. The disk is the
-- dict of the files' contents; what zipfile makes of them is an argument.
use coap_share_drive.Base.{
  ℕ, ◌≡◌, refl, Bool, inl, inr, if◌then◌else◌, none, some, List, [], ◌∷◌, ◌++◌, map, ap, ◌∙◌, arith,
  Option-cases,
}
use coap_share_drive.Base.Eq.{list_eq, nat_eq, =?_refl}
use coap_share_drive.Base.Dict.{get, has, put, del, get-put}
use coap_share_drive.Bytes.{Bytes, Text}
use coap_share_drive.Drive.Assembler.{Files, content_of}
use coap_share_drive.Drive.Assembler.Handling.{zip_ending}
use coap_share_drive.Drive.Splitter.Paths.{
  Folder, join, strip_prefix, after_separator, before_separator,
}

-- Where a path is no folder, that it exists and is a file is one question to the dict.
abbrev pub file_exists : Text → Files → Bool
file_exists path files = has path files

-- OSError becomes a line in the log.
unfoldable pub delete_file : Text → Files → Files
delete_file path files = if has path files then del path files else files

-- f"{input_folder}.zip"
abbrev pub output_zip : Text → Text
output_zip input_folder = input_folder ++ zip_ending

-- zip_file_path.split(".zip")[0]
unfoldable pub output_folder : Text → Text
unfolding before_separator
output_folder zip_file_path = before_separator zip_ending zip_file_path

-- The files of a folder, each with its name in the archive.
unfoldable pub archived : (Text → Text) → List Folder → Files → List (Text × Bytes)
archived relpath [] files = []
archived relpath ((folder, folders, filenames) ∷ walk) files =
    map (λ name. (relpath (join folder name), content_of (get (join folder name) files))) filenames
    ++ archived relpath walk files

-- `archive` makes the bytes of a ZIP file with these members, `walk` is what os.walk yields for the
-- folder, and `relpath` is os.path.relpath to it.
unfoldable pub compress_folder :
    (List (Text × Bytes) → Bytes) → (Text → Text) → List Folder → Text → Files → Text × Files
unfolding archived
compress_folder archive relpath walk input_folder files = (
  output_zip input_folder,
  put (output_zip input_folder) (archive (archived relpath walk files)) files,
)

-- `extract` writes the members of an archive below a folder.
unfoldable pub decompress_folder : (Bytes → Text → Files → Files) → Text → Files → Files
unfolding output_folder
decompress_folder extract zip_file_path files =
    extract (content_of (get zip_file_path files)) (output_folder zip_file_path) files

-- Where a text is followed by ".zip", a ".zip" that begins in the text is in the text.
strip_prefix-zip :
    (c : ℕ) (cs : Text)
    → strip_prefix zip_ending (c ∷ cs) ≡ none
    → strip_prefix zip_ending (c ∷ cs ++ zip_ending) ≡ none
unfolding strip_prefix
strip_prefix-zip c [] h = ground arith
strip_prefix-zip c (d ∷ []) h = ground arith
strip_prefix-zip c (d ∷ e ∷ []) h = ground arith
strip_prefix-zip c (d ∷ e ∷ f ∷ cs) h = ground arith

before_separator-step :
    (sep : Text) (c : ℕ) (cs : Text)
    → strip_prefix sep (c ∷ cs) ≡ none
    → before_separator sep (c ∷ cs) ≡ c ∷ before_separator sep cs
unfolding before_separator
before_separator-step sep c cs h = rw (h, before_separator) refl

after_separator-none :
    (sep : Text) (c : ℕ) (cs : Text)
    → after_separator sep (c ∷ cs) ≡ none
    → (strip_prefix sep (c ∷ cs) ≡ none) × (after_separator sep cs ≡ none)
unfolding after_separator
after_separator-none sep c cs h = elim (Option-cases (strip_prefix sep (c ∷ cs))) [
  | inl e ↦ (e, rw (e, after_separator) at h)
  | inr (t, e) ↦ absurd (cc (rw (e, after_separator) at h))
]

-- From the name of the archive decompress_folder gets the name of the folder back.
output_folder-output_zip :
    (folder : Text)
    → after_separator zip_ending folder ≡ none
    → output_folder (output_zip folder) ≡ folder
unfolding output_folder
output_folder-output_zip [] h = unfold before_separator strip_prefix in refl
output_folder-output_zip (c ∷ cs) h =
    let (here, later) = after_separator-none zip_ending c cs h in
    before_separator-step zip_ending c (cs ++ zip_ending) (strip_prefix-zip c cs here)
    ∙ ap (λ t. c ∷ t) (output_folder-output_zip cs later)

-- A folder without ".zip" in its path is unpacked where it was packed: decompress_folder on what
-- compress_folder returns extracts the archive of the folder's files into that folder.
pub decompress_folder-compress_folder :
    (archive : List (Text × Bytes) → Bytes) (extract : Bytes → Text → Files → Files)
    (relpath : Text → Text) (walk : List Folder) (folder : Text) (files : Files)
    → after_separator zip_ending folder ≡ none
    → decompress_folder extract
        (compress_folder archive relpath walk folder files).0
        (compress_folder archive relpath walk folder files).1
      ≡ extract
          (archive (archived relpath walk files))
          folder
          (compress_folder archive relpath walk folder files).1
unfolding compress_folder decompress_folder
decompress_folder-compress_folder archive extract relpath walk folder files plain =
    let zip : Text = output_zip folder in
    let packed : Bytes = archive (archived relpath walk files) in
    let there : get zip (put zip packed files) ≡ some packed =
      get-put zip zip packed files ∙ rw (=?_refl zip) refl in
    rw (there, output_folder-output_zip folder plain) refl
