-- ===== src/Tests/PathTests.antt =====
-- The lists of paths, idle workers and the names of archives at concrete inputs.
use coap_share_drive.Base.{◌<◌, ◌≡◌, refl, none, List, [], ◌∷◌, ◌++◌, map, arith, length, drop}
use coap_share_drive.Worker.{Worker, idle_worker, stop}
use coap_share_drive.Worker.Pool.{stop_idle}
use coap_share_drive.Worker.Pool.Idle.{Split, AllIdle, stop_idle-leaves_one}
use coap_share_drive.Transaction.Pool
use coap_share_drive.Bytes.{Bytes, Text}
use coap_share_drive.Drive.Assembler.{Assembler, Files}
use coap_share_drive.Drive.Splitter.Paths.{Folder, after_separator, strip_prefix}
use coap_share_drive.Drive.DriveUtilities.{
  compress_folder, decompress_folder, archived, decompress_folder-compress_folder,
}
use coap_share_drive.Drive.Assembler.Paths.{get_content, get_files_list, get_folders_list}
use coap_share_drive.Drive.Assembler.Sorted.{Sorted, get_content-Sorted}

-- Files "abc" and "d", and the folder "ab"
abbrev three_paths : Assembler
three_paths = record {
  in_assembly = [];
  assembled = [];
  save_path = none;
  files = [];
  pool = Pool.empty;
  folder_paths = (97 ∷ 98 ∷ []) ∷ [];
  file_paths = (97 ∷ 98 ∷ 99 ∷ []) ∷ (100 ∷ []) ∷ [];
}

get_content-Sorted_example :
    Sorted (get_content three_paths) (three_paths.file_paths ++ three_paths.folder_paths)
    × Sorted (get_files_list three_paths) three_paths.file_paths
    × Sorted (get_folders_list three_paths) three_paths.folder_paths
get_content-Sorted_example = get_content-Sorted three_paths

-- At 100 the first two have been idle for too long.
abbrev workers : List Worker
workers = idle_worker 1 ∷ idle_worker 2 ∷ idle_worker 90 ∷ []

stop_idle-leaves_one_example :
    (taken : List Worker) × Split (stop_idle 100 [] workers).0 taken workers
    × ((stop_idle 100 [] workers).1 ≡ map stop taken)
    × AllIdle 100 taken
    × (0 < length (stop_idle 100 [] workers).0)
stop_idle-leaves_one_example = stop_idle-leaves_one 100 workers (omega arith)

-- "d" with the file "d/f"
abbrev folder_files : Files
folder_files = (100 ∷ 47 ∷ 102 ∷ [], 5 ∷ 6 ∷ []) ∷ []

abbrev folder_walk : List Folder
folder_walk = (100 ∷ [], [], (102 ∷ []) ∷ []) ∷ []

-- Without the first two characters
abbrev relative : Text → Text
relative path = drop 2 path

-- The contents one after the other
abbrev archive_of : List (Text × Bytes) → Bytes
archive_of [] = []
archive_of ((name, content) ∷ archived) = content ++ archive_of archived

abbrev extracted : Bytes → Text → Files → Files
extracted archive folder files = (folder ++ 47 ∷ 102 ∷ [], archive) ∷ files

decompress_folder-compress_folder_example :
    decompress_folder extracted
      (compress_folder archive_of relative folder_walk (100 ∷ []) folder_files).0
      (compress_folder archive_of relative folder_walk (100 ∷ []) folder_files).1
    ≡ extracted
        (archive_of (archived relative folder_walk folder_files))
        (100 ∷ [])
        (compress_folder archive_of relative folder_walk (100 ∷ []) folder_files).1
decompress_folder-compress_folder_example =
    decompress_folder-compress_folder archive_of extracted relative folder_walk (100 ∷ [])
      folder_files (unfold after_separator strip_prefix in refl)
