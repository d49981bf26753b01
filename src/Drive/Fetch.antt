-- ===== src/Drive/Fetch.antt =====
-- A fetch: the paths of the server's drive on their way to the lists of the client.
pub mod Responses
pub mod Loop
pub mod Collected
pub mod Message
pub mod Request
use coap_share_drive.Base.{ℕ, zero, suc, Option, none, some, List, [], ◌∷◌, ◌++◌}
use coap_share_drive.Base.Eq.{list_eq, nat_eq}
use coap_share_drive.Base.Dict.{get}
use coap_share_drive.Bytes.{Text}
use coap_share_drive.Packet.Value.{Doc}
use coap_share_drive.Drive.Assembler.Paths.{folder_word, file_word}

-- The folder, or the file, that a document tells of.
abbrev pub folder_told : Doc → List Text
folder_told d = elim (get folder_word d) [ none ↦ [] | some path ↦ path ∷ [] ]

abbrev pub file_told : Doc → List Text
file_told d = elim (get folder_word d) [
  | some path ↦ []
  | none ↦ elim (get file_word d) [ none ↦ [] | some path ↦ path ∷ [] ]
]

-- The document with this number, from 0 on.
abbrev pub nth_doc : List Doc → ℕ → Doc
nth_doc [] i = []
nth_doc (d ∷ docs) zero = d
nth_doc (d ∷ docs) (suc i) = nth_doc docs i

-- What is told by documents that arrive in this order.
abbrev pub told : (Doc → List Text) → List Doc → List ℕ → List Text
told tells docs [] = []
told tells docs (i ∷ order) = tells (nth_doc docs i) ++ told tells docs order
