-- ===== src/Drive/ServerResource/Changes.antt =====
-- share_drive/share_drive_server/server_resource.py, handle_post and handle_delete.
use coap_share_drive.Base.{◌==◌, Bool, true, ◌&&◌, if◌then◌else◌, Option, none, some, [], ◌∷◌}
use coap_share_drive.Base.Eq.{nat_eq, list_eq}
use coap_share_drive.Base.Outcome.{Outcome, ok, err, attribute_error}
use coap_share_drive.Base.Dict.{get, has}
use coap_share_drive.Bytes.{Text}
use coap_share_drive.Packet.{Packet}
use coap_share_drive.Packet.Value.{Payload, str, bytes, doc, is_empty}
use coap_share_drive.Packet.Decode.{JsonCodec}
use coap_share_drive.Templates.{Template, bad_request, success_changed, success_deleted}
use coap_share_drive.Drive.Assembler.{Assembler, Files}
use coap_share_drive.Drive.Splitter.{basename, has_slash}
use coap_share_drive.Drive.ServerResource.{Os, Served, answer, guarded, logged, location, exists}

-- os.path.dirname: what stands in front of the last component, without slashes at its end unless there
-- is nothing else.
abbrev pub is_slashes : Text → Bool
is_slashes [] = true
is_slashes (c ∷ cs) = c == 47 && is_slashes cs

abbrev pub rstrip : Text → Text
rstrip [] = []
rstrip (c ∷ cs) = if is_slashes (c ∷ cs) then [] else c ∷ rstrip cs

unfoldable pub head : Text → Text
head [] = []
head (c ∷ cs) = let rest = head cs in if has_slash (c ∷ cs) then c ∷ rest else []

unfoldable pub dirname : Text → Text
unfolding head
dirname path = if is_slashes (head path) then head path else rstrip (head path)

-- `request.payload.get(key)`: only a dict has `get`.
abbrev pub payload_get : Text → Payload → Outcome (Option Text)
payload_get key (doc d) = ok (get key d)
payload_get key (str t) = err attribute_error
payload_get key (bytes b) = err attribute_error

-- A value that is there and not empty.
abbrev pub given : Option Text → Option Text
given none = none
given (some t) = if is_empty t then none else some t

-- What an operation of the disk leads to: SUCCESS_CHANGED or SUCCESS_DELETED, or its exception.
abbrev pub after_os :
    JsonCodec → Template → Packet → Assembler → Files × Outcome (Unit {0}) → Served
after_os json template request a (files, ok u) =
    answer json template request (record a { files = files })
after_os json template request a (files, err e) = (record a { files = files }, [], err e)

-- "rename" and "move"
abbrev pub rename_word : Text
rename_word = b'r' ∷ b'e' ∷ b'n' ∷ b'a' ∷ b'm' ∷ b'e' ∷ []

abbrev pub move_word : Text
move_word = b'm' ∷ b'o' ∷ b'v' ∷ b'e' ∷ []

module _ (json : JsonCodec) (os : Os) where
  -- The change that the document asks for.
  unfoldable pub change : Packet → Text → Assembler → Served
  change request path a = elim (payload_get rename_word request.payload) [
    | err e ↦ (a, [], err e)
    | ok renamed ↦ (elim (given renamed) [
      | some name ↦
          after_os json success_changed request a
            (os.rename (dirname path) (basename path) name a.files)
      | none ↦ (elim (payload_get move_word request.payload) [
        | err e ↦ (a, [], err e)
        | ok moved ↦ elim (given moved) [
          | some target ↦ after_os json success_changed request a (os.move path target a.files)
          | none ↦ answer json bad_request request a
        ]
      ])
    ])
  ]

  unfoldable pub try_post : Packet → Assembler → Served
  try_post request a = elim (location request) [
    | err e ↦ (a, [], err e)
    | ok path ↦
        if exists os path a then change request path a else answer json bad_request request a
  ]

  unfoldable pub handle_post : Packet → Assembler → Served
  handle_post request a = logged (guarded json request (try_post request a))

  unfoldable pub try_delete : Packet → Assembler → Served
  try_delete request a = elim (location request) [
    | err e ↦ (a, [], err e)
    | ok path ↦
        if has path a.files
        then after_os json success_deleted request a (os.remove path a.files)
        else if os.is_folder a.files path
        then after_os json success_deleted request a (os.rmtree path a.files)
        else answer json bad_request request a
  ]

  unfoldable pub handle_delete : Packet → Assembler → Served
  handle_delete request a = logged (guarded json request (try_delete request a))
