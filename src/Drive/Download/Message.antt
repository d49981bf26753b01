-- ===== src/Drive/Download/Message.antt =====
-- The request of download_file in share_drive/share_drive_client/client.py, and what the server gets.
use coap_share_drive.Base.{
  ℕ, suc, ◌<◌, ◌≤◌, ◌≡◌, refl, true, false, inl, Option, none, some, [], ◌∷◌, arith, sym, subst,
  length,
}
use coap_share_drive.Base.Outcome.{ok, ◌>>=◌}
use coap_share_drive.Base.Dict.{get, has, put}
use coap_share_drive.Base.Eq.{nat_eq, list_eq}
use coap_share_drive.Bytes.{Bytes, Text}
use coap_share_drive.Bytes.Utf8
use coap_share_drive.Packet.{
  Packet, Address, get_option_code, option_at, has_option_block, get_size_code_based_on_option,
  copy,
}
use coap_share_drive.Packet.Keys.{general_work_id_eq}
use coap_share_drive.Packet.Value.{str, int, is_empty, option_truth}
use coap_share_drive.Packet.Block.{Block, decode_option_block}
use coap_share_drive.Packet.Options.{is_text_option, value_bytes}
use coap_share_drive.Packet.Decode.{JsonCodec, Options}
use coap_share_drive.Packet.Encode.{sorted_items, insert_sorted}
use coap_share_drive.Packet.RoundTrip.{arrived, IsSendable}
use coap_share_drive.Packet.RoundTrip.OptionList.{Rising, Survives}
use coap_share_drive.Packet.RoundTrip.Numbers.{number-Survives}
use coap_share_drive.Worker.Task.{is_given}
use coap_share_drive.Drive.DriveTemplates
use coap_share_drive.Drive.ServerResource.{location}
use coap_share_drive.Drive.Client.{download_message, share_drive}

-- A text that UTF-8 encodes in 65804 bytes at most.
pub record IsShort (t : Text) : Type 0 where
  pub raw : Bytes
  pub encodes : Utf8.encode t ≡ ok raw
  pub fits : length raw ≤ 65804

-- The two text options of a request.
pub path-Survives : (path : Text) → IsShort path → Survives 8 8 (str path)
path-Survives path short = record {
  raw = short.raw;
  encodes = unfold value_bytes in short.encodes;
  kind = unfold is_text_option in refl;
  fits = inl (omega arith, short.fits);
}

pub share_drive-Survives : (gap : ℕ) → gap < 13 → Survives gap 11 (str share_drive)
share_drive-Survives gap near = record {
  raw = share_drive;
  encodes = unfold value_bytes Utf8.encode Utf8.encode_char in refl;
  kind = unfold is_text_option in refl;
  fits = inl (near, omega arith);
}

-- A text that is not empty is given.
pub get-is_given :
    (q : Packet) (key : ℕ) (t : Text)
    → get key q.options ≡ some (str t)
    → is_empty t ≡ false
    → is_given key q ≡ true
get-is_given q key t h some_text =
    subst (λ o. elim o [ none ↦ false | some v ↦ option_truth v ] ≡ true) (sym h)
      (rw some_text refl)

-- So is a number that is not 0.
pub get-is_given_number :
    (q : Packet) (key n : ℕ) → get key q.options ≡ some (int (suc n)) → is_given key q ≡ true
get-is_given_number q key n h =
    subst (λ o. elim o [ none ↦ false | some v ↦ option_truth v ] ≡ true) (sym h) (ground arith)

module _ (server : Address) (path : Text) (token : Bytes) (client : Option Address) where
  -- The client's request, and what the server gets.
  abbrev pub message : Packet
  message = record (download_message server path) { token = token }

  abbrev pub request : Packet
  request = arrived message client

  listed : Options
  listed = (8, str path) ∷ (11, str share_drive) ∷ (23, int 6) ∷ []

  sorted : sorted_items message.options ≡ listed
  unfolding listed download_message DriveTemplates.value DriveTemplates.coap_packet copy put
      sorted_items insert_sorted
  sorted = refl

  rising : IsShort path → Rising 0 0 listed
  unfolding listed
  rising short = (
    omega arith,
    omega arith,
    path-Survives path short,
    (
      omega arith,
      omega arith,
      share_drive-Survives 3 (omega arith),
      (
        omega arith,
        omega arith,
        number-Survives 12 23 6 (omega arith) (unfold is_text_option in refl) (λ e. omega arith)
            (omega arith),
        tt,
      ),
    ),
  )

  pub message-IsSendable :
      (json : JsonCodec) → IsShort path → length token < 16 → IsSendable json message
  message-IsSendable json short few =
      unfold download_message DriveTemplates.value DriveTemplates.coap_packet copy put get in
      (record {
        version_fits = omega arith;
        type_fits = omega arith;
        token_fits = few;
        code_fits = omega arith;
        id_fits = omega arith;
        rising = subst (Rising 0 0) (sym sorted) (rising short);
        payload_fits = tt;
        not_encoded = refl;
      })

  -- Blocks of 1024 bytes.
  abbrev pub fields : Block
  fields = record { num = 0; m = 0; szx = 6; block_size = 1024 }

  pub request-option : get_option_code request ≡ some 23
  request-option = unfold get_option_code in rw sorted (unfold listed has in refl)

  pub request-fields : (option_at 23 request >>= decode_option_block) ≡ ok (some fields)
  request-fields = unfold option_at in rw sorted (unfold listed get decode_option_block in refl)

  pub request-size : get_size_code_based_on_option request ≡ some 28
  request-size = unfold get_size_code_based_on_option in rw sorted (unfold listed has in refl)

  pub request-block : has_option_block request ≡ true
  request-block = unfold has_option_block in rw sorted (unfold listed has in refl)

  request-location : get 8 request.options ≡ some (str path)
  request-location = rw sorted (unfold listed get in refl)

  pub request-given : is_empty path ≡ false → is_given 8 request ≡ true
  request-given some_path = get-is_given request 8 path request-location some_path

  pub request-path : location request ≡ ok path
  request-path = unfold option_at in rw request-location refl

  request-uri : get 11 request.options ≡ some (str share_drive)
  request-uri = rw sorted (unfold listed get in refl)

  pub request-named : is_given 11 request ≡ true
  request-named = get-is_given request 11 share_drive request-uri refl

  pub request-get : request.code ≡ 1
  request-get = unfold download_message DriveTemplates.value DriveTemplates.coap_packet copy in refl

  pub request-external : request.needs_internal_computation ≡ false
  request-external =
      unfold download_message DriveTemplates.value DriveTemplates.coap_packet copy in refl
