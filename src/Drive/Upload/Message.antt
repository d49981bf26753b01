-- ===== src/Drive/Upload/Message.antt =====
-- The request of upload_file in share_drive/share_drive_client/client.py, and what the server gets.
use coap_share_drive.Base.{
  ◌<◌, ◌≡◌, refl, true, false, Option, some, [], ◌∷◌, arith, sym, subst, length,
}
use coap_share_drive.Base.Outcome.{ok, ◌>>=◌}
use coap_share_drive.Base.Dict.{get, has, put}
use coap_share_drive.Base.Eq.{nat_eq, list_eq}
use coap_share_drive.Bytes.{Bytes, Text}
use coap_share_drive.Bytes.Utf8
use coap_share_drive.Packet.{
  Packet, Address, get_option_code, option_at, get_size_code_based_on_option, copy,
}
use coap_share_drive.Packet.Value.{str, int, is_empty}
use coap_share_drive.Packet.Block.{Block, decode_option_block}
use coap_share_drive.Packet.Options.{is_text_option}
use coap_share_drive.Packet.Decode.{JsonCodec, Options}
use coap_share_drive.Packet.Encode.{sorted_items, insert_sorted}
use coap_share_drive.Packet.RoundTrip.{arrived, IsSendable}
use coap_share_drive.Packet.RoundTrip.OptionList.{Rising}
use coap_share_drive.Packet.RoundTrip.Numbers.{number-Survives}
use coap_share_drive.Worker.Task.{is_given}
use coap_share_drive.Drive.DriveTemplates
use coap_share_drive.Drive.ClientResource.{path_of}
use coap_share_drive.Drive.ServerResource.{Os, location, upload_path, upload_word}
use coap_share_drive.Drive.Client.{upload_message, share_drive}
use coap_share_drive.Drive.Download.Message.{
  IsShort, path-Survives, share_drive-Survives, get-is_given, get-is_given_number,
}

module _ (server : Address) (path remote : Text) (token : Bytes) (client : Option Address) where
  -- The client's request to put the file at `path` into the server's folder `remote`, and what the
  -- server gets.
  abbrev pub message : Packet
  message = record (upload_message server path remote) { token = token }

  abbrev pub request : Packet
  request = arrived message client

  listed : Options
  listed = (8, str path) ∷ (11, str share_drive) ∷ (12, int 50) ∷ (27, int 6) ∷ []

  sorted : sorted_items message.options ≡ listed
  unfolding listed upload_message DriveTemplates.value DriveTemplates.coap_packet copy put
      sorted_items insert_sorted
  sorted = refl

  rising : IsShort path → Rising 0 0 listed
  unfolding listed
  rising short = (
    omega arith,
    omega arith,
    path-Survives path short,
    (
      omega arith,
      omega arith,
      share_drive-Survives 3 (omega arith),
      (
        omega arith,
        omega arith,
        number-Survives 1 12 50 (omega arith) (unfold is_text_option in refl) (λ e. omega arith)
            (omega arith),
        (
          omega arith,
          omega arith,
          number-Survives 15 27 6 (omega arith) (unfold is_text_option in refl) (λ e. omega arith)
              (omega arith),
          tt,
        ),
      ),
    ),
  )

  -- The document of the request has a UTF-8 form.
  abbrev pub HasText : JsonCodec → Type 0
  HasText json = (raw : Bytes) × (Utf8.encode (json.dumps ((upload_word, remote) ∷ [])) ≡ ok raw)

  pub message-IsSendable :
      (json : JsonCodec) → IsShort path → HasText json → length token < 16 → IsSendable json message
  message-IsSendable json short told few =
      unfold upload_message DriveTemplates.value DriveTemplates.coap_packet copy put get in
      (record {
        version_fits = omega arith;
        type_fits = omega arith;
        token_fits = few;
        code_fits = omega arith;
        id_fits = omega arith;
        rising = subst (Rising 0 0) (sym sorted) (rising short);
        payload_fits = ((refl, refl), refl, told);
        not_encoded = refl;
      })

  -- Blocks of 1024 bytes.
  abbrev pub fields : Block
  fields = record { num = 0; m = 0; szx = 6; block_size = 1024 }

  pub message-option : get_option_code message ≡ some 27
  unfolding upload_message DriveTemplates.value DriveTemplates.coap_packet copy put
  message-option = unfold get_option_code has in refl

  pub message-fields : (option_at 27 message >>= decode_option_block) ≡ ok (some fields)
  unfolding upload_message DriveTemplates.value DriveTemplates.coap_packet copy put
  message-fields = unfold option_at get decode_option_block in refl

  pub message-size : get_size_code_based_on_option message ≡ some 60
  unfolding upload_message DriveTemplates.value DriveTemplates.coap_packet copy put
  message-size = unfold get_size_code_based_on_option has in refl

  pub message-path : (option_at 8 message >>= path_of) ≡ ok path
  unfolding upload_message DriveTemplates.value DriveTemplates.coap_packet copy put
  message-path = unfold option_at get in refl

  pub message-named : is_given 11 message ≡ true
  unfolding upload_message DriveTemplates.value DriveTemplates.coap_packet copy put
  message-named = unfold get in refl

  pub message-internal : message.needs_internal_computation ≡ true
  message-internal = unfold upload_message in refl

  request-location : get 8 request.options ≡ some (str path)
  request-location = rw sorted (unfold listed get in refl)

  pub request-given : is_empty path ≡ false → is_given 8 request ≡ true
  request-given some_path = get-is_given request 8 path request-location some_path

  pub request-path : location request ≡ ok path
  request-path = unfold option_at in rw request-location refl

  request-uri : get 11 request.options ≡ some (str share_drive)
  request-uri = rw sorted (unfold listed get in refl)

  pub request-named : is_given 11 request ≡ true
  request-named = get-is_given request 11 share_drive request-uri refl

  request-block_option : get 27 request.options ≡ some (int 6)
  request-block_option = rw sorted (unfold listed get in refl)

  pub request-blocks : is_given 27 request ≡ true
  request-blocks = get-is_given_number request 27 5 request-block_option

  pub request-remote :
      (json : JsonCodec) (os : Os) → upload_path json os request.payload ≡ ok remote
  request-remote json os = unfold upload_message get in refl

  pub request-put : request.code ≡ 3
  request-put = unfold upload_message DriveTemplates.value DriveTemplates.coap_packet copy in refl

  pub request-external : request.needs_internal_computation ≡ false
  request-external = refl
