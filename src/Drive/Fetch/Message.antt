-- ===== src/Drive/Fetch/Message.antt =====
-- The request of fetch_server_data in share_drive/share_drive_client/client.py, and what the server gets.
use coap_share_drive.Base.{
  ◌<◌, ◌≡◌, refl, true, false, Option, some, [], ◌∷◌, arith, sym, subst, length,
}
use coap_share_drive.Base.Dict.{get, has, put}
use coap_share_drive.Bytes.{Bytes}
use coap_share_drive.Packet.{Packet, Address, get_option_code, copy}
use coap_share_drive.Packet.Value.{str, int}
use coap_share_drive.Packet.Options.{is_text_option}
use coap_share_drive.Packet.Decode.{JsonCodec, Options}
use coap_share_drive.Packet.Encode.{sorted_items, insert_sorted}
use coap_share_drive.Packet.RoundTrip.{arrived, IsSendable}
use coap_share_drive.Packet.RoundTrip.OptionList.{Rising}
use coap_share_drive.Packet.RoundTrip.Numbers.{number-Survives}
use coap_share_drive.Worker.Task.{is_given}
use coap_share_drive.Drive.DriveTemplates
use coap_share_drive.Drive.Client.{fetch_message, share_drive}
use coap_share_drive.Drive.Download.Message.{share_drive-Survives, get-is_given}

module _ (server : Address) (token : Bytes) (client : Option Address) where
  -- The client's request, and what the server gets.
  abbrev pub message : Packet
  message = record (fetch_message server) { token = token }

  abbrev pub request : Packet
  request = arrived message client

  listed : Options
  listed = (11, str share_drive) ∷ (23, int 6) ∷ []

  sorted : sorted_items message.options ≡ listed
  unfolding listed fetch_message DriveTemplates.value DriveTemplates.coap_packet copy put
      sorted_items insert_sorted
  sorted = refl

  rising : Rising 0 0 listed
  unfolding listed
  rising = (
    omega arith,
    omega arith,
    share_drive-Survives 11 (omega arith),
    (
      omega arith,
      omega arith,
      number-Survives 12 23 6 (omega arith) (unfold is_text_option in refl) (λ e. omega arith)
          (omega arith),
      tt,
    ),
  )

  pub message-IsSendable : (json : JsonCodec) → length token < 16 → IsSendable json message
  message-IsSendable json few =
      unfold fetch_message DriveTemplates.value DriveTemplates.coap_packet copy put get in
      (record {
        version_fits = omega arith;
        type_fits = omega arith;
        token_fits = few;
        code_fits = omega arith;
        id_fits = omega arith;
        rising = subst (Rising 0 0) (sym sorted) rising;
        payload_fits = tt;
        not_encoded = refl;
      })

  pub request-option : get_option_code request ≡ some 23
  request-option = unfold get_option_code in rw sorted (unfold listed has in refl)

  pub request-named : is_given 11 request ≡ true
  request-named = get-is_given request 11 share_drive (rw sorted (unfold listed get in refl)) refl

  pub request-fetch : request.code ≡ 5
  request-fetch = unfold fetch_message DriveTemplates.value DriveTemplates.coap_packet copy in refl

  pub request-external : request.needs_internal_computation ≡ false
  request-external =
      unfold fetch_message DriveTemplates.value DriveTemplates.coap_packet copy in refl
