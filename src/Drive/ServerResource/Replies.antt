-- ===== src/Drive/ServerResource/Replies.antt =====
-- The replies of handle_post and handle_delete.
use coap_share_drive.Base.{
  ◌<◌, ◌≡◌, ◌≢◌, refl, ap, ◌⊎◌, inl, inr, Option, none, [], ◌∷◌, Bool-cases, Option-cases, length,
}
use coap_share_drive.Base.Eq.{nat_eq, list_eq}
use coap_share_drive.Base.Outcome.{Outcome, Outcome-cases, Exc, ok, err}
use coap_share_drive.Base.Dict.{has}
use coap_share_drive.Bytes.{Text}
use coap_share_drive.Packet.{Packet, Address}
use coap_share_drive.Packet.Decode.{JsonCodec, decode}
use coap_share_drive.Packet.RoundTrip.{arrived, decode-encode}
use coap_share_drive.Packet.RoundTrip.PayloadPart.{LoadsDumps}
use coap_share_drive.Templates.{
  Template, value_with, bad_request, internal_error, success_changed, success_deleted,
}
use coap_share_drive.Templates.Sending.{value_with-IsSendable}
use coap_share_drive.Transaction.{Datagram}
use coap_share_drive.Drive.Assembler.{Assembler, Files}
use coap_share_drive.Drive.Splitter.{all_sent}
use coap_share_drive.Drive.ClientResource.{reply}
use coap_share_drive.Drive.ServerResource.{Os, Served, answer, guarded, logged, location, exists}
use coap_share_drive.Drive.ServerResource.Changes.{
  payload_get, given, after_os, change, try_post, handle_post, try_delete, handle_delete,
  rename_word, move_word,
}

module _ (json : JsonCodec) (law : LoadsDumps json) (request : Packet)
    (short : length request.token < 16) (from : Option Address) where
  -- A datagram to the sender of the request, which decodes to this reply with the request's token and
  -- message id.
  pub record IsReply (t : Template) (d : Datagram) : Type 0 where
    pub to_sender : d.to ≡ request.sender_ip_port
    pub decodes :
        decode json d.payload from
        ≡ ok (arrived (value_with t request.token request.message_id none) from)

  reply-IsReply :
      (t : Template) → (d : Datagram) × (reply json t request ≡ ok (d ∷ [])) × IsReply t d
  unfolding reply
  reply-IsReply t =
      let (payload, _, e, r) =
        decode-encode json (value_with t request.token request.message_id none) from law
          (value_with-IsSendable json t request.token request.message_id none short).0 in
      (
        record { payload = payload; to = request.sender_ip_port },
        rw (e, reply) refl,
        record { to_sender = refl; decodes = r },
      )

  module _ (a : Assembler) where
    -- A body that replies once, and only with BAD_REQUEST where it leaves the drive as it was; or that
    -- raises before it replies.
    data Tried : Served → Type 0 where
      replied :
          (t : Template) (d : Datagram) (a' : Assembler)
          → IsReply t d
          → (a' ≡ a) ⊎ (t ≢ bad_request)
          → Tried (a', d ∷ [], ok all_sent)
      raised : (a' : Assembler) (e : Exc) → Tried (a', [], err e)

    answer-Tried :
        (t : Template) (a' : Assembler)
        → (a' ≡ a) ⊎ (t ≢ bad_request)
        → Tried (answer json t request a')
    unfolding answer
    answer-Tried t a' same =
        let (d, e, r) = reply-IsReply t in rw (e, answer) (replied t d a' r same)

    after_os-Tried :
        (t : Template) (x : Files × Outcome (Unit {0}))
        → t ≢ bad_request
        → Tried (after_os json t request a x)
    after_os-Tried t (files, ok u) other = answer-Tried t (record a { files = files }) (inr other)
    after_os-Tried t (files, err e) other = raised (record a { files = files }) e

    changed-other : success_changed ≢ bad_request
    changed-other e = cc

    deleted-other : success_deleted ≢ bad_request
    deleted-other e = cc

    change-Tried : (os : Os) (path : Text) → Tried (change json os request path a)
    unfolding change
    change-Tried os path = elim (Outcome-cases (payload_get rename_word request.payload)) [
      | inr (e, p) ↦ rw (p, change) (raised a e)
      | inl (renamed, p) ↦ elim (Option-cases (given renamed)) [
        | inr (name, g) ↦ rw (p, g, change) (after_os-Tried success_changed _ changed-other)
        | inl g ↦ elim (Outcome-cases (payload_get move_word request.payload)) [
          | inr (e, q) ↦ rw (p, g, q, change) (raised a e)
          | inl (moved, q) ↦ elim (Option-cases (given moved)) [
            | inr (target, h) ↦
                rw (p, g, q, h, change) (after_os-Tried success_changed _ changed-other)
            | inl h ↦ rw (p, g, q, h, change) (answer-Tried bad_request a (inl refl))
          ]
        ]
      ]
    ]

    try_post-Tried : (os : Os) → Tried (try_post json os request a)
    unfolding try_post
    try_post-Tried os = elim (Outcome-cases (location request)) [
      | inr (e, p) ↦ rw (p, try_post) (raised a e)
      | inl (path, p) ↦ elim (Bool-cases (exists os path a)) [
        | inl there ↦ rw (p, there, try_post) (change-Tried os path)
        | inr none_there ↦ rw (p, none_there, try_post) (answer-Tried bad_request a (inl refl))
      ]
    ]

    try_delete-Tried : (os : Os) → Tried (try_delete json os request a)
    unfolding try_delete
    try_delete-Tried os = elim (Outcome-cases (location request)) [
      | inr (e, p) ↦ rw (p, try_delete) (raised a e)
      | inl (path, p) ↦ elim (Bool-cases (has path a.files)) [
        | inl file ↦ rw (p, file, try_delete) (after_os-Tried success_deleted _ deleted-other)
        | inr other ↦ elim (Bool-cases (os.is_folder a.files path)) [
          | inl folder ↦
              rw (p, other, folder, try_delete) (after_os-Tried success_deleted _ deleted-other)
          | inr nothing ↦ rw (p, other, nothing, try_delete) (answer-Tried bad_request a (inl refl))
        ]
      ]
    ]

    -- What the sender gets, and what it means for the drive.
    pub record Settled (served : Served) : Type 0 where
      pub template : Template
      pub datagram : Datagram
      pub drive : Assembler
      pub ends : served ≡ (drive, datagram ∷ [], ok all_sent)
      pub is_reply : IsReply template datagram
      pub unchanged : (drive ≡ a) ⊎ (template ≢ bad_request)

    told :
        (a' : Assembler) (e : Exc) (d : Datagram)
        → reply json internal_error request ≡ ok (d ∷ [])
        → guarded json request (a', [], err e) ≡ (a', d ∷ [], err e)
    unfolding guarded
    told a' e d x = rw (x, guarded) refl

    settled : (served : Served) → Tried served → Settled (logged (guarded json request served))
    settled _ (replied t d a' r same) = record {
      template = t;
      datagram = d;
      drive = a';
      ends = unfold guarded in refl;
      is_reply = r;
      unchanged = same;
    }
    settled _ (raised a' e) =
        let (d, x, r) = reply-IsReply internal_error in
        record {
          template = internal_error;
          datagram = d;
          drive = a';
          ends = ap logged (told a' e d x);
          is_reply = r;
          unchanged = inr internal-other;
        }
      where
        internal-other : internal_error ≢ bad_request
        internal-other h = cc

    pub handle_post-Settled : (os : Os) → Settled (handle_post json os request a)
    unfolding handle_post
    handle_post-Settled os = settled (try_post json os request a) (try_post-Tried os)

    pub handle_delete-Settled : (os : Os) → Settled (handle_delete json os request a)
    unfolding handle_delete
    handle_delete-Settled os = settled (try_delete json os request a) (try_delete-Tried os)
