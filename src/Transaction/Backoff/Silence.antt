-- ===== src/Transaction/Backoff/Silence.antt =====
-- A receiver that never answers: the transaction fails at the fifth expiry at the latest.
use coap_share_drive.Base.{
  ℕ, ◌+◌, ◌≤◌, ◌<◌, ◌≡◌, refl, inl, inr, true, Bool-cases, List, [], ◌∷◌, arith, length, none,
}
use coap_share_drive.Base.Outcome.{ok}
use coap_share_drive.Bytes.{Bytes}
use coap_share_drive.Packet.{Packet}
use coap_share_drive.Packet.Decode.{JsonCodec}
use coap_share_drive.Packet.Encode.{encode, encode_options, sorted_items, encode_payload}
use coap_share_drive.Packet.RoundTrip.{encode_header-header_of, encode-parts, header_of}
use coap_share_drive.Templates.{value_with, failed_request}
use coap_share_drive.Templates.Sending.{value_with-IsSendable}
use coap_share_drive.Transaction.{
  Transaction, Readings, elapsed_time, expire, limits_reached, fail, max_retransmit,
}
use coap_share_drive.Transaction.Backoff.{
  OnSchedule, poll, has_failed, run-over, poll-again, expire-OnSchedule,
}

-- At each reading the current timeout has passed.
abbrev pub AllExpire : List Readings → Transaction → Type 0
AllExpire [] t = Unit {0}
AllExpire (now ∷ later) t =
    (now.at_test ≤ now.at_span)
    × (t.ack_timeout < elapsed_time t now.at_test)
    × AllExpire later (expire now t)

-- The reply of a failure can be encoded.
failed_request-encodes :
    (json : JsonCodec) (tkn : Bytes) (msg_id : ℕ)
    → length tkn < 16
    → (b : Bytes) × (q : Packet) × (encode json (value_with failed_request tkn msg_id none)
        ≡ ok (b, q))
unfolding value_with encode_options sorted_items encode_payload
failed_request-encodes json tkn msg_id h =
    let p : Packet = value_with failed_request tkn msg_id none in
    let (s, _) = value_with-IsSendable json failed_request tkn msg_id none h in
    (
      _,
      _,
      encode-parts json p (header_of p) [] [] p.payload refl (encode_header-header_of json p s) refl
          refl,
    )

fails_now :
    (json : JsonCodec) (now : Readings) (later : List Readings) (t : Transaction)
    → t.ack_timeout < elapsed_time t now.at_test
    → length t.request.token < 16
    → limits_reached (expire now t) ≡ true
    → has_failed (poll json (now ∷ later) t).1 ≡ true
unfolding poll has_failed
fails_now json now later t late short over =
    let (b, q, e) = failed_request-encodes json t.request.token t.parent_msg_id short in
    rw (run-over json now t late over) (unfold fail expire in rw e)

same_token :
    (now : Readings) (t : Transaction)
    → length t.request.token < 16
    → length (expire now t).request.token < 16
unfolding expire
same_token now t h = h

counted :
    (now : Readings) (t : Transaction)
    → (expire now t).retransmission_counter ≡ t.retransmission_counter + 1
unfolding expire
counted now t = refl

-- When every timeout passes without an answer, five calls fail a transaction on schedule, the
-- retransmissions already made counted; its token has fewer than 16 bytes.
pub poll-has_failed :
    (json : JsonCodec) (readings : List Readings) (t : Transaction)
    → OnSchedule t
    → length t.request.token < 16
    → AllExpire readings t
    → max_retransmit + 1 ≤ t.retransmission_counter + length readings
    → has_failed (poll json readings t).1 ≡ true
unfolding has_failed
poll-has_failed json [] t s short all enough = absurd (omega (arith, s.few))
poll-has_failed json (now ∷ later) t s short (clock, late, all) enough =
    elim (Bool-cases (limits_reached (expire now t))) [
      | inl over ↦ fails_now json now later t late short over
      | inr under ↦ rw (poll-again json now later t late under s.encoded) (
          poll-has_failed json later (expire now t)
            (expire-OnSchedule json now t clock s late under) (same_token now t short) all
            (omega (arith, counted now t)))
    ]
