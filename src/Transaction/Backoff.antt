-- ===== src/Transaction/Backoff.antt =====
-- The schedule of retransmissions: the timeout doubles, there are at most four, and silence ends in
-- a failure.
pub mod Silence
use native.Mathlib.Numerals.{towards_suc}
use coap_share_drive.Base.{
  ℕ, zero, suc, ◌+◌, ◌-◌, ◌*◌, ◌^◌, ◌≤◌, ◌<◌, ◌≡◌, refl, ◌∙◌, ◌⊎◌, inl, inr, Bool, true, false, ltb,
  ◌||◌, lt→ltb, ltb→lt, All, none, if◌then◌else◌, List, [], ◌∷◌, arith, length, Bool-cases, ap,
}
use coap_share_drive.Base.Outcome.{Outcome, Exc, ok, err}
use coap_share_drive.Bytes.{Bytes}
use coap_share_drive.Packet.{Packet}
use coap_share_drive.Packet.Value.{is_empty}
use coap_share_drive.Packet.Decode.{JsonCodec}
use coap_share_drive.Packet.Encode.{encode}
use coap_share_drive.Templates.{value_with, failed_request}
use coap_share_drive.Transaction.{
  Transaction, Readings, Datagram, Status, no_action, retransmission, failed_transaction, new,
  elapsed_time, expire, sending, bytes_of, limits_reached, fail, retransmit, run_transaction,
  max_retransmit, max_retransmission_span, ack_timeout_start,
}

-- The statuses of a call and of the later ones; a failure is the last.
after_call :
    Transaction × Outcome (Status × List Datagram)
    → Transaction × List Status
    → Transaction × List Status
after_call (t, err e) later = (t, [])
after_call (t, ok (failed_transaction, sent)) later = (t, failed_transaction ∷ [])
after_call (t, ok (status, sent)) later = (later.0, status ∷ later.1)

-- The pool's calls of run_transaction on one transaction, one for each reading of the clock; it makes
-- no more calls behind a failure.
unfoldable pub poll : JsonCodec → List Readings → Transaction → Transaction × List Status
unfolding after_call
poll json [] t = (t, [])
poll json (now ∷ later) t =
    let result = run_transaction json now t in after_call result (poll json later result.0)

-- The number of retransmissions.
unfoldable pub retransmissions : List Status → ℕ
retransmissions [] = 0
retransmissions (retransmission ∷ l) = suc (retransmissions l)
retransmissions (_ ∷ l) = retransmissions l

unfoldable pub has_failed : List Status → Bool
has_failed [] = false
has_failed (failed_transaction ∷ l) = true
has_failed (_ ∷ l) = has_failed l

-- A transaction between two calls: the timeout has doubled with each retransmission, the limits are
-- not reached, and the request has its bytes.
pub record OnSchedule (t : Transaction) : Type 0 where
  pub doubled : t.ack_timeout ≡ ack_timeout_start * 2 ^ t.retransmission_counter
  pub few : t.retransmission_counter ≤ max_retransmit
  pub waited :
      ack_timeout_start * 2 ^ t.retransmission_counter ≤ t.transmit_time_span + ack_timeout_start
  pub soon : t.transmit_time_span ≤ max_retransmission_span
  pub encoded : is_empty t.request.encoded ≡ false

pub new-OnSchedule :
    (p : Packet) (parent now : ℕ) → is_empty p.encoded ≡ false → OnSchedule (new p parent now)
unfolding new
new-OnSchedule p parent now h = record {
  doubled = refl;
  few = omega arith;
  waited = omega arith;
  soon = omega arith;
  encoded = h;
}

encode-cached :
    (json : JsonCodec) (p : Packet) → is_empty p.encoded ≡ false → encode json p ≡ ok (p.encoded, p)
unfolding encode
encode-cached json p h = rw h

twice : (c : ℕ) → 2 ^ (c + 1) ≡ 2 ^ c * 2
twice c = simp towards_suc (omega arith)

within :
    (span counter : ℕ)
    → (ltb max_retransmission_span span || ltb max_retransmit counter) ≡ false
    → (span ≤ max_retransmission_span) × (counter ≤ max_retransmit)
within span counter h = ground arith

module _ (json : JsonCodec) (now : Readings) (t : Transaction) where
  run-quiet :
      elapsed_time t now.at_test ≤ t.ack_timeout
      → run_transaction json now t ≡ (t, ok (no_action, []))
  unfolding run_transaction
  run-quiet h = ground arith

  run-again :
      t.ack_timeout < elapsed_time t now.at_test
      → limits_reached (expire now t) ≡ false
      → is_empty t.request.encoded ≡ false
      → run_transaction json now t ≡ (
        expire now t,
        ok (
          retransmission,
          record { payload = t.request.encoded; to = t.request.sender_ip_port } ∷ [],
        ),
      )
  unfolding run_transaction
  run-again h k e =
      rw (lt→ltb _ _ h, k) (unfold retransmit expire in rw (encode-cached json t.request e))

  run-over :
      t.ack_timeout < elapsed_time t now.at_test
      → limits_reached (expire now t) ≡ true
      → run_transaction json now t ≡ fail json (expire now t)
  unfolding run_transaction
  run-over h k = rw (lt→ltb _ _ h, k)

  -- A retransmission keeps the schedule.
  expire-OnSchedule :
      now.at_test ≤ now.at_span
      → OnSchedule t
      → t.ack_timeout < elapsed_time t now.at_test
      → limits_reached (expire now t) ≡ false
      → OnSchedule (expire now t)
  unfolding expire limits_reached
  expire-OnSchedule clock s h k =
      let (soon, few) =
        within (t.transmit_time_span + (now.at_span - t.start_time)) (t.retransmission_counter + 1)
          k in
      record {
        doubled = omega (arith, s.doubled, twice t.retransmission_counter);
        few = few;
        waited = omega (arith, s.doubled, s.waited, twice t.retransmission_counter);
        soon = soon;
        encoded = s.encoded;
      }

-- A failing call sends FAILED_REQUEST, or nothing where that cannot be encoded.
fail_lem :
    (json : JsonCodec) (t : Transaction)
    → ((sent : List Datagram) × (fail json t ≡ (t, ok (failed_transaction, sent))))
      ⊎ ((e : Exc) × (fail json t ≡ (t, err e)))
unfolding fail
fail_lem json t =
    split (bytes_of (encode json (value_with failed_request t.request.token t.parent_msg_id none)))
  where
    split :
        (o : Outcome Bytes)
        → ((sent : List Datagram) × (sending t failed_transaction o t.request.sender_ip_port
              ≡ (t, ok (failed_transaction, sent))))
          ⊎ ((e : Exc) × (sending t failed_transaction o t.request.sender_ip_port ≡ (t, err e)))
    split (ok b) = inl (_, refl)
    split (err e) = inr (e, refl)

module _ (json : JsonCodec) (now : Readings) (later : List Readings) (t : Transaction) where
  poll-quiet :
      elapsed_time t now.at_test ≤ t.ack_timeout
      → (poll json (now ∷ later) t).1 ≡ no_action ∷ (poll json later t).1
  unfolding poll
  poll-quiet h = rw (run-quiet json now t h)

  poll-again :
      t.ack_timeout < elapsed_time t now.at_test
      → limits_reached (expire now t) ≡ false
      → is_empty t.request.encoded ≡ false
      → (poll json (now ∷ later) t).1 ≡ retransmission ∷ (poll json later (expire now t)).1
  unfolding poll
  poll-again h k e = rw (run-again json now t h k e)

  poll-over :
      t.ack_timeout < elapsed_time t now.at_test
      → limits_reached (expire now t) ≡ true
      → ((poll json (now ∷ later) t).1 ≡ failed_transaction ∷ [])
        ⊎ ((poll json (now ∷ later) t).1 ≡ [])
  unfolding poll
  poll-over h k = elim (fail_lem json (expire now t)) [
    | inl (sent, e) ↦ inl (rw (run-over json now t h k, e))
    | inr (x, e) ↦ inr (rw (run-over json now t h k, e))
  ]

module _ (json : JsonCodec) where
  below :
      (now : Readings) (t : Transaction)
      → limits_reached (expire now t) ≡ false
      → ((expire now t).retransmission_counter ≤ max_retransmit)
        × ((expire now t).retransmission_counter ≡ t.retransmission_counter + 1)
  unfolding expire limits_reached
  below now t under = (
    (within (t.transmit_time_span + (now.at_span - t.start_time)) (t.retransmission_counter + 1)
        under).1,
    refl,
  )

  -- For a transaction whose request has its bytes and that has made at most four retransmissions: any
  -- further calls, whatever the clock shows in them, make no more than the rest of the four.
  pub poll-le_four :
      (readings : List Readings) (t : Transaction)
      → t.retransmission_counter ≤ max_retransmit
      → is_empty t.request.encoded ≡ false
      → retransmissions (poll json readings t).1 + t.retransmission_counter ≤ max_retransmit
  unfolding retransmissions
  poll-le_four [] t few bytes = unfold poll in omega (arith, few)
  poll-le_four (now ∷ later) t few bytes =
      elim (Bool-cases (ltb t.ack_timeout (elapsed_time t now.at_test))) [
        | inr early ↦
            rw (poll-quiet json now later t (ground arith)) (poll-le_four later t few bytes)
        | inl late ↦ elim (Bool-cases (limits_reached (expire now t))) [
          | inl over ↦ elim (poll-over json now later t (ltb→lt _ _ late) over) [
            | inl e ↦ rw e (omega (arith, few))
            | inr e ↦ rw e (omega (arith, few))
          ]
          | inr under ↦
              let (again, same) = below now t under in
              rw (poll-again json now later t (ltb→lt _ _ late) under bytes) (
                omega
                  (arith, poll-le_four later (expire now t) again (unfold expire in bytes), same))
        ]
      ]
