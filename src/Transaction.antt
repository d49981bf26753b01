-- ===== src/Transaction.antt =====
-- coap_core/coap_transaction/coap_transaction.py (with __init__.py and coap_timer.py): one
-- confirmable packet and its retransmissions. Times are milliseconds.
pub mod Backoff
pub mod Pool
use coap_share_drive.Base.{
  ℕ, ◌+◌, ◌-◌, ◌*◌, ltb, ◌||◌, Bool, true, false, if◌then◌else◌, Option, List, [], ◌∷◌,
}
use coap_share_drive.Base.Outcome.{Outcome, Exc, ok, err}
use coap_share_drive.Bytes.{Bytes}
use coap_share_drive.Packet.{Packet, Address}
use coap_share_drive.Packet.Decode.{JsonCodec}
use coap_share_drive.Packet.Encode.{encode}
use coap_share_drive.Templates.{value_with, failed_request}

-- __init__.py. ACK_TIMEOUT is 2 s, and the span 2 * (2 ** 4 - 1) * 1.5 s.
abbrev pub ack_timeout_start : ℕ
ack_timeout_start = 2000

abbrev pub max_retransmit : ℕ
max_retransmit = 4

abbrev pub max_retransmission_span : ℕ
max_retransmission_span = 45000

abbrev pub concurrent_transactions : ℕ
concurrent_transactions = 1000

-- What `sendto` was called with.
pub record Datagram : Type 0 where
  pub payload : Bytes
  pub to : Option Address

pub data Status : Type 0 where
  no_action retransmission failed_transaction : Status

-- `start_time` is the timer's.
pub record Transaction : Type 0 where
  pub request : Packet
  pub parent_msg_id : ℕ
  pub start_time : ℕ
  pub ack_timeout : ℕ
  pub transmit_time_span : ℕ
  pub retransmission_counter : ℕ

unfoldable pub new : Packet → ℕ → ℕ → Transaction
new request parent_msg_id now = record {
  request = request;
  parent_msg_id = parent_msg_id;
  start_time = now;
  ack_timeout = ack_timeout_start;
  transmit_time_span = 0;
  retransmission_counter = 0;
}

-- The clock as one call reads it: for the test, for the span and for the reset.
pub record Readings : Type 0 where
  pub at_test : ℕ
  pub at_span : ℕ
  pub at_reset : ℕ

-- CoapTimer.elapsed_time, of a timer that has been started
unfoldable pub elapsed_time : Transaction → ℕ → ℕ
elapsed_time t now = now - t.start_time

-- What is left of a call that sends: a failure of `encode` ends it, the state as it is then.
abbrev sending :
    Transaction
    → Status
    → Outcome Bytes
    → Option Address
    → Transaction × Outcome (Status × List Datagram)
sending t status (ok bytes) to = (t, ok (status, record { payload = bytes; to = to } ∷ []))
sending t status (err e) to = (t, err e)

abbrev bytes_of : Outcome (Bytes × Packet) → Outcome Bytes
bytes_of (ok (bytes, p)) = ok bytes
bytes_of (err e) = err e

-- `encode` stores the bytes in the request.
abbrev request_after : Packet → Outcome (Bytes × Packet) → Packet
request_after p (ok (bytes, q)) = q
request_after p (err e) = p

-- The timer has run out: a longer timeout, one more retransmission, the timer from now on.
unfoldable pub expire : Readings → Transaction → Transaction
unfolding elapsed_time
expire now t = record t {
  transmit_time_span = t.transmit_time_span + elapsed_time t now.at_span;
  ack_timeout = t.ack_timeout * 2;
  retransmission_counter = t.retransmission_counter + 1;
  start_time = now.at_reset;
}

unfoldable pub limits_reached : Transaction → Bool
limits_reached t =
    ltb max_retransmission_span t.transmit_time_span || ltb max_retransmit t.retransmission_counter

-- FAILED_REQUEST to the receiver of the request, with the request's token.
unfoldable pub fail : JsonCodec → Transaction → Transaction × Outcome (Status × List Datagram)
fail json t =
    sending t failed_transaction
      (bytes_of
        (encode json (value_with failed_request t.request.token t.parent_msg_id Option.none)))
      t.request.sender_ip_port

unfoldable pub retransmit : JsonCodec → Transaction → Transaction × Outcome (Status × List Datagram)
retransmit json t =
    let encoding = encode json t.request in
    sending (record t { request = request_after t.request encoding }) retransmission
      (bytes_of encoding) t.request.sender_ip_port

unfoldable pub run_transaction :
    JsonCodec → Readings → Transaction → Transaction × Outcome (Status × List Datagram)
unfolding elapsed_time
run_transaction json now t =
    if ltb t.ack_timeout (elapsed_time t now.at_test)
    then (let t' = expire now t in if limits_reached t' then fail json t' else retransmit json t')
    else (t, ok (no_action, []))
