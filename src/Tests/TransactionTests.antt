-- ===== src/Tests/TransactionTests.antt =====
-- The theorems on transactions at concrete transactions and pools.
use coap_share_drive.Base.{
  ℕ, ◌+◌, ◌≤◌, ◌≡◌, refl, true, false, if◌then◌else◌, none, some, List, [], ◌∷◌, arith,
}
use coap_share_drive.Base.Eq.{◌=?◌}
use coap_share_drive.Base.Outcome.{ok, err, attribute_error, ◌>>=◌}
use coap_share_drive.Base.Dict.{get, has, put}
use coap_share_drive.Packet.{Packet, WorkId, work_id, general_work_id, get_block_id}
use coap_share_drive.Packet.Keys.{work_id_eq, general_work_id_eq}
use coap_share_drive.Packet.Value.{bytes}
use coap_share_drive.Packet.Encode.{encode}
use coap_share_drive.Packet.RoundTrip.{IsSendable}
use coap_share_drive.Packet.Format.{verify_format}
use coap_share_drive.Templates.{success_changed}
use coap_share_drive.Templates
use coap_share_drive.Templates.Sending.{value_with-IsSendable}
use coap_share_drive.Transaction.{Transaction, Readings, new, expire, elapsed_time, max_retransmit}
use coap_share_drive.Transaction.Backoff.{
  new-OnSchedule, poll, retransmissions, has_failed, poll-le_four,
}
use coap_share_drive.Transaction.Backoff.Silence.{AllExpire, poll-has_failed}
use coap_share_drive.Transaction.Pool.{
  Pool, running, stamp, empty, add_transaction, finish_transaction, is_transaction_finished,
  handle_congestions, set_overall_transaction_failure, finish_overall_transaction,
  clean_failed_transactions, survivors, solve_transactions,
}
use coap_share_drive.Transaction.Pool.Acknowledgement.{
  finish_transaction_lem, add_transaction_lem, add-finish_transaction,
}
use coap_share_drive.Transaction.Pool.Refused.{
  Later, now, finished_overall, handle_congestions-Later,
}
use coap_share_drive.Transaction.Pool.Failure.{
  AllStamps, clean_failed_transactions-AllStamps, solve_transactions-AllStamps,
}
use coap_share_drive.Worker.Pool.Transactions.{handle_transactions, handle_transactions-gone}
use coap_share_drive.Tests.Json.{codec}

-- A packet whose bytes have been made, and one that waits for it.
abbrev request : Packet
request = record {
  version = 1;
  message_type = 0;
  token = 7 ∷ [];
  code = 1;
  message_id = 9;
  options = [];
  payload = bytes [];
  sender_ip_port = some (49 ∷ [], 5683);
  needs_internal_computation = false;
  encoded = 0x41 ∷ 1 ∷ 0 ∷ 9 ∷ 7 ∷ 0xff ∷ [];
}

abbrev key : WorkId
key = record { address = some (49 ∷ [], 5683); token = 7 ∷ []; message_id = 9; block_id = none }

request-work_id : work_id request ≡ ok key
unfolding work_id get_block_id has
request-work_id = refl

request-encode : encode codec request ≡ ok (request.encoded, request)
unfolding encode
request-encode = refl

abbrev started : Transaction
started = new request 9 0

-- The clock at a time that no call moves.
abbrev at : ℕ → Readings
at n = record { at_test = n; at_span = n; at_reset = n }

-- Each reading lies behind the timeout that is then current.
abbrev silence : List Readings
silence = at 2001 ∷ at 6002 ∷ at 14003 ∷ at 30004 ∷ at 62005 ∷ []

poll-le_four_example :
    retransmissions (poll codec silence started).1 + started.retransmission_counter ≤ max_retransmit
unfolding new
poll-le_four_example = poll-le_four codec silence started (omega arith) refl

silence-AllExpire : AllExpire silence started
unfolding expire elapsed_time new
silence-AllExpire = (
  omega arith,
  omega arith,
  (
    omega arith,
    omega arith,
    (omega arith, omega arith, (omega arith, omega arith, (omega arith, omega arith, tt))),
  ),
)

poll-has_failed_example : has_failed (poll codec silence started).1 ≡ true
unfolding new
poll-has_failed_example =
    poll-has_failed codec silence started (new-OnSchedule request 9 0 refl) (omega arith)
      silence-AllExpire (omega arith)

abbrev one_running : Pool
one_running = record empty { transactions = (key, running started) ∷ [] }

finish_transaction_lem_example :
    (after : Pool) × (finish_transaction request 5 one_running ≡ ok after)
    × (is_transaction_finished request after ≡ ok true)
    × (get key after.transactions ≡ (if key =? key then none else get key one_running.transactions))
finish_transaction_lem_example =
    finish_transaction_lem request 5 one_running key key request-work_id

add_transaction_lem_example :
    (after : Pool) × (add_transaction codec request 9 0 empty
      ≡ ok (after, request, record { payload = request.encoded; to = request.sender_ip_port } ∷ []))
    × (get key after.transactions
        ≡ (if has key empty.finished then get key empty.transactions else some (running started)))
    × (after.finished ≡ empty.finished)
add_transaction_lem_example =
    add_transaction_lem codec request request 9 0 empty request.encoded key request-encode
      request-work_id

add-finish_transaction_example :
    (after : Pool) × ((finish_transaction request 5 empty >>= add_transaction codec request 9 6)
      ≡ ok (after, request, record { payload = request.encoded; to = request.sender_ip_port } ∷ []))
    × (get key after.transactions ≡ none)
add-finish_transaction_example =
    add-finish_transaction codec request request request 9 5 6 empty request.encoded key
      request-work_id request-encode request-work_id

-- After the failure another packet is finished; then another block of the same work is refused.
refused_since :
    Later
      (set_overall_transaction_failure request 5 one_running)
      (record (set_overall_transaction_failure request 5 one_running) {
        overall_finished = ((none, 8 ∷ []), 6) ∷ [];
      })
unfolding finish_overall_transaction set_overall_transaction_failure has put general_work_id
refused_since = finished_overall (record request { token = 8 ∷ []; sender_ip_port = none }) 6 now

handle_congestions-Later_example :
    handle_congestions
      (record request { message_id = 10 })
      false
      (record (set_overall_transaction_failure request 5 one_running) {
        overall_finished = ((none, 8 ∷ []), 6) ∷ [];
      })
      (3 ∷ 2 ∷ [])
    ≡ some true
handle_congestions-Later_example =
    handle_congestions-Later request (record request { message_id = 10 }) false 5 one_running
      (record (set_overall_transaction_failure request 5 one_running) {
        overall_finished = ((none, 8 ∷ []), 6) ∷ [];
      })
      (3 ∷ 2 ∷ []) refused_since (unfold general_work_id in refl)

-- A packet of another token, whose failure is cleaned.
abbrev other : Packet
other = record request { token = 8 ∷ [] }

abbrev stamped : Pool
stamped = record empty { transactions = (key, stamp 5) ∷ [] }

cleaned : clean_failed_transactions other 5 one_running ≡ ok stamped
unfolding clean_failed_transactions survivors work_id get_block_id has general_work_id new put
cleaned = refl

clean_failed_transactions-AllStamps_example : AllStamps stamped.transactions
clean_failed_transactions-AllStamps_example =
    clean_failed_transactions-AllStamps other 5 one_running stamped cleaned

solve_transactions-AllStamps_example :
    solve_transactions codec (λ k. at 9) stamped
    ≡ record { state = stamped; sent = []; ended = err attribute_error }
solve_transactions-AllStamps_example =
    solve_transactions-AllStamps codec (λ k. at 9) [] [] key stamped tt refl
      (unfold has in refl, unfold has in refl)

-- The thread finds the cleaned pool in its first round.
handle_transactions-gone_example :
    handle_transactions codec (λ i k. at 9) (λ i pool. pool) 0 4 stamped ≡ (stamped, [], false)
handle_transactions-gone_example =
    handle_transactions-gone codec (λ i k. at 9) (λ i pool. pool) 0 3 stamped [] [] key tt refl
      (unfold has in refl, unfold has in refl)

value_with-IsSendable_example :
    IsSendable codec (Templates.value_with success_changed (7 ∷ []) 70000 none)
    × (verify_format (Templates.value_with success_changed (7 ∷ []) 70000 none) ≡ true)
value_with-IsSendable_example =
    value_with-IsSendable codec success_changed (7 ∷ []) 70000 none (omega arith)
