-- ===== src/Transaction/Pool.antt =====
-- coap_core/coap_transaction/coap_transaction_pool.py: all transactions that wait for an answer. A
-- method gets the clock's readings and the datagrams it sends are in its result.
pub mod Acknowledgement
pub mod Failure
pub mod Refused
use coap_share_drive.Base.{
  ℕ, ◌+◌, Bool, true, false, not, ◌||◌, ◌&&◌, leb, ◌==◌, if◌then◌else◌, Option, none, some, List,
  [], ◌∷◌, ◌++◌, length, map,
}
use coap_share_drive.Base.Eq.{◌=?◌}
use coap_share_drive.Base.Outcome.{
  Outcome, Exc, ok, err, attribute_error, key_error, ◌>>=◌, or_raise,
}
use coap_share_drive.Base.Dict.{Dict, get, has, put, del}
use coap_share_drive.Packet.{Packet, WorkId, GeneralWorkId, work_id, general_work_id}
use coap_share_drive.Packet.Keys.{work_id_eq, general_work_id_eq}
use coap_share_drive.Packet.Decode.{JsonCodec}
use coap_share_drive.Packet.Encode.{encode}
use coap_share_drive.Transaction.{
  Transaction, Readings, Datagram, Status, no_action, retransmission, failed_transaction, new,
  run_transaction, concurrent_transactions,
}

-- What __transaction_dict holds: a transaction, or the time that clean_failed_transactions puts in
-- its place.
pub data Entry : Type 0 where
  running : Transaction → Entry
  stamp : ℕ → Entry

pub record Pool : Type 0 where
  pub overall_finished : Dict GeneralWorkId ℕ
  pub finished : Dict WorkId ℕ
  pub failed : Dict GeneralWorkId ℕ
  pub transactions : Dict WorkId Entry
  pub retransmissions : Dict GeneralWorkId ℕ

abbrev pub empty : Pool
empty = record {
  overall_finished = [];
  finished = [];
  failed = [];
  transactions = [];
  retransmissions = [];
}

unfoldable pub is_overall_transaction_failed : Packet → Pool → Bool
is_overall_transaction_failed packet pool = has (general_work_id packet) pool.failed

-- `while test(len(self.__transaction_dict)): pass`, as the lengths that other threads bring about
-- while it spins; none if it still spins when the list ends.
unfoldable pub spin_while : (ℕ → Bool) → List ℕ → Option (List ℕ)
spin_while test [] = none
spin_while test (n ∷ later) = if test n then spin_while test later else some later

-- handle_congestions. The answer is none while it waits.
unfoldable pub handle_congestions : Packet → Bool → Pool → List ℕ → Option Bool
unfolding spin_while is_overall_transaction_failed
handle_congestions packet last_packet pool lengths =
    if is_overall_transaction_failed packet pool
    then some true
    else (elim (spin_while (λ n. leb concurrent_transactions n) lengths) [
      | none ↦ none
      | some later ↦
          if last_packet
          then (elim (spin_while (λ n. not (n == 0)) later) [ none ↦ none | some _ ↦ some false ])
          else some false
    ])

-- add_transaction: the packet is sent, then put under its key unless that is finished already.
unfoldable pub add_transaction :
    JsonCodec → Packet → ℕ → ℕ → Pool → Outcome (Pool × Packet × List Datagram)
add_transaction json packet parent_msg_id now pool = do
  (bytes, sent) ← encode json packet
  key ← work_id sent
  let transaction = new sent parent_msg_id now
  let pool' =
      (if has key pool.finished
        then pool
        else record pool { transactions = put key (running transaction) pool.transactions })
  ok (pool', sent, record { payload = bytes; to = packet.sender_ip_port } ∷ [])

unfoldable pub finish_transaction : Packet → ℕ → Pool → Outcome Pool
finish_transaction packet now pool = do
  key ← work_id packet
  ok (record pool {
    finished = put key now pool.finished;
    transactions =
        if has key pool.transactions then del key pool.transactions else pool.transactions;
  })

unfoldable pub is_transaction_finished : Packet → Pool → Outcome Bool
is_transaction_finished packet pool = do key ← work_id packet; ok (has key pool.finished)

unfoldable pub finish_overall_transaction : Packet → ℕ → Pool → Pool
finish_overall_transaction packet now pool =
    if not (has (general_work_id packet) pool.overall_finished)
    then record pool { overall_finished = put (general_work_id packet) now pool.overall_finished }
    else pool

-- `while … not in self.__overall_finished_transactions: time.sleep(0.5)`, over the pools it finds.
unfoldable pub wait_util_finish : Packet → List Pool → Bool
wait_util_finish packet [] = false
wait_util_finish packet (pool ∷ later) =
    if not (has (general_work_id packet) pool.overall_finished)
    then wait_util_finish packet later
    else true

unfoldable pub set_overall_transaction_failure : Packet → ℕ → Pool → Pool
set_overall_transaction_failure packet now pool = record pool {
  failed = put (general_work_id packet) now pool.failed;
}

-- The comprehension of clean_failed_transactions, over the values of the dict. A time has no
-- attribute `request`.
unfoldable pub survivors :
    GeneralWorkId → ℕ → Dict WorkId Entry → Dict WorkId Entry → Outcome (Dict WorkId Entry)
survivors failed now [] kept = ok kept
survivors failed now ((key, stamp s) ∷ entries) kept = err attribute_error
survivors failed now ((key, running t) ∷ entries) kept =
    let keep = (do k ← work_id t.request; survivors failed now entries (put k (stamp now) kept)) in
    let skip = survivors failed now entries kept in
    if not (general_work_id t.request =? failed) then keep else skip

unfoldable pub clean_failed_transactions : Packet → ℕ → Pool → Outcome Pool
unfolding survivors
clean_failed_transactions packet now pool = do
  kept ← survivors (general_work_id packet) now pool.transactions []
  ok (record pool { transactions = kept })

unfoldable pub get_number_of_retransmissions : Packet → Pool → ℕ
get_number_of_retransmissions packet pool =
    elim (get (general_work_id packet) pool.retransmissions) [ none ↦ 0 | some n ↦ n ]

-- `(key[0], key[1])`
abbrev pub identifier : WorkId → GeneralWorkId
identifier key = (key.address, key.token)

unfoldable pub count_retransmission : WorkId → Pool → Pool
count_retransmission key pool = record pool {
  retransmissions =
      put (identifier key)
        (elim (get (identifier key) pool.retransmissions) [ none ↦ 1 | some n ↦ n + 1 ])
        pool.retransmissions;
}

-- What a round of the loop does with the status: the pool, and whether the loop goes on. The
-- transaction has been changed in place.
unfoldable pub react : WorkId → Transaction → Status → ℕ → Pool → Pool × Outcome Bool
unfolding count_retransmission set_overall_transaction_failure
react key t no_action now pool = (pool, ok true)
react key t retransmission now pool = (count_retransmission key pool, ok true)
react key t failed_transaction now pool =
    let marked = set_overall_transaction_failure t.request now pool in
    elim (clean_failed_transactions t.request now marked) [
      | err e ↦ (marked, err e)
      | ok cleaned ↦ (cleaned, ok false)
    ]

-- The pool and the datagrams so far, and how the loop ended; `state` is what an exception leaves.
pub record Pass : Type 0 where
  pub state : Pool
  pub sent : List Datagram
  pub ended : Outcome (Unit {0})

-- One key of the loop: run its transaction. The pool, what was sent, and whether the loop goes on.
unfoldable pub solve_key :
    JsonCodec → (WorkId → Readings) → WorkId → Pool → Pool × List Datagram × Outcome Bool
solve_key json clock key pool = elim (get key pool.transactions) [
  | none ↦ (pool, [], err key_error)
  | some (stamp s) ↦ (pool, [], err attribute_error)
  | some (running t) ↦
      (let (t', result) = run_transaction json (clock key) t in
        let pool' = record pool { transactions = put key (running t') pool.transactions } in
        elim result [
          | err e ↦ (pool', [], err e)
          | ok (status, sent) ↦
              (let (pool'', on) = react key t' status (clock key).at_reset pool' in
                (pool'', sent, on))
        ])
]

-- How the loop goes on after a key: by the rest of the loop, a break, or the exception.
unfoldable pub go_on :
    Pool × List Datagram × Outcome Bool → List Datagram → (Pool → List Datagram → Pass) → Pass
go_on (pool, more, err e) sent rest = record { state = pool; sent = sent ++ more; ended = err e }
go_on (pool, more, ok false) sent rest = record { state = pool; sent = sent ++ more; ended = ok tt }
go_on (pool, more, ok true) sent rest = rest pool (sent ++ more)

-- The loop over the copy of the keys; a key whose work is failed or finished is passed over.
unfoldable pub solve_keys :
    JsonCodec → (WorkId → Readings) → List WorkId → Pool → List Datagram → Pass
unfolding go_on
solve_keys json clock [] pool sent = record { state = pool; sent = sent; ended = ok tt }
solve_keys json clock (key ∷ keys) pool sent =
    let skip = solve_keys json clock keys pool sent in
    let run = go_on (solve_key json clock key pool) sent (solve_keys json clock keys) in
    if not (has (identifier key) pool.failed) && not (has key pool.finished) then run else skip

-- `self.__finished_transactions.clear()`, which an exception skips
abbrev clear_finished : Pass → Pass
clear_finished pass = elim pass.ended [
  | ok u ↦ record pass { state = record pass.state { finished = [] } }
  | err e ↦ pass
]

abbrev pub keys_of : Dict WorkId Entry → List WorkId
keys_of d = map (λ e. e.0) d

unfoldable pub solve_transactions : JsonCodec → (WorkId → Readings) → Pool → Pass
solve_transactions json clock pool =
    if not (length pool.transactions == 0)
    then clear_finished (solve_keys json clock (keys_of pool.transactions) pool [])
    else record { state = pool; sent = []; ended = ok tt }
