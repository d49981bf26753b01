-- ===== src/Transaction/Pool/Refused.antt =====
-- A failure that is recorded in the pool stays there.
use coap_share_drive.Base.{
  ℕ, ◌≡◌, refl, inl, inr, Bool, true, false, Bool-cases, Option-cases, some, List, [], ◌∷◌, length,
  ◌==◌, not, ◌&&◌,
}
use coap_share_drive.Base.Eq.{◌=?◌, =?_refl, nat_eq}
use coap_share_drive.Base.Outcome.{ok, err, Outcome, Outcome-cases}
use coap_share_drive.Base.Dict.{get, has, has-put}
use coap_share_drive.Packet.{Packet, WorkId, GeneralWorkId, general_work_id, work_id}
use coap_share_drive.Packet.Keys.{work_id_eq, general_work_id_eq}
use coap_share_drive.Packet.Decode.{JsonCodec}
use coap_share_drive.Packet.Encode.{encode}
use coap_share_drive.Transaction.{
  Transaction, Readings, Datagram, Status, no_action, retransmission, failed_transaction,
  run_transaction,
}
use coap_share_drive.Transaction.Pool.{
  Pool, Pass, running, stamp, clean_failed_transactions, survivors, keys_of, identifier, react,
  count_retransmission, set_overall_transaction_failure, solve_key, solve_keys, go_on,
  solve_transactions, handle_congestions, is_overall_transaction_failed, add_transaction,
  finish_transaction, finish_overall_transaction,
}

-- A failure of this work has been recorded.
abbrev pub HasFailed : GeneralWorkId → Pool → Type 0
HasFailed work pool = has work pool.failed ≡ true

-- What the methods of the pool make of it, one after the other.
pub data Later : Pool → Pool → Type 0 where
  now : {pool : Pool} → Later pool pool
  added :
      {pool between later : Pool} (json : JsonCodec) (packet sent : Packet) (parent at : ℕ)
      (datagrams : List Datagram)
      → add_transaction json packet parent at pool ≡ ok (between, sent, datagrams)
      → Later between later
      → Later pool later
  finished :
      {pool between later : Pool} (packet : Packet) (at : ℕ)
      → finish_transaction packet at pool ≡ ok between
      → Later between later
      → Later pool later
  finished_overall :
      {pool later : Pool} (packet : Packet) (at : ℕ)
      → Later (finish_overall_transaction packet at pool) later
      → Later pool later
  failed :
      {pool later : Pool} (packet : Packet) (at : ℕ)
      → Later (set_overall_transaction_failure packet at pool) later
      → Later pool later
  solved :
      {pool later : Pool} (json : JsonCodec) (clock : WorkId → Readings)
      → Later (solve_transactions json clock pool).state later
      → Later pool later

module _ (work : GeneralWorkId) where
  failure-HasFailed :
      (packet : Packet) (at : ℕ) (pool : Pool)
      → HasFailed work pool
      → HasFailed work (set_overall_transaction_failure packet at pool)
  unfolding set_overall_transaction_failure
  failure-HasFailed packet at pool h = elim (Bool-cases (general_work_id packet =? work)) [
    | inl e ↦ rw (has-put, e) refl
    | inr e ↦ rw (has-put, e) h
  ]

  clean-HasFailed :
      (packet : Packet) (at : ℕ) (pool after : Pool)
      → clean_failed_transactions packet at pool ≡ ok after
      → HasFailed work pool
      → HasFailed work after
  unfolding clean_failed_transactions
  clean-HasFailed packet at pool after e h =
      elim (Outcome-cases (survivors (general_work_id packet) at pool.transactions [])) [
        | inl (kept, k) ↦ cc (rw k at e, h)
        | inr (x, k) ↦ absurd (cc (rw k at e))
      ]

  react-HasFailed :
      (key : WorkId) (t : Transaction) (status : Status) (at : ℕ) (pool : Pool)
      → HasFailed work pool
      → HasFailed work (react key t status at pool).0
  unfolding react count_retransmission
  react-HasFailed key t no_action at pool h = h
  react-HasFailed key t retransmission at pool h = h
  react-HasFailed key t failed_transaction at pool h =
      let marked : Pool = set_overall_transaction_failure t.request at pool in
      let m : HasFailed work marked = failure-HasFailed t.request at pool h in
      elim (Outcome-cases (clean_failed_transactions t.request at marked)) [
        | inl (after, e) ↦ rw (e, react) (clean-HasFailed t.request at marked after e m)
        | inr (x, e) ↦ rw (e, react) m
      ]

  solve_key-HasFailed :
      (json : JsonCodec) (clock : WorkId → Readings) (key : WorkId) (pool : Pool)
      → HasFailed work pool
      → HasFailed work (solve_key json clock key pool).0
  unfolding solve_key
  solve_key-HasFailed json clock key pool h = elim (Option-cases (get key pool.transactions)) [
    | inl e ↦ rw (e, solve_key) h
    | inr (stamp s, e) ↦ rw (e, solve_key) h
    | inr (running t, e) ↦ elim (Outcome-cases (run_transaction json (clock key) t).1) [
      | inr (x, r) ↦ rw (e, r, solve_key) h
      | inl ((status, sent), r) ↦
          rw (e, r, solve_key) (react-HasFailed key _ status (clock key).at_reset _ h)
    ]
  ]

  go_on-HasFailed :
      (r : Pool × List Datagram × Outcome Bool) (sent : List Datagram)
      (rest : Pool → List Datagram → Pass)
      → HasFailed work r.0
      → ((pool : Pool) (sent : List Datagram)
          → HasFailed work pool
          → HasFailed work (rest pool sent).state)
      → HasFailed work (go_on r sent rest).state
  unfolding go_on
  go_on-HasFailed (pool, more, err e) sent rest h k = h
  go_on-HasFailed (pool, more, ok false) sent rest h k = h
  go_on-HasFailed (pool, more, ok true) sent rest h k = k pool _ h

  solve_keys-HasFailed :
      (json : JsonCodec) (clock : WorkId → Readings) (keys : List WorkId) (pool : Pool)
      (sent : List Datagram)
      → HasFailed work pool
      → HasFailed work (solve_keys json clock keys pool sent).state
  unfolding solve_keys
  solve_keys-HasFailed json clock [] pool sent h = h
  solve_keys-HasFailed json clock (key ∷ keys) pool sent h =
      elim (Bool-cases (not (has (identifier key) pool.failed) && not (has key pool.finished))) [
        | inl e ↦
            rw (e, solve_keys)
              (go_on-HasFailed (solve_key json clock key pool) sent (solve_keys json clock keys)
                (solve_key-HasFailed json clock key pool h)
                (λ pool' sent' k. solve_keys-HasFailed json clock keys pool' sent' k))
        | inr e ↦ rw (e, solve_keys) (solve_keys-HasFailed json clock keys pool sent h)
      ]

  solve_transactions-HasFailed :
      (json : JsonCodec) (clock : WorkId → Readings) (pool : Pool)
      → HasFailed work pool
      → HasFailed work (solve_transactions json clock pool).state
  unfolding solve_transactions
  solve_transactions-HasFailed json clock pool h =
      let k = solve_keys-HasFailed json clock (keys_of pool.transactions) pool [] h in
      elim (Bool-cases (length pool.transactions == 0)) [
        | inl e ↦ rw (e, solve_transactions) h
        | inr e ↦
            elim (Outcome-cases (solve_keys json clock (keys_of pool.transactions) pool []).ended) [
              | inl (u, q) ↦ rw (e, q, solve_transactions) k
              | inr (x, q) ↦ rw (e, q, solve_transactions) k
            ]
      ]

  add_transaction-HasFailed :
      (json : JsonCodec) (packet sent : Packet) (parent at : ℕ) (pool after : Pool)
      (datagrams : List Datagram)
      → add_transaction json packet parent at pool ≡ ok (after, sent, datagrams)
      → HasFailed work pool
      → HasFailed work after
  unfolding add_transaction
  add_transaction-HasFailed json packet sent parent at pool after datagrams e h =
      elim (Outcome-cases (encode json packet)) [
        | inr (x, k) ↦ absurd (cc (rw k at e))
        | inl ((bytes, q), k) ↦ elim (Outcome-cases (work_id q)) [
          | inr (x, w) ↦ absurd (cc (rw (k, w) at e))
          | inl (key, w) ↦ elim (Bool-cases (has key pool.finished)) [
            | inl there ↦ cc (rw (k, w, there) at e, h)
            | inr missing ↦ cc (rw (k, w, missing) at e, h)
          ]
        ]
      ]

  finish_transaction-HasFailed :
      (packet : Packet) (at : ℕ) (pool after : Pool)
      → finish_transaction packet at pool ≡ ok after
      → HasFailed work pool
      → HasFailed work after
  unfolding finish_transaction
  finish_transaction-HasFailed packet at pool after e h = elim (Outcome-cases (work_id packet)) [
    | inl (key, k) ↦ cc (rw k at e, h)
    | inr (x, k) ↦ absurd (cc (rw k at e))
  ]

  finish_overall_transaction-HasFailed :
      (packet : Packet) (at : ℕ) (pool : Pool)
      → HasFailed work pool
      → HasFailed work (finish_overall_transaction packet at pool)
  unfolding finish_overall_transaction
  finish_overall_transaction-HasFailed packet at pool h =
      elim (Bool-cases (has (general_work_id packet) pool.overall_finished)) [
        | inl e ↦ rw e h
        | inr e ↦ rw e h
      ]

  Later-HasFailed :
      {pool later : Pool} → Later pool later → HasFailed work pool → HasFailed work later
  Later-HasFailed now h = h
  Later-HasFailed (added {pool} {between} json packet sent parent at datagrams e l) h =
      Later-HasFailed l
        (add_transaction-HasFailed json packet sent parent at pool between datagrams e h)
  Later-HasFailed (finished {pool} {between} packet at e l) h =
      Later-HasFailed l (finish_transaction-HasFailed packet at pool between e h)
  Later-HasFailed (finished_overall {pool} packet at l) h =
      Later-HasFailed l (finish_overall_transaction-HasFailed packet at pool h)
  Later-HasFailed (failed {pool} packet at l) h =
      Later-HasFailed l (failure-HasFailed packet at pool h)
  Later-HasFailed (solved {pool} json clock l) h =
      Later-HasFailed l (solve_transactions-HasFailed json clock pool h)

-- Once a failure has been recorded for an address and token, and whatever the methods of the pool have
-- made of it since, the congestion check refuses every packet with the two, at once, whatever the load
-- and whether or not the packet is the last.
pub handle_congestions-Later :
    (packet other : Packet) (last : Bool) (at : ℕ) (pool later : Pool) (lengths : List ℕ)
    → Later (set_overall_transaction_failure packet at pool) later
    → general_work_id other ≡ general_work_id packet
    → handle_congestions other last later lengths ≡ some true
unfolding handle_congestions is_overall_transaction_failed set_overall_transaction_failure
handle_congestions-Later packet other last at pool later lengths l same =
    let recorded : HasFailed (general_work_id packet)
        (set_overall_transaction_failure packet at pool) =
      rw (has-put, =?_refl (general_work_id packet)) refl in
    let stays : HasFailed (general_work_id packet) later =
      Later-HasFailed (general_work_id packet) l recorded in
    rw (same, stays) refl
