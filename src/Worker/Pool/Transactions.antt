-- ===== src/Worker/Pool/Transactions.antt =====
-- coap_worker_pool.py, __handle_transactions: the thread that runs the transactions once a second.
use coap_share_drive.Base.{ap, ℕ, zero, suc, ◌≡◌, Bool, true, false, List, [], ◌∷◌, ◌++◌}
use coap_share_drive.Base.Outcome.{ok, err}
use coap_share_drive.Packet.{WorkId}
use coap_share_drive.Packet.Decode.{JsonCodec}
use coap_share_drive.Transaction.{Datagram, Readings}
use coap_share_drive.Transaction.Pool.{Pool, Pass, solve_transactions, keys_of}
use coap_share_drive.Transaction.Pool.Failure.{AllStamps, IsDue, solve_transactions-AllStamps}

-- The pool, what was sent, and whether the thread is still there.
abbrev pub Ran : Type 0
Ran = Pool × List Datagram × Bool

abbrev pub ran_before : List Datagram → Ran → Ran
ran_before sent (pool, more, there) = (pool, sent ++ more, there)

-- After a pass: the wrapper of the logger swallows an exception, and the thread is gone.
abbrev pub then_rounds : Pass → (Pool → Ran) → Ran
then_rounds pass later = elim pass.ended [
  | err e ↦ (pass.state, pass.sent, false)
  | ok _ ↦ ran_before pass.sent (later pass.state)
]

-- Rounds from the round `i` on. `meanwhile` is what the other threads do to the pool while the thread
-- waits.
unfoldable pub handle_transactions :
    JsonCodec → (ℕ → WorkId → Readings) → (ℕ → Pool → Pool) → ℕ → ℕ → Pool → Ran
handle_transactions json clock meanwhile i zero pool = (pool, [], true)
handle_transactions json clock meanwhile i (suc rounds) pool =
    then_rounds (solve_transactions json (clock i) (meanwhile i pool))
      (λ pool'. handle_transactions json clock meanwhile (suc i) rounds pool')

-- A thread that finds a pool whose values are all times, as the cleaning after a failure leaves it,
-- and one of its keys due, is gone: however many rounds there were to be, it sends nothing any more.
pub handle_transactions-gone :
    (json : JsonCodec) (clock : ℕ → WorkId → Readings) (meanwhile : ℕ → Pool → Pool) (i rounds : ℕ)
    (pool : Pool) (before after : List WorkId) (key : WorkId)
    → AllStamps (meanwhile i pool).transactions
    → keys_of (meanwhile i pool).transactions ≡ before ++ key ∷ after
    → IsDue (meanwhile i pool) key
    → handle_transactions json clock meanwhile i (suc rounds) pool ≡ (meanwhile i pool, [], false)
unfolding handle_transactions
handle_transactions-gone json clock meanwhile i rounds pool before after key h e due =
    ap
      (λ pass.
        then_rounds pass (λ pool'. handle_transactions json clock meanwhile (suc i) rounds pool'))
      (solve_transactions-AllStamps json (clock i) before after key (meanwhile i pool) h e due)
