-- ===== src/Transaction/Pool/Failure.antt =====
-- A failed transaction, and what clean_failed_transactions leaves of the others.
use coap_share_drive.Base.{
  ℕ, ◌≡◌, inl, inr, Bool, true, false, not, ◌&&◌, some, List, [], ◌∷◌, ◌++◌, arith, Bool-cases, All,
  All-mono, subst, length, ◌==◌,
}
use coap_share_drive.Base.Eq.{◌=?◌, =?_refl}
use coap_share_drive.Base.Outcome.{ok, err, Exc, attribute_error, Outcome-cases}
use coap_share_drive.Base.Dict.{Dict, get, has, put, has-put}
use coap_share_drive.Packet.{Packet, WorkId, GeneralWorkId, work_id, general_work_id}
use coap_share_drive.Packet.Keys.{work_id_eq, general_work_id_eq}
use coap_share_drive.Packet.Decode.{JsonCodec}
use coap_share_drive.Transaction.{Readings, Datagram}
use coap_share_drive.Transaction.Pool.{
  Pool, Entry, running, stamp, clean_failed_transactions, survivors, keys_of, identifier,
  set_overall_transaction_failure, solve_key, solve_keys, solve_transactions, handle_congestions,
}

-- Where a failure has just been recorded, the congestion check refuses a packet with the same address
-- and token.
pub handle_congestions-failed :
    (packet other : Packet) (last : Bool) (now : ℕ) (pool : Pool) (lengths : List ℕ)
    → general_work_id other ≡ general_work_id packet
    → handle_congestions other last (set_overall_transaction_failure packet now pool) lengths
      ≡ some true
unfolding handle_congestions set_overall_transaction_failure
handle_congestions-failed packet other last now pool lengths e =
    rw (e, has-put, =?_refl (general_work_id packet))

-- Every value is a time.
abbrev pub AllStamps : Dict WorkId Entry → Type 0
AllStamps [] = Unit {0}
AllStamps ((key, running t) ∷ d) = ⊥
AllStamps ((key, stamp s) ∷ d) = AllStamps d

put-AllStamps :
    (key : WorkId) (s : ℕ) (d : Dict WorkId Entry) → AllStamps d → AllStamps (put key (stamp s) d)
unfolding put
put-AllStamps key s [] h = tt
put-AllStamps key s ((k, running t) ∷ d) h = absurd h
put-AllStamps key s ((k, stamp r) ∷ d) h = ground (arith, put-AllStamps key s d h)

survivors-AllStamps :
    (failed : GeneralWorkId) (now : ℕ) (entries kept out : Dict WorkId Entry)
    → AllStamps kept
    → survivors failed now entries kept ≡ ok out
    → AllStamps out
unfolding survivors
survivors-AllStamps failed now [] kept out h e = ground arith
survivors-AllStamps failed now ((k, stamp s) ∷ entries) kept out h e = cc
survivors-AllStamps failed now ((k, running t) ∷ entries) kept out h e =
    elim (Bool-cases (general_work_id t.request =? failed)) [
      | inl same ↦ survivors-AllStamps failed now entries kept out h (rw same at e)
      | inr other ↦ elim (Outcome-cases (work_id t.request)) [
        | inl (key, w) ↦
            survivors-AllStamps failed now entries (put key (stamp now) kept) out
              (put-AllStamps key now kept h) (rw (other, w) at e)
        | inr (x, w) ↦ absurd (err≢ok (rw (other, w) at e))
      ]
    ]
  where
    err≢ok : {x : Exc} {d : Dict WorkId Entry} → err x ≡ ok d → ⊥
    err≢ok p = cc

-- Cleaning puts times in the place of the transactions that it keeps: no transaction is left in the
-- pool, whether or not its work has failed.
pub clean_failed_transactions-AllStamps :
    (packet : Packet) (now : ℕ) (pool after : Pool)
    → clean_failed_transactions packet now pool ≡ ok after
    → AllStamps after.transactions
unfolding clean_failed_transactions
clean_failed_transactions-AllStamps packet now pool after e =
    elim (Outcome-cases (survivors (general_work_id packet) now pool.transactions [])) [
      | inl (kept, w) ↦
          subst (λ p. AllStamps p.transactions) (same (rw w at e))
            (survivors-AllStamps (general_work_id packet) now pool.transactions [] kept tt w)
      | inr (x, w) ↦ absurd (refused (rw w at e))
    ]
  where
    same : {p q : Pool} → ok p ≡ ok q → p ≡ q
    same h = cc

    refused : {x : Exc} {q : Pool} → err x ≡ ok q → ⊥
    refused p = cc

stamp_at :
    (key : WorkId) (d : Dict WorkId Entry)
    → AllStamps d
    → has key d ≡ true
    → (s : ℕ) × (get key d ≡ some (stamp s))
unfolding get has
stamp_at key [] h e = absurd (ground arith)
stamp_at key ((k, running t) ∷ d) h e = absurd h
stamp_at key ((k, stamp s) ∷ d) h e = elim (Bool-cases (k =? key)) [
  | inl hit ↦ (s, rw hit)
  | inr miss ↦ let (r, found) = stamp_at key d h (rw miss at e) in (r, rw miss found)
]

-- A key that the pass does not pass over.
abbrev pub IsDue : Pool → WorkId → Type 0
IsDue pool key = (has (identifier key) pool.failed ≡ false) × (has key pool.finished ≡ false)

solve_key-stamp :
    (json : JsonCodec) (clock : WorkId → Readings) (key : WorkId) (pool : Pool)
    → AllStamps pool.transactions
    → has key pool.transactions ≡ true
    → solve_key json clock key pool ≡ (pool, [], err attribute_error)
unfolding solve_key
solve_key-stamp json clock key pool h here =
    let (s, e) = stamp_at key pool.transactions h here in rw (e, solve_key)

solve_keys-stamps :
    (json : JsonCodec) (clock : WorkId → Readings) (before after : List WorkId) (key : WorkId)
    (pool : Pool) (sent : List Datagram)
    → AllStamps pool.transactions
    → All (λ k. has k pool.transactions ≡ true) (before ++ key ∷ after)
    → IsDue pool key
    → solve_keys json clock (before ++ key ∷ after) pool sent
      ≡ record { state = pool; sent = sent ++ []; ended = err attribute_error }
unfolding solve_keys
solve_keys-stamps json clock [] after key pool sent h all due =
    let e : solve_key json clock key pool ≡ (pool, [], err attribute_error) =
      solve_key-stamp json clock key pool h all.0 in
    rw (e, due.0, due.1)
solve_keys-stamps json clock (k ∷ before) after key pool sent h all due =
    elim (Bool-cases (not (has (identifier k) pool.failed) && not (has k pool.finished))) [
      | inl run ↦ rw (solve_key-stamp json clock k pool h all.0, run)
      | inr skip ↦ rw skip (solve_keys-stamps json clock before after key pool sent h all.1 due)
    ]

keys_of-has : (d : Dict WorkId Entry) → All (λ k. has k d ≡ true) (keys_of d)
unfolding has
keys_of-has [] = tt
keys_of-has ((k, v) ∷ d) = (
  rw (=?_refl k),
  All-mono (keys_of d) (λ j h. elim (Bool-cases (k =? j)) [ inl e ↦ rw e | inr e ↦ rw e h ])
      (keys_of-has d),
)

not_empty :
    (d : Dict WorkId Entry) (before after : List WorkId) (key : WorkId)
    → keys_of d ≡ before ++ key ∷ after
    → (length d == 0) ≡ false
not_empty [] [] after key e = absurd (ground arith)
not_empty [] (k ∷ before) after key e = absurd (ground arith)
not_empty (x ∷ d) before after key e = ground arith

-- The pass over a pool whose values are all times ends at the first key that is due, with an
-- AttributeError: it sends nothing and leaves the pool as it was, the finished transactions too.
pub solve_transactions-AllStamps :
    (json : JsonCodec) (clock : WorkId → Readings) (before after : List WorkId) (key : WorkId)
    (pool : Pool)
    → AllStamps pool.transactions
    → keys_of pool.transactions ≡ before ++ key ∷ after
    → IsDue pool key
    → solve_transactions json clock pool
      ≡ record { state = pool; sent = []; ended = err attribute_error }
unfolding solve_transactions
solve_transactions-AllStamps json clock before after key pool h e due =
    let pass : solve_keys json clock (keys_of pool.transactions) pool []
        ≡ record { state = pool; sent = []; ended = err attribute_error } =
      rw e (
        solve_keys-stamps json clock before after key pool [] h
          (subst (All (λ k. has k pool.transactions ≡ true)) e (keys_of-has pool.transactions))
          due) in
    rw (not_empty pool.transactions before after key e) (rw pass)
