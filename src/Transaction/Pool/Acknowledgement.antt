-- ===== src/Transaction/Pool/Acknowledgement.antt =====
-- An acknowledgement ends the retransmissions of its packet, whether it comes before or after the
-- packet is put into the pool.
use coap_share_drive.Base.{Bool-cases, inl, inr, ℕ, ◌≡◌, true, if◌then◌else◌, none, some, [], ◌∷◌}
use coap_share_drive.Base.Eq.{◌=?◌, =?_refl}
use coap_share_drive.Base.Outcome.{ok, ◌>>=◌}
use coap_share_drive.Base.Dict.{get, has, put, del, has-put, get-put, get-del_if_has}
use coap_share_drive.Packet.{Packet, WorkId, work_id}
use coap_share_drive.Packet.Keys.{work_id_eq, general_work_id_eq}
use coap_share_drive.Packet.Decode.{JsonCodec}
use coap_share_drive.Packet.Encode.{encode}
use coap_share_drive.Bytes.{Bytes}
use coap_share_drive.Transaction.{Transaction, new}
use coap_share_drive.Transaction.Pool.{
  Pool, running, add_transaction, finish_transaction, is_transaction_finished,
}

-- The pool once the packet with this key has been finished.
abbrev finish_key : WorkId → ℕ → Pool → Pool
finish_key key now pool = record pool {
  finished = put key now pool.finished;
  transactions = if has key pool.transactions then del key pool.transactions else pool.transactions;
}

-- Finishing marks the packet's key, takes its transaction out of the pool, and leaves every other
-- key's transaction alone.
pub finish_transaction_lem :
    (packet : Packet) (now : ℕ) (pool : Pool) (key other : WorkId)
    → work_id packet ≡ ok key
    → (after : Pool) × (finish_transaction packet now pool ≡ ok after)
      × (is_transaction_finished packet after ≡ ok true)
      × (get other after.transactions
          ≡ (if key =? other then none else get other pool.transactions))
unfolding finish_transaction is_transaction_finished
finish_transaction_lem packet now pool key other e = (
  finish_key key now pool,
  rw e,
  rw (e, has-put, =?_refl key),
  get-del_if_has key other pool.transactions,
)

-- Adding a packet sends its bytes and, while its key is not finished, puts a fresh transaction for
-- it under the key; once the key is finished, its transactions stay as they are.
pub add_transaction_lem :
    (json : JsonCodec) (packet sent : Packet) (parent now : ℕ) (pool : Pool) (bytes : Bytes)
    (key : WorkId)
    → encode json packet ≡ ok (bytes, sent)
    → work_id sent ≡ ok key
    → (after : Pool) × (add_transaction json packet parent now pool
        ≡ ok (after, sent, record { payload = bytes; to = packet.sender_ip_port } ∷ []))
      × (get key after.transactions ≡ (
          if has key pool.finished
          then get key pool.transactions
          else some (running (new sent parent now))))
      × (after.finished ≡ pool.finished)
unfolding add_transaction
add_transaction_lem json packet sent parent now pool bytes key e k =
    let t : Transaction = new sent parent now in
    (
      if has key pool.finished
          then pool
          else record pool { transactions = put key (running t) pool.transactions },
      rw (e, k),
      elim (Bool-cases (has key pool.finished)) [
        | inl h ↦ rw h
        | inr h ↦ rw (h, get-put, =?_refl key)
      ],
      elim (Bool-cases (has key pool.finished)) [ inl h ↦ rw h | inr h ↦ rw h ],
    )

-- An answer that comes before its packet is put into the pool is not lost: finishing and then adding
-- leaves no transaction under the packet's key.
pub add-finish_transaction :
    (json : JsonCodec) (answer packet sent : Packet) (parent now later : ℕ) (pool : Pool)
    (bytes : Bytes) (key : WorkId)
    → work_id answer ≡ ok key
    → encode json packet ≡ ok (bytes, sent)
    → work_id sent ≡ ok key
    → (after : Pool) × ((finish_transaction answer now pool
          >>= add_transaction json packet parent later)
        ≡ ok (after, sent, record { payload = bytes; to = packet.sender_ip_port } ∷ []))
      × (get key after.transactions ≡ none)
unfolding finish_transaction add_transaction
add-finish_transaction json answer packet sent parent now later pool bytes key a e k =
    (finish_key key now pool, rw (a, e, k, has-put, =?_refl key), rw (get-del_if_has, =?_refl key))
