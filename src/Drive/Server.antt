-- ===== src/Drive/Server.antt =====
-- share_drive/share_drive_server/server.py: the server hands each datagram to the process of its
-- sender. The sockets, the processes and the end by an exception are left out.
use coap_share_drive.Base.{
  ◌≡◌, refl, inl, inr, false, if◌then◌else◌, Option, none, some, List, [], ◌∷◌, ◌++◌, Bool-cases,
  Option-cases, subst, append_assoc, append-nil, ap, sym, ◌∙◌,
}
use coap_share_drive.Base.Eq.{nat_eq, list_eq, pair_eq, ◌=?◌, =?_refl}
use coap_share_drive.Base.Dict.{Dict, get, has, put, get-put, has-get}
use coap_share_drive.Bytes.{Bytes}
use coap_share_drive.Packet.{Address}

-- _processes_queues: what has been put into the queue of each address, and with it a process.
abbrev pub Queues : Type 0
Queues = Dict Address (List (Bytes × Address))

-- What one datagram does: a process with an empty queue for a new address, then the datagram in the
-- queue of its address.
abbrev pub with_queue : Address → Queues → Queues
with_queue address queues = if has address queues then queues else put address [] queues

abbrev pub or_empty : Option (List (Bytes × Address)) → List (Bytes × Address)
or_empty none = []
or_empty (some queue) = queue

abbrev pub queue_of : Address → Queues → List (Bytes × Address)
queue_of address queues = or_empty (get address queues)

unfoldable pub put_datagram : Bytes × Address → Queues → Queues
put_datagram (data_bytes, address) queues =
    let queues' = with_queue address queues in
    put address (queue_of address queues' ++ (data_bytes, address) ∷ []) queues'

-- The loop of listen over the datagrams that arrive.
unfoldable pub listen : List (Bytes × Address) → Queues → Queues
listen [] queues = queues
listen (d ∷ ds) queues = listen ds (put_datagram d queues)

-- The datagrams of one address, in their order.
abbrev pub sent_by : Address → List (Bytes × Address) → List (Bytes × Address)
sent_by address [] = []
sent_by address (d ∷ ds) = if d.1 =? address then d ∷ sent_by address ds else sent_by address ds

-- A queue with more datagrams; there is none while there are no datagrams.
abbrev pub extended :
    Option (List (Bytes × Address)) → List (Bytes × Address) → Option (List (Bytes × Address))
extended (some queue) ds = some (queue ++ ds)
extended none [] = none
extended none (d ∷ ds) = some (d ∷ ds)

put_datagram-other :
    (d : Bytes × Address) (address : Address) (queues : Queues)
    → (d.1 =? address) ≡ false
    → get address (put_datagram d queues) ≡ get address queues
unfolding put_datagram
put_datagram-other (b, a) address queues other = elim (Bool-cases (has a queues)) [
  | inl there ↦ rw (there, get-put, other) refl
  | inr new ↦ rw (new, get-put, other, get-put, other) refl
]

put_datagram-same :
    (d : Bytes × Address) (queues : Queues)
    → get d.1 (put_datagram d queues) ≡ extended (get d.1 queues) (d ∷ [])
unfolding put_datagram
put_datagram-same (b, a) queues = elim (Option-cases (get a queues)) [
  | inl absent ↦
      let fresh : get a (put a [] queues) ≡ some [] = get-put a a [] queues ∙ rw (=?_refl a) refl in
      rw (has-get a queues, absent, get-put, =?_refl a)
        (ap (λ o. some (or_empty o ++ (b, a) ∷ [])) fresh)
  | inr (queue, there) ↦
      rw (has-get a queues, there, get-put, =?_refl a)
        (ap (λ o. some (or_empty o ++ (b, a) ∷ [])) there)
]

unextended : (o : Option (List (Bytes × Address))) → o ≡ extended o []
unextended none = refl
unextended (some queue) = ap some (sym (append-nil queue))

-- One datagram, as the queue of an address sees it.
put_datagram-extended :
    (d : Bytes × Address) (address : Address) (queues : Queues)
    → get address (put_datagram d queues) ≡ extended (get address queues) (sent_by address (d ∷ []))
put_datagram-extended d address queues = elim (Bool-cases (d.1 =? address)) [
  | inl same ↦
      let e : d.1 ≡ address = (pair_eq.beq_iff d.1 address).0 same in
      rw same (
        subst (λ b. get b (put_datagram d queues) ≡ extended (get b queues) (d ∷ [])) e
          (put_datagram-same d queues))
  | inr other ↦
      rw other (put_datagram-other d address queues other ∙ unextended (get address queues))
]

extended-append :
    (o : Option (List (Bytes × Address))) (ds es : List (Bytes × Address))
    → extended (extended o ds) es ≡ extended o (ds ++ es)
extended-append (some queue) ds es = ap some (append_assoc queue ds es)
extended-append none [] [] = refl
extended-append none [] (e ∷ es) = refl
extended-append none (d ∷ ds) es = refl

-- The process of an address gets the datagrams of that address, all of them, in the order in which they
-- arrive, and no others, whatever arrives from other addresses in between; an address from which
-- nothing comes has no process.
pub listen-sent_by :
    (ds : List (Bytes × Address)) (address : Address) (queues : Queues)
    → get address (listen ds queues) ≡ extended (get address queues) (sent_by address ds)
unfolding listen
listen-sent_by [] address queues = unextended (get address queues)
listen-sent_by (d ∷ ds) address queues =
    listen-sent_by ds address (put_datagram d queues)
    ∙ ap (λ o. extended o (sent_by address ds)) (put_datagram-extended d address queues)
    ∙ extended-append (get address queues) (sent_by address (d ∷ [])) (sent_by address ds)
    ∙ ap (extended (get address queues)) (sent_by-cons d ds)
  where
    sent_by-cons :
        (d : Bytes × Address) (ds : List (Bytes × Address))
        → sent_by address (d ∷ []) ++ sent_by address ds ≡ sent_by address (d ∷ ds)
    sent_by-cons d ds = elim (Bool-cases (d.1 =? address)) [
      | inl same ↦ rw same refl
      | inr other ↦ rw other refl
    ]
