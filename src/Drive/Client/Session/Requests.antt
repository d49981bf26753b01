-- ===== src/Drive/Client/Session/Requests.antt =====
-- client.py and coap_config.py: what a request of the client does with the tokens of gen_token.
use coap_share_drive.Base.{
  ℕ, suc, ◌<◌, ◌≤◌, ◌≡◌, ◌≢◌, refl, inl, inr, Bool-cases, none, some, List, arith, sym, ◌∙◌,
}
use native.Mathlib.Decide.{dec_lt}
use coap_share_drive.Base.Outcome.{Outcome, ok, err, overflow_error}
use coap_share_drive.Config.Token.{gen_token, gen_token-overflow}
use coap_share_drive.Packet.{Packet, Address}
use coap_share_drive.Packet.Value.{is_empty}
use coap_share_drive.Packet.Decode.{JsonCodec}
use coap_share_drive.Transaction.{Datagram}
use coap_share_drive.Transaction.Pool.{Pool, wait_util_finish}
use coap_share_drive.Worker.Pool.{WorkerPool, handle_internal_task}
use coap_share_drive.Drive.Assembler.{Assembler}
use coap_share_drive.Drive.Assembler.Paths.{get_content}
use coap_share_drive.Drive.Client.{Client, Sent, send_task, sent_task, if_content}
use coap_share_drive.Drive.Client.Session.{asks, left, and_wait, without_wait}

abbrev Answer : Type 0
Answer = WorkerPool × ℕ × Outcome (Packet × List Datagram)

gen_token-counts : (calls : ℕ) → (gen_token calls).1 ≡ suc calls
unfolding gen_token
gen_token-counts calls = omega arith

-- A request of this side takes one token, also where it raises.
handle_internal_task-tokens :
    (json : JsonCodec) (now : ℕ) (task : Packet) (calls : ℕ) (pool : WorkerPool)
    → (handle_internal_task json now task calls pool).1 ≡ suc calls
unfolding handle_internal_task
handle_internal_task-tokens json now task calls pool = ground (arith, gen_token-counts calls)

-- There is none left after 256.
handle_internal_task-overflow :
    (json : JsonCodec) (now : ℕ) (task : Packet) (calls : ℕ) (pool : WorkerPool)
    → 256 ≤ calls
    → (handle_internal_task json now task calls pool).2 ≡ err overflow_error
unfolding handle_internal_task
handle_internal_task-overflow json now task calls pool h =
    rw (gen_token-overflow calls h, handle_internal_task) refl

-- What a command does to the tokens: a request that is sent has taken one of the first 256.
pub record Counts (c : Client) (s : Sent) : Type 0 where
  pub no_fewer : c.tokens ≤ s.0.tokens
  pub one_each :
      (r : Packet × List Datagram)
      → s.1 ≡ ok (some r)
      → (s.0.tokens ≡ suc c.tokens) × (c.tokens < 256)

sent_task-ok :
    (a : Assembler) (r : Answer) (x : Packet × List Datagram)
    → (sent_task a r).1 ≡ ok (some x)
    → (y : Packet × List Datagram) × (r.2 ≡ ok y)
sent_task-ok a (workers, tokens, ok y) x h = (y, refl)
sent_task-ok a (workers, tokens, err e) x h = absurd (cc h)

sent_task-tokens : (a : Assembler) (r : Answer) → (sent_task a r).0.tokens ≡ r.1
sent_task-tokens a (workers, tokens, ended) = refl

pub send_task-Counts :
    (json : JsonCodec) (now : ℕ) (server : Address) (message : Packet) (a : Assembler) (c : Client)
    → Counts c (send_task json now server message a c)
send_task-Counts json now server message a c =
    let r : Answer = handle_internal_task json now message c.tokens c.workers in
    let taken : (sent_task a r).0.tokens ≡ suc c.tokens =
      sent_task-tokens a r ∙ handle_internal_task-tokens json now message c.tokens c.workers in
    record {
      no_fewer = omega (arith, taken);
      one_each = λ x h. elim (dec_lt c.tokens 256) [
        | yes few ↦ (taken, few)
        | no many ↦
            let (y, e) = sent_task-ok a r x h in
            absurd (
              err-ne-ok (
                sym
                  (handle_internal_task-overflow json now message c.tokens c.workers (omega arith))
                ∙ e))
      ];
    }
  where
    err-ne-ok : {y : Packet × List Datagram} → err overflow_error ≡ ok y → ⊥
    err-ne-ok h = cc

pub if_content-Counts :
    (json : JsonCodec) (now : ℕ) (server : Address) (c : Client) (s : Sent)
    → Counts c s
    → Counts c (if_content json now server c s)
if_content-Counts json now server c s k = elim (Bool-cases (is_empty (get_content c.assembler))) [
  | inl none_there ↦
      rw none_there (record { no_fewer = omega arith; one_each = λ r h. absurd (cc h) })
  | inr some_there ↦ rw some_there k
]

pub and_wait-tokens : (pools : List Pool) (s : Sent) → (and_wait pools s).0.tokens ≡ s.0.tokens
and_wait-tokens pools (c, err e) = refl
and_wait-tokens pools (c, ok none) = refl
and_wait-tokens pools (c, ok (some r)) = refl

pub without_wait-tokens : (s : Sent) → (without_wait s).0.tokens ≡ s.0.tokens
without_wait-tokens (c, err e) = refl
without_wait-tokens (c, ok none) = refl
without_wait-tokens (c, ok (some r)) = refl

-- Only the operation Exit leaves the session.
pub and_wait-left : (pools : List Pool) (s : Sent) → (and_wait pools s).2 ≢ ok left
and_wait-left pools (c, err e) h = cc h
and_wait-left pools (c, ok none) h = cc h
and_wait-left pools (c, ok (some (p, ds))) h = elim (Bool-cases (wait_util_finish p pools)) [
  | inl e ↦ absurd (cc (rw e at h))
  | inr e ↦ absurd (cc (rw e at h))
]

pub without_wait-left : (s : Sent) → (without_wait s).2 ≢ ok left
without_wait-left (c, err e) h = cc h
without_wait-left (c, ok none) h = cc h
without_wait-left (c, ok (some r)) h = cc h

-- A wait that ends after a request was sent.
pub and_wait-asks :
    (a : Assembler) (pools : List Pool) (r : Answer)
    → (and_wait pools (sent_task a r)).2 ≡ ok asks
    → (x : Packet × List Datagram) × ((sent_task a r).1 ≡ ok (some x))
and_wait-asks a pools (workers, tokens, ok y) h = (y, refl)
and_wait-asks a pools (workers, tokens, err e) h = absurd (cc h)
