-- ===== src/Drive/Download.antt =====
-- A download: the sender's loop, the datagrams on their way, the receiver's handler.
pub mod Sent
pub mod Arrivals
pub mod EndToEnd
pub mod Content
pub mod Message
pub mod Request
use coap_share_drive.Base.{false, ◌++◌, ℕ, zero, suc, Option, List, [], ◌∷◌, map}
use coap_share_drive.Base.Outcome.{Outcome, ok, err}
use coap_share_drive.Bytes.{Bytes, Text}
use coap_share_drive.Packet.{Packet, Address}
use coap_share_drive.Packet.Decode.{JsonCodec, decode}
use coap_share_drive.Transaction.{Datagram}
use coap_share_drive.Drive.Assembler.{Assembler}
use coap_share_drive.Worker.Resources.{Handler, ResourceManager}
use coap_share_drive.Worker.Task.{Done, solve_task}

-- The payload of the datagram with this number, from 0 on.
abbrev pub nth_payload : List Datagram → ℕ → Bytes
nth_payload [] i = []
nth_payload (d ∷ ds) zero = d.payload
nth_payload (d ∷ ds) (suc i) = nth_payload ds i

-- What the receiver gets where the datagrams arrive in this order.
abbrev pub in_order : List Datagram → List ℕ → List Bytes
in_order ds [] = []
in_order ds (i ∷ order) = nth_payload ds i ∷ in_order ds order

-- What is sent while the datagrams are handled one after the other, up to the first exception.
abbrev pub after_sent :
    List Datagram
    → Assembler × List Datagram × Outcome (Unit {0})
    → Assembler × List Datagram × Outcome (Unit {0})
after_sent sent (a, more, ended) = (a, sent ++ more, ended)

abbrev pub and_later :
    Assembler × List Datagram × Outcome (Unit {0})
    → (Assembler → Assembler × List Datagram × Outcome (Unit {0}))
    → Assembler × List Datagram × Outcome (Unit {0})
and_later (a, sent, err e) later = (a, sent, err e)
and_later (a, sent, ok _) later = after_sent sent (later a)

-- The receiver decodes each datagram and hands the packet to its handler.
unfoldable pub receive :
    JsonCodec
    → Handler Assembler
    → Option Address
    → List Bytes
    → Assembler
    → Assembler × List Datagram × Outcome (Unit {0})
receive json handle address [] a = (a, [], ok tt)
receive json handle address (d ∷ ds) a = elim (decode json d address) [
  | err e ↦ (a, [], err e)
  | ok packet ↦ and_later (handle packet a) (λ a'. receive json handle address ds a')
]

-- The handler that a worker with these resources is.
abbrev pub solved_by : JsonCodec → ResourceManager Assembler → Handler Assembler
solved_by json manager packet a =
    let done : Done Assembler = solve_task json manager packet false a in
    (done.state, done.sent, done.ended)
