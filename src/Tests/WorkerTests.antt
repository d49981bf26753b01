-- ===== src/Tests/WorkerTests.antt =====
-- The worker pool at concrete inputs.
use coap_share_drive.Base.{
  ℕ, ◌≤◌, ◌≡◌, refl, ◌⊎◌, true, false, Option, none, some, List, [], ◌∷◌, ◌++◌, arith, length,
}
use coap_share_drive.Base.Eq.{nat_eq}
use coap_share_drive.Base.Outcome.{ok}
use coap_share_drive.Base.Dict.{get, has, put}
use coap_share_drive.Bytes.{Bytes}
use coap_share_drive.Config.MessageType
use coap_share_drive.Config.Code
use coap_share_drive.Config.OptionDelta
use coap_share_drive.Packet.{
  Packet, Address, WorkId, work_id, general_work_id, get_block_id, option_at,
}
use coap_share_drive.Packet.Keys.{work_id_eq, general_work_id_eq}
use coap_share_drive.Packet.Value.{int, bytes}
use coap_share_drive.Packet.Block.{block_of, decode_option_block}
use coap_share_drive.Packet.Format.{verify_format}
use coap_share_drive.Packet.Encode.{encode, sorted_items, insert_sorted}
use coap_share_drive.Packet.RoundTrip.{arrived, IsSendable}
use coap_share_drive.Transaction.Pool
use coap_share_drive.Transaction.Pool.{is_transaction_finished, handle_congestions}
use coap_share_drive.Worker.{Worker, idle_worker, take_task, submit_task}
use coap_share_drive.Worker.Pool.{WorkerPool, choose_worker, lightest, submit_to_chosen, submit_at}
use coap_share_drive.Worker.Pool.Filter.{handle_datagram, handle_packet}
use coap_share_drive.Worker.Pool.Choice.{Lightest, NoneAvailable, choose_worker_lem}
use coap_share_drive.Worker.Pool.Threads.{
  times, queued, Threads, start, Reachable, at_start, then_step, submits, marks, takes,
}
use coap_share_drive.Worker.Pool.Threads.Once.{Reachable-once}
use coap_share_drive.Worker.Pool.Answers.{BlockOption, second}
use coap_share_drive.Packet.RoundTrip.Numbers.{number-Survives}
use coap_share_drive.Packet.Options.{is_text_option}
use coap_share_drive.Worker.Pool.Answers.Exchange.{acknowledged-finished}
use coap_share_drive.Worker.Pool.Reset.{reset-refused}
use coap_share_drive.Tests.Json.{codec, codec-LoadsDumps}

-- A confirmable FETCH without options, to the server.
abbrev fetch : Packet
fetch = record {
  version = 1;
  message_type = 0;
  token = 7 ∷ [];
  code = 5;
  message_id = 300;
  options = [];
  payload = bytes [];
  sender_ip_port = some (49 ∷ [], 5683);
  needs_internal_computation = false;
  encoded = [];
}

-- The second worker is heavily loaded, the third has the shorter queue.
abbrev three_workers : List Worker
three_workers =
    submit_task fetch (submit_task fetch (idle_worker 1))
    ∷ record (idle_worker 2) { heavy_work = true }
    ∷ submit_task fetch (idle_worker 3)
    ∷ []

choose_worker-three : choose_worker 9 three_workers ≡ (2, three_workers)
unfolding choose_worker lightest
choose_worker-three = refl

abbrev fetch_key : WorkId
fetch_key = record {
  address = some (49 ∷ [], 5683);
  token = 7 ∷ [];
  message_id = 300;
  block_id = none;
}

fetch-key : work_id fetch ≡ ok fetch_key
unfolding work_id get_block_id has
fetch-key = refl

-- A packet is submitted, taken by the worker and only then marked.
abbrev submitted : Threads
submitted = record start { workers = submit_to_chosen 1 fetch []; submitted = some fetch_key }

abbrev taken : Threads
taken = record submitted {
  workers = record (idle_worker 1) { started = 2 } ∷ [];
  solving = fetch ∷ [];
}

abbrev marked : Threads
marked = record taken { shared_work = (fetch_key, 3) ∷ []; submitted = none }

marked-Reachable : Reachable marked
unfolding submit_to_chosen choose_worker lightest submit_at take_task has put
marked-Reachable =
    then_step taken marked
      (then_step submitted taken
        (then_step start submitted at_start (submits start 1 fetch fetch_key fetch-key refl refl))
        (takes submitted 2 [] [] (submit_task fetch (idle_worker 1))
          (record (idle_worker 1) { started = 2 }) fetch refl refl))
      (marks taken 3 fetch_key refl)

Reachable-once_example : times fetch_key (queued marked.workers ++ marked.solving) ≤ 1
Reachable-once_example = Reachable-once marked fetch_key marked-Reachable

abbrev no_work : WorkerPool
no_work = record { shared_work = []; failed_requests = []; workers = []; transactions = Pool.empty }

-- GET with BLOCK2, as the client sends it
abbrev download : Packet
download = record fetch { code = 1; options = (23, int 6) ∷ [] }

abbrev download_key : WorkId
download_key = record fetch_key { block_id = some 0 }

abbrev client : Option Address
client = some (50 ∷ [], 6000)

download-IsSendable : IsSendable codec download
unfolding sorted_items insert_sorted get
download-IsSendable = record {
  version_fits = omega arith;
  type_fits = omega arith;
  token_fits = omega arith;
  code_fits = omega arith;
  id_fits = omega arith;
  rising = (
    omega arith,
    omega arith,
    number-Survives 23 23 6 (omega arith) (unfold is_text_option in refl) (λ e. omega arith)
        (omega arith),
    tt,
  );
  payload_fits = tt;
  not_encoded = refl;
}

download-BlockOption : BlockOption download
download-BlockOption = second 6 (omega arith) (unfold get in refl) (unfold get in refl)

download-key : work_id download ≡ ok download_key
unfolding work_id get_block_id option_at has get block_of decode_option_block
download-key = refl

download-format : verify_format (arrived download client) ≡ true
unfolding verify_format sorted_items insert_sorted MessageType.is_valid Code.is_valid
    OptionDelta.is_valid
download-format = refl

acknowledged-finished_example :
    (b : Bytes) × (cached : Packet) × (reply : Bytes) × (receiver' : WorkerPool)
    × (sender' : WorkerPool) × (encode codec download ≡ ok (b, cached))
    × (handle_datagram codec 1 (b, client) no_work
        ≡ (receiver', record { payload = reply; to = client } ∷ [], ok tt))
    × (handle_datagram codec 2 (reply, download.sender_ip_port) no_work ≡ (sender', [], ok tt))
    × (is_transaction_finished download sender'.transactions ≡ ok true)
    × (get download_key sender'.transactions.transactions ≡ none)
acknowledged-finished_example =
    acknowledged-finished codec download client 1 2 download_key no_work no_work codec-LoadsDumps
      download-IsSendable download-BlockOption (unfold Code.is_method in refl) refl download-format
      download-key (unfold has in refl)

-- The server resets the transfer.
abbrev reset : Packet
reset = record fetch { message_type = 3; code = 128; sender_ip_port = client }

reset-refused_example :
    (after : WorkerPool) × (handle_packet codec 1 reset client no_work ≡ (after, [], ok tt))
    × (has (general_work_id reset) after.transactions.overall_finished ≡ true)
    × (handle_congestions (arrived download client) true after.transactions (3 ∷ []) ≡ some true)
    × (handle_packet codec 2 (arrived download client) client after ≡ (after, [], ok tt))
reset-refused_example =
    reset-refused codec 1 2 reset (arrived download client) client no_work true (3 ∷ [])
      (unfold verify_format MessageType.is_valid Code.is_valid OptionDelta.is_valid in refl) refl
      download-format refl (unfold general_work_id in refl)

choose_worker_lem_example :
    ((n : ℕ) × Lightest three_workers (choose_worker 9 three_workers).0 n
      × ((choose_worker 9 three_workers).1 ≡ three_workers))
    ⊎ (NoneAvailable three_workers
        × (choose_worker 9 three_workers
            ≡ (length three_workers, three_workers ++ idle_worker 9 ∷ [])))
choose_worker_lem_example = choose_worker_lem 9 three_workers
