-- ===== src/Drive/ClientResource/Served.antt =====
-- The client's resource as a worker calls it: share_drive/share_drive_client/client_resource.py.
use coap_share_drive.Base.{ℕ, Option, none, some, List, []}
use coap_share_drive.Base.Eq.{nat_eq}
use coap_share_drive.Base.Outcome.{Outcome, ok, err, out_of_fuel}
use coap_share_drive.Bytes.{Text}
use coap_share_drive.Packet.Decode.{JsonCodec}
use coap_share_drive.Transaction.{Datagram}
use coap_share_drive.Transaction.Pool.{Pool}
use coap_share_drive.Worker.Resources.{Resource, ResourceManager}
use coap_share_drive.Drive.Assembler.{Assembler, Files}
use coap_share_drive.Drive.Splitter.{Ending}
use coap_share_drive.Drive.ClientResource.{handle_request, handle_response, handle_internal}
use coap_share_drive.Drive.ServerResource.{Os, with_sent}
use coap_share_drive.Drive.ServerResource.Served.{returned}

abbrev Handled : Type 0
Handled = Assembler × List Datagram × Outcome (Unit {0})

-- A request of another side is refused.
abbrev pub refused_by : Assembler → Outcome (List Datagram) → Handled
refused_by a (ok sent) = (a, sent, ok tt)
refused_by a (err e) = (a, [], err e)

-- An upload that still waits for its acknowledgement has not come back.
abbrev pub uploaded : Assembler → Option (Files × Pool × List Datagram × Outcome Ending) → Handled
uploaded a none = (a, [], err out_of_fuel)
uploaded a (some ended) = returned (with_sent a ended)

abbrev pub answered : Assembler × Outcome (Unit {0}) → Handled
answered (a, ended) = (a, [], ended)

module _ (json : JsonCodec) (os : Os) (clock : ℕ → ℕ) (lengths : ℕ → List ℕ) (pools : List Pool)
    (name : Text) where
  -- The client's resource with this name; `pools` are those that an upload finds while it waits.
  abbrev pub client_resource : Resource Assembler
  client_resource = record {
    name = name;
    handle_get = λ request a. refused_by a (handle_request json request);
    handle_put = λ request a. refused_by a (handle_request json request);
    handle_post = λ request a. refused_by a (handle_request json request);
    handle_delete = λ request a. refused_by a (handle_request json request);
    handle_fetch = λ request a. refused_by a (handle_request json request);
    handle_internal = λ request a. uploaded a (
        handle_internal json clock lengths (os.is_folder a.files) (os.zip a.files) request a.files
          pools a.pool);
    handle_response = λ request a. answered (handle_response os.decompress (clock 0) request a);
  }

  abbrev pub client_manager : ResourceManager Assembler
  client_manager = record { resources = []; default_resource = some client_resource }
