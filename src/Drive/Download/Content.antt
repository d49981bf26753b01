-- ===== src/Drive/Download/Content.antt =====
-- The workers of both sides store content that arrives: ClientResource.handle_response of
-- share_drive/share_drive_client/client_resource.py and ServerResource.handle_response of
-- share_drive/share_drive_server/server_resource.py.
use coap_share_drive.Base.{ℕ, ◌==◌, ◌≡◌, refl, ◌∙◌, ap, true, false, some, List, [], arith}
use coap_share_drive.Base.Eq.{nat_eq}
use coap_share_drive.Base.Outcome.{ok}
use coap_share_drive.Base.Dict.{get}
use coap_share_drive.Bytes.{Text}
use coap_share_drive.Config.Code
use coap_share_drive.Packet.{Packet}
use coap_share_drive.Packet.Value.{str}
use coap_share_drive.Packet.Decode.{JsonCodec}
use coap_share_drive.Transaction.Pool.{Pool}
use coap_share_drive.Worker.Resources.{Resource, ResourceManager}
use coap_share_drive.Worker.Task.{Done, lightly}
use coap_share_drive.Worker.Task.Dispatch.{solve_task-dispatch_response, dispatch-response}
use coap_share_drive.Drive.Assembler.{Assembler}
use coap_share_drive.Drive.Assembler.Handling.{handle_packets}
use coap_share_drive.Drive.ClientResource
use coap_share_drive.Drive.ClientResource.Served.{client_resource, client_manager, answered}
use coap_share_drive.Drive.ServerResource
use coap_share_drive.Drive.ServerResource.{Os, Served, try_response, replied, handled}
use coap_share_drive.Drive.ServerResource.Served.{server_resource, server_manager, returned}
use coap_share_drive.Drive.Download.{solved_by}
use coap_share_drive.Drive.Download.Arrivals.{StoresContent}

content-is_method : (p : Packet) → p.code ≡ 69 → Code.is_method p.code ≡ false
content-is_method p e = rw e (unfold Code.is_method in refl)

-- A worker passes content on to handle_response of its default resource.
pub solved_by-response :
    (json : JsonCodec) (manager : ResourceManager Assembler) (r : Resource Assembler) (p : Packet)
    (a a' : Assembler)
    → manager.default_resource ≡ some r
    → p.code ≡ 69
    → p.needs_internal_computation ≡ false
    → r.handle_response p a ≡ (a', [], ok tt)
    → solved_by json manager p a ≡ (a', [], ok tt)
solved_by-response json manager r p a a' there content external e =
    ap (λ (d : Done Assembler). (d.state, d.sent, d.ended))
      (solve_task-dispatch_response json manager r p false a (content-is_method p content) there
        ∙ dispatch-response r p false a external content
        ∙ ap (lightly false) e)

handle_response-content :
    (os : Os) (now : ℕ) (name : Text) (p : Packet) (a : Assembler)
    → p.code ≡ 69
    → get 8 p.options ≡ some (str name)
    → ClientResource.handle_response os.decompress now p a
      ≡ handle_packets os.decompress now p name a
unfolding ClientResource.handle_response
handle_response-content os now name p a content named =
    let test : (p.code == 69) ≡ true = ground arith in rw (test, named) refl

pub client_manager-StoresContent :
    (json : JsonCodec) (os : Os) (clock : ℕ → ℕ) (lengths : ℕ → List ℕ) (pools : List Pool)
    (resource name : Text)
    → StoresContent os.decompress
        (clock 0)
        name
        (solved_by json (client_manager json os clock lengths pools resource))
client_manager-StoresContent json os clock lengths pools resource name p a a' content external named
      stored =
    solved_by-response json (client_manager json os clock lengths pools resource)
      (client_resource json os clock lengths pools resource) p a a' refl content external
      (ap answered (handle_response-content os (clock 0) name p a content named ∙ stored))

try_response-content :
    (json : JsonCodec) (os : Os) (now : ℕ) (name : Text) (p : Packet) (a : Assembler)
    → p.code ≡ 69
    → get 8 p.options ≡ some (str name)
    → try_response json os now p a ≡ handled json os (handle_packets os.decompress now p name a)
unfolding try_response
try_response-content json os now name p a content named =
    let test : (p.code == 69) ≡ true = ground arith in rw (test, named) refl

pub server_manager-StoresContent :
    (json : JsonCodec) (os : Os) (clock : ℕ → ℕ) (lengths : ℕ → List ℕ) (resource : Text)
    (others : List (Resource Assembler)) (name : Text)
    → StoresContent os.decompress
        (clock 0)
        name
        (solved_by json (server_manager json os clock lengths resource others))
unfolding ServerResource.handle_response
server_manager-StoresContent json os clock lengths resource others name p a a' content external
      named stored =
    solved_by-response json (server_manager json os clock lengths resource others)
      (server_resource json os clock lengths resource) p a a' refl content external
      (ap (λ s. returned (replied json os p s))
        (try_response-content json os (clock 0) name p a content named
          ∙ ap (handled json os) stored))
