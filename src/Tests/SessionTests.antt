-- ===== src/Tests/SessionTests.antt =====
-- A session of the client at concrete inputs.
use coap_share_drive.Base.{◌≡◌, refl, ◌⊎◌, false, Option, none, some, List, [], ◌∷◌, arith}
use coap_share_drive.Base.Outcome.{Exc, ok, err}
use coap_share_drive.Transaction.Pool
use coap_share_drive.Drive.Client.{Client}
use coap_share_drive.Drive.Client.Session.{Command, delete, Surroundings, waits, client_cli}
use coap_share_drive.Drive.Client.Session.Tokens.{client_cli-gets_stuck}
use coap_share_drive.Tests.Json.{codec}

-- A client that has made 255 requests, with "f" on the server
abbrev asked_often : Client
asked_often = record {
  workers = record {
    shared_work = [];
    failed_requests = [];
    workers = [];
    transactions = Pool.empty;
  };
  assembler = record {
    in_assembly = [];
    assembled = [];
    save_path = none;
    files = [];
    pool = Pool.empty;
    folder_paths = [];
    file_paths = (102 ∷ []) ∷ [];
  };
  tokens = 255;
}

abbrev quiet : Surroundings
quiet = record {
  server = (49 ∷ [], 5683);
  home = 104 ∷ [];
  is_folder = λ path. false;
  now = λ round operation. round;
  pools = λ round operation. Pool.empty ∷ [];
  meanwhile = λ round operation workers assembler. (workers, assembler);
}

abbrev two_deletions : List (Option Command)
two_deletions = some (delete (102 ∷ [])) ∷ some (delete (102 ∷ [])) ∷ []

client_cli-gets_stuck_example :
    ((client_cli codec quiet 0 two_deletions asked_often).2 ≡ ok waits)
    ⊎ ((e : Exc) × ((client_cli codec quiet 0 two_deletions asked_often).2 ≡ err e))
client_cli-gets_stuck_example =
    client_cli-gets_stuck codec quiet two_deletions asked_often refl (omega arith)
