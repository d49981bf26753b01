-- ===== src/Config/Token.antt =====
-- coap_config.py, CURRENT_TOKEN and gen_token. The global starts at -1 and is raised before its
-- use, so the state here is the global plus one: the number of calls made.
use coap_share_drive.Base.{ℕ, suc, ◌+◌, ◌≤◌, ◌<◌, ◌≡◌, ◌≢◌, List, arith}
use coap_share_drive.Base.Outcome.{Outcome, err, overflow_error}
use coap_share_drive.Bytes.Int.{to_bytes, big_endian}

-- `to_bytes()` with no arguments makes one byte.
unfoldable pub gen_token : ℕ → Outcome (List ℕ) × ℕ
unfolding to_bytes
gen_token calls = (to_bytes calls 1, calls + 1)

-- The first 256 calls return tokens that differ from one another and from what any later call gives.
pub gen_token-distinct : (a b : ℕ) → a < 256 → a ≢ b → (gen_token a).0 ≢ (gen_token b).0
unfolding gen_token big_endian
gen_token-distinct a b h n e = ground arith

-- From the 257th call on every call raises OverflowError and leaves no token, and each call counts.
pub gen_token-overflow :
    (calls : ℕ) → 256 ≤ calls → gen_token calls ≡ (err overflow_error, suc calls)
unfolding gen_token
gen_token-overflow calls h = ground arith
