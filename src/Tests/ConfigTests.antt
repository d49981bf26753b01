-- ===== src/Tests/ConfigTests.antt =====
-- The theorems on codes and tokens at concrete values.
use coap_share_drive.Base.{◌≡◌, ◌≢◌, refl, true, false, some, arith}
use coap_share_drive.Base.Outcome.{err, overflow_error}
use coap_share_drive.Config.Code.{
  post, value, get_field_name, is_valid, is_method, is_success, get_field_name-value, is_method_lem,
  is_success_lem,
}
use coap_share_drive.Config.Token.{gen_token, gen_token-distinct, gen_token-overflow}

get_field_name-value_example : get_field_name (value post) ≡ some post
get_field_name-value_example = get_field_name-value post

is_method_lem_example : (is_valid 5 ≡ true) × (is_success 5 ≡ false)
is_method_lem_example = is_method_lem 5 (unfold is_method in refl)

is_success_lem_example : (is_valid 95 ≡ true) × (is_method 95 ≡ false)
is_success_lem_example = is_success_lem 95 (unfold is_success in refl)

gen_token-distinct_example : (gen_token 3).0 ≢ (gen_token 259).0
gen_token-distinct_example = gen_token-distinct 3 259 (omega arith) (λ e. omega arith)

gen_token-overflow_example : gen_token 256 ≡ (err overflow_error, 257)
gen_token-overflow_example = gen_token-overflow 256 (omega arith)
