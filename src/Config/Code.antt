-- ===== src/Config/Code.antt =====
-- coap_config.py, CoapCodeFormat: request and response codes.
use coap_share_drive.Base.{
  ℕ, ◌*◌, ◌^◌, bit_or, ◌≡◌, refl, Bool, true, false, ◌||◌, List, [], ◌∷◌, Option, some, arith, ◌==◌,
  ==_iff, All, subst, inl, inr, Bool-cases,
}
use mathlib.Core.Bool.{false≢true}
use coap_share_drive.Config.Member.{any_member, find_member}

pub data Code : Type 0 where
  empty get post put delete fetch : Code
  success_created success_deleted success_valid success_changed success_content : Code
  success_continue : Code
  client_error_bad_request client_error_unauthorized client_error_forbidden : Code
  client_error_not_found client_error_method_not_allowed client_entity_incomplete : Code
  client_error_conflict client_error_precondition_failed : Code
  client_error_request_entity_too_large client_error_unsupported_content_format : Code
  server_error_internal_server_error server_error_not_implemented server_error_bad_gateway : Code
  server_error_service_unavailable server_error_gateway_timeout : Code
  server_error_proxying_not_supported : Code

-- The pair (message_type, code) of each member.
abbrev pub fields : Code → ℕ × ℕ
fields empty = (0, 0)
fields get = (0, 1)
fields post = (0, 2)
fields put = (0, 3)
fields delete = (0, 4)
fields fetch = (0, 5)
fields success_created = (2, 1)
fields success_deleted = (2, 2)
fields success_valid = (2, 3)
fields success_changed = (2, 4)
fields success_content = (2, 5)
fields success_continue = (2, 31)
fields client_error_bad_request = (4, 0)
fields client_error_unauthorized = (4, 1)
fields client_error_forbidden = (4, 3)
fields client_error_not_found = (4, 4)
fields client_error_method_not_allowed = (4, 5)
fields client_entity_incomplete = (4, 8)
fields client_error_conflict = (4, 9)
fields client_error_precondition_failed = (4, 12)
fields client_error_request_entity_too_large = (4, 13)
fields client_error_unsupported_content_format = (4, 15)
fields server_error_internal_server_error = (5, 0)
fields server_error_not_implemented = (5, 1)
fields server_error_bad_gateway = (5, 2)
fields server_error_service_unavailable = (5, 3)
fields server_error_gateway_timeout = (5, 4)
fields server_error_proxying_not_supported = (5, 5)

-- `(self.message_type << 5) | self.code`
abbrev pub value : Code → ℕ
value c = bit_or ((fields c).0 * 2 ^ 5) (fields c).1

abbrev pub members : List Code
members =
    empty ∷ get ∷ post ∷ put ∷ delete ∷ fetch ∷ success_created ∷ success_deleted ∷ success_valid
    ∷ success_changed ∷ success_content ∷ success_continue ∷ client_error_bad_request
    ∷ client_error_unauthorized ∷ client_error_forbidden ∷ client_error_not_found
    ∷ client_error_method_not_allowed ∷ client_entity_incomplete ∷ client_error_conflict
    ∷ client_error_precondition_failed ∷ client_error_request_entity_too_large
    ∷ client_error_unsupported_content_format ∷ server_error_internal_server_error
    ∷ server_error_not_implemented ∷ server_error_bad_gateway ∷ server_error_service_unavailable
    ∷ server_error_gateway_timeout ∷ server_error_proxying_not_supported ∷ []

unfoldable pub is_method : ℕ → Bool
is_method code =
    code == value get
    || code == value put
    || code == value post
    || code == value delete
    || code == value fetch

unfoldable pub is_success : ℕ → Bool
is_success code =
    code == value success_content
    || code == value success_changed
    || code == value success_valid
    || code == value success_created
    || code == value success_deleted
    || code == value success_continue

unfoldable pub is_valid : ℕ → Bool
is_valid item = any_member value members item

unfoldable pub get_field_name : ℕ → Option Code
get_field_name item = find_member value members item

-- The field name of a member's value is the member: no two members share a value.
pub get_field_name-value : (c : Code) → get_field_name (value c) ≡ some c
unfolding get_field_name
get_field_name-value empty = refl
get_field_name-value _ = refl

-- What holds of some member's value, a member of a list, holds of a number with that value.
from_members :
    (P : ℕ → Type 0) (ms : List Code) (code : ℕ)
    → All (λ m. P (value m)) ms
    → any_member value ms code ≡ true
    → P code
from_members P [] code h e = absurd (false≢true e)
from_members P (m ∷ ms) code h e = elim (Bool-cases (value m == code)) [
  | inl hit ↦ subst P ((==_iff (value m) code).0 hit) h.0
  | inr miss ↦ from_members P ms code h.1 (rw miss at e)
]

-- A request's code is a valid code and no success.
pub is_method_lem :
    (code : ℕ) → is_method code ≡ true → (is_valid code ≡ true) × (is_success code ≡ false)
unfolding is_method is_success is_valid
is_method_lem code h =
    from_members (λ c. (is_valid c ≡ true) × (is_success c ≡ false))
      (get ∷ put ∷ post ∷ delete ∷ fetch ∷ []) code
      ((refl, refl), ((refl, refl), ((refl, refl), ((refl, refl), ((refl, refl), tt)))))
      (ground arith)

-- A success is a valid code and no request's.
pub is_success_lem :
    (code : ℕ) → is_success code ≡ true → (is_valid code ≡ true) × (is_method code ≡ false)
unfolding is_method is_success is_valid
is_success_lem code h =
    from_members (λ c. (is_valid c ≡ true) × (is_method c ≡ false))
      (success_content ∷ success_changed ∷ success_valid ∷ success_created ∷ success_deleted
        ∷ success_continue ∷ [])
      code
      (
        (refl, refl),
        ((refl, refl), ((refl, refl), ((refl, refl), ((refl, refl), ((refl, refl), tt))))),
      )
      (ground arith)
