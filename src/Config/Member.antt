-- ===== src/Config/Member.antt =====
-- The search loops over the members of an Enum that coap_config.py repeats for each class.
use coap_share_drive.Base.{
  ℕ, Bool, true, false, ◌==◌, if◌then◌else◌, List, [], ◌∷◌, Option, none, some,
}

-- `for member in Enum: if member.value == item: return True`, and False behind the loop.
abbrev pub any_member {ℓ} : {A : Type ℓ} → (A → ℕ) → List A → ℕ → Bool
any_member value [] item = false
any_member value (m ∷ ms) item = if value m == item then true else any_member value ms item

-- The same loop returning the member, or None.
abbrev pub find_member {ℓ} : {A : Type ℓ} → (A → ℕ) → List A → ℕ → Option A
find_member value [] item = none
find_member value (m ∷ ms) item = if value m == item then some m else find_member value ms item
