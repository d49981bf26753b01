-- ===== src/Packet/Format.antt =====
-- coap_config.py, verify_format: which received packets the worker pool handles.
use coap_share_drive.Base.{
  ℕ, ◌<◌, ◌≤◌, ◌≡◌, ◌≢◌, ◌⊎◌, inl, inr, ◌↔◌, Bool, true, false, not, ◌||◌, ◌==◌, if◌then◌else◌,
  List, [], ◌∷◌, map, arith, All, ==_iff, refl, Bool-cases, sym, ◌∙◌,
}
use mathlib.Core.Bool.{false≢true}
use coap_share_drive.Config.MessageType
use coap_share_drive.Config.Code
use coap_share_drive.Config.OptionDelta
use coap_share_drive.Config.Member.{any_member}
use coap_share_drive.Packet.{Packet}

abbrev pub option_keys : Packet → List ℕ
option_keys p = map (λ e. e.0) p.options

unfoldable pub verify_format : Packet → Bool
verify_format task =
    if not (task.version == 1)
      || not (MessageType.is_valid task.message_type)
      || not (Code.is_valid task.code)
      || not (OptionDelta.is_valid (option_keys task))
    then false
    else true

-- The codes that are known: requests and the empty message, 2.01 to 2.05 and 2.31, and the errors
-- 4.xx and 5.xx that RFC 7252 and its extensions number so.
abbrev pub IsCode : ℕ → Type 0
IsCode code =
    (code ≤ 5)
    ⊎ ((65 ≤ code) × (code ≤ 69))
    ⊎ (code ≡ 95)
    ⊎ ((128 ≤ code) × (code ≤ 133) × (code ≢ 130))
    ⊎ ((136 ≤ code) × (code ≤ 137))
    ⊎ ((140 ≤ code) × (code ≤ 143) × (code ≢ 142))
    ⊎ ((160 ≤ code) × (code ≤ 165))

-- The option numbers that are known.
abbrev pub IsOptionNumber : ℕ → Type 0
IsOptionNumber key =
    (key ≡ 1)
    ⊎ ((3 ≤ key) × (key ≤ 5))
    ⊎ (key ≡ 7)
    ⊎ (key ≡ 8)
    ⊎ (key ≡ 11)
    ⊎ (key ≡ 12)
    ⊎ ((14 ≤ key) × (key ≤ 15))
    ⊎ (key ≡ 17)
    ⊎ (key ≡ 20)
    ⊎ (key ≡ 23)
    ⊎ ((27 ≤ key) × (key ≤ 28))
    ⊎ (key ≡ 35)
    ⊎ (key ≡ 39)
    ⊎ (key ≡ 60)

is_valid-IsCode : (code : ℕ) → (Code.is_valid code ≡ true) ↔ IsCode code
unfolding Code.is_valid
is_valid-IsCode code = ground arith

any_member-IsOptionNumber :
    (key : ℕ) → (any_member OptionDelta.value OptionDelta.members key ≡ true) ↔ IsOptionNumber key
any_member-IsOptionNumber key = ground arith

is_valid-IsOptionNumber :
    (keys : List ℕ) → (OptionDelta.is_valid keys ≡ true) ↔ All IsOptionNumber keys
unfolding OptionDelta.is_valid
is_valid-IsOptionNumber [] = (λ e. tt, λ e. refl)
is_valid-IsOptionNumber (k ∷ keys) =
    let (known, number) = any_member-IsOptionNumber k in
    let (valid, numbers) = is_valid-IsOptionNumber keys in
    elim (Bool-cases (any_member OptionDelta.value OptionDelta.members k)) [
      | inl e ↦ rw e (λ h. (known e, valid h), λ h. numbers h.1)
      | inr e ↦ rw e (λ h. absurd (false≢true h), λ h. absurd (false≢true (sym e ∙ number h.0)))
    ]

message_types : (t : ℕ) → (MessageType.is_valid t ≡ true) ↔ (t < 4)
unfolding MessageType.is_valid
message_types t = ground arith

passes :
    (a b c d : Bool)
    → (if not a || not b || not c || not d then false else true) ≡ true
    → (a ≡ true) × (b ≡ true) × (c ≡ true) × (d ≡ true)
passes true true true true h = (refl, refl, refl, refl)
passes true true true false h = absurd (false≢true h)
passes true true false d h = absurd (false≢true h)
passes true false c d h = absurd (false≢true h)
passes false b c d h = absurd (false≢true h)

-- A packet passes exactly when it has version 1, a message type below 4, one of the 28 codes that are
-- known, and no option but the 18 that are known.
pub verify_format_lem :
    (p : Packet)
    → (verify_format p ≡ true) ↔ (
        (p.version ≡ 1) × (p.message_type < 4) × IsCode p.code × All IsOptionNumber (option_keys p))
unfolding verify_format
verify_format_lem p =
    let code = is_valid-IsCode p.code in
    let keys = is_valid-IsOptionNumber (option_keys p) in
    let types = message_types p.message_type in
    let version = ==_iff p.version 1 in
    (
      λ h.
          let (a, b, c, d) = passes (p.version == 1) _ _ _ h in
          (version.0 a, types.0 b, code.0 c, keys.0 d),
      λ (a, b, c, d). rw (version.1 a, types.1 b, code.1 c, keys.1 d) refl,
    )
