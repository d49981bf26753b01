-- ===== src/Utilities/Singleton.antt =====
-- coap_core/coap_utilities/coap_singleton.py: the metaclass CoapSingleton, whose calls share one
-- dict of instances.
use coap_share_drive.Base.{
  if◌then◌else◌, ◌≡◌, refl, inl, inr, Bool, true, false, Bool-cases, Option, none, some, List, [],
  ◌∷◌, ◌∙◌, sym,
}
use mathlib.Core.Bool.{false≢true}
use coap_share_drive.Base.Eq.{Eq, ◌=?◌, =?_refl}
use coap_share_drive.Base.Dict.{Dict, get, has, put, get-put, has-get}

module _ {ℓ κ} {Cls : Type ℓ} {Inst : Type κ} ⦃e : Eq Cls⦄ where
  -- `cls not in CoapSingleton._instances`
  unfoldable pub is_missing : Cls → Dict Cls Inst → Bool
  is_missing cls instances = if has cls instances then false else true

  -- The instance that has been made is put into the dict, and the dict's one is returned.
  unfoldable pub store : Cls → Inst → Dict Cls Inst → Dict Cls Inst × Option Inst
  store cls made instances = (put cls made instances, get cls (put cls made instances))

  -- __call__: `made` is the instance that these arguments make where there is none yet.
  unfoldable pub call : Cls → Inst → Dict Cls Inst → Dict Cls Inst × Option Inst
  unfolding store is_missing
  call cls made instances =
      if is_missing cls instances then store cls made instances else (instances, get cls instances)

  -- Calls one after the other, of any classes with any arguments.
  unfoldable pub calls : List (Cls × Inst) → Dict Cls Inst → Dict Cls Inst
  calls [] instances = instances
  calls ((cls, made) ∷ later) instances = calls later (call cls made instances).0

  get-there :
      (cls : Cls) (instances : Dict Cls Inst)
      → has cls instances ≡ true
      → (i : Inst) × (get cls instances ≡ some i)
  get-there cls instances h =
      elim (get cls instances) as (λ o. get cls instances ≡ o → (i : Inst) × (o ≡ some i)) [
        | none ↦ λ x. absurd (false≢true (sym (has-get cls instances ∙ rw x refl) ∙ h))
        | some i ↦ λ x. (i, refl)
      ]
        refl

  -- A call keeps the instances that are there.
  get-call :
      (cls other : Cls) (made : Inst) (instances : Dict Cls Inst) (i : Inst)
      → get cls instances ≡ some i
      → get cls (call other made instances).0 ≡ some i
  unfolding call store is_missing
  get-call cls other made instances i h = elim (Bool-cases (has other instances)) [
    | inl there ↦ rw there h
    | inr missing ↦ elim (Bool-cases (other =? cls)) [
      | inl same ↦
          let equal : other ≡ cls = (e.beq_iff other cls).0 same in
          absurd (false≢true (sym missing ∙ rw equal (has-get cls instances ∙ rw h refl)))
      | inr different ↦ rw missing (get-put other cls made instances ∙ rw different h)
    ]
  ]

  get-calls :
      (cls : Cls) (i : Inst) (later : List (Cls × Inst)) (instances : Dict Cls Inst)
      → get cls instances ≡ some i
      → get cls (calls later instances) ≡ some i
  unfolding calls
  get-calls cls i [] instances h = h
  get-calls cls i ((other, made) ∷ later) instances h =
      get-calls cls i later (call other made instances).0 (get-call cls other made instances i h)

  -- What a call returns is in the dict, and is the old instance where there is one.
  call-instance :
      (cls : Cls) (made : Inst) (instances : Dict Cls Inst)
      → (i : Inst) × ((call cls made instances).1 ≡ some i)
        × (get cls (call cls made instances).0 ≡ some i)
  unfolding call store is_missing
  call-instance cls made instances = elim (Bool-cases (has cls instances)) [
    | inl there ↦ let (i, h) = get-there cls instances there in (i, rw there h, rw there h)
    | inr missing ↦
        let new : get cls (put cls made instances) ≡ some made =
          get-put cls cls made instances ∙ rw (=?_refl cls) refl in
        (made, rw missing new, rw missing new)
  ]

  call-old :
      (cls : Cls) (made i : Inst) (instances : Dict Cls Inst)
      → get cls instances ≡ some i
      → (call cls made instances).1 ≡ some i
  unfolding call is_missing
  call-old cls made i instances h =
      let there : has cls instances ≡ true = has-get cls instances ∙ rw h refl in rw there h

  -- Where one call is over before the next begins, every later call for a class returns the instance
  -- of the first one, whatever arguments it has and whatever other calls come in between.
  pub call-calls :
      (cls : Cls) (made other : Inst) (later : List (Cls × Inst)) (instances : Dict Cls Inst)
      → (i : Inst) × ((call cls made instances).1 ≡ some i)
        × ((call cls other (calls later (call cls made instances).0)).1 ≡ some i)
  call-calls cls made other later instances =
      let (i, first, kept) = call-instance cls made instances in
      (
        i,
        first,
        call-old cls other i (calls later (call cls made instances).0)
            (get-calls cls i later (call cls made instances).0 kept),
      )
