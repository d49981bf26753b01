-- ===== src/Base/Dict.antt =====
-- Python's dict: an association list in order of insertion, each key at most once.
use coap_share_drive.Base.Eq.{Eq, ◌=?◌}
use coap_share_drive.Base.Tests.{if◌then◌else◌}
use mathlib.Core.Path.{◌≡◌, refl}
use mathlib.Core.Bool.{Bool, true, false}
use mathlib.Core.Option.{Option, none, some}
use mathlib.Core.List.{List, [], ◌∷◌}
use native.Mathlib.Omega.{arith}

abbrev pub Dict {ℓ κ} : Type ℓ → Type κ → Type (ℓ ⊔ κ)
Dict K V = List (K × V)

module _ {ℓ κ} {K : Type ℓ} {V : Type κ} ⦃e : Eq K⦄ where
  -- d.get(k)
  unfoldable pub get : K → Dict K V → Option V
  get k [] = none
  get k ((j, v) ∷ d) = if j =? k then some v else get k d

  -- k in d
  unfoldable pub has : K → Dict K V → Bool
  has k [] = false
  has k ((j, v) ∷ d) = if j =? k then true else has k d

  -- d[k] = v: an old key keeps its place
  unfoldable pub put : K → V → Dict K V → Dict K V
  put k v [] = (k, v) ∷ []
  put k v ((j, w) ∷ d) = if j =? k then (j, v) ∷ d else (j, w) ∷ put k v d

  -- del d[k], of a key that is there at most once
  unfoldable pub del : K → Dict K V → Dict K V
  del k [] = []
  del k ((j, w) ∷ d) = let rest = del k d in if j =? k then rest else (j, w) ∷ rest

  pub get-put :
      (k j : K) (v : V) (d : Dict K V) → get j (put k v d) ≡ (if k =? j then some v else get j d)
  unfolding get put
  get-put k j v [] = refl
  get-put k j v ((i, w) ∷ d) =
      ground (arith, e.beq_iff k j, e.beq_iff i k, e.beq_iff i j, get-put k j v d)

  pub has-put :
      (k j : K) (v : V) (d : Dict K V) → has j (put k v d) ≡ (if k =? j then true else has j d)
  unfolding has put
  has-put k j v [] = refl
  has-put k j v ((i, w) ∷ d) =
      ground (arith, e.beq_iff k j, e.beq_iff i k, e.beq_iff i j, has-put k j v d)

  pub get-del : (k j : K) (d : Dict K V) → get j (del k d) ≡ (if k =? j then none else get j d)
  unfolding get del
  get-del k j [] = ground arith
  get-del k j ((i, w) ∷ d) =
      ground (arith, e.beq_iff k j, e.beq_iff i k, e.beq_iff i j, get-del k j d)

  pub has-del : (k j : K) (d : Dict K V) → has j (del k d) ≡ (if k =? j then false else has j d)
  unfolding has del
  has-del k j [] = ground arith
  has-del k j ((i, w) ∷ d) =
      ground (arith, e.beq_iff k j, e.beq_iff i k, e.beq_iff i j, has-del k j d)

  pub has-get : (k : K) (d : Dict K V) → has k d ≡ (elim (get k d) [ none ↦ false | some v ↦ true ])
  unfolding has get
  has-get k [] = refl
  has-get k ((j, v) ∷ d) = ground (arith, has-get k d)

  -- `if k in d: del d[k]`
  pub get-del_if_has :
      (k j : K) (d : Dict K V)
      → get j (if has k d then del k d else d) ≡ (if k =? j then none else get j d)
  get-del_if_has k j d = ground (arith, get-del k j d, has-get k d, e.beq_iff k j)
