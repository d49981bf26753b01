-- ===== src/Utilities/Timer.antt =====
-- coap_core/coap_utilities/coap_timer.py: CoapTimer. The clock is an argument, in milliseconds.
use coap_share_drive.Base.{ℕ, ◌-◌, Option, none, some, [], ◌∷◌}
use coap_share_drive.Base.Outcome.{Outcome, ok, err, value_error}
use coap_share_drive.Bytes.{Text}

pub record Timer : Type 0 where
  pub start_time : Option ℕ
  pub end_time : Option ℕ
  pub operation_name : Option Text

unfoldable pub new : Option Text → Timer
new operation_name = record { start_time = none; end_time = none; operation_name = operation_name }

unfoldable pub reset : ℕ → Timer → Timer
reset now t = record t { start_time = some now }

unfoldable pub stop : ℕ → Timer → Timer
stop now t = record t { end_time = some now }

-- A timer that has not been started raises ValueError.
unfoldable pub elapsed_time : ℕ → Timer → Outcome ℕ
elapsed_time now t = elim t.start_time [ none ↦ err value_error | some start ↦ ok (now - start) ]

-- __enter__
unfoldable pub enter : ℕ → Timer → Timer
unfolding reset
enter now t = reset now t

-- A name that is not empty is printed with the time.
abbrev is_named : Option Text → Option Text
is_named none = none
is_named (some []) = none
is_named (some (c ∷ cs)) = some (c ∷ cs)

-- __exit__ at `now`, reset at `later`: the name and the time that are printed, if any.
unfoldable pub exit : ℕ → ℕ → Timer → Timer × Outcome (Option (Text × ℕ))
unfolding elapsed_time reset
exit now later t = elim (is_named t.operation_name) [
  | none ↦ (reset later t, ok none)
  | some name ↦ elim (elapsed_time now t) [
    | err e ↦ (t, err e)
    | ok time ↦ (reset later t, ok (some (name, time)))
  ]
]
