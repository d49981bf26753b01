-- ===== src/Tests/UtilitiesTests.antt =====
-- Logger and singleton at concrete inputs.
use coap_share_drive.Base.{ℕ, ◌≡◌, refl, ◌⊎◌, inl, true, none, some, List, [], ◌∷◌}
use coap_share_drive.Base.Eq.{nat_eq}
use coap_share_drive.Base.Dict.{Dict}
use coap_share_drive.Base.Outcome.{type_error}
use coap_share_drive.Bytes.{Text}
use coap_share_drive.Utilities.Logger.{
  Logger, Written, console, Ended, raises, exception, wrapper, swallowed, wrapper-swallowed,
}
use coap_share_drive.Utilities.Singleton.{call, calls, call-calls}

abbrev talking : Logger
talking = record {
  destination = console;
  log_file = none;
  log_directory = 108 ∷ [];
  debug_mode = true;
}

-- "t " in front of the message
abbrev stamped : Text → Text
stamped message = 116 ∷ 32 ∷ message

abbrev raised : Ended ℕ
raised = raises (exception type_error)

wrapper-swallowed_example :
    (lines : List Written) × (wrapper stamped (67 ∷ []) (λ n. n ∷ []) (λ e. 69 ∷ []) talking raised
      ≡ (lines, swallowed raised))
    × ((talking.debug_mode ≡ true) ⊎ (lines ≡ []))
wrapper-swallowed_example =
    wrapper-swallowed stamped (67 ∷ []) (λ n. n ∷ []) (λ e. 69 ∷ []) talking raised (inl refl)

abbrev no_instances : Dict ℕ ℕ
no_instances = []

-- Class 1 with the argument 10, classes 2 and 1 in between, and class 1 with the argument 30
call-calls_example :
    (i : ℕ) × ((call 1 10 no_instances).1 ≡ some i)
    × ((call 1 30 (calls ((2, 5) ∷ (1, 20) ∷ []) (call 1 10 no_instances).0)).1 ≡ some i)
call-calls_example = call-calls 1 10 30 ((2, 5) ∷ (1, 20) ∷ []) no_instances
