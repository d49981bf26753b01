-- ===== src/Utilities/Logger.antt =====
-- coap_core/coap_utilities/coap_logger.py: CoapLogger. What it writes is in the result; the clock, the
-- names of process and thread and the texts of values are arguments.
use coap_share_drive.Base.{
  ◌≡◌, refl, ◌⊎◌, inl, inr, Bool-cases, Bool, true, false, if◌then◌else◌, Option, none, some, List,
  [], ◌∷◌, ◌++◌,
}
use coap_share_drive.Base.Outcome.{Outcome, Exc, ok, err, type_error}
use coap_share_drive.Bytes.{Text}

pub data LogDestination : Type 0 where
  console file : LogDestination

pub data LogColor : Type 0 where
  reset red green yellow blue magenta cyan : LogColor

-- "\033[" and a number, then "m"
abbrev pub escape : Text → Text
escape number = 27 ∷ b'[' ∷ number ++ b'm' ∷ []

abbrev pub value : LogColor → Text
value reset = escape (b'0' ∷ [])
value red = escape (b'9' ∷ b'1' ∷ [])
value green = escape (b'9' ∷ b'2' ∷ [])
value yellow = escape (b'9' ∷ b'3' ∷ [])
value blue = escape (b'9' ∷ b'4' ∷ [])
value magenta = escape (b'9' ∷ b'5' ∷ [])
value cyan = escape (b'9' ∷ b'6' ∷ [])

pub record Logger : Type 0 where
  pub destination : LogDestination
  pub log_file : Option Text
  pub log_directory : Text
  pub debug_mode : Bool

-- The log directory: none where it is not there, else its entries, with whether each is a file.
abbrev pub Directory : Type 0
Directory = Option (List (Text × Bool))

-- remove_previous_logs
unfoldable pub remove_previous_logs : List (Text × Bool) → List (Text × Bool)
remove_previous_logs [] = []
remove_previous_logs ((name, is_file) ∷ entries) =
    let rest = remove_previous_logs entries in if is_file then rest else (name, is_file) ∷ rest

-- os.path.join(directory, f"log_{time}.log")
abbrev pub log_name : Text → Text → Text
log_name directory time =
    directory ++ b'/' ∷ b'l' ∷ b'o' ∷ b'g' ∷ b'_' ∷ time ++ b'.' ∷ b'l' ∷ b'o' ∷ b'g' ∷ []

unfoldable pub initialize_logger : Text → Logger → Directory → Logger × Directory
unfolding remove_previous_logs
initialize_logger time l directory = (
  record l { log_file = some (log_name l.log_directory time) },
  elim directory [ none ↦ some [] | some entries ↦ some (remove_previous_logs entries) ],
)

-- "logs"
abbrev pub logs : Text
logs = b'l' ∷ b'o' ∷ b'g' ∷ b's' ∷ []

-- __init__
unfoldable pub new : Text → LogDestination → Directory → Logger × Directory
unfolding initialize_logger
new time console directory = (
  record { destination = console; log_file = none; log_directory = logs; debug_mode = false },
  directory,
)
new time file directory =
    initialize_logger time
      (record { destination = file; log_file = none; log_directory = logs; debug_mode = false })
      directory

-- A line on the console, or one at the end of a file.
pub data Written : Type 0 where
  printed : Text → Written
  appended : Text → Text → Written

abbrev pub coloured : Option LogColor → Text → Text
coloured none message = message
coloured (some color) message = value color ++ (message ++ value reset)

unfoldable pub log : Text → Option LogColor → Logger → List Written
log message color l =
    if l.debug_mode
    then []
    else (elim l.destination [ console ↦ printed (coloured color message) ∷ [] | file ↦ [] ])

-- As in `log`, but with a blank on each side of the message
abbrev pub coloured_debug : Option LogColor → Text → Text
coloured_debug none message = message
coloured_debug (some color) message = value color ++ (b' ' ∷ message ++ b' ' ∷ value reset)

-- Opening the file None is a TypeError.
abbrev pub write_line : Option Text → Text → Outcome (List Written)
write_line none message = err type_error
write_line (some path) message = ok (appended path (message ++ 10 ∷ []) ∷ [])

-- `stamped` is the message with the time and the names in front of it.
unfoldable pub debug :
    (Text → Text) → Text → Option LogColor → Bool → Logger → Outcome (List Written)
debug stamped message color stamp l =
    let log_message = if stamp then stamped message else message in
    if l.debug_mode
    then (elim l.destination [
      | console ↦ ok (printed (coloured_debug color log_message) ∷ [])
      | file ↦ write_line l.log_file log_message
    ])
    else ok []

-- What a function raises: an Exception of some kind, or a BaseException that is none, as the
-- SystemExit of sys.exit and KeyboardInterrupt.
pub data Raised : Type 0 where
  exception : Exc → Raised
  base_exception : Raised

-- How a call ends: with a result, maybe None, or with what it raises.
pub data Ended {ℓ} (B : Type ℓ) : Type ℓ where
  returns : Option B → Ended B
  raises : Raised → Ended B

-- __call__: the wrapper around a function, with the texts of its call, its result and its exception:
-- what is written, and how the call of the wrapper ends. A result None is returned as it is, and so is
-- None after an Exception. The call is told outside the try, the result inside it.
module _ {ℓ} {B : Type ℓ} (stamped : Text → Text) (told_call : Text) (told_result : B → Text)
    (told_exception : Exc → Text) (l : Logger) where
  abbrev pub after_exception : Exc → List Written → List Written × Ended B
  after_exception e lines = elim (debug stamped (told_exception e) (some yellow) true l) [
    | ok more ↦ (lines ++ more, returns none)
    | err x ↦ (lines, raises (exception x))
  ]

  abbrev pub after_result : B → List Written → List Written × Ended B
  after_result b lines = elim (debug stamped (told_result b) (some blue) true l) [
    | ok more ↦ (lines ++ more, returns (some b))
    | err e ↦ after_exception e lines
  ]

  abbrev pub after_func : Ended B → List Written → List Written × Ended B
  after_func (returns none) lines = (lines, returns none)
  after_func (returns (some b)) lines = after_result b lines
  after_func (raises (exception e)) lines = after_exception e lines
  after_func (raises base_exception) lines = (lines, raises base_exception)

  unfoldable pub wrapper : Ended B → List Written × Ended B
  unfolding debug
  wrapper ended = elim (debug stamped told_call (some magenta) true l) [
    | ok lines ↦ after_func ended lines
    | err e ↦ ([], raises (exception e))
  ]

-- A logger that writes to the console, or to a file that it has.
abbrev pub IsOpen : Logger → Type 0
IsOpen l = (l.destination ≡ console) ⊎ ((path : Text) × (l.log_file ≡ some path))

pub new-IsOpen :
    (time : Text) (destination : LogDestination) (directory : Directory)
    → IsOpen (new time destination directory).0
unfolding new
new-IsOpen time console directory = inl refl
new-IsOpen time file directory = inr (log_name logs time, refl)

written-IsOpen :
    (destination : LogDestination) (log_file : Option Text) (line message : Text)
    → (destination ≡ console) ⊎ ((path : Text) × (log_file ≡ some path))
    → (lines : List Written) × ((elim destination [
      | console ↦ ok (printed line ∷ [])
      | file ↦ write_line log_file message
    ])
        ≡ ok lines)
written-IsOpen console log_file line message h = (printed line ∷ [], refl)
written-IsOpen file log_file line message (inl h) = absurd (cc h)
written-IsOpen file log_file line message (inr (path, h)) =
    (appended path (message ++ 10 ∷ []) ∷ [], rw h refl)

debug-IsOpen :
    (stamped : Text → Text) (message : Text) (color : Option LogColor) (stamp : Bool) (l : Logger)
    → IsOpen l
    → (lines : List Written) × (debug stamped message color stamp l ≡ ok lines)
      × ((l.debug_mode ≡ true) ⊎ (lines ≡ []))
unfolding debug
debug-IsOpen stamped message color stamp l open_l = elim (Bool-cases l.debug_mode) [
  | inr quiet ↦ ([], rw quiet refl, inr refl)
  | inl loud ↦
      let log_message : Text = if stamp then stamped message else message in
      let (lines, e) =
        written-IsOpen l.destination l.log_file (coloured_debug color log_message) log_message
          open_l in
      (lines, rw loud e, inl loud)
]

-- None in the place of an Exception, and everything else as it is
abbrev pub swallowed {ℓ} : {B : Type ℓ} → Ended B → Ended B
swallowed (returns b) = returns b
swallowed (raises (exception e)) = returns none
swallowed (raises base_exception) = raises base_exception

quiet_append :
    (mode : Bool) (lines more : List Written)
    → (mode ≡ true) ⊎ (lines ≡ [])
    → (mode ≡ true) ⊎ (more ≡ [])
    → (mode ≡ true) ⊎ (lines ++ more ≡ [])
quiet_append mode lines more (inl h) k = inl h
quiet_append mode lines more (inr h) (inl k) = inl k
quiet_append mode lines more (inr h) (inr k) = inr (rw (h, k) refl)

-- The wrapper of an open logger around a function: it returns the result of the function, and None
-- where the function raises an Exception; a BaseException that is none, such as SystemExit, passes
-- through. Unless the logger is in its debug mode it writes nothing.
pub wrapper-swallowed {ℓ} :
    {B : Type ℓ} (stamped : Text → Text) (told_call : Text) (told_result : B → Text)
    (told_exception : Exc → Text) (l : Logger) (ended : Ended B)
    → IsOpen l
    → (lines : List Written) × (wrapper stamped told_call told_result told_exception l ended
        ≡ (lines, swallowed ended))
      × ((l.debug_mode ≡ true) ⊎ (lines ≡ []))
unfolding wrapper
wrapper-swallowed stamped told_call told_result told_exception l (returns none) open_l =
    let (lines, e, q) = debug-IsOpen stamped told_call (some magenta) true l open_l in
    (lines, rw (e, wrapper) refl, q)
wrapper-swallowed stamped told_call told_result told_exception l (raises base_exception) open_l =
    let (lines, e, q) = debug-IsOpen stamped told_call (some magenta) true l open_l in
    (lines, rw (e, wrapper) refl, q)
wrapper-swallowed stamped told_call told_result told_exception l (returns (some b)) open_l =
    let (lines, e, q) = debug-IsOpen stamped told_call (some magenta) true l open_l in
    let (more, e', q') = debug-IsOpen stamped (told_result b) (some blue) true l open_l in
    (
      lines ++ more,
      rw (e, wrapper) (rw (e', after_result, after_exception) refl),
      quiet_append l.debug_mode lines more q q',
    )
wrapper-swallowed stamped told_call told_result told_exception l (raises (exception x)) open_l =
    let (lines, e, q) = debug-IsOpen stamped told_call (some magenta) true l open_l in
    let (more, e', q') = debug-IsOpen stamped (told_exception x) (some yellow) true l open_l in
    (
      lines ++ more,
      rw (e, wrapper) (rw (e', after_result, after_exception) refl),
      quiet_append l.debug_mode lines more q q',
    )
