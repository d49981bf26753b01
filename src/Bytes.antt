-- ===== src/Bytes.antt =====
-- Bytes and numbers: the conversions of Python's int, bytes and str that the packets use.
pub mod Bits
pub mod Int
pub mod Utf8
use coap_share_drive.Base.{ℕ, ◌<◌, List, All}

-- A bytes object: its elements are below 256 where `IsBytes` says so.
abbrev pub Bytes : Type 0
Bytes = List ℕ

-- A str: its code points.
abbrev pub Text : Type 0
Text = List ℕ

abbrev pub IsByte : ℕ → Type 0
IsByte b = b < 256

abbrev pub IsBytes : Bytes → Type 0
IsBytes = All IsByte
