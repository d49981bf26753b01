-- ===== src/Bytes/Int.antt =====
-- int.bit_length, int.to_bytes(length, 'big') and int.from_bytes(value, 'big'), on the naturals.
use native.Mathlib.Nat.{pow-suc, pow-le-pow_right}
use native.Mathlib.Numerals.{towards_suc}
use coap_share_drive.Base.{
  ℕ, zero, suc, ◌+◌, ◌*◌, ◌/◌, ◌%◌, ◌^◌, ◌≤◌, ◌<◌, ◌≡◌, refl, ◌∙◌, List, [], ◌∷◌, ◌++◌, arith, ltb,
  lt→ltb, ◌==◌, if◌then◌else◌, length, length-append, All, All-append,
}
use coap_share_drive.Base.Outcome.{Outcome, ok, err, overflow_error}

-- Halve until nothing is left; a number has at most as many binary digits as its value.
bit_length_fuel : ℕ → ℕ → ℕ
bit_length_fuel zero n = 0
bit_length_fuel (suc f) n = let rest = suc (bit_length_fuel f (n / 2)) in if n == 0 then 0 else rest

unfoldable pub bit_length : ℕ → ℕ
unfolding bit_length_fuel
bit_length n = bit_length_fuel n n

-- The `k` lowest bytes, the highest first.
unfoldable pub big_endian : ℕ → ℕ → List ℕ
big_endian zero n = []
big_endian (suc k) n = big_endian k (n / 256) ++ (n % 256) ∷ []

unfoldable pub to_bytes : ℕ → ℕ → Outcome (List ℕ)
to_bytes n size = if ltb n (256 ^ size) then ok (big_endian size n) else err overflow_error

from_bytes_acc : ℕ → List ℕ → ℕ
from_bytes_acc acc [] = acc
from_bytes_acc acc (b ∷ bs) = from_bytes_acc (acc * 256 + b) bs

unfoldable pub from_bytes : List ℕ → ℕ
unfolding from_bytes_acc
from_bytes bs = from_bytes_acc 0 bs

-- The fewest whole bytes that hold `n`: `(n.bit_length() + 7) // 8`.
unfoldable pub byte_length : ℕ → ℕ
byte_length n = (bit_length n + 7) / 8

from_bytes_acc-append :
    (acc : ℕ) (xs : List ℕ) (b : ℕ)
    → from_bytes_acc acc (xs ++ b ∷ []) ≡ from_bytes_acc acc xs * 256 + b
unfolding from_bytes_acc
from_bytes_acc-append acc [] b = refl
from_bytes_acc-append acc (x ∷ xs) b = from_bytes_acc-append (acc * 256 + x) xs b

from_bytes_acc-big_endian : (k n : ℕ) → n < 256 ^ k → from_bytes_acc 0 (big_endian k n) ≡ n
unfolding from_bytes_acc big_endian
from_bytes_acc-big_endian zero n h = omega arith
from_bytes_acc-big_endian (suc k) n h =
    from_bytes_acc-append 0 (big_endian k (n / 256)) (n % 256)
    ∙ omega (arith, from_bytes_acc-big_endian k (n / 256) (omega (arith, pow-suc 256 k)))

pub from_bytes-big_endian : (k n : ℕ) → n < 256 ^ k → from_bytes (big_endian k n) ≡ n
unfolding from_bytes
from_bytes-big_endian = from_bytes_acc-big_endian

pub length-big_endian : (k n : ℕ) → length (big_endian k n) ≡ k
unfolding big_endian
length-big_endian zero n = refl
length-big_endian (suc k) n =
    omega
      (arith, length-append (big_endian k (n / 256)) (n % 256 ∷ []), length-big_endian k (n / 256))

pub big_endian-IsBytes : (k n : ℕ) → All (λ b. b < 256) (big_endian k n)
unfolding big_endian
big_endian-IsBytes zero n = tt
big_endian-IsBytes (suc k) n =
    All-append (λ b. b < 256) (big_endian k (n / 256)) _ (big_endian-IsBytes k (n / 256))
      (omega arith, tt)

lt-bit_length_fuel : (f n : ℕ) → n ≤ f → n < 2 ^ bit_length_fuel f n
unfolding bit_length_fuel
lt-bit_length_fuel zero n h = omega arith
lt-bit_length_fuel (suc f) zero h = omega arith
lt-bit_length_fuel (suc f) (suc n) h = ground (
  arith,
  lt-bit_length_fuel f (suc n / 2) (omega arith),
  pow-suc 2 (bit_length_fuel f (suc n / 2)),
)

eight_more : (b : ℕ) → 2 ^ (b + 8) ≡ 256 * 2 ^ b
eight_more b = simp towards_suc (omega arith)

two_pow_eights : (k : ℕ) → 2 ^ (8 * k) ≡ 256 ^ k
two_pow_eights zero = refl
two_pow_eights (suc k) =
    let step : 8 * suc k ≡ 8 * k + 8 = omega arith in
    rw step (omega (arith, eight_more (8 * k), two_pow_eights k, pow-suc 256 k))

pub lt-byte_length : (n : ℕ) → n < 256 ^ byte_length n
unfolding bit_length byte_length
lt-byte_length n = omega (
  arith,
  lt-bit_length_fuel n n (omega arith),
  pow-le-pow_right {n = 2} (omega arith) {i = bit_length n} {j = 8 * ((bit_length n + 7) / 8)}
      (omega arith),
  two_pow_eights ((bit_length n + 7) / 8),
)

-- The width that the encoder computes never overflows.
pub to_bytes-byte_length : (n : ℕ) → to_bytes n (byte_length n) ≡ ok (big_endian (byte_length n) n)
unfolding to_bytes
to_bytes-byte_length n = rw (lt→ltb _ _ (lt-byte_length n))

bit_length_fuel-le : (k f n : ℕ) → n < 2 ^ k → bit_length_fuel f n ≤ k
unfolding bit_length_fuel
bit_length_fuel-le k zero n h = omega arith
bit_length_fuel-le zero (suc f) n h = ground arith
bit_length_fuel-le (suc k) (suc f) n h =
    ground (arith, bit_length_fuel-le k f (n / 2) (omega (arith, pow-suc 2 k)))

-- A number below 2 ^ 32 takes four bytes at most.
pub byte_length-le_four : (n : ℕ) → n < 2 ^ 32 → byte_length n ≤ 4
unfolding byte_length bit_length
byte_length-le_four n h = omega (arith, bit_length_fuel-le 32 n n h)
