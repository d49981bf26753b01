-- ===== src/Bytes/Utf8/Total.antt =====
-- The decoder ends on every input.
use native.Mathlib.Nat.{le_refl}
use coap_share_drive.Base.{
  ℕ, zero, suc, ◌≤◌, ◌≡◌, Bool, true, false, ◌&&◌, List, [], ◌∷◌, arith, ltb, leb, if◌then◌else◌,
  length,
}
use coap_share_drive.Base.Outcome.{Outcome, Exc, ok, err, unicode_error, ◌>>=◌}
use coap_share_drive.Bytes.Utf8.{
  six_bits, two_bytes, three_bytes, four_bytes, decode_char, decode_fuel, decode,
}

-- What a step of the decoder may answer: fewer bytes, or the error.
data Shrinks (n : ℕ) : Outcome (ℕ × List ℕ) → Type 0 where
  took : (c : ℕ) (rest : List ℕ) → length rest ≤ n → Shrinks n (ok (c, rest))
  bad : Shrinks n (err unicode_error)

module _ {n : ℕ} where
  Shrinks-bind :
      (r : Outcome (ℕ × List ℕ)) (f : ℕ × List ℕ → Outcome (ℕ × List ℕ))
      → Shrinks n r
      → ((x : ℕ) (bs : List ℕ) → length bs ≤ n → Shrinks n (f (x, bs)))
      → Shrinks n (r >>= f)
  Shrinks-bind _ f (took c rest h) k = k c rest h
  Shrinks-bind _ f bad k = bad

  Shrinks-if :
      (b : Bool) (r s : Outcome (ℕ × List ℕ))
      → Shrinks n r
      → Shrinks n s
      → Shrinks n (if b then r else s)
  Shrinks-if true r s h k = h
  Shrinks-if false r s h k = k

  six_bits-Shrinks : (bs : List ℕ) → length bs ≤ n → Shrinks n (six_bits bs)
  unfolding six_bits
  six_bits-Shrinks [] h = bad
  six_bits-Shrinks (b ∷ bs) h =
      Shrinks-if (leb 0x80 b && ltb b 0xc0) _ _ (took _ bs (omega arith)) bad

decode_char-Shrinks : (b : ℕ) (bs : List ℕ) → Shrinks (length bs) (decode_char (b ∷ bs))
unfolding decode_char two_bytes three_bytes four_bytes
decode_char-Shrinks b bs =
    search (Shrinks-bind, Shrinks-if, six_bits-Shrinks, took, bad, le_refl) depth 12

-- The rest of a decoding fails only by the error of the codec, if the decoding of the rest does.
after_char :
    (fuel n : ℕ) (r : Outcome (ℕ × List ℕ)) (e : Exc)
    → Shrinks n r
    → ((bs : List ℕ) → length bs ≤ n → decode_fuel fuel bs ≡ err e → e ≡ unicode_error)
    → (r >>= λ (c, rest). decode_fuel fuel rest >>= λ cs. ok (c ∷ cs)) ≡ err e
    → e ≡ unicode_error
after_char fuel n (ok _) e (took c rest h) k p = k rest h (ground arith)
after_char fuel n (err _) e bad k p = cc

decode_fuel-err :
    (fuel : ℕ) (bs : List ℕ) (e : Exc)
    → length bs ≤ fuel
    → decode_fuel fuel bs ≡ err e
    → e ≡ unicode_error
unfolding decode_fuel
decode_fuel-err fuel [] e h p = cc
decode_fuel-err zero (b ∷ bs) e h p = absurd (omega arith)
decode_fuel-err (suc fuel) (b ∷ bs) e h p =
    after_char fuel (length bs) (decode_char (b ∷ bs)) e (decode_char-Shrinks b bs)
      (λ rest k. decode_fuel-err fuel rest e (omega arith)) p

-- Decoding ends with a text or with the codec's own error.
pub decode-err : (bs : List ℕ) (e : Exc) → decode bs ≡ err e → e ≡ unicode_error
unfolding decode
decode-err bs e = decode_fuel-err (length bs) bs e (le_refl _)
