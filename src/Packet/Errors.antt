-- ===== src/Packet/Errors.antt =====
-- How `decode` can fail: it ends on every input, and it raises nothing but what Python's indexing,
-- the UTF-8 codec and json raise.
use coap_share_drive.Base.{
  ℕ, zero, suc, ◌+◌, ◌%◌, ◌≤◌, ◌<◌, ◌≡◌, refl, ◌⊎◌, inl, inr, ◌==◌, Option, none, some, Bool, true,
  false, if◌then◌else◌, [], ◌∷◌, arith, length, drop, length-drop,
}
use coap_share_drive.Base.Outcome.{
  Outcome, Exc, ok, err, index_error, unicode_error, json_error, ◌>>=◌, Outcome-cases, or_raise,
}
use coap_share_drive.Base.Dict.{put, get}
use coap_share_drive.Base.Eq.{nat_eq}
use coap_share_drive.Bytes.{Bytes}
use coap_share_drive.Bytes.Utf8
use coap_share_drive.Bytes.Utf8.Total.{decode-err}
use coap_share_drive.Packet.{Address}
use coap_share_drive.Packet.Value.{OptionValue, Payload, Doc, equals_int}
use coap_share_drive.Packet.Options.{extend_delta, extend_length, read_option, decode_option}
use coap_share_drive.Packet.Decode.{
  JsonCodec, Options, decode_options, payload_in_format, raw_payload, decode_payload, decode_body,
  decode,
}

abbrev pub IsDecodeError : Exc → Type 0
IsDecodeError e = (e ≡ index_error) ⊎ (e ≡ unicode_error) ⊎ (e ≡ json_error)

-- The run ends with a value in `P`, or fails as `decode` may.
data Ends {A : Type 0} (P : A → Type 0) : Outcome A → Type 0 where
  done : (a : A) → P a → Ends P (ok a)
  failed : (e : Exc) → IsDecodeError e → Ends P (err e)

Ends-if :
    {A : Type 0} {P : A → Type 0} (b : Bool) {r s : Outcome A}
    → Ends P r
    → Ends P s
    → Ends P (if b then r else s)
Ends-if true h k = h
Ends-if false h k = k

Ends-bind :
    {A B : Type 0} {P : A → Type 0} {Q : B → Type 0} (r : Outcome A) (f : A → Outcome B)
    → Ends P r
    → ((a : A) → P a → Ends Q (f a))
    → Ends Q (r >>= f)
Ends-bind _ f (done a h) k = k a h
Ends-bind _ f (failed e h) k = failed e h

abbrev Leaves : ℕ → ℕ × Bytes → Type 0
Leaves n p = length p.1 ≤ n

two_dropped : (tail : Bytes) → length (drop 2 tail) ≤ length tail
two_dropped tail = omega (arith, length-drop 2 tail)

extend_delta-Ends : (d : ℕ) (tail : Bytes) → Ends (Leaves (length tail)) (extend_delta d tail)
unfolding extend_delta
extend_delta-Ends d [] =
    Ends-if (d == 13) (failed index_error (inl refl))
      (Ends-if (d == 14) (done _ (two_dropped [])) (done _ (omega arith)))
extend_delta-Ends d (x ∷ tail) =
    Ends-if (d == 13) (done _ (omega arith))
      (Ends-if (d == 14) (done _ (two_dropped (x ∷ tail))) (done _ (omega arith)))

extend_length-Ends : (d : ℕ) (tail : Bytes) → Ends (Leaves (length tail)) (extend_length d tail)
unfolding extend_length
extend_length-Ends d [] =
    Ends-if (d == 13) (failed index_error (inl refl))
      (Ends-if (d == 14) (done _ (two_dropped [])) (done _ (omega arith)))
extend_length-Ends d (x ∷ tail) =
    Ends-if (d == 13) (done _ (omega arith))
      (Ends-if (d == 14) (done _ (two_dropped (x ∷ tail))) (done _ (omega arith)))

read_option-Ends :
    (b : ℕ) (tail : Bytes) → Ends (λ o. length o.rest ≤ length tail) (read_option b tail)
unfolding read_option
read_option-Ends b tail = Ends-bind _ _ (extend_delta-Ends _ tail) λ p h.
    Ends-bind _ _ (extend_length-Ends _ p.1) λ q k. done _ (omega (arith, length-drop q.0 q.1))

Utf8-Ends : (bs : Bytes) → Ends (λ _. Unit {0}) (Utf8.decode bs)
Utf8-Ends bs = elim (Outcome-cases (Utf8.decode bs)) [
  | inl (t, e) ↦ rw e (done t tt)
  | inr (x, e) ↦ rw e (failed x (inr (inl (decode-err bs x e))))
]

returned : {A : Type 0} (a : A) → Ends (λ _. Unit {0}) (ok a)
returned a = done a tt

text_value : (bs : Bytes) → Ends (λ _. Unit {0}) (Utf8.decode bs >>= λ t. ok (OptionValue.str t))
text_value bs = Ends-bind _ _ (Utf8-Ends bs) (λ t _. returned (OptionValue.str t))

decode_option-Ends : (d : ℕ) (raw : Bytes) → Ends (λ _. Unit {0}) (decode_option d raw)
unfolding decode_option
decode_option-Ends d raw = search (Ends-if, text_value, returned) depth 12

decode_options-Ends :
    (fuel prev : ℕ) (options : Options) (bs : Bytes)
    → length bs ≤ fuel
    → Ends (λ _. Unit {0}) (decode_options fuel prev options bs)
unfolding decode_options
decode_options-Ends fuel prev options [] h = done _ tt
decode_options-Ends zero prev options (b ∷ tail) h = absurd (omega arith)
decode_options-Ends (suc fuel) prev options (b ∷ tail) h = Ends-if (b == 0xff) (done _ tt) (
    Ends-bind _ _ (read_option-Ends b tail) λ o k.
      Ends-bind _ _ (decode_option-Ends (o.delta + prev) o.raw) λ v _.
        decode_options-Ends fuel (o.delta + prev) (put (o.delta + prev) v options) o.rest
          (omega arith))

payload_in_format-Ends :
    (json : JsonCodec) (format : Option OptionValue) (raw : Bytes)
    → Ends (λ _. Unit {0}) (payload_in_format json format raw)
unfolding payload_in_format
payload_in_format-Ends json none raw = done _ tt
payload_in_format-Ends json (some f) raw =
    Ends-if (equals_int f 0) (Ends-bind _ _ (Utf8-Ends raw) (λ t _. done _ tt))
      (Ends-if (equals_int f 50) (loaded (json.loads raw)) (done _ tt))
  where
    loaded :
        (o : Option Doc) → Ends (λ _. Unit {0}) (or_raise o json_error >>= λ d. ok (Payload.doc d))
    loaded none = failed json_error (inr (inr refl))
    loaded (some d) = done _ tt

decode_payload-Ends :
    (json : JsonCodec) (options : Options) (raw : Bytes)
    → Ends (λ _. Unit {0}) (decode_payload json options raw)
unfolding decode_payload
decode_payload-Ends json options raw = payload_in_format-Ends json (get 12 options) raw

decode_body-Ends : (json : JsonCodec) (body : Bytes) → Ends (λ _. Unit {0}) (decode_body json body)
unfolding decode_body
decode_body-Ends json body =
    Ends-bind (decode_options (length body) 0 [] body) _
      (decode_options-Ends (length body) 0 [] body (omega arith))
      λ o _.
        Ends-bind (decode_payload json o.0 (raw_payload o.1)) (λ p. ok (o.0, p))
          (decode_payload-Ends json o.0 (raw_payload o.1)) (λ p _. returned (o.0, p))

decode-Ends :
    (json : JsonCodec) (packet : Bytes) (address : Option Address)
    → Ends (λ _. Unit {0}) (decode json packet address)
unfolding decode
decode-Ends json (b₀ ∷ b₁ ∷ b₂ ∷ b₃ ∷ tail) address =
    Ends-bind (decode_body json (drop (b₀ % 16) tail)) _
      (decode_body-Ends json (drop (b₀ % 16) tail)) (λ r _. returned _)
decode-Ends json _ address = failed index_error (inl refl)

decode_error :
    {A : Type 0} {e : Exc} {r : Outcome A} → Ends (λ _. Unit {0}) r → r ≡ err e → IsDecodeError e
decode_error (done a h) p = ground arith
decode_error (failed x h) p = ground arith

-- Where decoding raises, it raises an IndexError, a UnicodeDecodeError or the JSON error, and never
-- runs out of fuel: the option loop ends on every datagram. (A JSON payload that is no object of
-- strings, which Python reads, counts as a JSON error here.)
pub decode_errors :
    (json : JsonCodec) (packet : Bytes) (address : Option Address) (e : Exc)
    → decode json packet address ≡ err e
    → IsDecodeError e
decode_errors json packet address e = decode_error (decode-Ends json packet address)

-- A datagram of fewer than four bytes raises an IndexError.
pub decode-short :
    (json : JsonCodec) (packet : Bytes) (address : Option Address)
    → length packet < 4
    → decode json packet address ≡ err index_error
unfolding decode
decode-short json [] address h = refl
decode-short json (a ∷ []) address h = refl
decode-short json (a ∷ b ∷ []) address h = refl
decode-short json (a ∷ b ∷ c ∷ []) address h = refl
decode-short json (a ∷ b ∷ c ∷ d ∷ l) address h = absurd (omega arith)
