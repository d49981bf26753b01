-- ===== src/Packet/RoundTrip/OptionList.antt =====
-- `decode_options` reads back what `encode_options` writes.
use coap_share_drive.Base.{
  ℕ, zero, suc, ◌+◌, ◌-◌, ◌*◌, ◌≤◌, ◌<◌, ◌≡◌, ◌≢◌, refl, ap, ◌∙◌, ◌⊎◌, inl, inr, true, false, ◌==◌,
  [], ◌∷◌, ◌++◌, arith, length, length-append, append_assoc, append-nil,
}
use coap_share_drive.Base.Eq.{nat_eq}
use coap_share_drive.Base.Outcome.{ok}
use coap_share_drive.Base.Dict.{put}
use coap_share_drive.Bytes.{Bytes}
use coap_share_drive.Bytes.Int.{
  from_bytes-big_endian, lt-byte_length, to_bytes-byte_length, byte_length, big_endian,
}
use coap_share_drive.Bytes.Utf8.RoundTrip.{decode-encode_text}
use coap_share_drive.Packet.Value.{OptionValue, str, int, bytes, nothing}
use coap_share_drive.Packet.Options.{
  value_bytes, encode_option, decode_option, is_text_option, option_header,
}
use coap_share_drive.Packet.Options.Format.{nibble, extension, rfc_header, option_header-rfc_header}
use coap_share_drive.Packet.Options.Reading.{read_option-rfc_header, delta_read, nibble-lt}
use coap_share_drive.Packet.Decode.{Options, decode_options}
use coap_share_drive.Packet.Encode.{encode_options}

-- The type of value that `decode_option` gives the option `delta`.
abbrev pub IsKind : ℕ → OptionValue → Type 0
IsKind delta (bytes b) = delta ≡ 1
IsKind delta (str t) = is_text_option delta ≡ true
IsKind delta (int n) = (is_text_option delta ≡ false) × (delta ≢ 1)
IsKind delta nothing = ⊥

-- An option that survives the trip: it has the type that its number is read with, it can be
-- encoded, and its gap to the option before and its length are such that the encoder writes a
-- header the decoder reads.
pub record Survives (gap delta : ℕ) (v : OptionValue) : Type 0 where
  pub raw : Bytes
  pub encodes : value_bytes v ≡ ok raw
  pub kind : IsKind delta v
  pub fits : ((gap < 13) × (length raw ≤ 65804)) ⊎ ((gap < 269) × (length raw < 269))

decode_option-value_bytes :
    (delta : ℕ) (v : OptionValue) (raw : Bytes)
    → IsKind delta v
    → value_bytes v ≡ ok raw
    → decode_option delta raw ≡ ok v
unfolding decode_option
decode_option-value_bytes delta (bytes b) raw k e = unfold value_bytes in ground arith
decode_option-value_bytes delta (str t) raw k e =
    unfold value_bytes in ground (arith, decode-encode_text t raw e)
decode_option-value_bytes delta (int n) raw k e =
    ground (arith, int_back, from_bytes-big_endian (byte_length n) n (lt-byte_length n))
  where
    int_back : raw ≡ big_endian (byte_length n) n
    int_back = unfold value_bytes in ground (arith, to_bytes-byte_length n)
decode_option-value_bytes delta nothing raw k e = absurd k

header_fits :
    (gap len : ℕ)
    → ((gap < 13) × (len ≤ 65804)) ⊎ ((gap < 269) × (len < 269))
    → option_header gap len ≡ ok (rfc_header gap len)
header_fits gap len (inl h) = option_header-rfc_header gap len (inl h)
header_fits gap len (inr h) = option_header-rfc_header gap len (inr (inl h))

encode_option-Survives :
    {gap delta : ℕ} {v : OptionValue} (f : Survives gap delta v)
    → encode_option v gap ≡ ok (rfc_header gap (length f.raw) ++ f.raw)
unfolding encode_option
encode_option-Survives {gap} {v = v} f = rw (f.encodes, header_fits gap (length f.raw) f.fits)

-- One round of the loop reads the option and goes on behind it.
decode_options-step :
    (fuel gap prev delta : ℕ) (v : OptionValue) (acc : Options) (rest : Bytes)
    (f : Survives gap delta v)
    → gap + prev ≡ delta
    → decode_options (suc fuel) prev acc ((rfc_header gap (length f.raw) ++ f.raw) ++ rest)
      ≡ decode_options fuel delta (put delta v acc) rest
unfolding decode_options
decode_options-step fuel gap prev delta v acc rest f e =
    let regroup : ((extension gap ++ extension (length f.raw)) ++ f.raw) ++ rest
        ≡ extension gap ++ (extension (length f.raw) ++ (f.raw ++ rest)) =
      simp append_assoc in
    let delta_back : delta_read gap + prev ≡ delta = ground (arith, f.fits, e) in
    let no_marker : (nibble gap * 16 + nibble (length f.raw) == 255) ≡ false =
      ground (arith, nibble-lt gap, nibble-lt (length f.raw)) in
    rw
      (
        regroup,
        no_marker,
        read_option-rfc_header gap f.raw rest (omega (arith, f.fits)) (omega (arith, f.fits)),
        delta_back,
        decode_option-value_bytes delta v f.raw f.kind f.encodes,
      )
      (ap (λ d. decode_options fuel d (put d v acc) rest) delta_back)

-- Options in the order of their numbers, from `least` on, each surviving with its gap to the one
-- before.
abbrev pub Rising : ℕ → ℕ → Options → Type 0
Rising prev least [] = Unit {0}
Rising prev least ((delta, v) ∷ items) =
    (least ≤ delta)
    × (prev ≤ delta)
    × Survives (delta - prev) delta v
    × Rising delta (suc delta) items

abbrev pub KeysBelow : ℕ → Options → Type 0
KeysBelow n [] = Unit {0}
KeysBelow n ((k, v) ∷ items) = (k < n) × KeysBelow n items

put-above :
    (d : ℕ) (v : OptionValue) (acc : Options) → KeysBelow d acc → put d v acc ≡ acc ++ (d, v) ∷ []
unfolding put
put-above d v [] h = refl
put-above d v ((k, w) ∷ acc) h = ground (arith, put-above d v acc h.1)

KeysBelow-snoc :
    (d n : ℕ) (v : OptionValue) (acc : Options)
    → KeysBelow d acc
    → d < n
    → KeysBelow n (acc ++ (d, v) ∷ [])
KeysBelow-snoc d n v [] h k = (k, tt)
KeysBelow-snoc d n v ((j, w) ∷ acc) h k = (omega arith, KeysBelow-snoc d n v acc h.1 k)

KeysBelow-mono : (m n : ℕ) (acc : Options) → m ≤ n → KeysBelow m acc → KeysBelow n acc
KeysBelow-mono m n [] h k = tt
KeysBelow-mono m n ((j, w) ∷ acc) h k = (omega arith, KeysBelow-mono m n acc h k.1)

-- What the loop does with the encoding of `items` in front of the payload's marker.
abbrev ReadBack : ℕ → ℕ → Options → Bytes → Type 0
ReadBack prev least items bs =
    (fuel : ℕ) (acc : Options) (payload : Bytes)
    → length bs ≤ fuel
    → KeysBelow least acc
    → decode_options fuel prev acc (bs ++ (0xff ∷ payload)) ≡ ok (acc ++ items, 0xff ∷ payload)

marker_stops :
    (fuel prev : ℕ) (acc : Options) (payload : Bytes)
    → decode_options fuel prev acc (0xff ∷ payload) ≡ ok (acc, 0xff ∷ payload)
unfolding decode_options
marker_stops zero prev acc payload = refl
marker_stops (suc fuel) prev acc payload = refl

ReadBack-cons :
    (delta prev least : ℕ) (v : OptionValue) (items : Options) (bs : Bytes)
    (f : Survives (delta - prev) delta v)
    → least ≤ delta
    → prev ≤ delta
    → ReadBack delta (suc delta) items bs
    → ReadBack prev least
        ((delta, v) ∷ items)
        ((rfc_header (delta - prev) (length f.raw) ++ f.raw) ++ bs)
ReadBack-cons delta prev least v items bs f h k back zero acc payload l b = absurd (omega arith)
ReadBack-cons delta prev least v items bs f h k back (suc fuel) acc payload l b =
    let header : Bytes = rfc_header (delta - prev) (length f.raw) ++ f.raw in
    let room : length bs ≤ fuel = omega (arith, length-append header bs) in
    let known : KeysBelow delta acc = KeysBelow-mono least delta acc h b in
    ap (decode_options (suc fuel) prev acc) (append_assoc header bs (0xff ∷ payload))
    ∙ decode_options-step fuel (delta - prev) prev delta v acc (bs ++ (0xff ∷ payload)) f
        (omega arith)
    ∙ rw (put-above delta v acc known) (
        back fuel (acc ++ (delta, v) ∷ []) payload room
          (KeysBelow-snoc delta (suc delta) v acc known (omega arith)))
    ∙ ap (λ l. ok (l, 0xff ∷ payload)) (append_assoc acc ((delta, v) ∷ []) items)

-- Encoding a rising list of options succeeds, and the loop of the decoder reads the list back and
-- stops at the marker.
pub encode_options-back :
    (items : Options) (prev least : ℕ)
    → Rising prev least items
    → (bs : Bytes) × (encode_options prev items ≡ ok bs) × ReadBack prev least items bs
unfolding encode_options
encode_options-back [] prev least h =
    ([], refl, λ fuel acc payload l b. rw append-nil (marker_stops fuel prev acc payload))
encode_options-back ((delta, v) ∷ items) prev least (h, k, f, r) =
    let (bs, e, back) = encode_options-back items delta (suc delta) r in
    (
      (rfc_header (delta - prev) (length f.raw) ++ f.raw) ++ bs,
      rw (encode_option-Survives f, e),
      ReadBack-cons delta prev least v items bs f h k back,
    )
