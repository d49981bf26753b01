-- ===== src/Tests/Json.antt =====
-- A text format for documents, with which the json module's law is shown to be satisfiable.
use coap_share_drive.Base.{ℕ, ◌==◌, if◌then◌else◌, Option, none, some, ◌≡◌, refl, ap, ◌∙◌, [], ◌∷◌}
use coap_share_drive.Base.Outcome.{Outcome, ok, err}
use coap_share_drive.Bytes.{Text}
use coap_share_drive.Bytes.Utf8
use coap_share_drive.Bytes.Utf8.RoundTrip.{decode-encode_text}
use coap_share_drive.Packet.Value.{Doc}
use coap_share_drive.Packet.Decode.{JsonCodec}
use coap_share_drive.Packet.RoundTrip.PayloadPart.{LoadsDumps}

-- Each character with a mark before it.
unfoldable pub marked : ℕ → Text → Text → Text
marked m [] rest = rest
marked m (c ∷ cs) rest = m ∷ c ∷ marked m cs rest

-- An entry: the key's characters, the value's characters, an end mark.
unfoldable pub print : Doc → Text
print [] = []
print ((k, v) ∷ d) = marked 1 k (marked 2 v (0 ∷ 0 ∷ print d))

abbrev pub on_key : ℕ → Doc → Doc
on_key c [] = []
on_key c ((k, v) ∷ d) = (c ∷ k, v) ∷ d

abbrev pub on_value : ℕ → Doc → Doc
on_value c [] = []
on_value c ((k, v) ∷ d) = (k, c ∷ v) ∷ d

unfoldable pub parse : Text → Doc
parse [] = []
parse (m ∷ []) = []
parse (m ∷ c ∷ rest) =
    let d = parse rest in
    if m == 0 then ([], []) ∷ d else if m == 1 then on_key c d else on_value c d

abbrev pub document : Outcome Text → Option Doc
document (ok t) = some (parse t)
document (err e) = none

unfoldable pub codec : JsonCodec
unfolding print parse marked
codec = record { dumps = print; loads = λ raw. document (Utf8.decode raw) }

parse-key :
    (k v rest : Text) (d : Doc) → parse rest ≡ ([], v) ∷ d → parse (marked 1 k rest) ≡ (k, v) ∷ d
unfolding parse marked
parse-key [] v rest d h = h
parse-key (c ∷ k) v rest d h = rw (parse-key k v rest d h)

parse-value :
    (v rest : Text) (d : Doc) → parse rest ≡ ([], []) ∷ d → parse (marked 2 v rest) ≡ ([], v) ∷ d
unfolding parse marked
parse-value [] rest d h = h
parse-value (c ∷ v) rest d h = rw (parse-value v rest d h)

parse-end : (rest : Text) → parse (0 ∷ 0 ∷ rest) ≡ ([], []) ∷ parse rest
unfolding parse
parse-end rest = refl

parse-print : (d : Doc) → parse (print d) ≡ d
unfolding print
parse-print [] = unfold parse in refl
parse-print ((k, v) ∷ d) =
    parse-key k v (marked 2 v (0 ∷ 0 ∷ print d)) d
      (parse-value v (0 ∷ 0 ∷ print d) d (parse-end (print d) ∙ ap (◌∷◌ ([], [])) (parse-print d)))

pub codec-LoadsDumps : LoadsDumps codec
unfolding codec
codec-LoadsDumps d raw e = rw (decode-encode_text (print d) raw e, parse-print d)
