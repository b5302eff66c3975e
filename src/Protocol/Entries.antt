-- ===== src/Protocol/Entries.antt =====
-- The metadata of a frame: one line for each entry of the map.
use madre.Base.{
  emplace, ◌≡◌, ◌∙◌, inl, inr, sym, refl, List, [], ◌∷◌, ◌++◌, Option, none, some, Bool, true,
  false, not, ◌&&◌, arith, Text, Bytes, codes, is_empty, text_lt, text_lt_asymm, text_eq-text_lt,
  has_byte, has_any_of, has_byte-append, has_byte-cons, ok-injective, has_byte-has_any_of,
  All-append, split_on, cut, cut-append, split_on-append, any_of, All, if◌then◌else◌, Bool-cases,
  Result, ok, err, runtime_error, framing_error, ◌>>=◌, >>=-eq-ok,
}
use mathlib.Core.List.{append-nil, append_assoc}
use madre.Protocol.{Metadata}

-- The tests of `encode_metadata` on one entry.
unfoldable pub is_entry : Text → Text → Bool
is_entry key value =
    not (is_empty key)
    && not (has_any_of (b'=' ∷ 13 ∷ b'\n' ∷ []) key)
    && not (has_any_of (13 ∷ b'\n' ∷ []) value)

unfoldable pub encode_metadata : Metadata → Result Bytes
encode_metadata [] = ok []
encode_metadata ((key, value) ∷ rest) =
    if is_entry key value
    then (do out ← encode_metadata rest; ok (key ++ (b'=' ∷ (value ++ (b'\n' ∷ out)))))
    else err (runtime_error (codes "invalid framed metadata"))

abbrev pub malformed {ℓ} : {A : Type ℓ} → Result A
malformed = err (framing_error (codes "malformed framed metadata"))

abbrev add_entry : Option (Text × Text) → Metadata → Result Metadata
add_entry none out = malformed
add_entry (some (key, value)) out = if is_empty key then malformed else ok (emplace key value out)

unfoldable pub decode_line : Text → Metadata → Result Metadata
decode_line line out = if is_empty line then ok out else add_entry (cut b'=' line) out

unfoldable pub decode_lines : List Text → Metadata → Result Metadata
decode_lines [] out = ok out
decode_lines (line ∷ rest) out = do out' ← decode_line line out; decode_lines rest out'

unfoldable pub decode_metadata : Bytes → Result Metadata
decode_metadata encoded = decode_lines (split_on b'\n' encoded) []

-- The keys of a map ascend.
abbrev pub IsSorted : Metadata → Type 0
IsSorted [] = Unit {0}
IsSorted ((k, v) ∷ rest) = All (λ (e : Text × Text). text_lt k e.0 ≡ true) rest × IsSorted rest

emplace_last :
    (key value : Text) (out : Metadata)
    → All (λ (e : Text × Text). text_lt e.0 key ≡ true) out
    → emplace key value out ≡ out ++ ((key, value) ∷ [])
unfolding emplace
emplace_last key value [] h = refl
emplace_last key value ((k, v) ∷ rest) h =
    rw (text_eq-text_lt k key h.0, text_lt_asymm k key h.0, emplace_last key value rest h.1)

is_entry-bytes :
    (key value : Text)
    → is_entry key value ≡ true
    → (is_empty key ≡ false)
      × (has_byte b'=' key ≡ false)
      × (has_byte b'\n' key ≡ false)
      × (has_byte b'\n' value ≡ false)
unfolding is_entry
is_entry-bytes key value h =
    let no_key : has_any_of (b'=' ∷ 13 ∷ b'\n' ∷ []) key ≡ false = ground arith in
    let no_value : has_any_of (13 ∷ b'\n' ∷ []) value ≡ false = ground arith in
    (
      ground arith,
      has_byte-has_any_of b'=' _ key no_key (unfold has_byte any_of in refl),
      has_byte-has_any_of b'\n' _ key no_key (unfold has_byte any_of in refl),
      has_byte-has_any_of b'\n' _ value no_value (unfold has_byte any_of in refl),
    )

line-ne-empty : (key value : Text) → is_empty (key ++ (b'=' ∷ value)) ≡ false
unfolding is_empty
line-ne-empty [] value = refl
line-ne-empty (c ∷ key) value = refl

decode_line-entry :
    (key value : Text) (out : Metadata)
    → is_entry key value ≡ true
    → All (λ (e : Text × Text). text_lt e.0 key ≡ true) out
    → decode_line (key ++ (b'=' ∷ value)) out ≡ ok (out ++ ((key, value) ∷ []))
unfolding decode_line
decode_line-entry key value out h lower =
    let (some', no_eq, _, _) = is_entry-bytes key value h in
    rw (line-ne-empty key value, cut-append b'=' key value no_eq, some')
      (rw (emplace_last key value out lower))

-- All keys of the first map are below all keys of the second.
abbrev Below : Metadata → Metadata → Type 0
Below out m = All (λ (e : Text × Text). All (λ (d : Text × Text). text_lt d.0 e.0 ≡ true) out) m

Below-concat :
    (key value : Text) (out m : Metadata)
    → Below out m
    → All (λ (e : Text × Text). text_lt key e.0 ≡ true) m
    → Below (out ++ ((key, value) ∷ [])) m
Below-concat key value out [] b h = tt
Below-concat key value out (e ∷ m) b h =
    (All-append _ out _ b.0 (h.0, tt), Below-concat key value out m b.1 h.1)

Below-nil : (m : Metadata) → Below [] m
Below-nil [] = tt
Below-nil (e ∷ m) = (tt, Below-nil m)

encode_metadata-nil : (encoded : Bytes) → encode_metadata [] ≡ ok encoded → encoded ≡ []
unfolding encode_metadata
encode_metadata-nil encoded e = ground arith

encode_metadata-cons :
    (key value : Text) (m : Metadata) (encoded : Bytes)
    → encode_metadata ((key, value) ∷ m) ≡ ok encoded
    → (rest : Bytes) × (is_entry key value ≡ true)
      × (encode_metadata m ≡ ok rest)
      × (encoded ≡ (key ++ (b'=' ∷ value)) ++ (b'\n' ∷ rest))
unfolding encode_metadata
encode_metadata-cons key value m encoded e = elim (Bool-cases (is_entry key value)) [
  | inr bad ↦ absurd (cc (rw bad at e))
  | inl fine ↦
      let (rest, er, eo) = >>=-eq-ok (encode_metadata m) _ (rw fine at e) in
      (rest, fine, er, ok-injective (sym eo) ∙ sym (append_assoc key (b'=' ∷ value) (b'\n' ∷ rest)))
]

decode_lines-encode :
    (m out : Metadata) (encoded : Bytes)
    → encode_metadata m ≡ ok encoded
    → IsSorted m
    → Below out m
    → decode_lines (split_on b'\n' encoded) out ≡ ok (out ++ m)
unfolding decode_lines
decode_lines-encode [] out encoded e s b =
    rw (encode_metadata-nil encoded e, append-nil) (unfold split_on decode_line is_empty in refl)
decode_lines-encode ((key, value) ∷ m) out encoded e s b =
    let (rest, fine, er, eo) = encode_metadata-cons key value m encoded e in
    let (_, _, no_newline, no_newline') = is_entry-bytes key value fine in
    let one_line : has_byte b'\n' (key ++ (b'=' ∷ value)) ≡ false =
      has_byte-append b'\n' key (b'=' ∷ value) no_newline
        (has_byte-cons b'\n' b'=' value refl no_newline') in
    rw (eo, split_on-append b'\n' (key ++ (b'=' ∷ value)) rest one_line)
      (rw (decode_line-entry key value out fine b.0) (
        decode_lines-encode m (out ++ ((key, value) ∷ [])) rest er s.1
          (Below-concat key value out m b.1 s.0)
        ∙ rw append_assoc))

-- Decoding reads back what encoding wrote, for every map that can be encoded.
pub decode_metadata-encode_metadata :
    (m : Metadata) (encoded : Bytes)
    → encode_metadata m ≡ ok encoded
    → IsSorted m
    → decode_metadata encoded ≡ ok m
unfolding decode_metadata
decode_metadata-encode_metadata m encoded e s = decode_lines-encode m [] encoded e s (Below-nil m)
