-- ===== src/Settings/Value/RoundTrip.antt =====
-- `Value::Parse` reads back what `raw` writes.
use xcbuild.Prelude.{
  ℕ, zero, suc, ◌<◌, ◌≡◌, refl, sym, ap, ◌∙◌, [], ◌∷◌, ◌++◌, length, length-append, arith,
  append_assoc, append-nil,
}
use xcbuild.Prelude.Text.{Bytes, Lacks}
use xcbuild.Settings.Value.Search.{
  IsCanonical, is_markup, IsClosing, at_end, at_parenthesis, round-closing, round-reference,
  take-length, drop-length, drop-length_two, append-append, append_nil, push_literal-ne,
}
use xcbuild.Settings.Value.{
  Value, nil, string, reference, raw, append, Delimiter, no_delimiter, parentheses, found,
  push_literal, parse_value, parse,
}

module _ (fuel : ℕ) {end : Delimiter} {tail : Bytes} (entries : Value) (s : Bytes)
    (closing : IsClosing end tail) (l : Lacks is_markup s) where
  -- The last round, at a literal in front of the end.
  parse_value-closing :
      parse_value (suc fuel) end entries [] (s ++ tail) ≡ found tail (push_literal entries s)
  unfolding parse_value
  parse_value-closing =
      rw (round-closing s closing l, parse_value, take-length s tail, drop-length s tail)

  -- A round at a literal and a reference behind it, whose value the nested call finds.
  parse_value-reference :
      (a r : Value)
      → parse_value fuel parentheses nil [] (raw a ++ b')' ∷ (raw r ++ tail))
        ≡ found (b')' ∷ (raw r ++ tail)) a
      → parse_value (suc fuel) end entries [] (s ++ b'$' ∷ b'(' ∷ ((raw a ++ b')' ∷ raw r) ++ tail))
        ≡ parse_value fuel end
            (append (push_literal entries s) (reference a nil))
            []
            (raw r ++ tail)
  unfolding parse_value
  parse_value-reference a r nested =
      let text = (raw a ++ b')' ∷ raw r) ++ tail in
      let same =
        ap (parse_value fuel parentheses nil []) (append_assoc (raw a) (b')' ∷ raw r) tail) in
      rw (
        round-reference s (raw a ++ b')' ∷ raw r) closing l,
        parse_value,
        drop-length_two s b'$' b'(' text,
        same,
        nested,
        take-length s (b'$' ∷ b'(' ∷ text),
      )

push_literal-nil : (entries : Value) → push_literal entries [] ≡ append entries nil
unfolding push_literal
push_literal-nil entries = sym (append_nil entries)

append_reference :
    (entries a v : Value)
    → append (append entries (reference a nil)) v ≡ append entries (reference a v)
unfolding append
append_reference entries a v = append-append entries (reference a nil) v

append_literal :
    (entries : Value) (s : Bytes) (a v : Value)
    → append (append (append entries (string s nil)) (reference a nil)) v
      ≡ append entries (string s (reference a v))
unfolding append
append_literal entries s a v =
    append_reference (append entries (string s nil)) a v
    ∙ append-append entries (string s nil) (reference a v)

append-nil_left : (v : Value) → append nil v ≡ v
unfolding append
append-nil_left v = refl

-- The nested call and the next round have less text.
less_text :
    (s a v tail : Bytes) (fuel : ℕ)
    → length ((s ++ b'$' ∷ b'(' ∷ (a ++ b')' ∷ v)) ++ tail) < suc fuel
    → (length (a ++ b')' ∷ (v ++ tail)) < fuel) × (length (v ++ tail) < fuel)
less_text s a v tail fuel h = omega (
  arith,
  length-append (s ++ b'$' ∷ b'(' ∷ (a ++ b')' ∷ v)) tail,
  length-append s (b'$' ∷ b'(' ∷ (a ++ b')' ∷ v)),
  length-append a (b')' ∷ v),
  length-append a (b')' ∷ (v ++ tail)),
  length-append v tail,
)

-- The text of a canonical value is read back in front of any end, with the fuel that its length gives.
parse_value-raw :
    (fuel : ℕ) {end : Delimiter} {tail : Bytes} (entries v : Value)
    → IsClosing end tail
    → IsCanonical v
    → length (raw v ++ tail) < fuel
    → parse_value fuel end entries [] (raw v ++ tail) ≡ found tail (append entries v)
unfolding raw
parse_value-raw zero entries v closing c h = absurd (omega arith)
parse_value-raw (suc fuel) {tail = tail} entries nil closing c h =
    parse_value-closing fuel entries [] closing tt ∙ ap (found tail) (push_literal-nil entries)
parse_value-raw (suc fuel) {end = end} {tail = tail} entries (string s nil) closing c h =
    ap (λ t. parse_value (suc fuel) end entries [] (t ++ tail)) (append-nil s)
    ∙ parse_value-closing fuel entries s closing c.1
    ∙ ap (found tail) (push_literal-ne entries s c.0)
parse_value-raw (suc fuel) entries (string s (string t v)) closing c h = absurd c
parse_value-raw (suc fuel) {end = end} {tail = tail} entries (string s (reference a v)) closing c
      h =
    ap (parse_value (suc fuel) end entries []) (append_assoc s (raw (reference a v)) tail)
    ∙ parse_value-reference fuel entries s closing c.1 a v (
        parse_value-raw fuel nil a (at_parenthesis (raw v ++ tail)) c.2.0
          (less_text s (raw a) (raw v) tail fuel h).0
        ∙ ap (found (b')' ∷ (raw v ++ tail))) (append-nil_left a))
    ∙ parse_value-raw fuel (append (push_literal entries s) (reference a nil)) v closing c.2.1
        (less_text s (raw a) (raw v) tail fuel h).1
    ∙ ap (found tail) (
        ap (λ t. append (append t (reference a nil)) v) (push_literal-ne entries s c.0)
        ∙ append_literal entries s a v)
parse_value-raw (suc fuel) {tail = tail} entries (reference a v) closing c h =
    parse_value-reference fuel entries [] closing tt a v (
      parse_value-raw fuel nil a (at_parenthesis (raw v ++ tail)) c.0
        (less_text [] (raw a) (raw v) tail fuel h).0
      ∙ ap (found (b')' ∷ (raw v ++ tail))) (append-nil_left a))
    ∙ parse_value-raw fuel (append (push_literal entries []) (reference a nil)) v closing c.1
        (less_text [] (raw a) (raw v) tail fuel h).1
    ∙ ap (found tail) (
        ap (λ t. append (append t (reference a nil)) v)
          (push_literal-nil entries ∙ append_nil entries)
        ∙ append_reference entries a v)

-- `Value::Parse` reads the text of a canonical value back as that value, at any depth of nesting.
pub parse-raw : (v : Value) → IsCanonical v → parse (raw v) ≡ found [] v
unfolding parse
parse-raw v c =
    ap (λ t. parse_value (suc (length (raw v))) no_delimiter nil [] t) (sym (append-nil (raw v)))
    ∙ parse_value-raw (suc (length (raw v))) nil v at_end c
        (omega (arith, ap (λ (t : Bytes). length t) (append-nil (raw v))))
    ∙ ap (found []) (append-nil_left v)
