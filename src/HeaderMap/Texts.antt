-- ===== src/HeaderMap/Texts.antt =====
-- The table of strings of HeaderMap.cpp: what the offsets stand for.
use xcbuild.Prelude.{
  ℕ, zero, suc, ◌<◌, Bool, true, false, ◌≡◌, ◌≢◌, refl, ap, sym, subst, ◌∙◌, none, some, List, [],
  ◌∷◌, ◌++◌, append_assoc, length, leb, drop, arith, Every, Bool-cases, Option-cases, inl, inr,
  if◌then◌else◌,
}
use xcbuild.Prelude.Text.{Bytes, equal, equal_iff, until_nul, until_nul_text}
use xcbuild.HeaderMap.{HeaderMap, find_offset, string_at, add_string, add_strings}

-- The text stands in the strings at the offset, which is not 0, with a NUL behind it.
abbrev pub IsText : Bytes → Bytes × ℕ → Type 0
IsText strings e = (0 < e.1) × (rest : Bytes) × (drop e.1 strings ≡ e.0 ++ 0 ∷ rest)

abbrev pub AreTexts : HeaderMap → Type 0
AreTexts m = Every (IsText m.strings) m.offsets

drop-append_front :
    (n : ℕ) (a b : Bytes) (c : ℕ) (rest : Bytes)
    → drop n a ≡ c ∷ rest
    → drop n (a ++ b) ≡ c ∷ (rest ++ b)
drop-append_front zero a b c rest h = rw h
drop-append_front (suc n) [] b c rest h = absurd (cc h)
drop-append_front (suc n) (d ∷ a) b c rest h = drop-append_front n a b c rest h

drop-append_text :
    (n : ℕ) (a b s rest : Bytes) → drop n a ≡ s ++ 0 ∷ rest → drop n (a ++ b) ≡ s ++ 0 ∷ (rest ++ b)
drop-append_text n a b [] rest h = drop-append_front n a b 0 rest h
drop-append_text n a b (c ∷ s) rest h =
    drop-append_front n a b c (s ++ 0 ∷ rest) h ∙ ap (λ x. c ∷ x) (append_assoc s (0 ∷ rest) b)

drop-length : (a b : Bytes) → drop (length a) (a ++ b) ≡ b
drop-length [] b = refl
drop-length (c ∷ a) b = drop-length a b

IsText-append :
    (strings more : Bytes) (e : Bytes × ℕ) → IsText strings e → IsText (strings ++ more) e
IsText-append strings more e (z, rest, h) =
    (z, rest ++ more, drop-append_text e.1 strings more e.0 rest h)

Every-IsText :
    (strings more : Bytes) (offsets : List (Bytes × ℕ))
    → Every (IsText strings) offsets
    → Every (IsText (strings ++ more)) offsets
Every-IsText strings more [] h = tt
Every-IsText strings more (e ∷ offsets) (t, h) =
    (IsText-append strings more e t, Every-IsText strings more offsets h)

find_offset-IsText :
    (strings string : Bytes) (offsets : List (Bytes × ℕ)) (o : ℕ)
    → Every (IsText strings) offsets
    → find_offset string offsets ≡ some o
    → IsText strings (string, o)
unfolding find_offset
find_offset-IsText strings string [] o t h = absurd (cc h)
find_offset-IsText strings string (e ∷ offsets) o (t, ts) h = elim (Bool-cases (equal e.0 string)) [
  | inl y ↦
      let same : e.0 ≡ string = (equal_iff e.0 string).0 y in
      let there : e.1 ≡ o = ground (arith, y) in
      subst (λ x. IsText strings (x, o)) same (subst (λ x. IsText strings (e.0, x)) there t)
  | inr y ↦ find_offset-IsText strings string offsets o ts (ground (arith, y))
]

-- What a call of `add` of a string leaves: all the texts there were, and the new one.
record Added (m : HeaderMap) (string : Bytes) (r : HeaderMap × ℕ) : Type 0 where
  texts : AreTexts r.0
  text : IsText r.0.strings (string, r.1)
  kept : (e : Bytes × ℕ) → IsText m.strings e → IsText r.0.strings e

text_not_nil : (s rest : Bytes) → s ++ 0 ∷ rest ≢ []
text_not_nil [] rest h = absurd (cc h)
text_not_nil (c ∷ s) rest h = absurd (cc h)

-- The strings with the empty slot at 0.
abbrev with_slot : Bytes → Bytes
with_slot strings = if leb (length strings) 0 then 0 ∷ [] else strings

with_slot_cons : (c : ℕ) (strings : Bytes) → with_slot (c ∷ strings) ≡ c ∷ strings
with_slot_cons c strings = ground arith

with_slot-IsText :
    (strings : Bytes) (e : Bytes × ℕ) → IsText strings e → IsText (with_slot strings) e
with_slot-IsText [] (s, zero) (z, rest, h) = absurd (omega (arith, z))
with_slot-IsText [] (s, suc n) (z, rest, h) = absurd (text_not_nil s rest (sym h))
with_slot-IsText (c ∷ strings) e h = subst (λ x. IsText x e) (sym (with_slot_cons c strings)) h

Every-with_slot :
    (strings : Bytes) (offsets : List (Bytes × ℕ))
    → Every (IsText strings) offsets
    → Every (IsText (with_slot strings)) offsets
Every-with_slot strings [] h = tt
Every-with_slot strings (e ∷ offsets) (t, h) =
    (with_slot-IsText strings e t, Every-with_slot strings offsets h)

with_slot_positive : (strings : Bytes) → 0 < length (with_slot strings)
with_slot_positive [] = omega arith
with_slot_positive (c ∷ strings) = ground arith

add_string_found :
    (string : Bytes) (key : Bool) (m : HeaderMap) (o : ℕ)
    → find_offset string m.offsets ≡ some o
    → add_string string key m ≡ (m, o)
unfolding add_string
add_string_found string key m o h = rw (add_string, h)

-- What the strings and the offsets are behind a new string.
add_string_new :
    (string : Bytes) (key : Bool) (m : HeaderMap)
    → find_offset string m.offsets ≡ none
    → let strings = with_slot m.strings in
      let r = add_string string key m in
      (r.0.strings ≡ strings ++ (string ++ 0 ∷ []))
      × (r.0.offsets ≡ (string, length strings) ∷ m.offsets)
      × (r.1 ≡ length strings)
unfolding add_string
add_string_new string key m h = (rw (add_string, h), rw (add_string, h), rw (add_string, h))

add_string-Added :
    (string : Bytes) (key : Bool) (m : HeaderMap)
    → AreTexts m
    → Added m string (add_string string key m)
add_string-Added string key m t = elim (Option-cases (find_offset string m.offsets)) [
  | inl n ↦
      let old = with_slot m.strings in
      let more : Bytes = string ++ 0 ∷ [] in
      let (s, o, p) = add_string_new string key m n in
      let text : IsText (old ++ more) (string, length old) =
        (with_slot_positive m.strings, [], drop-length old more) in
      record {
        texts =
            subst (λ x. Every (IsText x) (add_string string key m).0.offsets) (sym s)
              (subst (λ x. Every (IsText (old ++ more)) x) (sym o)
                (text, Every-IsText old more m.offsets (Every-with_slot m.strings m.offsets t)));
        text =
            subst (λ x. IsText x (string, (add_string string key m).1)) (sym s)
              (subst (λ x. IsText (old ++ more) (string, x)) (sym p) text);
        kept = λ e h.
            subst (λ x. IsText x e) (sym s)
              (IsText-append old more e (with_slot-IsText m.strings e h));
      }
  | inr (o, y) ↦
      subst (λ r. Added m string r) (sym (add_string_found string key m o y))
        (record {
          texts = t;
          text = find_offset-IsText m.strings string m.offsets o t y;
          kept = λ e h. h;
        })
]

-- After the strings of an entry are added every offset is that of its text, the three of the bucket
-- are those of the key, the prefix and the suffix, and the texts there were are where they were.
pub add_strings-AreTexts :
    (key prefix suffix : Bytes) (m : HeaderMap)
    → AreTexts m
    → let (m', b) = add_strings key prefix suffix m in
      AreTexts m'
      × IsText m'.strings (key, b.key)
      × IsText m'.strings (prefix, b.prefix)
      × IsText m'.strings (suffix, b.suffix)
      × ((e : Bytes × ℕ) → IsText m.strings e → IsText m'.strings e)
unfolding add_strings
add_strings-AreTexts key prefix suffix m t =
    let r1 = add_string key true m in
    let r2 = add_string prefix false r1.0 in
    let a1 = add_string-Added key true m t in
    let a2 = add_string-Added prefix false r1.0 a1.texts in
    let a3 = add_string-Added suffix false r2.0 a2.texts in
    (
      a3.texts,
      a3.kept (key, r1.1) (a2.kept (key, r1.1) a1.text),
      a3.kept (prefix, r2.1) a2.text,
      a3.text,
      λ e h. a3.kept e (a2.kept e (a1.kept e h)),
    )

-- A text without NUL is read back.
pub string_at-IsText :
    (strings : Bytes) (e : Bytes × ℕ)
    → IsText strings e
    → Every (λ c. c ≢ 0) e.0
    → string_at e.1 strings ≡ e.0
string_at-IsText strings e (z, rest, h) n = ap until_nul h ∙ until_nul_text e.0 rest n
