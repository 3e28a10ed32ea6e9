-- ===== src/HeaderMap/Adds.antt =====
-- `add` of HeaderMap.cpp: it ends, and the table stays a table with a bucket to spare.
use xcbuild.Prelude.{
  ℕ, suc, ◌+◌, ◌*◌, ◌/◌, ◌%◌, ◌^◌, ◌<◌, ◌≤◌, Bool, true, false, not, ◌||◌, ◌≡◌, refl, ap, sym,
  subst, ◌∙◌, some, length, leb, ltb, arith, Every, Bool-cases, inl, inr, if◌then◌else◌,
}
use xcbuild.Prelude.Text.{Bytes}
use xcbuild.HeaderMap.{
  HeaderMap, canonicalize_key, contains, stop_before, wrap, rehash, grow, add_string, add_strings,
  add_entry, insert, is_nil, add,
}
use xcbuild.HeaderMap.Table.{Bucket, is_empty, get, get-set_at, length-set_at, count_full}
use xcbuild.HeaderMap.Probes.{find_slot-Probes}
use xcbuild.HeaderMap.Slots.{find_slot-total}
use xcbuild.HeaderMap.Placing.{IsHeld, IsHeld-Keeps, set-Placed, Sets}
use xcbuild.HeaderMap.Grow.{AreHeld, rehash-AreHeld}
use xcbuild.HeaderMap.Texts.{IsText, AreTexts, add_strings-AreTexts}

-- The header counts the buckets and the taken ones, of which there are fewer than three quarters,
-- and every offset is that of its text.
pub record IsSound (m : HeaderMap) : Type 0 where
  pub size : m.num_buckets ≡ length m.buckets
  pub counted : m.num_entries ≡ count_full m.buckets
  pub room : m.num_entries < m.num_buckets * 3 / 4
  pub eight : 8 ≤ m.num_buckets
  pub texts : AreTexts m

-- `add` of a string leaves the table.
abbrev SameTable : HeaderMap → HeaderMap → Type 0
SameTable m m' =
    (m'.num_entries ≡ m.num_entries) × (m'.num_buckets ≡ m.num_buckets) × (m'.buckets ≡ m.buckets)

add_string-SameTable :
    (string : Bytes) (key : Bool) (m : HeaderMap) → SameTable m (add_string string key m).0
unfolding add_string
add_string-SameTable string key m = (ground arith, ground arith, ground arith)

SameTable-trans : (m1 m2 m3 : HeaderMap) → SameTable m1 m2 → SameTable m2 m3 → SameTable m1 m3
SameTable-trans m1 m2 m3 (a, b, c) (d, e, f) = (d ∙ a, e ∙ b, f ∙ c)

add_strings-SameTable :
    (key prefix suffix : Bytes) (m : HeaderMap) → SameTable m (add_strings key prefix suffix m).0
unfolding add_strings
add_strings-SameTable key prefix suffix m =
    let m1 = (add_string key true m).0 in
    let m2 = (add_string prefix false m1).0 in
    let m3 = (add_string suffix false m2).0 in
    SameTable-trans m m1 m3 (add_string-SameTable key true m) (
      SameTable-trans m1 m2 m3 (add_string-SameTable prefix false m1)
        (add_string-SameTable suffix false m2))

-- What `grow` leaves: a table that holds what there was, with room for one more entry.
pub record Grown (m m' : HeaderMap) : Type 0 where
  pub size : m'.num_buckets ≡ length m'.buckets
  pub counted : m'.num_entries ≡ count_full m'.buckets
  pub room : m'.num_entries + 1 < m'.num_buckets * 3 / 4
  pub eight : 8 ≤ m'.num_buckets
  pub word : m'.num_buckets < 2 ^ 32
  pub held : AreHeld m.buckets m'.buckets
  pub entries : m'.num_entries ≡ m.num_entries
  pub strings : m'.strings ≡ m.strings
  pub offsets : m'.offsets ≡ m.offsets

-- `grow` where nothing wraps around.
grow_unwrapped :
    (hash : Bytes → ℕ) (m : HeaderMap)
    → m.num_buckets * 3 < 2 ^ 32
    → m.num_entries < m.num_buckets
    → grow hash m ≡ (
        if leb (m.num_buckets * 3 / 4) (m.num_entries + 1)
        then rehash hash (m.num_buckets * 2) m
        else some m)
unfolding grow
grow_unwrapped hash m w e =
    let three : wrap (m.num_buckets * 3) ≡ m.num_buckets * 3 = omega arith in
    let two : wrap (m.num_buckets * 2) ≡ m.num_buckets * 2 = omega arith in
    let one : wrap (m.num_entries + 1) ≡ m.num_entries + 1 = omega arith in
    rw (grow, three, two, one) refl

grow-Grown :
    (hash : Bytes → ℕ) (m : HeaderMap)
    → IsSound m
    → m.num_buckets * 3 < 2 ^ 32
    → (m' : HeaderMap) × (grow hash m ≡ some m') × Grown m m'
unfolding grow
grow-Grown hash m v w = elim (Bool-cases (leb (m.num_buckets * 3 / 4) (m.num_entries + 1))) [
  | inl y ↦
      let (t, r, l, f, h) =
        rehash-AreHeld hash m v.size (omega arith) (omega (arith, v.room, v.eight, v.counted)) in
      (
        record m { buckets = t; num_buckets = m.num_buckets * 2; modified = false },
        grow_unwrapped hash m w (omega (arith, v.room)) ∙ rw (y, r) refl,
        record {
          size = sym l;
          counted = v.counted ∙ sym f;
          room = omega (arith, v.room, v.eight);
          eight = omega (arith, v.eight);
          word = omega arith;
          held = h;
          entries = refl;
          strings = refl;
          offsets = refl;
        },
      )
  | inr y ↦ (
    m,
    grow_unwrapped hash m w (omega (arith, v.room)) ∙ rw y refl,
    record {
      size = v.size;
      counted = v.counted;
      room = ground arith;
      eight = v.eight;
      word = omega arith;
      held = λ i l f. (i, l, refl);
      entries = refl;
      strings = refl;
      offsets = refl;
    },
  )
]

-- What the end of `add` leaves, from a table `m` before it grows.
pub record Put (m : HeaderMap) (b : Bucket) (m' : HeaderMap) : Type 0 where
  pub size : m'.num_buckets ≡ length m'.buckets
  pub counted : m'.num_entries ≡ count_full m'.buckets
  pub room : m'.num_entries < m'.num_buckets * 3 / 4
  pub eight : 8 ≤ m'.num_buckets
  pub word : m'.num_buckets < 2 ^ 32
  pub held : AreHeld m.buckets m'.buckets
  pub new : (p : ℕ) × (p < length m'.buckets) × (get m'.buckets p ≡ b)
  pub entries : m'.num_entries ≡ m.num_entries + 1
  pub strings : m'.strings ≡ m.strings
  pub offsets : m'.offsets ≡ m.offsets
  pub modified : m'.modified ≡ true

set-Sets : (count size : ℕ) → count ≡ size → count < 2 ^ 32 → Sets IsHeld count count size 1
set-Sets count size y w e t (l, f) c s =
    let (p, i, r) = find_slot-total count e.0 t l w (y ∙ sym c) s in
    let (q, x) = find_slot-Probes (suc count) count (stop_before e.0) e.0 t p r in
    let bound : p < length t = omega arith in
    set-Placed IsHeld IsHeld-Keeps count e.0 e.1 t p f r bound x
      (p, omega (arith, length-set_at t p e.1), ground (arith, get-set_at t p p e.1))

insert-Put :
    (hash : Bytes → ℕ) (key : Bytes) (b : Bucket) (m : HeaderMap)
    → IsSound m
    → m.num_buckets * 3 < 2 ^ 32
    → is_empty b ≡ false
    → (m' : HeaderMap) × (insert hash key (m, b) ≡ some m') × Put m b m'
unfolding insert add_entry
insert-Put hash key b m v w f =
    let (g, y, d) = grow-Grown hash m v w in
    let n = g.num_buckets in
    let h = hash key % n in
    let counted : wrap (g.num_entries + 1) ≡ g.num_entries + 1 = omega (arith, d.room, d.word) in
    let (t, r, p) =
      set-Sets n n refl d.word (h, b) g.buckets (grind (arith, d.eight), f) (sym d.size)
        (omega (arith, d.room, d.counted)) in
    let full : count_full t ≡ count_full g.buckets + 1 = p.full in
    (
      record g {
        buckets = t;
        num_entries = g.num_entries + 1;
        max_value_length =
            if ltb g.max_value_length (length key) then length key else g.max_value_length;
        modified = true;
      },
      rw (insert, y, add_entry, r, counted) refl,
      record {
        size = d.size ∙ sym p.same_length;
        counted = omega (arith, d.counted, full);
        room = d.room;
        eight = d.eight;
        word = d.word;
        held = λ i l x.
            let (q, j, z) = d.held i l x in
            let (q', j', z') = p.kept (0, get m.buckets i) x (q, j, z) in (q', j', z');
        new = p.found.0;
        entries = omega (arith, d.entries);
        strings = d.strings;
        offsets = d.offsets;
        modified = refl;
      },
    )

add_strings-IsSound :
    (key prefix suffix : Bytes) (m : HeaderMap)
    → IsSound m
    → IsSound (add_strings key prefix suffix m).0
add_strings-IsSound key prefix suffix m v =
    let (e, n, b) = add_strings-SameTable key prefix suffix m in
    record {
      size = n ∙ v.size ∙ ap (λ x. length x) (sym b);
      counted = e ∙ v.counted ∙ ap count_full (sym b);
      room = omega (arith, e, n, v.room);
      eight = omega (arith, n, v.eight);
      texts = (add_strings-AreTexts key prefix suffix m v.texts).0;
    }

-- When `add` refuses.
abbrev pub is_refused : Bytes → Bytes → Bytes → HeaderMap → Bool
is_refused key prefix suffix m =
    is_nil key || is_nil prefix || is_nil suffix || contains (canonicalize_key key) m.keys

add_refused :
    (hash : Bytes → ℕ) (key prefix suffix : Bytes) (m : HeaderMap)
    → is_refused key prefix suffix m ≡ true
    → add hash key prefix suffix m ≡ some (m, false)
unfolding add
add_refused hash key prefix suffix m h = ground arith

add_put :
    (hash : Bytes → ℕ) (key prefix suffix : Bytes) (m m' : HeaderMap)
    → is_refused key prefix suffix m ≡ false
    → insert hash key (add_strings key prefix suffix m) ≡ some m'
    → add hash key prefix suffix m ≡ some (m', true)
unfolding add
add_put hash key prefix suffix m m' h p = ground arith

-- The entry of a key and its value, put into the table behind its strings.
pub insert-add_strings :
    (hash : Bytes → ℕ) (key prefix suffix : Bytes) (m : HeaderMap)
    → IsSound m
    → m.num_buckets * 3 < 2 ^ 32
    → let s = add_strings key prefix suffix m in
      (m' : HeaderMap) × (insert hash key s ≡ some m') × Put s.0 s.1 m'
insert-add_strings hash key prefix suffix m v w =
    let s = add_strings key prefix suffix m in
    let (e, n, b) = add_strings-SameTable key prefix suffix m in
    let texts = add_strings-AreTexts key prefix suffix m v.texts in
    insert-Put hash key s.1 s.0 (add_strings-IsSound key prefix suffix m v) (omega (arith, n, w))
      (ground (arith, texts.1))

-- On a sound table, three times its buckets no more than a word counts, `add` ends, whatever the
-- hash. The table is sound as before, every entry of it is still in it, and it has one more exactly
-- where `add` returns true, which is where no text is empty and the key is none of the recorded ones.
pub add-IsSound :
    (hash : Bytes → ℕ) (key prefix suffix : Bytes) (m : HeaderMap)
    → IsSound m
    → m.num_buckets * 3 < 2 ^ 32
    → (m' : HeaderMap) × (added : Bool) × (add hash key prefix suffix m ≡ some (m', added))
      × IsSound m'
      × AreHeld m.buckets m'.buckets
      × (added ≡ not (is_refused key prefix suffix m))
      × (m'.num_entries ≡ (if added then m.num_entries + 1 else m.num_entries))
add-IsSound hash key prefix suffix m v w = elim (Bool-cases (is_refused key prefix suffix m)) [
  | inl y ↦ (
    m,
    false,
    add_refused hash key prefix suffix m y,
    v,
    λ i l f. (i, l, refl),
    sym (ap not y),
    refl,
  )
  | inr y ↦
      let s = add_strings key prefix suffix m in
      let (e, n, b) = add_strings-SameTable key prefix suffix m in
      let texts = add_strings-AreTexts key prefix suffix m v.texts in
      let (m', r, p) = insert-add_strings hash key prefix suffix m v w in
      (
        m',
        true,
        add_put hash key prefix suffix m m' y r,
        record {
          size = p.size;
          counted = p.counted;
          room = p.room;
          eight = p.eight;
          texts =
              subst (λ x. Every (IsText x) m'.offsets) (sym p.strings)
                (subst (λ x. Every (IsText s.0.strings) x) (sym p.offsets) texts.0);
        },
        subst (λ x. AreHeld x m'.buckets) b p.held,
        sym (ap not y),
        omega (arith, p.entries, e),
      )
]
