-- ===== src/HeaderMap/Searches.antt =====
-- The table of HeaderMap.cpp as `write` writes it: a search for a key that was added arrives at it.
use xcbuild.Prelude.{
  ℕ, ◌*◌, ◌%◌, ◌^◌, ◌<◌, true, false, ◌≡◌, ◌≢◌, ap, sym, subst, ◌∙◌, some, arith, Every,
}
use xcbuild.Prelude.Text.{Bytes}
use xcbuild.HeaderMap.{HeaderMap, string_at, rehash, add_strings, add, prepare}
use xcbuild.HeaderMap.Table.{Bucket, is_empty, get}
use xcbuild.HeaderMap.Probes.{Probes}
use xcbuild.HeaderMap.Entries.{entry_of}
use xcbuild.HeaderMap.Rehash.{IsTable, IsFound, rehash-AreFound}
use xcbuild.HeaderMap.Texts.{IsText, string_at-IsText, add_strings-AreTexts}
use xcbuild.HeaderMap.Keys.{add-true}
use xcbuild.HeaderMap.Adds.{IsSound, Put, insert-add_strings}

-- A search for the key arrives at a bucket with the texts of the key and of its value.
abbrev pub IsListed : (Bytes → ℕ) → HeaderMap → Bytes → Bytes → Bytes → Type 0
IsListed hash m key prefix suffix =
    (p : ℕ) × Probes m.num_buckets m.buckets (hash key % m.num_buckets) p
    × (string_at (get m.buckets p).key m.strings ≡ key)
    × (string_at (get m.buckets p).prefix m.strings ≡ prefix)
    × (string_at (get m.buckets p).suffix m.strings ≡ suffix)

prepare_modified :
    (hash : Bytes → ℕ) (m m' : HeaderMap)
    → m.modified ≡ true
    → rehash hash m.num_buckets m ≡ some m'
    → prepare hash m ≡ some m'
unfolding prepare
prepare_modified hash m m' h r = rw (prepare, h, r)

Put-IsTable : (m m' : HeaderMap) (b : Bucket) → Put m b m' → IsTable m'
Put-IsTable m m' b p = record {
  size = p.size;
  word = p.word;
  spare = omega (arith, p.counted, p.room, p.eight);
}

-- A bucket that is in the table before is arrived at in the new one.
prepare-IsListed :
    (hash : Bytes → ℕ) (m m' : HeaderMap) (b : Bucket) (key prefix suffix : Bytes)
    → Put m b m'
    → is_empty b ≡ false
    → string_at b.key m'.strings ≡ key
    → string_at b.prefix m'.strings ≡ prefix
    → string_at b.suffix m'.strings ≡ suffix
    → (w : HeaderMap) × (prepare hash m' ≡ some w) × IsListed hash w key prefix suffix
prepare-IsListed hash m m' b key prefix suffix p f k x y =
    let (t, r, v, c, a) = rehash-AreFound hash m' (Put-IsTable m m' b p) in
    let (i, l, e) = p.new in
    let n = m'.num_buckets in
    let found : IsFound n t (entry_of hash n m'.strings b) =
      subst (λ c. IsFound n t (entry_of hash n m'.strings c)) e
        (a i l (subst (λ c. is_empty c ≡ false) (sym e) f)) in
    let (q, s, g) = found in
    (
      record m' { buckets = t; modified = false },
      prepare_modified hash m' (record m' { buckets = t; modified = false }) p.modified r,
      (
        q,
        subst (λ c. Probes n t (hash c % n) q) k s,
        ap (λ c. string_at c.key m'.strings) g ∙ k,
        ap (λ c. string_at c.prefix m'.strings) g ∙ x,
        ap (λ c. string_at c.suffix m'.strings) g ∙ y,
      ),
    )

-- After `add` returns true on a sound table, three times its buckets no more than a word counts, for
-- texts without NUL: what `write` does to the table ends, and a search for the key from its hash
-- arrives at a bucket whose offsets are those of the key, the prefix and the suffix, whatever the
-- hash.
pub prepare-add :
    (hash : Bytes → ℕ) (key prefix suffix : Bytes) (m m' : HeaderMap)
    → IsSound m
    → m.num_buckets * 3 < 2 ^ 32
    → Every (λ c. c ≢ 0) key
    → Every (λ c. c ≢ 0) prefix
    → Every (λ c. c ≢ 0) suffix
    → add hash key prefix suffix m ≡ some (m', true)
    → (w : HeaderMap) × (prepare hash m' ≡ some w) × IsListed hash w key prefix suffix
prepare-add hash key prefix suffix m m' v w nk np ns h =
    let s = add_strings key prefix suffix m in
    let (m1, r, p1) = insert-add_strings hash key prefix suffix m v w in
    let same : m1 ≡ m' = cc (r, add-true hash key prefix suffix m m' h) in
    let p : Put s.0 s.1 m' = subst (λ x. Put s.0 s.1 x) same p1 in
    let texts = add_strings-AreTexts key prefix suffix m v.texts in
    let read : (e : Bytes × ℕ)
        → IsText s.0.strings e
        → Every (λ c. c ≢ 0) e.0
        → string_at e.1 m'.strings ≡ e.0 =
      λ e t n. ap (λ x. string_at e.1 x) p.strings ∙ string_at-IsText s.0.strings e t n in
    prepare-IsListed hash s.0 m' s.1 key prefix suffix p (ground (arith, texts.1))
      (read (key, s.1.key) texts.1 nk) (read (prefix, s.1.prefix) texts.2 np)
      (read (suffix, s.1.suffix) texts.3 ns)
