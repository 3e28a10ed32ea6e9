-- ===== src/HeaderMap/Entries.antt =====
-- The sorted entries of `rehash` of HeaderMap.cpp: those of the taken buckets.
use xcbuild.Prelude.{
  ℕ, zero, suc, ◌+◌, ◌%◌, ◌<◌, false, ◌≡◌, refl, subst, List, [], ◌∷◌, length, arith, Every,
  Bool-cases, inl, inr, if◌then◌else◌, ltb,
}
use xcbuild.Prelude.Text.{Bytes}
use xcbuild.HeaderMap.{insert_sorted, collect, string_at}
use xcbuild.HeaderMap.Table.{Bucket, is_empty, get, count_full}

length-insert_sorted :
    (e : ℕ × Bucket) (entries : List (ℕ × Bucket))
    → length (insert_sorted e entries) ≡ suc (length entries)
unfolding insert_sorted
length-insert_sorted e [] = refl
length-insert_sorted e (f ∷ entries) = ground (arith, length-insert_sorted e entries)

-- What holds of the new entry and of all the others holds of all of them, and the other way round.
insert_sorted-Every :
    (Q : ℕ × Bucket → Type 0) (e : ℕ × Bucket) (entries : List (ℕ × Bucket))
    → Q e
    → Every Q entries
    → Every Q (insert_sorted e entries)
unfolding insert_sorted
insert_sorted-Every Q e [] q h = (q, tt)
insert_sorted-Every Q e (f ∷ entries) q h = elim (Bool-cases (ltb e.0 f.0)) [
  | inl y ↦ rw y (q, h)
  | inr y ↦ rw y (h.0, insert_sorted-Every Q e entries q h.1)
]

Every-insert_sorted :
    (Q : ℕ × Bucket → Type 0) (e : ℕ × Bucket) (entries : List (ℕ × Bucket))
    → Every Q (insert_sorted e entries)
    → Q e × Every Q entries
unfolding insert_sorted
Every-insert_sorted Q e [] h = h
Every-insert_sorted Q e (f ∷ entries) h = elim (Bool-cases (ltb e.0 f.0)) [
  | inl y ↦ subst (λ b. Every Q (if b then e ∷ f ∷ entries else f ∷ insert_sorted e entries)) y h
  | inr y ↦
      let g : Every Q (f ∷ insert_sorted e entries) =
        subst (λ b. Every Q (if b then e ∷ f ∷ entries else f ∷ insert_sorted e entries)) y h in
      let (a, b) = Every-insert_sorted Q e entries g.1 in (a, (g.0, b))
]

-- The bucket with the hash of its key.
abbrev pub entry_of : (Bytes → ℕ) → ℕ → Bytes → Bucket → ℕ × Bucket
entry_of hash count strings b = (hash (string_at b.key strings) % count, b)

pub length-collect :
    (hash : Bytes → ℕ) (count : ℕ) (strings : Bytes) (t : List Bucket) (sorted : List (ℕ × Bucket))
    → length (collect hash count strings t sorted) ≡ length sorted + count_full t
unfolding collect count_full
length-collect hash count strings [] sorted = omega arith
length-collect hash count strings (b ∷ t) sorted = elim (Bool-cases (is_empty b)) [
  | inl y ↦ rw y (length-collect hash count strings t sorted)
  | inr y ↦
      let e = entry_of hash count strings b in
      rw y (
        omega (
          arith,
          length-collect hash count strings t (insert_sorted e sorted),
          length-insert_sorted e sorted,
        ))
]

-- What holds of the entries of the taken buckets holds of those collected.
pub collect-Every :
    (Q : ℕ × Bucket → Type 0) (hash : Bytes → ℕ) (count : ℕ) (strings : Bytes)
    → ((b : Bucket) → is_empty b ≡ false → Q (entry_of hash count strings b))
    → (t : List Bucket) (sorted : List (ℕ × Bucket)) → Every Q sorted
    → Every Q (collect hash count strings t sorted)
unfolding collect
collect-Every Q hash count strings q [] sorted h = h
collect-Every Q hash count strings q (b ∷ t) sorted h = elim (Bool-cases (is_empty b)) [
  | inl y ↦ rw y (collect-Every Q hash count strings q t sorted h)
  | inr y ↦
      let e = entry_of hash count strings b in
      rw y (
        collect-Every Q hash count strings q t (insert_sorted e sorted)
          (insert_sorted-Every Q e sorted (q b y) h))
]

-- What holds of the first taken bucket and of those behind it holds of all.
each_bucket :
    (Q : Bucket → Type 0) (b : Bucket) (t : List Bucket)
    → (is_empty b ≡ false → Q b)
    → ((j : ℕ) → j < length t → is_empty (get t j) ≡ false → Q (get t j))
    → (i : ℕ) → i < suc (length t)
    → is_empty (get (b ∷ t) i) ≡ false
    → Q (get (b ∷ t) i)
unfolding get
each_bucket Q b t q r zero l f = q f
each_bucket Q b t q r (suc i) l f = r i (omega arith) f

-- Each taken bucket is collected.
pub Every-collect :
    (Q : ℕ × Bucket → Type 0) (hash : Bytes → ℕ) (count : ℕ) (strings : Bytes) (t : List Bucket)
    (sorted : List (ℕ × Bucket))
    → Every Q (collect hash count strings t sorted)
    → Every Q sorted
      × ((i : ℕ)
          → i < length t
          → is_empty (get t i) ≡ false
          → Q (entry_of hash count strings (get t i)))
unfolding collect get
Every-collect Q hash count strings [] sorted h = (h, λ i l. absurd (omega arith))
Every-collect Q hash count strings (b ∷ t) sorted h =
    let e = entry_of hash count strings b in
    let rest : List (ℕ × Bucket) → Type 0 = λ s. Every Q (collect hash count strings t s) in
    let taken : Bucket → Type 0 = λ c. Q (entry_of hash count strings c) in
    elim (Bool-cases (is_empty b)) [
      | inl y ↦
          let g : rest sorted =
            subst (λ c. rest (if c then sorted else insert_sorted e sorted)) y h in
          let (s, r) = Every-collect Q hash count strings t sorted g in
          (s, each_bucket taken b t (λ f. absurd (cc (y, f))) r)
      | inr y ↦
          let g : rest (insert_sorted e sorted) =
            subst (λ c. rest (if c then sorted else insert_sorted e sorted)) y h in
          let (s, r) = Every-collect Q hash count strings t (insert_sorted e sorted) g in
          let (q, s') = Every-insert_sorted Q e sorted s in (s', each_bucket taken b t (λ f. q) r)
    ]
