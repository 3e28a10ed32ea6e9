-- ===== src/HeaderMap/Grow.antt =====
-- `rehash` of HeaderMap.cpp to twice the buckets, as `grow` calls it: the loop of `set` starts over
-- at the old number of buckets, and ends all the same.
use xcbuild.Prelude.{
  ℕ, zero, suc, ◌+◌, ◌-◌, ◌*◌, ◌%◌, ◌^◌, ◌<◌, ◌≤◌, true, false, ◌≡◌, ◌≢◌, subst, ◌∙◌, some, List,
  [], ◌∷◌, ◌==◌, length, ltb, arith, Every, Bool-cases, inl, inr,
}
use xcbuild.Prelude.Text.{Bytes}
use xcbuild.HeaderMap.{HeaderMap, find_slot, at_bucket, stop_before, collect, rehash}
use xcbuild.HeaderMap.Table.{
  Bucket, no_bucket, is_empty, get, replicate, get-set_at, length-set_at, count_full,
}
use xcbuild.HeaderMap.Probes.{find_slot-Probes}
use xcbuild.HeaderMap.Slots.{reach_up, reach_any, reach_from, find_slot-bound, stop_before_lem}
use xcbuild.HeaderMap.Entries.{length-collect, collect-Every, Every-collect}
use xcbuild.HeaderMap.Placing.{IsEntry, IsHeld, IsHeld-Keeps, set-Placed, Sets, set_all-Placed}
use xcbuild.HeaderMap.Rehash.{replicate-no_bucket, rehash-some}

-- An empty bucket among the first ones.
has_empty_first :
    (t : List Bucket) (n : ℕ)
    → count_full t < n
    → n ≤ length t
    → (e : ℕ) × (e < n) × (is_empty (get t e) ≡ true)
unfolding count_full get
has_empty_first t zero f l = absurd (omega arith)
has_empty_first [] (suc n) f l = absurd (omega arith)
has_empty_first (b ∷ t) (suc n) f l = elim (Bool-cases (is_empty b)) [
  | inl y ↦ (0, omega arith, y)
  | inr y ↦
      let (e, i, x) = has_empty_first t n (ground arith) (omega arith) in (suc e, omega arith, x)
]

-- One that is not a given one.
has_empty_below :
    (t : List Bucket) (n other : ℕ)
    → count_full t + 1 < n
    → n ≤ length t
    → (e : ℕ) × (e < n) × (is_empty (get t e) ≡ true) × (e ≢ other)
unfolding count_full get
has_empty_below t zero other f l = absurd (omega arith)
has_empty_below [] (suc n) other f l = absurd (omega arith)
has_empty_below (b ∷ t) (suc n) zero f l =
    let (e, i, x) = has_empty_first t n (ground arith) (omega arith) in
    (suc e, omega arith, x, λ y. omega arith)
has_empty_below (b ∷ t) (suc n) (suc other) f l = elim (Bool-cases (is_empty b)) [
  | inl y ↦ (0, omega arith, y, λ x. omega arith)
  | inr y ↦
      let (e, i, x, d) = has_empty_below t n other (ground arith) (omega arith) in
      (suc e, omega arith, x, λ z. d (omega arith))
]

-- One that is neither the first nor the last of the first ones.
has_empty_inside :
    (t : List Bucket) (n : ℕ)
    → count_full t + 2 < n
    → n ≤ length t
    → (e : ℕ) × (0 < e) × (e + 1 < n) × (is_empty (get t e) ≡ true)
unfolding count_full get
has_empty_inside [] n f l = absurd (omega arith)
has_empty_inside (b ∷ t) n f l =
    let (e, i, x, d) = has_empty_below t (n - 1) (n - 2) (ground arith) (omega arith) in
    (suc e, omega arith, omega arith, x)

-- A taken bucket is passed.
find_slot-next :
    (fuel count stop n p : ℕ) (t : List Bucket)
    → n ≢ stop
    → is_empty (get t n) ≡ false
    → find_slot fuel count stop ((n + 1) % count) t ≡ at_bucket p
    → find_slot (suc fuel) count stop n t ≡ at_bucket p
unfolding find_slot
find_slot-next fuel count stop n p t d x r = ground (arith, x, r)

find_slot-here :
    (fuel count stop n : ℕ) (t : List Bucket)
    → n ≢ stop
    → is_empty (get t n) ≡ true
    → find_slot (suc fuel) count stop n t ≡ at_bucket n
unfolding find_slot
find_slot-here fuel count stop n t d x = ground (arith, x)

-- From a bucket of the second half that is taken the search goes on in the first half.
find_slot-beyond :
    (old hash : ℕ) (t : List Bucket)
    → 3 ≤ old
    → old ≤ hash
    → hash < old * 2
    → old * 2 < 2 ^ 32
    → length t ≡ old * 2
    → count_full t + 2 < old
    → is_empty (get t hash) ≡ false
    → (p : ℕ) × (find_slot (suc old) old (stop_before hash) hash t ≡ at_bucket p)
find_slot-beyond old hash t o b l w s f y =
    let stop = stop_before hash in
    let before : stop + 1 ≡ hash = elim (stop_before_lem hash (omega arith)) [
      | inl z ↦ z
      | inr z ↦ omega arith
    ] in
    let later : (p : ℕ) × (find_slot old old stop ((hash + 1) % old) t ≡ at_bucket p) =
      elim (Bool-cases (hash == old)) [
        | inl z ↦
            let (e, i, j, x) = has_empty_inside t old f (omega arith) in
            let start : 1 ≡ (hash + 1) % old = grind arith in
            subst (λ n. (p : ℕ) × (find_slot old old stop n t ≡ at_bucket p)) start
              (reach_up (e - 1) old old stop 1 e t (omega arith) (omega arith) (omega arith)
                (inr (ground arith)) x)
        | inr z ↦
            let (e, i, x, d) = has_empty_below t old stop (omega arith) (omega arith) in
            reach_any old old stop ((hash + 1) % old) e t (grind arith) i (omega arith)
              (inr (ground arith)) d x
      ] in
    (later.0, find_slot-next old old stop hash later.0 t (omega arith) y later.1)

-- In a table of twice the buckets the loop of `set` ends, while few enough are taken.
find_slot-grown :
    (old hash : ℕ) (t : List Bucket)
    → 3 ≤ old
    → hash < old * 2
    → old * 2 < 2 ^ 32
    → length t ≡ old * 2
    → count_full t + 2 < old
    → (p : ℕ) × (find_slot (suc old) old (stop_before hash) hash t ≡ at_bucket p)
find_slot-grown old hash t o b w s f = elim (Bool-cases (ltb hash old)) [
  | inl y ↦
      let (e, i, x, d) = has_empty_below t old (stop_before hash) (omega arith) (omega arith) in
      reach_from old hash e t (ground arith) (omega arith) i d x
  | inr y ↦ elim (Bool-cases (is_empty (get t hash))) [
    | inl x ↦
        let other : hash ≢ stop_before hash = elim (stop_before_lem hash (omega arith)) [
          | inl z ↦ λ q. omega arith
          | inr z ↦ λ q. omega arith
        ] in
        (hash, find_slot-here old old (stop_before hash) hash t other x)
    | inr x ↦ find_slot-beyond old hash t o (ground arith) b w s f x
  ]
]

set-Sets : (old : ℕ) → 3 ≤ old → old * 2 < 2 ^ 32 → Sets IsHeld old (old * 2) (old * 2) 2
set-Sets old o w e t (b, f) s c =
    let stop = stop_before e.0 in
    let (p, r) = find_slot-grown old e.0 t o b w s c in
    let bound : p < length t = omega (
      arith,
      find_slot-bound (suc old) old stop e.0 p (old * 2) t b (omega arith) (omega arith) r,
    ) in
    let (q, x) = find_slot-Probes (suc old) old stop e.0 t p r in
    set-Placed IsHeld IsHeld-Keeps old e.0 e.1 t p f r bound x
      (p, omega (arith, length-set_at t p e.1), ground (arith, get-set_at t p p e.1))

-- Every taken bucket of the first table is somewhere in the second.
abbrev pub AreHeld : List Bucket → List Bucket → Type 0
AreHeld t t' =
    (i : ℕ)
    → i < length t
    → is_empty (get t i) ≡ false
    → (p : ℕ) × (p < length t') × (get t' p ≡ get t i)

-- Where three buckets or more are empty, `rehash` to twice the buckets ends; the new table has as
-- many taken buckets, and holds all the old ones.
pub rehash-AreHeld :
    (hash : Bytes → ℕ) (m : HeaderMap)
    → m.num_buckets ≡ length m.buckets
    → m.num_buckets * 2 < 2 ^ 32
    → count_full m.buckets + 2 < m.num_buckets
    → (t : List Bucket) × (rehash hash (m.num_buckets * 2) m
        ≡ some (record m { buckets = t; num_buckets = m.num_buckets * 2; modified = false }))
      × (length t ≡ m.num_buckets * 2)
      × (count_full t ≡ count_full m.buckets)
      × AreHeld m.buckets t
rehash-AreHeld hash m s w f =
    let old = m.num_buckets in
    let new = old * 2 in
    let entries = collect hash new m.strings m.buckets [] in
    let (l, z) = replicate-no_bucket new in
    let count = length-collect hash new m.strings m.buckets [] in
    let are : Every (IsEntry new) entries =
      collect-Every (IsEntry new) hash new m.strings (λ b e. (grind arith, e)) m.buckets [] tt in
    let (t, r, p) =
      set_all-Placed IsHeld old new new 2 (set-Sets old (omega arith) w) entries
        (replicate new no_bucket) are l (omega (arith, z, count)) in
    (
      t,
      rehash-some hash new m t s r,
      p.same_length ∙ l,
      omega (arith, p.full, z, count),
      (Every-collect (IsHeld t) hash new m.strings m.buckets [] p.found).1,
    )
