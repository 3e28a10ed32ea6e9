-- ===== src/HeaderMap/Rehash.antt =====
-- `rehash` of HeaderMap.cpp to the number of buckets there are, as `write` calls it: each entry is
-- where a search for it arrives.
use xcbuild.Prelude.{
  ℕ, zero, suc, ◌^◌, ◌<◌, false, ◌≡◌, refl, ap, sym, ◌∙◌, some, List, [], ◌∷◌, length, arith, Every,
  take,
}
use xcbuild.Prelude.Text.{Bytes}
use xcbuild.HeaderMap.{HeaderMap, stop_before, set_all, collect, rehash}
use xcbuild.HeaderMap.Table.{Bucket, no_bucket, is_empty, get, replicate, get-set_at, count_full}
use xcbuild.HeaderMap.Probes.{Probes, find_slot-Probes, Probes-set_at}
use xcbuild.HeaderMap.Entries.{entry_of, length-collect, collect-Every, Every-collect}
use xcbuild.HeaderMap.Placing.{IsEntry, Keeps, get-kept, set-Placed, Sets, set_all-Placed}
use xcbuild.HeaderMap.Slots.{find_slot-total}

-- A search from the hash arrives at the bucket.
abbrev pub IsFound : ℕ → List Bucket → ℕ × Bucket → Type 0
IsFound count t e = (p : ℕ) × Probes count t e.0 p × (get t p ≡ e.1)

-- What is found is found still when another bucket is filled.
IsFound-Keeps : (count : ℕ) → Keeps (IsFound count)
IsFound-Keeps count t q v e l x f g (p, r, s) =
    (p, Probes-set_at q v l f r, get-kept t q p v e.1 l x g s)

-- `set` fills an empty bucket at which the search arrives.
pub set-Sets :
    (count size : ℕ) → count ≡ size → count < 2 ^ 32 → Sets (IsFound count) count count size 1
set-Sets count size y w e t (l, f) c s =
    let (p, i, r) = find_slot-total count e.0 t l w (y ∙ sym c) s in
    let (q, x) = find_slot-Probes (suc count) count (stop_before e.0) e.0 t p r in
    let bound : p < length t = omega arith in
    set-Placed (IsFound count) (IsFound-Keeps count) count e.0 e.1 t p f r bound x
      (p, Probes-set_at p e.1 bound f q, ground (arith, get-set_at t p p e.1))

-- The buckets of the table, as many as the header says, of which one is empty.
pub record IsTable (m : HeaderMap) : Type 0 where
  pub size : m.num_buckets ≡ length m.buckets
  pub word : m.num_buckets < 2 ^ 32
  pub spare : count_full m.buckets < m.num_buckets

-- A table of empty buckets.
pub replicate-no_bucket :
    (n : ℕ) → (length (replicate n no_bucket) ≡ n) × (count_full (replicate n no_bucket) ≡ 0)
unfolding replicate count_full
replicate-no_bucket zero = (refl, refl)
replicate-no_bucket (suc n) = let (l, f) = replicate-no_bucket n in (omega (arith, l), f)

take_all : (t : List Bucket) (n : ℕ) → n ≡ length t → take n t ≡ t
take_all [] zero h = refl
take_all [] (suc n) h = refl
take_all (b ∷ t) zero h = absurd (omega arith)
take_all (b ∷ t) (suc n) h = ap (λ x. b ∷ x) (take_all t n (omega arith))

-- Every taken bucket of the first table is found in the second from the hash of its key.
abbrev pub AreFound : (Bytes → ℕ) → HeaderMap → HeaderMap → Type 0
AreFound hash m m' =
    (i : ℕ)
    → i < length m.buckets
    → is_empty (get m.buckets i) ≡ false
    → IsFound m'.num_buckets m'.buckets (entry_of hash m'.num_buckets m.strings (get m.buckets i))

pub rehash-some :
    (hash : Bytes → ℕ) (new : ℕ) (m : HeaderMap) (t : List Bucket)
    → m.num_buckets ≡ length m.buckets
    → set_all m.num_buckets (collect hash new m.strings m.buckets []) (replicate new no_bucket)
      ≡ some t
    → rehash hash new m ≡ some (record m { buckets = t; num_buckets = new; modified = false })
unfolding rehash
rehash-some hash new m t s h = rw (rehash, take_all m.buckets m.num_buckets s, h)

-- Where the table has an empty bucket and no more buckets than a word counts, `rehash` to the same
-- number of buckets ends; the new table has as many taken buckets, each of the old ones is where a
-- search from the hash of its key arrives, and the strings and the counts of the header are as before.
pub rehash-AreFound :
    (hash : Bytes → ℕ) (m : HeaderMap)
    → IsTable m
    → (t : List Bucket) × (rehash hash m.num_buckets m
        ≡ some (record m { buckets = t; modified = false }))
      × IsTable (record m { buckets = t; modified = false })
      × (count_full t ≡ count_full m.buckets)
      × AreFound hash m (record m { buckets = t; modified = false })
rehash-AreFound hash m v =
    let n = m.num_buckets in
    let entries = collect hash n m.strings m.buckets [] in
    let (l, f) = replicate-no_bucket n in
    let are : Every (IsEntry n) entries =
      collect-Every (IsEntry n) hash n m.strings (λ b e. (grind (arith, v.spare), e)) m.buckets []
        tt in
    let (t, r, p) =
      set_all-Placed (IsFound n) n n n 1 (set-Sets n n refl v.word) entries (replicate n no_bucket)
        are l (omega (arith, f, v.spare, length-collect hash n m.strings m.buckets [])) in
    let full : count_full t ≡ count_full m.buckets =
      omega (arith, p.full, f, length-collect hash n m.strings m.buckets []) in
    (
      t,
      rehash-some hash n m t v.size r,
      record {
        size = omega (arith, p.same_length, l);
        word = v.word;
        spare = omega (arith, full, v.spare);
      },
      full,
      (Every-collect (IsFound n t) hash n m.strings m.buckets [] p.found).1,
    )
