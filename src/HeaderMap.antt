-- ===== src/HeaderMap.antt =====
-- Libraries/pbxbuild/Sources/HeaderMap.cpp: the table that tells a compiler where headers are. The
-- operations take the hash of a key as an argument, in the program that of HMapFile.h, `hash_key`
-- here, for bytes below 128. An offset is kept whole: the strings are
-- shorter than 4 GB. A loop that does not end is `none`.
pub mod Table
pub mod Probes
pub mod Slots
pub mod Entries
pub mod Placing
pub mod Rehash
pub mod Grow
pub mod Texts
pub mod Adds
pub mod Keys
pub mod Searches
use xcbuild.Prelude.{
  ℕ, zero, suc, ◌+◌, ◌-◌, ◌*◌, ◌/◌, ◌%◌, ◌^◌, Bool, true, false, not, ◌||◌, ◌&&◌, Option, none,
  some, List, [], ◌∷◌, ◌++◌, map, ◌==◌, leb, ltb, length, take, drop, if◌then◌else◌,
}
use xcbuild.Prelude.Text.{Bytes, equal, until_nul}
use xcbuild.HeaderMap.Table.{Bucket, no_bucket, is_empty, get, set_at, replicate}

-- `HeaderMap`, with the fields of its header that it counts by.
pub record HeaderMap : Type 0 where
  pub num_entries : ℕ
  pub num_buckets : ℕ
  pub max_value_length : ℕ
  pub buckets : List Bucket
  pub strings : Bytes
  pub keys : List Bytes
  pub offsets : List (Bytes × ℕ)
  pub modified : Bool

abbrev pub empty : HeaderMap
empty = record {
  num_entries = 0;
  num_buckets = 8;
  max_value_length = 0;
  buckets = replicate 8 no_bucket;
  strings = [];
  keys = [];
  offsets = [];
  modified = false;
}

abbrev pub lower_byte : ℕ → ℕ
lower_byte c = if leb b'A' c && leb c b'Z' then c + 32 else c

abbrev pub canonicalize_key : Bytes → Bytes
canonicalize_key key = map lower_byte key

-- `HashHMapKey`, from the sum so far.
unfoldable pub hash_from : ℕ → Bytes → ℕ
hash_from result [] = result
hash_from result (c ∷ s) = hash_from ((result + lower_byte c * 13) % 2 ^ 32) s

unfoldable pub hash_key : Bytes → ℕ
unfolding hash_from
hash_key key = hash_from 0 key

unfoldable pub contains : Bytes → List Bytes → Bool
unfolding equal
contains key [] = false
contains key (k ∷ keys) = equal k key || contains key keys

unfoldable pub find_offset : Bytes → List (Bytes × ℕ) → Option ℕ
unfolding equal
find_offset string [] = none
find_offset string ((s, offset) ∷ offsets) =
    if equal s string then some offset else find_offset string offsets

abbrev pub string_at : ℕ → Bytes → Bytes
string_at offset strings = until_nul (drop offset strings)

-- Where the loop of `set` ends: at an empty bucket, at the bucket before the first, or nowhere.
pub data Slot : Type 0 where
  at_bucket : ℕ → Slot
  stopped : Slot
  endless : Slot

-- The loop of `set`, from a bucket.
unfoldable pub find_slot : ℕ → ℕ → ℕ → ℕ → List Bucket → Slot
unfolding get
find_slot zero count stop n buckets = endless
find_slot (suc fuel) count stop n buckets =
    let later = find_slot fuel count stop ((n + 1) % count) buckets in
    if n == stop then stopped else if is_empty (get buckets n) then at_bucket n else later

-- `hash - 1` of an `unsigned`.
abbrev pub stop_before : ℕ → ℕ
stop_before hash = (hash + 2 ^ 32 - 1) % 2 ^ 32

-- `set` on the buckets, where `NumBuckets` is `count`: the new buckets, and whether a bucket was
-- found. After `count` buckets and the first one the loop is back at a bucket that it has seen.
unfoldable pub set : ℕ → ℕ → Bucket → List Bucket → Option (List Bucket × Bool)
unfolding find_slot set_at
set count hash bucket buckets = elim (find_slot (suc count) count (stop_before hash) hash buckets) [
  | endless ↦ none
  | stopped ↦ some (buckets, false)
  | at_bucket n ↦ some (set_at buckets n bucket, true)
]

-- `std::multimap::insert`: behind the entries of the same hash.
unfoldable pub insert_sorted : ℕ × Bucket → List (ℕ × Bucket) → List (ℕ × Bucket)
insert_sorted e [] = e ∷ []
insert_sorted e (f ∷ entries) = if ltb e.0 f.0 then e ∷ f ∷ entries else f ∷ insert_sorted e entries

-- The loop over the old buckets: the sorted entries.
unfoldable pub collect :
    (Bytes → ℕ) → ℕ → Bytes → List Bucket → List (ℕ × Bucket) → List (ℕ × Bucket)
unfolding insert_sorted
collect hash count strings [] sorted = sorted
collect hash count strings (b ∷ buckets) sorted = collect hash count strings buckets (
    if is_empty b then sorted else insert_sorted (hash (string_at b.key strings) % count, b) sorted)

-- The loop over the sorted entries.
unfoldable pub set_all : ℕ → List (ℕ × Bucket) → List Bucket → Option (List Bucket)
unfolding set
set_all count [] buckets = some buckets
set_all count (e ∷ entries) buckets = elim (set count e.0 e.1 buckets) [
  | none ↦ none
  | some (buckets', found) ↦ set_all count entries buckets'
]

-- `rehash`: the buckets are looked for among the old number of them.
unfoldable pub rehash : (Bytes → ℕ) → ℕ → HeaderMap → Option HeaderMap
unfolding collect set_all replicate
rehash hash new m =
    elim (set_all m.num_buckets (collect hash new m.strings (take m.num_buckets m.buckets) [])
      (replicate new no_bucket)) [
        | none ↦ none
        | some buckets ↦ some (record m { buckets = buckets; num_buckets = new; modified = false })
      ]

-- The wrap-around of `uint32_t`.
abbrev pub wrap : ℕ → ℕ
wrap n = n % 2 ^ 32

unfoldable pub grow : (Bytes → ℕ) → HeaderMap → Option HeaderMap
unfolding rehash
grow hash m =
    if leb (wrap (m.num_buckets * 3) / 4) (wrap (m.num_entries + 1))
    then rehash hash (wrap (m.num_buckets * 2)) m
    else some m

-- `add` of a string: its offset in the strings.
unfoldable pub add_string : Bytes → Bool → HeaderMap → HeaderMap × ℕ
unfolding find_offset
add_string string key m = elim (find_offset string m.offsets) [
  | some offset ↦ (m, offset)
  | none ↦
      let strings : Bytes = if leb (length m.strings) 0 then 0 ∷ [] else m.strings in
      let keys : List Bytes = if key then canonicalize_key string ∷ m.keys else m.keys in
      (
        record m {
          strings = strings ++ (string ++ 0 ∷ []);
          offsets = (string, length strings) ∷ m.offsets;
          keys = keys;
        },
        length strings,
      )
]

-- `add` of an entry, behind the offsets of its strings.
unfoldable pub add_entry : (Bytes → ℕ) → Bytes → Bucket → HeaderMap → Option HeaderMap
unfolding set
add_entry hash key bucket m = elim (set m.num_buckets (hash key % m.num_buckets) bucket m.buckets) [
  | none ↦ none
  | some (buckets, found) ↦ some (record m {
    buckets = buckets;
    num_entries = if found then wrap (m.num_entries + 1) else m.num_entries;
    max_value_length =
        if ltb m.max_value_length (length key) then length key else m.max_value_length;
    modified = true;
  })
]

unfoldable pub is_nil : Bytes → Bool
is_nil [] = true
is_nil (c ∷ s) = false

-- The strings of an entry, and their offsets.
unfoldable pub add_strings : Bytes → Bytes → Bytes → HeaderMap → HeaderMap × Bucket
unfolding add_string
add_strings key prefix suffix m =
    let (m1, koff) = add_string key true m in
    let (m2, poff) = add_string prefix false m1 in
    let (m3, soff) = add_string suffix false m2 in
    (m3, record { key = koff; prefix = poff; suffix = soff })

-- The end of `add`, behind the strings.
unfoldable pub insert : (Bytes → ℕ) → Bytes → HeaderMap × Bucket → Option HeaderMap
unfolding grow add_entry
insert hash key s = elim (grow hash s.0) [ none ↦ none | some m ↦ add_entry hash key s.1 m ]

-- `add`, with what it returns.
unfoldable pub add : (Bytes → ℕ) → Bytes → Bytes → Bytes → HeaderMap → Option (HeaderMap × Bool)
unfolding contains add_strings insert is_nil
add hash key prefix suffix m =
    let added : Option (HeaderMap × Bool) =
      elim (insert hash key (add_strings key prefix suffix m)) [
        | none ↦ none
        | some m' ↦ some (m', true)
      ] in
    if is_nil key || is_nil prefix || is_nil suffix
    then some (m, false)
    else if contains (canonicalize_key key) m.keys
    then some (m, false)
    else added

-- What `write` does before the bytes.
unfoldable pub prepare : (Bytes → ℕ) → HeaderMap → Option HeaderMap
unfolding rehash
prepare hash m = if m.modified then rehash hash m.num_buckets m else some m
