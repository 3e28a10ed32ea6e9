-- ===== src/HeaderMap/Keys.antt =====
-- The keys that HeaderMap.cpp refuses when they come again.
use xcbuild.Prelude.{
  ℕ, ◌+◌, ◌*◌, ◌/◌, true, false, ◌||◌, ◌≡◌, ◌∙◌, none, some, ◌∷◌, leb, arith, Bool-cases,
  Option-cases, inl, inr,
}
use xcbuild.Prelude.Text.{Bytes}
use xcbuild.HeaderMap.{
  HeaderMap, canonicalize_key, find_offset, contains, add_string, add_strings, rehash, wrap, grow,
  add_entry, insert, is_nil, add,
}
use xcbuild.HeaderMap.Table.{Bucket}

keys-add_string : (string : Bytes) (m : HeaderMap) → (add_string string false m).0.keys ≡ m.keys
unfolding add_string
keys-add_string string m = ground arith

keys-rehash :
    (hash : Bytes → ℕ) (new : ℕ) (m m' : HeaderMap) → rehash hash new m ≡ some m' → m'.keys ≡ m.keys
unfolding rehash
keys-rehash hash new m m' h = ground arith

keys-grow : (hash : Bytes → ℕ) (m m' : HeaderMap) → grow hash m ≡ some m' → m'.keys ≡ m.keys
unfolding grow
keys-grow hash m m' h =
    elim (Bool-cases (leb (wrap (m.num_buckets * 3) / 4) (wrap (m.num_entries + 1)))) [
      | inl y ↦ keys-rehash hash (wrap (m.num_buckets * 2)) m m' (ground (arith, y))
      | inr y ↦ ground arith
    ]

keys-add_entry :
    (hash : Bytes → ℕ) (key : Bytes) (bucket : Bucket) (m m' : HeaderMap)
    → add_entry hash key bucket m ≡ some m'
    → m'.keys ≡ m.keys
unfolding add_entry
keys-add_entry hash key bucket m m' h = ground arith

-- The key that a string adds, if it is one: none where the string is in the table already.
keys-add_string-key :
    (string : Bytes) (m : HeaderMap)
    → (add_string string true m).0.keys ≡ (elim (find_offset string m.offsets) [
      | none ↦ canonicalize_key string ∷ m.keys
      | some offset ↦ m.keys
    ])
unfolding add_string
keys-add_string-key string m = ground arith

keys-add_strings :
    (key prefix suffix : Bytes) (m : HeaderMap)
    → (add_strings key prefix suffix m).0.keys ≡ (elim (find_offset key m.offsets) [
      | none ↦ canonicalize_key key ∷ m.keys
      | some offset ↦ m.keys
    ])
unfolding add_strings
keys-add_strings key prefix suffix m =
    let m1 = (add_string key true m).0 in
    let m2 = (add_string prefix false m1).0 in
    keys-add_string suffix m2 ∙ keys-add_string prefix m1 ∙ keys-add_string-key key m

-- What `add` returns when it adds: the entry is put in behind its strings.
pub add-true :
    (hash : Bytes → ℕ) (key prefix suffix : Bytes) (m m' : HeaderMap)
    → add hash key prefix suffix m ≡ some (m', true)
    → insert hash key (add_strings key prefix suffix m) ≡ some m'
unfolding add
add-true hash key prefix suffix m m' h =
    elim (Bool-cases (is_nil key || is_nil prefix || is_nil suffix)) [
      | inl y ↦ absurd (ground (arith, y))
      | inr y ↦ elim (Bool-cases (contains (canonicalize_key key) m.keys)) [
        | inl z ↦ absurd (ground (arith, y, z))
        | inr z ↦ ground (arith, y, z)
      ]
    ]

keys-insert :
    (hash : Bytes → ℕ) (key : Bytes) (s : HeaderMap × Bucket) (m : HeaderMap)
    → insert hash key s ≡ some m
    → m.keys ≡ s.0.keys
unfolding insert
keys-insert hash key s m h = elim (Option-cases (grow hash s.0)) [
  | inl e ↦ absurd (ground (arith, e))
  | inr (m4, e) ↦
      let put : add_entry hash key s.1 m4 ≡ some m = ground (arith, e) in
      keys-add_entry hash key s.1 m4 m put ∙ keys-grow hash s.0 m4 e
]

-- When a key is added, its canonical form is recorded among the keys if its text was not in the
-- table of strings already, as a key, a prefix or a suffix; otherwise the keys are as before.
pub keys-add :
    (hash : Bytes → ℕ) (key prefix suffix : Bytes) (m m' : HeaderMap)
    → add hash key prefix suffix m ≡ some (m', true)
    → m'.keys ≡ (elim (find_offset key m.offsets) [
      | none ↦ canonicalize_key key ∷ m.keys
      | some offset ↦ m.keys
    ])
keys-add hash key prefix suffix m m' h =
    let put = add-true hash key prefix suffix m m' h in
    keys-insert hash key (add_strings key prefix suffix m) m' put
    ∙ keys-add_strings key prefix suffix m
