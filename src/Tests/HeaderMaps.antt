-- ===== src/Tests/HeaderMaps.antt =====
-- The header map at concrete inputs.
use xcbuild.Prelude.{◌≡◌, refl, arith, true, false, Bool, none, some, List, [], ◌∷◌, map, Option}
use xcbuild.Prelude.Text.{codes}
use xcbuild.HeaderMap.{HeaderMap, empty, add, rehash, hash_key, find_offset}
use xcbuild.HeaderMap.Table.{Bucket, count_full}
use xcbuild.HeaderMap.Rehash.{IsTable, AreFound, rehash-AreFound}
use xcbuild.Prelude.{◌+◌, not, if◌then◌else◌, ◌*◌, ◌<◌, ◌^◌}
use xcbuild.HeaderMap.{prepare}
use xcbuild.HeaderMap.Grow.{AreHeld}
use xcbuild.HeaderMap.Adds.{IsSound, is_refused, add-IsSound}
use xcbuild.HeaderMap.Searches.{IsListed, prepare-add}
use xcbuild.HeaderMap.Keys.{keys-add}

abbrev value : Option (HeaderMap × Bool) → HeaderMap
value none = empty
value (some (m, added)) = m

-- A map with one header, and with a second one of the same hash.
abbrev one : HeaderMap
one = value (add hash_key (codes "ab") (codes "x/") (codes "b.h") empty)

abbrev two : HeaderMap
two = value (add hash_key (codes "ba") (codes "x/") (codes "c.h") one)

two_buckets : map (λ b. b.key) two.buckets ≡ 11 ∷ 0 ∷ 0 ∷ 0 ∷ 0 ∷ 0 ∷ 0 ∷ 1 ∷ []
unfolding add hash_key
two_buckets = refl

two-IsTable : IsTable two
unfolding add hash_key count_full
two-IsTable = record { size = refl; word = omega arith; spare = omega arith }

rehash-AreFound_example :
    (t : List Bucket) × (rehash hash_key two.num_buckets two
      ≡ some (record two { buckets = t; modified = false }))
    × IsTable (record two { buckets = t; modified = false })
    × (count_full t ≡ count_full two.buckets)
    × AreFound hash_key two (record two { buckets = t; modified = false })
rehash-AreFound_example = rehash-AreFound hash_key two two-IsTable

one-IsSound : IsSound one
unfolding add hash_key count_full
one-IsSound = record {
  size = refl;
  counted = refl;
  room = omega arith;
  eight = omega arith;
  texts = ((omega arith, _, refl), ((omega arith, _, refl), ((omega arith, _, refl), tt)));
}

one_added : add hash_key (codes "ba") (codes "x/") (codes "c.h") one ≡ some (two, true)
unfolding add hash_key
one_added = refl

one_small : one.num_buckets * 3 < 2 ^ 32
unfolding add hash_key
one_small = omega arith

prepare-add_example :
    (w : HeaderMap) × (prepare hash_key two ≡ some w)
    × IsListed hash_key w (codes "ba") (codes "x/") (codes "c.h")
prepare-add_example =
    prepare-add hash_key (codes "ba") (codes "x/") (codes "c.h") one two one-IsSound one_small
      ((λ e. cc), ((λ e. cc), tt)) ((λ e. cc), ((λ e. cc), tt))
      ((λ e. cc), ((λ e. cc), ((λ e. cc), tt))) one_added

add-IsSound_example :
    (m : HeaderMap) × (added : Bool) × (add hash_key (codes "ba") (codes "x/") (codes "c.h") one
      ≡ some (m, added))
    × IsSound m
    × AreHeld one.buckets m.buckets
    × (added ≡ not (is_refused (codes "ba") (codes "x/") (codes "c.h") one))
    × (m.num_entries ≡ (if added then one.num_entries + 1 else one.num_entries))
add-IsSound_example =
    add-IsSound hash_key (codes "ba") (codes "x/") (codes "c.h") one one-IsSound one_small

-- The suffix of the first header comes as a key: it is added, and added again.
abbrev again : HeaderMap
again = value (add hash_key (codes "b.h") (codes "x/") (codes "d.h") one)

second_add : add hash_key (codes "b.h") (codes "x/") (codes "d.h") one ≡ some (again, true)
unfolding add hash_key
second_add = refl

keys-add_example : again.keys ≡ one.keys
unfolding add find_offset hash_key
keys-add_example = keys-add hash_key (codes "b.h") (codes "x/") (codes "d.h") one again second_add

add_twice : (value (add hash_key (codes "b.h") (codes "x/") (codes "d.h") again)).num_entries ≡ 3
unfolding add hash_key
add_twice = refl
