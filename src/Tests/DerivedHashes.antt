-- ===== src/Tests/DerivedHashes.antt =====
-- The hash text of derived data for a digest of counted bytes.
use xcbuild.Prelude.{◌≡◌, ◌≤◌, ◌<◌, refl, [], ◌∷◌, ◌++◌, length, take, drop, Every, arith}
use xcbuild.Prelude.Text.{Bytes, codes}
use xcbuild.DerivedData.{compute_hash, derived_data_hash}
use xcbuild.DerivedData.Letters.{value_from, number_from, digits_of, compute_hash-digits}

abbrev digest : Bytes → Bytes
digest path = 255 ∷ 1 ∷ 2 ∷ 3 ∷ 4 ∷ 5 ∷ 6 ∷ 7 ∷ 0 ∷ 0 ∷ 0 ∷ 0 ∷ 0 ∷ 0 ∷ 0 ∷ 27 ∷ []

last_letters : drop 14 (compute_hash digest []) ≡ codes "aaaaaaaaaaaabb"
unfolding compute_hash
last_letters = refl

app_directory : derived_data_hash (codes "app") (codes "aab") ≡ codes "app-aab"
unfolding derived_data_hash
app_directory = refl

digest-Every : Every (λ b. b < 256) (digest [])
digest-Every = (
  omega arith,
  (
    omega arith,
    (
      omega arith,
      (
        omega arith,
        (
          omega arith,
          (
            omega arith,
            (
              omega arith,
              (
                omega arith,
                (
                  omega arith,
                  (
                    omega arith,
                    (
                      omega arith,
                      (omega arith, (omega arith, (omega arith, (omega arith, (omega arith, tt))))),
                    ),
                  ),
                ),
              ),
            ),
          ),
        ),
      ),
    ),
  ),
)

compute_hash-digits_example :
    let text = compute_hash digest [] in
    let first = value_from 0 (take 14 text) in
    let second = value_from 0 (drop 14 text) in
    (length text ≡ 28)
    × Every (λ c. (b'a' ≤ c) × (c ≤ b'z')) text
    × (first ≡ number_from 0 (take 8 (digest [])))
    × (second ≡ number_from 0 (drop 8 (digest [])))
    × (digits_of 8 first [] ++ digits_of 8 second [] ≡ digest [])
compute_hash-digits_example = compute_hash-digits digest [] refl digest-Every
