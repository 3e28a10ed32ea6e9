-- ===== src/DerivedData/Letters.antt =====
-- The letters of DerivedDataHash.cpp are the digits of the digest.
use xcbuild.Prelude.{
  ℕ, zero, suc, ◌+◌, ◌-◌, ◌*◌, ◌/◌, ◌%◌, ◌<◌, ◌≤◌, ◌≡◌, refl, ap, sym, subst, ◌∙◌, [], ◌∷◌, ◌++◌,
  append_assoc, append-nil, length, take, drop, length-drop, arith, Every,
}
use xcbuild.Prelude.Text.{Bytes}
use xcbuild.DerivedData.{byte_scale, read_big_endian, letters, compute_hash}

-- The number that letters are the digits of.
unfoldable pub value_from : ℕ → Bytes → ℕ
value_from v [] = v
value_from v (c ∷ s) = value_from (v * 26 + (c - b'a')) s

unfoldable pub letter_scale : ℕ → ℕ
letter_scale zero = 1
letter_scale (suc n) = 26 * letter_scale n

pub value_from-letters :
    (n v : ℕ) (behind : Bytes)
    → v < letter_scale n
    → value_from 0 (letters n v behind) ≡ value_from v behind
unfolding value_from letters letter_scale
value_from-letters zero v behind h = ap (λ x. value_from x behind) (omega arith)
value_from-letters (suc n) v behind h =
    value_from-letters n (v / 26) ((b'a' + v % 26) ∷ behind) (omega arith)
    ∙ ap (λ x. value_from x behind) (omega arith)

pub letters-append : (n v : ℕ) (behind : Bytes) → letters n v behind ≡ letters n v [] ++ behind
unfolding letters
letters-append zero v behind = refl
letters-append (suc n) v behind =
    let d = b'a' + v % 26 in
    letters-append n (v / 26) (d ∷ behind)
    ∙ sym (append_assoc (letters n (v / 26) []) (d ∷ []) behind)
    ∙ ap (λ x. x ++ behind) (sym (letters-append n (v / 26) (d ∷ [])))

pub length-letters : (n v : ℕ) (behind : Bytes) → length (letters n v behind) ≡ n + length behind
unfolding letters
length-letters zero v behind = omega arith
length-letters (suc n) v behind =
    omega (arith, length-letters n (v / 26) ((b'a' + v % 26) ∷ behind))

pub letters-Every :
    (n v : ℕ) (behind : Bytes)
    → Every (λ c. (b'a' ≤ c) × (c ≤ b'z')) behind
    → Every (λ c. (b'a' ≤ c) × (c ≤ b'z')) (letters n v behind)
unfolding letters
letters-Every zero v behind h = h
letters-Every (suc n) v behind h =
    letters-Every n (v / 26) ((b'a' + v % 26) ∷ behind) ((omega arith, omega arith), h)

read_big_endian-bound :
    (s : Bytes) → Every (λ b. b < 256) s → read_big_endian s < byte_scale (length s)
unfolding read_big_endian byte_scale
read_big_endian-bound [] h = omega arith
read_big_endian-bound (b ∷ s) (l, h) = grind (arith, read_big_endian-bound s h)

Every-take : (Q : ℕ → Type 0) (n : ℕ) (s : Bytes) → Every Q s → Every Q (take n s)
Every-take Q zero s h = tt
Every-take Q (suc n) [] h = tt
Every-take Q (suc n) (c ∷ s) (q, h) = (q, Every-take Q n s h)

Every-drop : (Q : ℕ → Type 0) (n : ℕ) (s : Bytes) → Every Q s → Every Q (drop n s)
Every-drop Q zero s h = h
Every-drop Q (suc n) [] h = tt
Every-drop Q (suc n) (c ∷ s) (q, h) = Every-drop Q n s h

length-take_front : (n : ℕ) (s : Bytes) → n ≤ length s → length (take n s) ≡ n
length-take_front zero s h = refl
length-take_front (suc n) [] h = absurd (omega arith)
length-take_front (suc n) (c ∷ s) h = omega (arith, length-take_front n s (omega arith))

take-append_front : (n : ℕ) (a b : Bytes) → n ≡ length a → take n (a ++ b) ≡ a
take-append_front zero [] b h = refl
take-append_front zero (c ∷ a) b h = absurd (omega arith)
take-append_front (suc n) [] b h = absurd (omega arith)
take-append_front (suc n) (c ∷ a) b h = ap (λ x. c ∷ x) (take-append_front n a b (omega arith))

drop-append_front : (n : ℕ) (a b : Bytes) → n ≡ length a → drop n (a ++ b) ≡ b
drop-append_front zero [] b h = refl
drop-append_front zero (c ∷ a) b h = absurd (omega arith)
drop-append_front (suc n) [] b h = absurd (omega arith)
drop-append_front (suc n) (c ∷ a) b h = drop-append_front n a b (omega arith)

-- The number that bytes are the digits of, the highest first.
unfoldable pub number_from : ℕ → Bytes → ℕ
number_from v [] = v
number_from v (b ∷ s) = number_from (v * 256 + b) s

-- The last so many digits of a number in base 256, the highest first.
unfoldable pub digits_of : ℕ → ℕ → Bytes → Bytes
digits_of zero v behind = behind
digits_of (suc n) v behind = digits_of n (v / 256) (v % 256 ∷ behind)

-- Digits are taken off a number in the order opposite to that in which it is read.
digits_of-number_from :
    (s : Bytes) (k v : ℕ) (behind : Bytes)
    → Every (λ b. b < 256) s
    → digits_of (length s + k) (number_from v s) behind ≡ digits_of k v (s ++ behind)
unfolding digits_of number_from
digits_of-number_from [] k v behind h =
    let count : 0 + k ≡ k = omega arith in ap (λ n. digits_of n v behind) count
digits_of-number_from (b ∷ s) k v behind (l, h) =
    let count : length (b ∷ s) + k ≡ length s + suc k = omega arith in
    let quotient : (v * 256 + b) / 256 ≡ v = omega arith in
    let digit : (v * 256 + b) % 256 ≡ b = omega arith in
    ap (λ n. digits_of n (number_from (v * 256 + b) s) behind) count
    ∙ digits_of-number_from s (suc k) (v * 256 + b) behind h
    ∙ ap (λ q. digits_of k q ((v * 256 + b) % 256 ∷ (s ++ behind))) quotient
    ∙ ap (λ r. digits_of k v (r ∷ (s ++ behind))) digit

number_from-read_big_endian :
    (v : ℕ) (s : Bytes) → v * byte_scale (length s) + read_big_endian s ≡ number_from v s
unfolding number_from read_big_endian byte_scale
number_from-read_big_endian v [] = omega arith
number_from-read_big_endian v (b ∷ s) = grind (arith, number_from-read_big_endian (v * 256 + b) s)

big_endian : (s : Bytes) → read_big_endian s ≡ number_from 0 s
big_endian s = omega (arith, number_from-read_big_endian 0 s)

-- Eight bytes are the digits of the number that is read of them.
eight_digits :
    (s : Bytes) → length s ≡ 8 → Every (λ b. b < 256) s → digits_of 8 (number_from 0 s) [] ≡ s
eight_digits s l h =
    let count : 8 ≡ length s + 0 = omega (arith, l) in
    ap (λ n. digits_of n (number_from 0 s) []) count
    ∙ digits_of-number_from s 0 0 [] h
    ∙ unfold digits_of in append-nil s

-- Eight bytes are less than fourteen letters hold.
eight_bytes :
    (s : Bytes)
    → 8 ≤ length s
    → Every (λ b. b < 256) s
    → read_big_endian (take 8 s) < letter_scale 14
unfolding byte_scale letter_scale
eight_bytes s l h =
    let short : read_big_endian (take 8 s) < byte_scale 8 =
      subst (λ n. read_big_endian (take 8 s) < byte_scale n) (length-take_front 8 s l)
        (read_big_endian-bound (take 8 s) (Every-take (λ b. b < 256) 8 s h)) in
    omega (arith, short)

take-drop : (n : ℕ) (s : Bytes) → take n s ++ drop n s ≡ s
take-drop zero s = refl
take-drop (suc n) [] = refl
take-drop (suc n) (c ∷ s) = ap (λ t. c ∷ t) (take-drop n s)

take_all : (n : ℕ) (s : Bytes) → length s ≤ n → take n s ≡ s
take_all zero [] h = refl
take_all zero (c ∷ s) h = absurd (omega arith)
take_all (suc n) [] h = refl
take_all (suc n) (c ∷ s) h = ap (λ t. c ∷ t) (take_all n s (omega arith))

-- For a digest of sixteen bytes the hash text has 28 letters from a to z. Its first fourteen are the
-- digits in base 26 of the first eight bytes, read as a number with the highest byte first, and the
-- others those of the last eight. No bit of the digest is lost: its bytes are the digits in base 256
-- of the two numbers.
pub compute_hash-digits :
    (md5 : Bytes → Bytes) (path : Bytes)
    → length (md5 path) ≡ 16
    → Every (λ b. b < 256) (md5 path)
    → let text = compute_hash md5 path in
      let first = value_from 0 (take 14 text) in
      let second = value_from 0 (drop 14 text) in
      (length text ≡ 28)
      × Every (λ c. (b'a' ≤ c) × (c ≤ b'z')) text
      × (first ≡ number_from 0 (take 8 (md5 path)))
      × (second ≡ number_from 0 (drop 8 (md5 path)))
      × (digits_of 8 first [] ++ digits_of 8 second [] ≡ md5 path)
unfolding compute_hash value_from
compute_hash-digits md5 path l h =
    let digest = md5 path in
    let first = read_big_endian (take 8 digest) in
    let second = read_big_endian (take 8 (drop 8 digest)) in
    let back = letters 14 second [] in
    let front = letters 14 first [] in
    let split = letters-append 14 first back in
    let fourteen : 14 ≡ length front = omega (arith, length-letters 14 first []) in
    let first_bound = eight_bytes digest (omega arith) h in
    let second_bound =
      eight_bytes (drop 8 digest) (omega (arith, length-drop 8 digest))
        (Every-drop (λ b. b < 256) 8 digest h) in
    let behind = drop 8 digest in
    let behind_length : length behind ≡ 8 = omega (arith, length-drop 8 digest) in
    let one : value_from 0 (take 14 (front ++ back)) ≡ number_from 0 (take 8 digest) =
      ap (value_from 0) (take-append_front 14 front back fourteen)
      ∙ value_from-letters 14 first [] first_bound
      ∙ big_endian (take 8 digest) in
    let two : value_from 0 (drop 14 (front ++ back)) ≡ number_from 0 behind =
      ap (value_from 0) (drop-append_front 14 front back fourteen)
      ∙ value_from-letters 14 second [] second_bound
      ∙ ap read_big_endian (take_all 8 behind (omega arith))
      ∙ big_endian behind in
    let first_is = ap (λ t. value_from 0 (take 14 t)) split ∙ one in
    let second_is = ap (λ t. value_from 0 (drop 14 t)) split ∙ two in
    (
      omega (arith, length-letters 14 first back, length-letters 14 second []),
      letters-Every 14 first back (letters-Every 14 second [] tt),
      first_is,
      second_is,
      ap (λ v. digits_of 8 v [] ++ digits_of 8 (value_from 0 (drop 14 (letters 14 first back))) [])
            first_is
          ∙ ap (λ v. digits_of 8 (number_from 0 (take 8 digest)) [] ++ digits_of 8 v []) second_is
          ∙ ap (λ t. t ++ digits_of 8 (number_from 0 behind) [])
              (eight_digits (take 8 digest) (length-take_front 8 digest (omega arith))
                (Every-take (λ b. b < 256) 8 digest h))
          ∙ ap (λ t. take 8 digest ++ t)
              (eight_digits behind behind_length (Every-drop (λ b. b < 256) 8 digest h))
          ∙ take-drop 8 digest,
    )
