-- ===== src/DerivedData.antt =====
-- Libraries/pbxbuild/Sources/DerivedDataHash.cpp: the name of a directory of derived data. The MD5
-- digest of the path is a parameter: md5.c is another project's.
pub mod Letters
use xcbuild.Prelude.{ℕ, zero, suc, ◌+◌, ◌*◌, ◌/◌, ◌%◌, ◌^◌, List, [], ◌∷◌, ◌++◌, length, take, drop}
use xcbuild.Prelude.Text.{Bytes}

-- `1 << (i * 8)`
unfoldable pub byte_scale : ℕ → ℕ
byte_scale zero = 1
byte_scale (suc i) = 256 * byte_scale i

-- `ReadBigEndian8`: each byte is shifted by eight bits for each byte behind it; the bits of two
-- bytes do not meet, so that the `|` is a sum.
unfoldable pub read_big_endian : Bytes → ℕ
unfolding byte_scale
read_big_endian [] = 0
read_big_endian (b ∷ bytes) = b * byte_scale (length bytes) + read_big_endian bytes

-- The loop that writes letters from the last place to the first, in front of what stands behind.
unfoldable pub letters : ℕ → ℕ → Bytes → Bytes
letters zero v behind = behind
letters (suc counter) v behind = letters counter (v / 26) ((b'a' + v % 26) ∷ behind)

-- `ComputeDerivedDataHash`
unfoldable pub compute_hash : (Bytes → Bytes) → Bytes → Bytes
unfolding read_big_endian letters
compute_hash md5 path =
    letters 14 (read_big_endian (take 8 (md5 path)))
      (letters 14 (read_big_endian (take 8 (drop 8 (md5 path)))) [])

-- `derivedDataHash`
unfoldable pub derived_data_hash : Bytes → Bytes → Bytes
derived_data_hash name hash = name ++ b'-' ∷ hash
