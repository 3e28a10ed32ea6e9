-- ===== src/Filesystem/Ranges.antt =====
-- `read` at an offset and with a length, for MemoryFilesystem.cpp.
use xcbuild.Prelude.{
  Option-cases, inl, inr, ℕ, ◌+◌, ◌≡◌, refl, sym, ap, ◌∙◌, none, some, [], ◌∷◌, ◌++◌, arith, length,
  length-append, take, drop,
}
use xcbuild.Prelude.Text.{Bytes}
use xcbuild.Filesystem.{Entries, locate, names_of, read_range, read}
use xcbuild.Filesystem.Frames.{contents_of}
use xcbuild.Filesystem.Operations.{read_contents, read-contents_of}

take_front : (a b : Bytes) → take (length a) (a ++ b) ≡ a
take_front [] b = refl
take_front (c ∷ a) b = ap (λ s. c ∷ s) (take_front a b)

drop_front : (a b : Bytes) → drop (length a) (a ++ b) ≡ b
drop_front [] b = refl
drop_front (c ∷ a) b = drop_front a b

-- The middle of a text, by its position and that of what stands behind it.
drop-take_middle : (a m b : Bytes) → drop (length a) (take (length a + length m) (a ++ m ++ b)) ≡ m
drop-take_middle a m b =
    ap (λ n. drop (length a) (take n (a ++ m ++ b))) (sym (length-append a m))
    ∙ ap (drop (length a)) (take_front (a ++ m) b)
    ∙ drop_front a m

read_range_slice : (a m b : Bytes) → read_range (length a) (some (length m)) (a ++ m ++ b) ≡ m
unfolding read_range
read_range_slice [] m b = drop-take_middle [] m b
read_range_slice (c ∷ a) m b = drop-take_middle (c ∷ a) m b

read_range_rest :
    (c : ℕ) (a m b : Bytes)
    → length b ≡ length (c ∷ a)
    → read_range (length (c ∷ a)) none ((c ∷ a) ++ m ++ b) ≡ m
unfolding read_range
read_range_rest c a m b h =
    ap (λ n. drop (length (c ∷ a)) (take n ((c ∷ a) ++ m ++ b)))
      (omega (arith, length-append (c ∷ a ++ m) b, length-append (c ∷ a) m, h))
    ∙ drop-take_middle (c ∷ a) m b

pub contents_of-read :
    (path contents : Bytes) (root : Entries)
    → read path 0 none root ≡ some contents
    → contents_of (locate (names_of path) root) ≡ some contents
unfolding read_contents read_range
contents_of-read path contents root h =
    elim (Option-cases (contents_of (locate (names_of path) root))) [
      | inl e ↦ absurd (cc (h, read-contents_of path 0 none root, ap (read_contents 0 none) e))
      | inr (s, e) ↦
          e ∙ sym (ap (read_contents 0 none) e) ∙ sym (read-contents_of path 0 none root) ∙ h
    ]

-- A read at an offset with a length returns the bytes of the file that stand there, where the file
-- is long enough.
pub read_slice :
    (path a m b : Bytes) (root : Entries)
    → read path 0 none root ≡ some (a ++ m ++ b)
    → read path (length a) (some (length m)) root ≡ some m
unfolding read_contents
read_slice path a m b root h =
    read-contents_of path (length a) (some (length m)) root
    ∙ ap (read_contents (length a) (some (length m))) (contents_of-read path (a ++ m ++ b) root h)
    ∙ ap some (read_range_slice a m b)

-- A read at an offset without a length misses as many bytes at the end of the file as the offset
-- skips at its start.
pub read_rest :
    (path : Bytes) (c : ℕ) (a m b : Bytes) (root : Entries)
    → length b ≡ length (c ∷ a)
    → read path 0 none root ≡ some ((c ∷ a) ++ m ++ b)
    → read path (length (c ∷ a)) none root ≡ some m
unfolding read_contents
read_rest path c a m b root e h =
    read-contents_of path (length (c ∷ a)) none root
    ∙ ap (read_contents (length (c ∷ a)) none) (contents_of-read path ((c ∷ a) ++ m ++ b) root h)
    ∙ ap some (read_range_rest c a m b e)
