-- ===== src/Executor/Written.antt =====
-- What `writeAuxiliaryFiles` of SimpleExecutor.cpp does to the machine, as relations.
use xcbuild.Prelude.{
  true, false, ◌≡◌, refl, sym, subst, some, List, [], ◌∷◌, ◌++◌, inl, inr, Option-cases, Bool-cases,
}
use xcbuild.Prelude.Text.{Bytes}
use xcbuild.Path.{parent}
use xcbuild.Plist.Writer.Escaped.{some_inj}
use xcbuild.Executor.Auxiliary.{
  Files, Chunk, bytes, copied, AuxiliaryFile, read_chunks, make_directory, write_chunks,
  set_executable, write_auxiliary_file, write_auxiliary_files,
}

module _ {W : Type 0} (files : Files W) where
  -- The contents of the chunks, one behind another: bytes, or those of a file.
  pub data Contents (w : W) : List Chunk → Bytes → Type 0 where
    no_chunk : Contents w [] []
    of_bytes :
        {s t : Bytes} {chunks : List Chunk}
        → Contents w chunks t
        → Contents w (bytes s ∷ chunks) (s ++ t)
    of_file :
        {path s t : Bytes} {chunks : List Chunk}
        → files.read path w ≡ some s
        → Contents w chunks t
        → Contents w (copied path ∷ chunks) (s ++ t)

  -- The directory of a path is there, or it is made.
  pub data HasDirectory (path : Bytes) (w : W) : W → Type 0 where
    stands : files.is_directory (parent path) w ≡ true → HasDirectory path w w
    created :
        {w' : W}
        → files.is_directory (parent path) w ≡ false
        → files.create_directory (parent path) w ≡ some w'
        → HasDirectory path w w'

  -- A file that is to be executable is so, or its permissions are set.
  pub data Permits (file : AuxiliaryFile) (w : W) : W → Type 0 where
    not_wanted : file.executable ≡ false → Permits file w w
    permitted : files.is_executable file.path w ≡ true → Permits file w w
    set :
        {w' : W}
        → file.executable ≡ true
        → files.is_executable file.path w ≡ false
        → files.make_executable file.path w ≡ some w'
        → Permits file w w'

  -- A file is written, in its directory, with its permissions; and all of them, in their order.
  pub data Written (file : AuxiliaryFile) (w : W) (w' : W) : Type 0 where
    written :
        (m n : W) (contents : Bytes)
        → HasDirectory file.path w m
        → Contents m file.chunks contents
        → files.write contents file.path m ≡ some n
        → Permits file n w'
        → Written file w w'

  pub data AreWritten : List AuxiliaryFile → W → W → Type 0 where
    no_file : {w : W} → AreWritten [] w w
    and_file :
        {file : AuxiliaryFile} {rest : List AuxiliaryFile} {w w' w'' : W}
        → Written file w w'
        → AreWritten rest w' w''
        → AreWritten (file ∷ rest) w w''

  read_chunks-Contents :
      (chunks : List Chunk) (w : W) (t : Bytes)
      → read_chunks files chunks w ≡ some t
      → Contents w chunks t
  unfolding read_chunks
  read_chunks-Contents [] w t h = subst (Contents w []) (some_inj h) no_chunk
  read_chunks-Contents (bytes s ∷ chunks) w t h = elim (Option-cases (read_chunks files chunks w)) [
    | inl n ↦ absurd (cc (rw n at h))
    | inr (r, e) ↦
        subst (Contents w (bytes s ∷ chunks)) (some_inj (rw e at h))
          (of_bytes (read_chunks-Contents chunks w r e))
  ]
  read_chunks-Contents (copied path ∷ chunks) w t h = elim (Option-cases (files.read path w)) [
    | inl n ↦ absurd (cc (rw (read_chunks, n) at h))
    | inr (s, f) ↦ elim (Option-cases (read_chunks files chunks w)) [
      | inl n ↦ absurd (cc (rw (read_chunks, f, n) at h))
      | inr (r, e) ↦
          subst (Contents w (copied path ∷ chunks)) (some_inj (rw (read_chunks, f, e) at h))
            (of_file f (read_chunks-Contents chunks w r e))
    ]
  ]

  make_directory-HasDirectory :
      (path : Bytes) (w : W)
      → (make_directory files path w).0 ≡ true
      → HasDirectory path w (make_directory files path w).1
  unfolding make_directory
  make_directory-HasDirectory path w h = elim (Bool-cases (files.is_directory (parent path) w)) [
    | inl y ↦ rw (make_directory, y) (stands y)
    | inr n ↦ elim (Option-cases (files.create_directory (parent path) w)) [
      | inl e ↦ absurd (cc (rw (n, e) at h))
      | inr (w', e) ↦ rw (make_directory, n, e) (created n e)
    ]
  ]

  set_executable-Permits :
      (file : AuxiliaryFile) (w : W)
      → (set_executable files file w).0 ≡ true
      → Permits file w (set_executable files file w).1
  unfolding set_executable
  set_executable-Permits file w h = elim (Bool-cases file.executable) [
    | inr n ↦
        let is : set_executable files file w ≡ (true, w) = rw (set_executable, n) refl in
        subst (λ r. Permits file w r.1) (sym is) (not_wanted n)
    | inl x ↦ elim (Bool-cases (files.is_executable file.path w)) [
      | inl y ↦ rw (set_executable, x, y) (permitted y)
      | inr n ↦ elim (Option-cases (files.make_executable file.path w)) [
        | inl e ↦ absurd (cc (rw (x, n, e) at h))
        | inr (w', e) ↦
            let is : set_executable files file w ≡ (true, w') = rw (set_executable, x, n, e) refl in
            subst (λ r. Permits file w r.1) (sym is) (set x n e)
      ]
    ]
  ]

  write_chunks-cases :
      (file : AuxiliaryFile) (w : W)
      → (write_chunks files file w).0 ≡ true
      → (contents : Bytes) × Contents w file.chunks contents
        × (files.write contents file.path w ≡ some (write_chunks files file w).1)
  unfolding write_chunks
  write_chunks-cases file w h = elim (Option-cases (read_chunks files file.chunks w)) [
    | inl n ↦ absurd (cc (rw (write_chunks, n) at h))
    | inr (t, e) ↦ elim (Option-cases (files.write t file.path w)) [
      | inl n ↦ absurd (cc (rw (write_chunks, e, n) at h))
      | inr (w', f) ↦ (t, read_chunks-Contents file.chunks w t e, rw (write_chunks, e, f) refl)
    ]
  ]

  write_auxiliary_file-Written :
      (file : AuxiliaryFile) (w : W)
      → (write_auxiliary_file files false file w).0 ≡ true
      → Written file w (write_auxiliary_file files false file w).1
  unfolding write_auxiliary_file
  write_auxiliary_file-Written file w h =
      let m = (make_directory files file.path w).1 in
      let n = (write_chunks files file m).1 in
      elim (Bool-cases (make_directory files file.path w).0) [
        | inr d ↦ absurd (cc (d, rw d at h))
        | inl d ↦ elim (Bool-cases (write_chunks files file m).0) [
          | inr c ↦ absurd (cc (c, rw (d, c) at h))
          | inl c ↦
              let (contents, x, y) = write_chunks-cases file m c in
              rw (write_auxiliary_file, d, c)
                (written m n contents (make_directory-HasDirectory file.path w d) x y
                  (set_executable-Permits file n (rw (d, c) at h)))
        ]
      ]

  pub write_auxiliary_files-AreWritten :
      (fs : List AuxiliaryFile) (w : W)
      → (write_auxiliary_files files false fs w).0 ≡ true
      → AreWritten fs w (write_auxiliary_files files false fs w).1
  unfolding write_auxiliary_files
  write_auxiliary_files-AreWritten [] w h = no_file
  write_auxiliary_files-AreWritten (file ∷ rest) w h =
      let m = (write_auxiliary_file files false file w).1 in
      elim (Bool-cases (write_auxiliary_file files false file w).0) [
        | inr d ↦ absurd (cc (d, rw d at h))
        | inl d ↦
            rw (write_auxiliary_files, d)
              (and_file (write_auxiliary_file-Written file w d)
                (write_auxiliary_files-AreWritten rest m (rw d at h)))
      ]
