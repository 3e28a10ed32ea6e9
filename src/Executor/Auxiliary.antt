-- ===== src/Executor/Auxiliary.antt =====
-- `writeAuxiliaryFiles` of Libraries/xcexecution/Sources/SimpleExecutor.cpp, over any filesystem.
use xcbuild.Prelude.{
  Bool, true, false, not, ◌&&◌, Option, none, some, List, [], ◌∷◌, ◌++◌, if◌then◌else◌,
}
use xcbuild.Prelude.Text.{Bytes}
use xcbuild.Path.{parent}

-- What the executor calls of `Filesystem`, over a state of the machine; `make_executable` sets the
-- permissions to read and execute, and for the user to write.
pub record Files (W : Type 0) : Type 0 where
  pub is_directory : Bytes → W → Bool
  pub create_directory : Bytes → W → Option W
  pub read : Bytes → W → Option Bytes
  pub write : Bytes → Bytes → W → Option W
  pub is_executable : Bytes → W → Bool
  pub make_executable : Bytes → W → Option W
  pub find_executable : Bytes → W → Option Bytes

-- `AuxiliaryFile::Chunk`
pub data Chunk : Type 0 where
  bytes : Bytes → Chunk
  copied : Bytes → Chunk

pub record AuxiliaryFile : Type 0 where
  pub path : Bytes
  pub chunks : List Chunk
  pub executable : Bool

module _ {W : Type 0} (files : Files W) where
  abbrev pub read_chunk : Chunk → W → Option Bytes
  read_chunk (bytes s) w = some s
  read_chunk (copied path) w = files.read path w

  -- The data of the chunks, one behind another.
  unfoldable pub read_chunks : List Chunk → W → Option Bytes
  read_chunks [] w = some []
  read_chunks (c ∷ chunks) w = elim (read_chunk c w) [
    | none ↦ none
    | some s ↦ elim (read_chunks chunks w) [ none ↦ none | some t ↦ some (s ++ t) ]
  ]

  -- Whether a step succeeded, with the state that it leaves.
  abbrev attempt : Option W → W → Bool × W
  attempt none w = (false, w)
  attempt (some w') w = (true, w')

  infixl 5 ◌>>◌
  abbrev ◌>>◌ : (W → Bool × W) → (W → Bool × W) → W → Bool × W
  ◌>>◌ m k w = if (m w).0 then k (m w).1 else m w

  unfoldable pub make_directory : Bytes → W → Bool × W
  unfolding parent
  make_directory path w =
      if files.is_directory (parent path) w
      then (true, w)
      else attempt (files.create_directory (parent path) w) w

  unfoldable pub write_chunks : AuxiliaryFile → W → Bool × W
  unfolding read_chunks
  write_chunks file w = elim (read_chunks file.chunks w) [
    | none ↦ (false, w)
    | some data' ↦ attempt (files.write data' file.path w) w
  ]

  unfoldable pub set_executable : AuxiliaryFile → W → Bool × W
  set_executable file w =
      if file.executable && not (files.is_executable file.path w)
      then attempt (files.make_executable file.path w) w
      else (true, w)

  -- A round; a dry run tells the formatter and does nothing.
  unfoldable pub write_auxiliary_file : Bool → AuxiliaryFile → W → Bool × W
  unfolding make_directory write_chunks set_executable
  write_auxiliary_file dry_run file w =
      if dry_run
      then (true, w)
      else (make_directory file.path >> write_chunks file >> set_executable file) w

  unfoldable pub write_auxiliary_files : Bool → List AuxiliaryFile → W → Bool × W
  unfolding write_auxiliary_file
  write_auxiliary_files dry_run [] w = (true, w)
  write_auxiliary_files dry_run (file ∷ rest) w =
      (write_auxiliary_file dry_run file >> write_auxiliary_files dry_run rest) w
