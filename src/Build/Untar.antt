-- ===== src/Build/Untar.antt =====
-- `untar` of build.go.
pub mod Confined
pub mod Ending
use Prim.Native.Nat.{ℕ, zero, suc, ◌%◌, ◌^◌}
use img.Common.{String, Bool, true, false, Option, none, some, if◌then◌else◌}
use img.Common.Exec.{
  Exec, Outcome, ok, err, halt, panic, diverge, Error, Kind, foreign, pure, ◌>>=◌, ◌>>◌, attempt,
  defer,
}
use img.Common.Int.{ℤ, to_bits}
use img.Common.Text.{same_code}
use img.Services.{Services, Handle, TarHeader}
use img.Client.{State, call, lift, succeeded}

-- `err == io.EOF`
abbrev pub is_eof : Error → Bool
is_eof (foreign Kind.eof _) = true
is_eof _ = false

-- `tar.TypeDir` and `tar.TypeReg`
abbrev pub type_dir : ℕ
type_dir = b'5'

abbrev pub type_reg : ℕ
type_reg = b'0'

module _ {W : Type 0} (S : Services W) where
  open S.inputs use {
    new_gzip_reader, new_tar_reader, next_entry, open_file, copy_entry, secure_join,
  }

  -- `if _, err := os.Stat(target); err != nil { … }`
  unfoldable pub make_missing : String → Bool → Exec (State W) (Unit {0})
  make_missing target true = pure tt
  make_missing target false = call (S.files.mkdir_all target 0o755)

  -- The file is closed before the error of the copy is looked at.
  -- `os.FileMode(header.Mode)` keeps the low 32 bits of the `int64`.
  unfoldable pub extract_file : Handle → String → ℤ → Exec (State W) (Unit {0})
  extract_file tr target mode = do
    f ← call (open_file target (to_bits mode % 2 ^ 32))
    copied ← attempt (call (copy_entry f tr))
    _ ← attempt (call (S.files.close f))
    lift copied

  -- The `switch` on the type of the entry; other types are passed over.
  unfoldable pub extract_typed :
      Handle → String → TarHeader → Bool → Bool → Exec (State W) (Unit {0})
  unfolding make_missing extract_file
  extract_typed tr target header true _ = do
    found ← attempt (call (S.files.stat target))
    make_missing target (succeeded found)
  extract_typed tr target header false true = extract_file tr target header.mode
  extract_typed tr target header false false = pure tt

  -- One entry: nothing for a header that is nil.
  unfoldable pub extract_entry : String → Handle → Option TarHeader → Exec (State W) (Unit {0})
  unfolding extract_typed
  extract_entry dest tr none = pure tt
  extract_entry dest tr (some header) = do
    target ← lift (secure_join dest header.name)
    extract_typed tr target header (same_code header.typeflag type_dir)
        (same_code header.typeflag type_reg)

  -- What a round does with the result of `tr.Next()`, `again` being the rounds after it.
  unfoldable pub untar_round :
      String
      → Handle
      → Exec (State W) (Unit {0})
      → Outcome (Option TarHeader)
      → Exec (State W) (Unit {0})
  unfolding extract_entry
  untar_round dest tr again (ok entry) = do extract_entry dest tr entry; again
  untar_round dest tr again (err e) = if is_eof e then pure tt else lift (err e)
  untar_round dest tr again (halt n) = lift (halt n)
  untar_round dest tr again panic = lift panic
  untar_round dest tr again diverge = lift diverge

  unfoldable pub untar_loop : ℕ → String → Handle → Exec (State W) (Unit {0})
  unfolding untar_round
  untar_loop zero dest tr = lift diverge
  untar_loop (suc fuel) dest tr = do
    entry ← attempt (call (next_entry tr))
    untar_round dest tr (untar_loop fuel dest tr) entry

  -- `untar` of the buffered standard input. The gzip reader's `Close` writes nothing.
  unfoldable pub untar : ℕ → String → Exec (State W) (Unit {0})
  unfolding untar_loop
  untar fuel dest = do
    gzr ← call new_gzip_reader
    defer (call (S.files.close gzr)) (untar_loop fuel dest (new_tar_reader gzr))
