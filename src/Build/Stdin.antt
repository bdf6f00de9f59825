-- ===== src/Build/Stdin.antt =====
-- `dockerfileFromStdin`, `contextFromStdin` and `isArchive` of build.go.
use img.Common.{ℕ, String, Bool, true, false, Option, none, some, [], ◌||◌, ◌==◌, if◌then◌else◌}
use img.Common.Exec.{
  Exec, Outcome, ok, err, halt, panic, diverge, Error, errorf, caused, pure, raise, ◌>>=◌, ◌>>◌,
  attempt, or_fail, defer,
}
use img.Services.{Services, Handle}
use img.Client.{State, call, lift}
use img.Build.Untar.{is_eof, untar}

module _ {W : Type 0} (S : Services W) where
  open S.inputs use {
    read_stdin, temp_file, write, peek_stdin, is_compressed, is_tar_header, secure_join, copy_stdin,
  }

  -- What follows `ioutil.TempFile`. On its error the file is nil, and `f.Name()` in the return
  -- statement dereferences it.
  unfoldable pub write_dockerfile : String → Outcome (Handle × String) → Exec (State W) String
  write_dockerfile stdin (ok (f, name)) = defer (call (S.files.close f)) (do
    or_fail (caused "writing to temporary file for dockerfile failed: %v" []) (call (write f stdin))
    pure name)
  write_dockerfile stdin (err e) = lift panic
  write_dockerfile stdin (halt n) = lift (halt n)
  write_dockerfile stdin panic = lift panic
  write_dockerfile stdin diverge = lift diverge

  unfoldable pub dockerfile_from_stdin : Exec (State W) String
  unfolding write_dockerfile
  dockerfile_from_stdin = do
    stdin ← or_fail (caused "reading from stdin failed: %v" []) (call read_stdin)
    file ← attempt (call (temp_file "img-build-dockerfile-"))
    write_dockerfile stdin file

  unfoldable pub is_archive : String → Bool
  is_archive header = is_compressed header || is_tar_header header

  -- The last lines: standard input is the Dockerfile itself.
  unfoldable pub copy_dockerfile : String → String → Exec (State W) (Unit {0})
  copy_dockerfile tmp_dir name = do
    path ← lift (secure_join tmp_dir name)
    f ← call (S.files.create path)
    defer (call (S.files.close f)) (call (copy_stdin f))

  unfoldable pub fill_context : ℕ → String → String → Bool → Exec (State W) (Unit {0})
  unfolding copy_dockerfile
  fill_context fuel name tmp_dir true = untar S fuel tmp_dir
  fill_context fuel name tmp_dir false =
      if name == "-"
      then raise (errorf "build context is not an archive" [])
      else copy_dockerfile tmp_dir name

  -- `err != nil && err != io.EOF`
  unfoldable pub peek_failed : Option Error → Exec (State W) (Unit {0})
  peek_failed none = pure tt
  peek_failed (some e) =
      if is_eof e
      then pure tt
      else raise (caused "failed to peek context header from STDIN: %v" [] e)

  unfoldable pub peeked : ℕ → String → String → String × Option Error → Exec (State W) (Unit {0})
  unfolding peek_failed fill_context is_archive
  peeked fuel name tmp_dir (magic, problem) = do
    peek_failed problem
    fill_context fuel name tmp_dir (is_archive magic)

  -- `contextFromStdin`. The directory that it returns beside an error is read by nobody.
  unfoldable pub context_from_stdin : ℕ → String → Exec (State W) String
  unfolding peeked
  context_from_stdin fuel dockerfile_name = do
    let name = if dockerfile_name == "" then "Dockerfile" else dockerfile_name
    tmp_dir ←
        or_fail (caused "unable to create temporary context directory: %v" [])
          (call (S.processes.temp_dir "img-build-context-"))
    magic ← call (peek_stdin 512)
    peeked fuel name tmp_dir magic
    pure tmp_dir
