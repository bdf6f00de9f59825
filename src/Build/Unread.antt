-- ===== src/Build/Unread.antt =====
-- `img build -` where the standard input is an archive that `untar` cannot open: `isArchive` accepts
-- every compression and a plain tar, and `untar` opens gzip alone.
use img.Common.{ℕ, String, true, false, Option, none, some, List, [], ◌∷◌, ◌==◌, ◌≡◌, refl}
use img.Common.Exec.{ok, err, Error, caused, ◌>>=◌}
use img.Services.{Services}
use img.Client.{State, call}
use img.Command.{Globals}
use img.Build.{BuildCommand}
use img.Build.Run.{Request, run_build}
use img.Build.Stdin.{is_archive, context_from_stdin}
use img.Build.Untar.{is_eof, untar}
use img.Common.Exec.{Exec}

-- No error beside the bytes, or the end of the input.
abbrev pub Readable : Option Error → Type 0
Readable none = Unit {0}
Readable (some e) = is_eof e ≡ true

module _ {W : Type 0} (S : Services W) (fuel : ℕ) where
  context_from_stdin-unread :
      (name dir magic : String) (problem : Option Error) (e : Error) (s : State W)
      {made peeked unzipped : W}
      → S.processes.temp_dir "img-build-context-" s.host ≡ (ok dir, made)
      → S.inputs.peek_stdin 512 made ≡ (ok (magic, problem), peeked)
      → Readable problem
      → is_archive S magic ≡ true
      → S.inputs.new_gzip_reader peeked ≡ (err e, unzipped)
      → context_from_stdin S fuel name s ≡ (err e, record s { host = unzipped })
  unfolding context_from_stdin untar call ◌>>=◌
  context_from_stdin-unread name dir magic none e s make peek readable archive unzip =
      rw make (rw peek (rw archive (rw unzip refl)))
  context_from_stdin-unread name dir magic (some p) e s make peek readable archive unzip =
      rw make (rw peek (rw readable (rw archive (rw unzip refl))))

  module _ (solve : Request → Exec (State W) (Unit {0})) (g : Globals) (cmd : BuildCommand) where
    -- `img build -` with a tag and a Dockerfile that is not the standard input: when the directory for
    -- the context was made, the first bytes were read, `isArchive` accepts them and `gzip.NewReader`
    -- refuses the input, whatever the other arguments and the solver are, `Run` returns that error,
    -- wrapped, and the call that failed was the last one to the host: the directory is not removed.
    pub run_build-unread :
        (rest : List String) (dir magic : String) (problem : Option Error) (e : Error) (s : State W)
        {made peeked unzipped : W}
        → (cmd.tag == "") ≡ false
        → (cmd.dockerfile_path == "-") ≡ false
        → S.processes.temp_dir "img-build-context-" s.host ≡ (ok dir, made)
        → S.inputs.peek_stdin 512 made ≡ (ok (magic, problem), peeked)
        → Readable problem
        → is_archive S magic ≡ true
        → S.inputs.new_gzip_reader peeked ≡ (err e, unzipped)
        → run_build S fuel solve g cmd ("-" ∷ rest) s ≡ (
          err (caused "reading context from stdin failed: %v" [] e),
          record s { host = unzipped },
        )
    unfolding run_build ◌>>=◌
    run_build-unread rest dir magic problem e s tagged named make peek readable archive unzip =
        rw (tagged, named)
          (rw
            (context_from_stdin-unread cmd.dockerfile_path dir magic problem e s make peek readable
              archive unzip)
            refl)
