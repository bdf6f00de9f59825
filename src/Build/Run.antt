-- ===== src/Build/Run.antt =====
-- `Run` of build.go up to the solver, which is a parameter.
use img.Common.{ℕ, String, List, [], ◌∷◌, ◌==◌, if◌then◌else◌}
use img.Common.Exec.{Exec, errorf, caused, pure, raise, ◌>>=◌, ◌>>◌, or_fail, defer}
use img.Common.Output.{text, stdout}
use img.Services.{Services}
use img.Client.{State, call, lift, print, set_client, new}
use img.Command.{Globals}
use img.Build.{BuildCommand, Attrs, add_build_args, first_attrs, local_dirs}
use img.Build.Stdin.{dockerfile_from_stdin, context_from_stdin}

-- What the solver is asked: `Exporter` is "image", `Frontend` is "dockerfile.v0".
pub record Request : Type 0 where
  pub tag : String
  pub attrs : Attrs

module _ {W : Type 0} (S : Services W) (fuel : ℕ)
    (solve : Request → Exec (State W) (Unit {0})) where
  -- From `client.New` to the end. The client is made before the build arguments are looked at.
  unfoldable pub build_with :
      Globals → BuildCommand → String → String → String → Exec (State W) (Unit {0})
  unfolding new add_build_args first_attrs local_dirs
  build_with g cmd tag context_dir dockerfile_path = do
    c ← new S g.state_dir g.backend (local_dirs context_dir dockerfile_path)
    set_client c
    attrs ← lift (add_build_args (first_attrs dockerfile_path cmd.target) cmd.build_args)
    print (stdout "Building %s\n" (text tag ∷ []))
    print (stdout "Setting up the rootfs... this may take a bit.\n" [])
    solve (record { tag = tag; attrs = attrs })
    print (stdout "Successfully built %s\n" (text tag ∷ []))

  -- From the parse of the tag on.
  unfoldable pub build_in : Globals → BuildCommand → String → String → Exec (State W) (Unit {0})
  unfolding build_with
  build_in g cmd context_dir dockerfile_path = do
    named ←
        or_fail (caused "parsing image name %q failed: %v" (cmd.tag ∷ []))
          (lift (S.references.parse_normalized_named cmd.tag))
    path ←
        if dockerfile_path == ""
        then lift (S.inputs.secure_join context_dir "Dockerfile")
        else pure dockerfile_path
    build_with g cmd (S.references.tag_name_only named) context_dir path

  -- From the test of the context directory on.
  unfoldable pub build_context :
      Globals → BuildCommand → String → String → Exec (State W) (Unit {0})
  unfolding build_in
  build_context g cmd context_dir dockerfile_path =
      if context_dir == ""
      then raise (errorf "please specify build context (e.g. \".\" for the current directory)" [])
      else if context_dir == "-"
      then (do
        dir ←
            or_fail (caused "reading context from stdin failed: %v" [])
              (context_from_stdin S fuel dockerfile_path)
        defer (call (S.files.remove_all dir)) (build_in g cmd dir dockerfile_path))
      else build_in g cmd context_dir dockerfile_path

  -- `Run`
  unfoldable pub run_build : Globals → BuildCommand → List String → Exec (State W) (Unit {0})
  unfolding build_context
  run_build g cmd [] = raise (errorf "must pass a path to build" [])
  run_build g cmd (context_dir ∷ _) =
      if cmd.tag == ""
      then raise (errorf "please specify an image tag with `-t`" [])
      else if cmd.dockerfile_path == "-"
      then (do
        path ←
            or_fail (caused "reading dockerfile from stdin failed: %v" []) (dockerfile_from_stdin S)
        defer (call (S.files.remove_all path)) (build_context g cmd context_dir path))
      else build_context g cmd context_dir cmd.dockerfile_path
