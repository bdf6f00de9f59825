-- ===== src/Reexec/Refined.antt =====
-- `reexec` of reexec.go: what it does is what some run of its two goroutines does.
use img.Common.{
  ℕ, String, Bool, true, false, some, List, ◌≡◌, refl, ◌∙◌, ◌⊎◌, if◌then◌else◌, ◌==◌, inl, inr, sym,
}
use img.Common.Exec.{Exec, pure}
use img.Services.{Services}
use img.Client.{State, call}
use img.Reexec.{Watch, start_and_wait, euid_test, unshare_test, needs_reexec, reexec}
use img.Reexec.Signals.{Parent, first, Reach-killed, here}
use img.Reexec.Observed.{Sight, Answers, Observed}
use img.Reexec.Following.{
  IsSeen, Reaches, Follows, Runs, Runs-bind, Runs-call, Runs-never, followed,
}
use img.Reexec.Starting.{start_and_wait-Runs}
use img.Reexec.Simulated.{is_leaving}

-- Nothing was started.
abbrev pub AtFirst : {W A : Type 0} → A → State W → Parent → Type 0
AtFirst _ _ p = p ≡ first

module _ {W : Type 0} (S : Services W) (V : Sight W) (L : Observed S V) where
  pure-Runs :
      {A : Type 0} (a : A) (s : State W) (p : Parent)
      → Reaches V s p
      → p ≡ first
      → Runs V AtFirst (pure a) s
  unfolding pure
  pure-Runs a s p r e = record { at = (p, r, e) }

  call-AtFirst :
      {A : Type 0} (m : Exec W A) (s : State W) (p : Parent)
      → Reaches V s p
      → p ≡ first
      → Answers V s.host (m s.host).1 (m s.host).0
      → Runs V AtFirst (call m) s
  call-AtFirst m s p r e answers = Runs-call (λ q. q ≡ first) m s p r e answers

  euid_test-Runs :
      (b : Bool) (s : State W) (p : Parent)
      → Reaches V s p
      → p ≡ first
      → Runs V AtFirst (euid_test S b) s
  unfolding euid_test
  euid_test-Runs false s p r e = pure-Runs _ s p r e
  euid_test-Runs true s p r e =
      Runs-bind s (call-AtFirst _ s p r e (L.parent_euid s.host)) λ euid. pure-Runs _

  unshare_test-Runs :
      (b : Bool) (s : State W) (p : Parent)
      → Reaches V s p
      → p ≡ first
      → Runs V AtFirst (unshare_test S b) s
  unfolding unshare_test
  unshare_test-Runs false s p r e = pure-Runs _ s p r e
  unshare_test-Runs true s p r e =
      Runs-bind s (call-AtFirst _ s p r e (L.getenv "IMG_DO_UNSHARE" s.host))
        λ unshared. euid_test-Runs (unshared == "")

  needs_reexec-Runs :
      (s : State W) (p : Parent) → Reaches V s p → p ≡ first → Runs V AtFirst (needs_reexec S) s
  unfolding needs_reexec
  needs_reexec-Runs s p r e =
      Runs-bind s (call-AtFirst _ s p r e (L.getenv "IMG_RUNNING_TESTS" s.host))
        λ testing. unshare_test-Runs (testing == "")

  branch-Runs :
      (watch : Watch) (args : List String)
      → is_leaving watch.handler ≡ false
      → (needed : Bool) (s : State W) (p : Parent) → Reaches V s p
      → p ≡ first
      → Runs V AtFirst (if needed then start_and_wait S watch args else pure tt) s
  branch-Runs watch args fresh false s p r e = pure-Runs tt s p r e
  branch-Runs watch args fresh true s p r e =
      Runs-never (start_and_wait-Runs S V L watch args s (rw (sym e) r.seen) fresh)

  reexec-Runs :
      (watch : Watch) (args : List String) (s : State W)
      → IsSeen V s.host first
      → is_leaving watch.handler ≡ false
      → Runs V AtFirst (reexec S watch args) s
  unfolding reexec
  reexec-Runs watch args s seen fresh =
      Runs-bind s (needs_reexec-Runs s first (record { run = here; seen = seen }) refl)
        (branch-Runs watch args fresh)

  -- Where the calls behave as documented, the host shows no child and no kill yet, and the signal did
  -- not come yet: what `reexec` does to the host, in whatever way it ends and whenever the signal comes,
  -- is what some run of its two goroutines does. It returns no error. If it returns, nothing was
  -- started; if it ends the process, that run ends the process too, with the same status or because it
  -- killed its own group. And a group that it killed is group 0, or that of the child, which does not
  -- run any more then.
  pub reexec-Follows :
      (watch : Watch) (args : List String) (s : State W)
      → IsSeen V s.host first
      → is_leaving watch.handler ≡ false
      → let r = reexec S watch args s in
        Follows V AtFirst r.0 r.1
        × ((g : ℕ)
            → V.killed r.1.host ≡ some g
            → (g ≡ 0) ⊎ ((V.child r.1.host ≡ some g) × (V.alive r.1.host ≡ false)))
  reexec-Follows watch args s seen fresh =
      let runs = (reexec-Runs watch args s seen fresh).at in
      let run = followed V AtFirst (reexec S watch args s).0 (reexec S watch args s).1 runs in
      (runs, λ g k. seen_kill run.0 run.1 g k)
    where
      seen_kill :
          {t : State W} (p : Parent)
          → Reaches V t p
          → (g : ℕ) → V.killed t.host ≡ some g
          → (g ≡ 0) ⊎ ((V.child t.host ≡ some g) × (V.alive t.host ≡ false))
      seen_kill p h g k = elim ((Reach-killed h.run).0 g (sym h.seen.killed ∙ k)) [
        | inl z ↦ inl z
        | inr c ↦ inr (h.seen.child ∙ c.0, h.seen.dead c.1)
      ]
