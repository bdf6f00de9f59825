-- ===== src/Examples/Archives.antt =====
-- An archive of one entry that is unpacked.
use img.Common.{List, [], ◌∷◌, Option, ◌≡◌, refl, ◌≢◌, ◌<◌, ◌≤◌, arith, length}
use img.Common.Exec.{ok, diverge}
use img.Services.{TarHeader}
use img.Build.Untar.{untar}
use img.Build.Untar.Ending.{Streams, untar-ends}
use img.Fixture.{World, memory, popped}
use img.Fixture.Data.{unpacking}

popped_less :
    (es : List TarHeader) (w : World) (entry : Option TarHeader)
    → (popped es w).0 ≡ ok entry
    → length (popped es w).1.entries < length es
popped_less [] w entry e = absurd (cc)
popped_less (x ∷ es) w entry e = omega arith

popped_reads :
    (es : List TarHeader) (w : World) → w.entries ≡ es → length (popped es w).1.entries ≤ length es
popped_reads [] w e = rw e (omega arith)
popped_reads (x ∷ es) w e = omega arith

popped_ends : (es : List TarHeader) (w : World) → (popped es w).0 ≢ diverge
popped_ends [] w e = cc
popped_ends (x ∷ es) w e = cc

memory-Streams : Streams memory "/tmp/dir" (λ w. length w.entries)
memory-Streams = record {
  next_less = λ tr entry w e. popped_less w.entries w entry e;
  next_reads = λ tr w. popped_reads w.entries w refl;
  gzip_reads = λ w. omega arith;
  mkdir_reads = λ path mode w. omega arith;
  open_reads = λ path mode w. omega arith;
  copy_reads = λ f tr w. omega arith;
  stat_reads = λ path w. omega arith;
  close_reads = λ f w. omega arith;
  next_returns = λ tr w. popped_ends w.entries w;
  gzip_returns = λ w e. cc;
  mkdir_returns = λ path mode w e. cc;
  open_returns = λ path mode w e. cc;
  copy_returns = λ f tr w e. cc;
  stat_returns = λ path w e. cc;
  close_returns = λ f w e. cc;
  joins = λ name e. cc;
}

untar-ends_example : (untar memory 2 "/tmp/dir" unpacking).0 ≢ diverge
untar-ends_example = untar-ends memory-Streams 2 unpacking (omega arith)
