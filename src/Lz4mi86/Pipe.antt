-- ===== src/Lz4mi86/Pipe.antt =====
-- A system with a standard input and outputs, where a call moves one byte at most, for tests.
use libi.Base.{
  ◌≡◌, refl, ap, arith, ℕ, none, some, List, [], ◌∷◌, ◌++◌, take, drop, length, ◌==◌, if◌then◌else◌,
}
use Prim.Native.Nat.{min}
use libi.Memory.{Far}
use libi.Lz4mi86.{Io}
use libi.Lz4mi86.Streams.{Streams}

pub record Pipe : Type 0 where
  pub left : List ℕ
  pub out : List ℕ
  pub err : List ℕ
  pub errno : ℕ

abbrev pub pipe : Io Pipe
pipe = record {
  read = λ fd n s. (some (take (min n 1) s.left), record s { left = drop (min n 1) s.left });
  write = λ fd b s. (
    some (min (length b) 1),
    if fd == 2 then record s { err = s.err ++ take 1 b } else record s { out = s.out ++ take 1 b },
  );
  open_rdonly = λ path s. (none, record s { errno = 2 });
  open_wronly = λ path s. (none, record s { errno = 2 });
  close = λ fd s. (some 0, s);
  unlink = λ path s. s;
  binmode = λ fd s. (some 0, s);
  fmalloc = λ n s. (some (record { seg = 0x2000; off = 0 }), s);
  errno = λ s. s.errno;
  set_errno = λ n s. record s { errno = n };
  strerror = λ n. b'E' ∷ [];
}

abbrev pub memory_at : Far
memory_at = record { seg = 0x2000; off = 0 }

abbrev pub pipe_streams : Streams pipe memory_at
pipe_streams = record {
  left = λ s. s.left;
  sent = λ s. s.out;
  read_some = λ s n h l.
      let one : min n 1 ≡ 1 = omega (arith, h) in
      (
        1,
        record s { left = drop 1 s.left },
        omega arith,
        omega (arith, h),
        omega (arith, l),
        ap (λ k. (some (take k s.left), record s { left = drop k s.left })) one,
        refl,
        refl,
      );
  write_some = λ s b l.
      let one : min (length b) 1 ≡ 1 = omega (arith, l) in
      (
        1,
        record s { out = s.out ++ take 1 b },
        omega arith,
        omega (arith, l),
        ap (λ k. (some k, record s { out = s.out ++ take 1 b })) one,
        refl,
        refl,
      );
  errno_keeps = λ e s. (refl, refl);
  binmode_ok = λ fd s. (0, s, refl, refl, refl);
  fmalloc_ok = λ n s h. (s, refl, refl, refl);
}
