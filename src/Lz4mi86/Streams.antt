-- ===== src/Lz4mi86/Streams.antt =====
-- A system that reads and writes in order, if only a part at a time, and what lz4mi86.c reads and
-- writes with it.
use libi.Base.{ℕ, ◌^◌, ◌≤◌, ◌<◌, ◌≡◌, ◌∙◌, refl, ap, some, List, ◌++◌}
use libi.Base.{length, take, drop}
use libi.Memory.{Far, Memory}
use libi.Lz4mi86.{Io, Options, State, Outcome, Run, ◌>>=◌, ◌>>◌, return}

-- What is left of the standard input, and what was sent to the standard output. A call moves one
-- byte at least, while there is one. Memory comes at `blk`.
pub record Streams {S : Type 0} (io : Io S) (blk : Far) : Type 0 where
  pub left : S → List ℕ
  pub sent : S → List ℕ
  pub read_some :
      (s : S) (n : ℕ)
      → 0 < n
      → 0 < length (left s)
      → (k : ℕ) × (s' : S) × (1 ≤ k)
        × (k ≤ n)
        × (k ≤ length (left s))
        × (io.read 0 n s ≡ (some (take k (left s)), s'))
        × (left s' ≡ drop k (left s))
        × (sent s' ≡ sent s)
  pub write_some :
      (s : S) (b : List ℕ)
      → 0 < length b
      → (k : ℕ) × (s' : S) × (1 ≤ k)
        × (k ≤ length b)
        × (io.write 1 b s ≡ (some k, s'))
        × (left s' ≡ left s)
        × (sent s' ≡ sent s ++ take k b)
  pub errno_keeps :
      (e : ℕ) (s : S) → (left (io.set_errno e s) ≡ left s) × (sent (io.set_errno e s) ≡ sent s)
  pub binmode_ok :
      (fd : ℕ) (s : S)
      → (m : ℕ) × (s' : S) × (io.binmode fd s ≡ (some m, s'))
        × (left s' ≡ left s)
        × (sent s' ≡ sent s)
  pub fmalloc_ok :
      (n : ℕ) (s : S)
      → n < 2 ^ 16
      → (s' : S) × (io.fmalloc n s ≡ (some blk, s')) × (left s' ≡ left s) × (sent s' ≡ sent s)

-- What there is to see: the rest of the input, the output and the memory.
pub record View : Type 0 where
  pub inp : List ℕ
  pub out : List ℕ
  pub mem : Memory

module _ {S : Type 0} (io : Io S) (o : Options) (blk : Far) (st : Streams io blk) where
  pub record Now (s : State S) (v : View) : Type 0 where
    pub inp_is : st.left s.os ≡ v.inp
    pub out_is : st.sent s.os ≡ v.out
    pub mem_is : s.mem ≡ v.mem
    pub in_is : s.in_fd ≡ 0
    pub out_fd_is : s.out_fd ≡ 1

  -- A call that neither reads nor writes changes nothing of the view.
  pub Now-call :
      (s : State S) (v : View) (os' : S)
      → st.left os' ≡ st.left s.os
      → st.sent os' ≡ st.sent s.os
      → Now s v
      → Now (record s { os = os' }) v
  Now-call s v os' l t now = record {
    inp_is = l ∙ now.inp_is;
    out_is = t ∙ now.out_is;
    mem_is = now.mem_is;
    in_is = now.in_is;
    out_fd_is = now.out_fd_is;
  }

  pub Now-inp :
      (s : State S) (v : View) (inp : List ℕ)
      → v.inp ≡ inp
      → Now s v
      → Now s (record v { inp = inp })
  Now-inp s v inp e now = record {
    inp_is = now.inp_is ∙ e;
    out_is = now.out_is;
    mem_is = now.mem_is;
    in_is = now.in_is;
    out_fd_is = now.out_fd_is;
  }

  -- From the view `v`, `m` gives `a` and leads to the view `w`.
  pub record Yields {A : Type 0} (m : Run S A) (v : View) (a : A) (w : View) : Type 0 where
    pub from : (s : State S) → Now s v → (s' : State S) × (m s ≡ Outcome.done a s') × Now s' w

  pub Yields-return : {A : Type 0} (a : A) (v : View) → Yields (return a) v a v
  Yields-return a v = record { from = λ s h. (s, refl, h) }

  pub Yields-bind :
      {A B : Type 0} {m : Run S A} (f : A → Run S B) {v w x : View} {a : A} {b : B}
      → Yields m v a w
      → Yields (f a) w b x
      → Yields (m >>= f) v b x
  Yields-bind {m = m} f {a = a} {b = b} h k = record {
    from = λ s now.
        let (s', e, now') = h.from s now in
        let (s'', e', now'') = k.from s' now' in
        (
          s'',
          ap
                (λ r. elim r [
                  | Outcome.done a s' ↦ f a s'
                  | Outcome.exited c s' ↦ Outcome.exited c s'
                  | Outcome.stuck ↦ Outcome.stuck
                ])
                e
              ∙ e',
          now'',
        );
  }

  pub Yields-then :
      {A B : Type 0} {m : Run S A} {n : Run S B} {v w x : View} {a : A} {b : B}
      → Yields m v a w
      → Yields n w b x
      → Yields (m >> n) v b x
  Yields-then {n = n} h k = Yields-bind (λ a. n) h k
