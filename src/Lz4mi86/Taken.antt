-- ===== src/Lz4mi86/Taken.antt =====
-- What `input` of lz4mi86.c takes from a system that reads in order.
use libi.Base.{
  ℕ, zero, suc, ◌-◌, ◌≤◌, ◌<◌, ◌≡◌, ◌∙◌, refl, ap, Option, some, List, [], ◌∷◌, ◌++◌, arith,
}
use libi.Base.{
  length, take, drop, length-drop, length-take, length-append, take-append-drop, take-append_le,
}
use libi.Memory.{Far}
use libi.Lz4mi86.{Io, Options, State, Outcome, ◌>>=◌, return, codes}
use libi.Lz4mi86.Files.{fatal, input, moved_bytes, and_more}
use libi.Lz4mi86.Streams.{Streams, View, Now, Yields, Now-inp}

drop-append_le : (n : ℕ) (xs ys : List ℕ) → n ≤ length xs → drop n (xs ++ ys) ≡ drop n xs ++ ys
drop-append_le zero xs ys h = refl
drop-append_le (suc n) [] ys h = absurd (omega arith)
drop-append_le (suc n) (x ∷ xs) ys h = drop-append_le n xs ys (omega arith)

-- Bytes that were read are not none.
pub moved_bytes-some : (b : List ℕ) → 1 ≤ length b → moved_bytes (some b) ≡ some b
unfolding moved_bytes
moved_bytes-some [] h = absurd (omega (arith, h))
moved_bytes-some (c ∷ buf) h = refl

module _ {S : Type 0} (io : Io S) (o : Options) (blk : Far) (st : Streams io blk) where
  -- One call of `read` for up to `n` bytes, where `bs` and `more` are left.
  pub read-Now :
      (n : ℕ) (bs more : List ℕ) (v : View) (s : State S)
      → 1 ≤ n
      → n ≤ length bs
      → v.inp ≡ bs ++ more
      → Now io o blk st s v
      → (k : ℕ) × (os' : S) × (1 ≤ k)
        × (k ≤ n)
        × (io.read s.in_fd n (io.set_errno 0 s.os) ≡ (some (take k bs), os'))
        × Now io o blk st (record s { os = os' }) (record v { inp = drop k bs ++ more })
  read-Now n bs more v s h l e now =
      let (kl, kt) = st.errno_keeps 0 s.os in
      let inp = kl ∙ (now.inp_is ∙ e) in
      let some_left : 0 < length (st.left (io.set_errno 0 s.os)) =
        omega (arith, ap (λ x. length x) inp, length-append bs more, h, l) in
      let (k, os', p, q, r, a, b, c) =
        st.read_some (io.set_errno 0 s.os) n (omega (arith, h)) some_left in
      (
        k,
        os',
        p,
        q,
        ap (λ fd. io.read fd n (io.set_errno 0 s.os)) now.in_is
            ∙ (a
                ∙ ap (λ x. (some x, os'))
                    (ap (take k) inp ∙ take-append_le k bs more (omega (arith, q, l)))),
        record {
          inp_is = b ∙ (ap (drop k) inp ∙ drop-append_le k bs more (omega (arith, q, l)));
          out_is = c ∙ (kt ∙ now.out_is);
          mem_is = now.mem_is;
          in_is = now.in_is;
          out_fd_is = now.out_fd_is;
        },
      )

  input-step :
      (fuel n : ℕ) (s : State S) (b : List ℕ) (os' : S)
      → 1 ≤ length b
      → io.read s.in_fd (suc n) (io.set_errno 0 s.os) ≡ (some b, os')
      → input io o (suc fuel) (suc n) s
        ≡ (input io o fuel (suc n - length b) >>= λ rest. return (b ++ rest))
            (record s { os = os' })
  unfolding input
  input-step fuel n s b os' h e =
      let next : Option (List ℕ) × S → Option (List ℕ) → Outcome S (List ℕ) = λ r c.
        and_more c (fatal io o (codes "cannot read input file") (record s { os = r.1 })) (λ buf.
          (input io o fuel (suc n - length buf) >>= λ rest. return (buf ++ rest))
            (record s { os = r.1 })) in
      ap (λ r. next r (moved_bytes r.0)) e ∙ ap (next (some b, os')) (moved_bytes-some b h)

  input_none : (fuel : ℕ) (s : State S) → input io o fuel zero s ≡ Outcome.done [] s
  unfolding input
  input_none fuel s = refl

  input-rest :
      (fuel n : ℕ) (s : State S) (b bs all : List ℕ) (os' : S) (s' : State S)
      → b ++ bs ≡ all
      → 1 ≤ length b
      → io.read s.in_fd (suc n) (io.set_errno 0 s.os) ≡ (some b, os')
      → input io o fuel (suc n - length b) (record s { os = os' }) ≡ Outcome.done bs s'
      → input io o (suc fuel) (suc n) s ≡ Outcome.done all s'
  input-rest fuel n s b bs all os' s' w h e f =
      input-step fuel n s b os' h e
      ∙ ap
          (λ r. elim r [
            | Outcome.done rest s1 ↦ Outcome.done (b ++ rest) s1
            | Outcome.exited c s1 ↦ Outcome.exited c s1
            | Outcome.stuck ↦ Outcome.stuck
          ])
          f
      ∙ ap (λ x. Outcome.done x s') w

  input-Now :
      (fuel n : ℕ) (bs more : List ℕ) (v : View) (s : State S)
      → n ≤ fuel
      → length bs ≡ n
      → v.inp ≡ bs ++ more
      → Now io o blk st s v
      → (s' : State S) × (input io o fuel n s ≡ Outcome.done bs s')
        × Now io o blk st s' (record v { inp = more })
  input-Now fuel zero [] more v s h l e now =
      (s, input_none fuel s, Now-inp io o blk st s v more e now)
  input-Now fuel zero (b ∷ bs) more v s h l e now = absurd (omega (arith, l))
  input-Now zero (suc n) bs more v s h l e now = absurd (omega (arith, h))
  input-Now (suc fuel) (suc n) bs more v s h l e now =
      let (k, os', p, q, r, now') =
        read-Now (suc n) bs more v s (omega arith) (omega (arith, l)) e now in
      let size : length (take k bs) ≡ k = omega (arith, length-take k bs, l, q) in
      let (s', f, now'') =
        input-Now fuel (suc n - length (take k bs)) (drop k bs) more
          (record v { inp = drop k bs ++ more }) (record s { os = os' }) (omega (arith, h, p, size))
          (omega (arith, length-drop k bs, size, l)) refl now' in
      (
        s',
        input-rest fuel n s (take k bs) (drop k bs) bs os' s' (take-append-drop k bs)
            (omega (arith, p, size)) r f,
        now'',
      )

  pub input-Yields :
      (n : ℕ) (bs more : List ℕ) (v : View)
      → length bs ≡ n
      → v.inp ≡ bs ++ more
      → Yields io o blk st (input io o n n) v bs (record v { inp = more })
  input-Yields n bs more v l e = record {
    from = λ s now. input-Now n n bs more v s (omega arith) l e now;
  }
