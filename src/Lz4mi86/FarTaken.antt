-- ===== src/Lz4mi86/FarTaken.antt =====
-- What `far_input` of lz4mi86.c takes from a system that reads in order.
use libi.Base.{
  ℕ, zero, suc, ◌+◌, ◌-◌, ◌%◌, ◌^◌, ◌≤◌, ◌<◌, ◌≡◌, ◌∙◌, refl, sym, ap, Option, some, List, [], ◌∷◌,
  ◌++◌, arith,
}
use libi.Base.{length, take, drop, length-drop, length-take, take-append-drop}
use Prim.Native.Nat.{min}
use mathlib.Core.Path.{subst}
use libi.Memory.{Far, Memory}
use libi.Lz4mi86.{Io, Options, State, Outcome, codes}
use libi.Lz4mi86.Files.{fatal, far_input, fmemcpy, moved_bytes, and_more}
use libi.Lz4mi86.Streams.{Streams, View, Now, Yields, Now-inp}
use libi.Lz4mi86.Taken.{moved_bytes-some, read-Now}

fmemcpy-append :
    (p : Far) (xs ys : List ℕ) (mem : Memory)
    → p.off < 2 ^ 16
    → fmemcpy p (xs ++ ys) mem
      ≡ fmemcpy (record { seg = p.seg; off = (p.off + length xs) % 2 ^ 16 }) ys (fmemcpy p xs mem)
unfolding fmemcpy
fmemcpy-append p [] ys mem h =
    let same : p.off ≡ (p.off + 0) % 2 ^ 16 = omega (arith, h) in
    ap (λ off. fmemcpy (record { seg = p.seg; off = off }) ys mem) same
fmemcpy-append p (x ∷ xs) ys mem h =
    let same : ((p.off + 1) % 2 ^ 16 + length xs) % 2 ^ 16 ≡ (p.off + length (x ∷ xs)) % 2 ^ 16 =
      omega arith in
    fmemcpy-append (record { seg = p.seg; off = (p.off + 1) % 2 ^ 16 }) xs ys _ (omega arith)
    ∙ ap (λ off. fmemcpy (record { seg = p.seg; off = off }) ys (fmemcpy p (x ∷ xs) mem)) same

module _ {S : Type 0} (io : Io S) (o : Options) (blk : Far) (st : Streams io blk) where
  far_input_none :
      (fuel : ℕ) (p : Far) (s : State S) → far_input io o fuel p zero s ≡ Outcome.done tt s
  unfolding far_input
  far_input_none fuel p s = refl

  far_input-step :
      (fuel : ℕ) (p : Far) (n : ℕ) (s : State S) (b : List ℕ) (os' : S)
      → 1 ≤ length b
      → io.read s.in_fd (min (suc n) 0x100) (io.set_errno 0 s.os) ≡ (some b, os')
      → far_input io o (suc fuel) p (suc n) s
        ≡ far_input io o fuel
            (record { seg = p.seg; off = (p.off + length b) % 2 ^ 16 })
            (suc n - length b)
            (record s { os = os'; mem = fmemcpy p b s.mem })
  unfolding far_input
  far_input-step fuel p n s b os' h e =
      let next : Option (List ℕ) × S → Option (List ℕ) → Outcome S Unit = λ r c.
        and_more c (fatal io o (codes "cannot read input file") (record s { os = r.1 })) (λ buf.
          far_input io o fuel (record { seg = p.seg; off = (p.off + length buf) % 2 ^ 16 })
            (suc n - length buf) (record s { os = r.1; mem = fmemcpy p buf s.mem })) in
      ap (λ r. next r (moved_bytes r.0)) e ∙ ap (next (some b, os')) (moved_bytes-some b h)

  far_input-rest :
      (fuel : ℕ) (p : Far) (n : ℕ) (s : State S) (b : List ℕ) (os' : S) (s' : State S)
      → 1 ≤ length b
      → io.read s.in_fd (min (suc n) 0x100) (io.set_errno 0 s.os) ≡ (some b, os')
      → far_input io o fuel
          (record { seg = p.seg; off = (p.off + length b) % 2 ^ 16 })
          (suc n - length b)
          (record s { os = os'; mem = fmemcpy p b s.mem })
        ≡ Outcome.done tt s'
      → far_input io o (suc fuel) p (suc n) s ≡ Outcome.done tt s'
  far_input-rest fuel p n s b os' s' h e f = far_input-step fuel p n s b os' h e ∙ f

  far_input-Now :
      (fuel : ℕ) (p : Far) (n : ℕ) (bs more : List ℕ) (v : View) (s : State S)
      → n ≤ fuel
      → p.off < 2 ^ 16
      → length bs ≡ n
      → v.inp ≡ bs ++ more
      → Now io o blk st s v
      → (s' : State S) × (far_input io o fuel p n s ≡ Outcome.done tt s')
        × Now io o blk st s' (record v { inp = more; mem = fmemcpy p bs v.mem })
  unfolding fmemcpy
  far_input-Now fuel p zero [] more v s h hp l e now =
      (s, far_input_none fuel p s, Now-inp io o blk st s v more e now)
  far_input-Now fuel p zero (b ∷ bs) more v s h hp l e now = absurd (omega (arith, l))
  far_input-Now zero p (suc n) bs more v s h hp l e now = absurd (omega (arith, h))
  far_input-Now (suc fuel) p (suc n) bs more v s h hp l e now =
      let (k, os', a, q, r, now') =
        read-Now io o blk st (min (suc n) 0x100) bs more v s (omega arith) (omega (arith, l)) e
          now in
      let size : length (take k bs) ≡ k = omega (arith, length-take k bs, l, q) in
      let p' : Far = record { seg = p.seg; off = (p.off + length (take k bs)) % 2 ^ 16 } in
      let stored : Now io o blk st (record s { os = os'; mem = fmemcpy p (take k bs) s.mem })
          (record v { inp = drop k bs ++ more; mem = fmemcpy p (take k bs) v.mem }) =
        record {
          inp_is = now'.inp_is;
          out_is = now'.out_is;
          mem_is = ap (fmemcpy p (take k bs)) now.mem_is;
          in_is = now.in_is;
          out_fd_is = now.out_fd_is;
        } in
      let (s', f, now'') =
        far_input-Now fuel p' (suc n - length (take k bs)) (drop k bs) more
          (record v { inp = drop k bs ++ more; mem = fmemcpy p (take k bs) v.mem })
          (record s { os = os'; mem = fmemcpy p (take k bs) s.mem }) (omega (arith, h, a, size))
          (omega arith) (omega (arith, length-drop k bs, size, l)) refl stored in
      let whole =
        sym (fmemcpy-append p (take k bs) (drop k bs) v.mem hp)
        ∙ ap (λ x. fmemcpy p x v.mem) (take-append-drop k bs) in
      (
        s',
        far_input-rest fuel p n s (take k bs) os' s' (omega (arith, a, size)) r f,
        subst (λ m. Now io o blk st s' (record v { inp = more; mem = m })) whole now'',
      )

  pub far_input-Yields :
      (p : Far) (n : ℕ) (bs more : List ℕ) (v : View)
      → p.off < 2 ^ 16
      → length bs ≡ n
      → v.inp ≡ bs ++ more
      → Yields io o blk st
          (far_input io o n p n)
          v
          tt
          (record v { inp = more; mem = fmemcpy p bs v.mem })
  far_input-Yields p n bs more v hp l e = record {
    from = λ s now. far_input-Now n p n bs more v s (omega arith) hp l e now;
  }
