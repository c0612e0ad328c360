-- ===== src/Lz4mi86/Sent.antt =====
-- What lz4mi86.c sends to a system that writes in order.
use libi.Base.{ℕ, zero, suc, ◌≤◌, ◌≡◌, ◌∙◌, refl, sym, ap, some, List, [], ◌∷◌, ◌++◌, arith}
use libi.Base.{
  length, take, drop, length-drop, take-append-drop, append-nil, append_assoc, ◌==◌, if◌then◌else◌,
}
use mathlib.Core.Path.{subst}
use libi.Memory.{Far}
use libi.Lz4mi86.{Io, Options, State, Outcome, Run, codes}
use libi.Lz4mi86.Files.{output_loop, fatal, ouch, output_fd, outputs, moved_count, and_more}
use libi.Lz4mi86.Streams.{Streams, View, Now, Yields}

module _ {S : Type 0} (io : Io S) (o : Options) (blk : Far) (st : Streams io blk) where
  abbrev Sees : State S → View → Type 0
  Sees s v = Now io o blk st s v

  output_loop_nil :
      (fuel : ℕ) (failed : Run S Unit) (s : State S)
      → output_loop io o fuel 1 [] failed s ≡ Outcome.done tt s
  unfolding output_loop
  output_loop_nil fuel failed s = refl

  output_loop-step :
      (fuel fd c : ℕ) (buf : List ℕ) (failed : Run S Unit) (s : State S) (k : ℕ) (os' : S)
      → 1 ≤ k
      → io.write fd (c ∷ buf) (io.set_errno 0 s.os) ≡ (some k, os')
      → output_loop io o (suc fuel) fd (c ∷ buf) failed s
        ≡ output_loop io o fuel fd (drop k (c ∷ buf)) failed (record s { os = os' })
  unfolding output_loop moved_count
  output_loop-step fuel fd c buf failed s zero os' h e = absurd (omega (arith, h))
  output_loop-step fuel fd c buf failed s (suc k) os' h e =
      ap
        (λ r.
          and_more (moved_count r.0) (failed (record s { os = r.1 }))
            (λ r'. output_loop io o fuel fd (drop r' (c ∷ buf)) failed (record s { os = r.1 })))
        e

  output-Yields :
      (fuel : ℕ) (buf : List ℕ) (failed : Run S Unit) (v : View) (s : State S)
      → length buf ≤ fuel
      → Sees s v
      → (s' : State S) × (output_loop io o fuel 1 buf failed s ≡ Outcome.done tt s')
        × Sees s' (record v { out = v.out ++ buf })
  output-Yields fuel [] failed v s h now = (
    s,
    output_loop_nil fuel failed s,
    record {
      inp_is = now.inp_is;
      out_is = now.out_is ∙ sym (append-nil v.out);
      mem_is = now.mem_is;
      in_is = now.in_is;
      out_fd_is = now.out_fd_is;
    },
  )
  output-Yields zero (c ∷ buf) failed v s h now = absurd (omega (arith, h))
  output-Yields (suc fuel) (c ∷ buf) failed v s h now =
      let (k, os', p, q, e, l, t) = st.write_some (io.set_errno 0 s.os) (c ∷ buf) (omega arith) in
      let (kl, kt) = st.errno_keeps 0 s.os in
      let moved_on : Sees (record s { os = os' }) (record v { out = v.out ++ take k (c ∷ buf) }) =
        record {
          inp_is = l ∙ (kl ∙ now.inp_is);
          out_is = t ∙ ap (λ x. x ++ take k (c ∷ buf)) (kt ∙ now.out_is);
          mem_is = now.mem_is;
          in_is = now.in_is;
          out_fd_is = now.out_fd_is;
        } in
      let (s', f, now') =
        output-Yields fuel (drop k (c ∷ buf)) failed (record v { out = v.out ++ take k (c ∷ buf) })
          (record s { os = os' }) (omega (arith, h, p, length-drop k (c ∷ buf))) moved_on in
      (
        s',
        output_loop-step fuel 1 c buf failed s k os' p e ∙ f,
        subst (λ x. Sees s' (record v { out = x }))
            (append_assoc v.out (take k (c ∷ buf)) (drop k (c ∷ buf))
              ∙ ap (λ x. v.out ++ x) (take-append-drop k (c ∷ buf)))
            now',
      )

  pub outputs-Yields :
      (text : List ℕ) (v : View)
      → Yields io o blk st (outputs io o text) v tt (record v { out = v.out ++ text })
  unfolding outputs output_fd
  outputs-Yields text v = record {
    from = λ s now.
        let failed : ℕ → Run S Unit =
          λ fd. if fd == 2 then ouch io o else fatal io o (codes "cannot write output file") in
        let (s', e, now') = output-Yields (length text) text (failed 1) v s (omega arith) now in
        (
          s',
          ap (λ fd. output_loop io o (length text) fd text (failed fd) s) now.out_fd_is ∙ e,
          now',
        );
  }
