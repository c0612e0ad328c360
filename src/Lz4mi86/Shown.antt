-- ===== src/Lz4mi86/Shown.antt =====
-- The C module that lz4mi86.c prints.
use libi.Base.{
  ℕ, ◌+◌, ◌*◌, ◌%◌, ◌^◌, ◌<◌, ◌≡◌, ◌∙◌, refl, sym, ap, Bool, true, false, none, List, [], ◌∷◌, ◌++◌,
  arith,
}
use libi.Base.{length, append-nil, append_assoc, if◌then◌else◌}
use mathlib.Core.Path.{subst}
use libi.Memory.{Far}
use libi.Lz4mi86.{Io, Options, Run, ◌>>◌, return, codes}
use libi.Lz4mi86.Files.{outputs, outputu, decimal}
use libi.Memory.{at}
use libi.Lz4.Held.{Held}
use libi.Lz4mi86.Streams.{Streams, View, Now, Yields, Yields-then}
use libi.Lz4mi86.Sent.{outputs-Yields}
use libi.Lz4mi86.Main.{output_bytes, output_module, far_word}
use libi.Lz4mi86.Frame.{rows, far_text, module_text}

-- The options of a filter.
abbrev pub filter : List ℕ → List ℕ → Bool → List ℕ → Options
filter me symbol is_far file = record {
  me = me;
  in_path = none;
  out_path = none;
  symbol = symbol;
  is_far = is_far;
  file = file;
}

joined_module :
    (out a f s b d e g r z : List ℕ)
    → ((((((((((out ++ a) ++ f) ++ s) ++ b) ++ d) ++ e) ++ f) ++ s) ++ g) ++ r) ++ z
      ≡ out ++ (a ++ (f ++ (s ++ (b ++ (d ++ (e ++ (f ++ (s ++ (g ++ (r ++ z))))))))))
joined_module out a f s b d e g r z = simp append_assoc refl

joined_row : (out a b c r : List ℕ) → (((out ++ a) ++ b) ++ c) ++ r ≡ out ++ (a ++ (b ++ (c ++ r)))
joined_row out a b c r = simp append_assoc refl

module _ {S : Type 0} (io : Io S) (blk : Far) (st : Streams io blk) (me symbol : List ℕ)
    (is_far : Bool) (file : List ℕ) where
  abbrev o : Options
  o = filter me symbol is_far file

  abbrev shows :
      (text : List ℕ) (v : View)
      → Yields io o blk st (outputs io o text) v tt (record v { out = v.out ++ text })
  shows = outputs-Yields io o blk st

  outputu-Yields :
      (u : ℕ) (v : View)
      → Yields io o blk st (outputu io o u) v tt (record v { out = v.out ++ decimal 6 u [] })
  unfolding outputu
  outputu-Yields u v = shows (decimal 6 u []) v

  far_word-Yields :
      (v : View)
      → Yields io o blk st (far_word io o) v tt (record v { out = v.out ++ far_text is_far })
  unfolding far_word
  far_word-Yields v = go is_far
    where
      go :
          (b : Bool)
          → Yields io o blk st
              (if b then outputs io o (codes "__far ") else return tt)
              v
              tt
              (record v { out = v.out ++ far_text b })
      go true = outputs-Yields io o blk st (codes "__far ") v
      go false = record {
        from = λ s now. (
          s,
          refl,
          record {
            inp_is = now.inp_is;
            out_is = now.out_is ∙ sym (append-nil v.out);
            mem_is = now.mem_is;
            in_is = now.in_is;
            out_fd_is = now.out_fd_is;
          },
        );
      }

  output_bytes-Yields :
      (bs : List ℕ) (p : Far) (v : View)
      → p.off + length bs < 2 ^ 16
      → Held v.mem (p.seg * 16 + p.off) bs
      → Yields io o blk st
          (output_bytes io o (length bs) p)
          v
          tt
          (record v { out = v.out ++ rows bs })
  unfolding output_bytes rows at
  output_bytes-Yields [] p v h held = record {
    from = λ s now. (
      s,
      refl,
      record {
        inp_is = now.inp_is;
        out_is = now.out_is ∙ sym (append-nil v.out);
        mem_is = now.mem_is;
        in_is = now.in_is;
        out_fd_is = now.out_fd_is;
      },
    );
  }
  output_bytes-Yields (b ∷ bs) p v h (e, held) = record {
    from = λ s now.
        let p' : Far = record { seg = p.seg; off = (p.off + 1) % 2 ^ 16 } in
        let v3 : View = record v {
          out = ((v.out ++ codes "      ") ++ decimal 6 b []) ++ codes ",\r\n";
        } in
        let chain : ℕ → Run S Unit = λ c.
          outputs io o (codes "      ")
          >> (outputu io o c
              >> (outputs io o (codes ",\r\n") >> output_bytes io o (length bs) p')) in
        let next : p.off + 1 ≡ (p.off + 1) % 2 ^ 16 = omega (arith, h) in
        let place : p.seg * 16 + (p.off + 0) % 2 ^ 16 ≡ p.seg * 16 + p.off = omega (arith, h) in
        let held' : Held v.mem (p.seg * 16 + (p.off + 1) % 2 ^ 16) bs =
          subst (λ a. Held v.mem a bs) (omega (arith, next)) held in
        let byte : s.mem (p.seg * 16 + (p.off + 0) % 2 ^ 16) ≡ b =
          ap (λ m. m (p.seg * 16 + (p.off + 0) % 2 ^ 16)) now.mem_is ∙ (ap v.mem place ∙ e) in
        let rest = output_bytes-Yields bs p' v3 (omega (arith, h, next)) held' in
        let run : Yields io o blk st (chain b) v tt (record v3 { out = v3.out ++ rows bs }) =
          Yields-then io o blk st (shows (codes "      ") v) (
            Yields-then io o blk st (outputu-Yields b (record v { out = v.out ++ codes "      " }))
              (Yields-then io o blk st
                (shows (codes ",\r\n")
                  (record v { out = (v.out ++ codes "      ") ++ decimal 6 b [] }))
                rest)) in
        let (s', f, now') = run.from s now in
        (
          s',
          ap (λ c. chain c s) byte ∙ f,
          subst (λ t. Now io o blk st s' (record v { out = t }))
              (joined_row v.out (codes "      ") (decimal 6 b []) (codes ",\r\n") (rows bs)) now',
        );
  }

  Yields-out :
      {A : Type 0} {m : Run S A} {v : View} {a : A} (w : View) {x y : List ℕ}
      → x ≡ y
      → Yields io o blk st m v a (record w { out = x })
      → Yields io o blk st m v a (record w { out = y })
  Yields-out {m = m} {v = v} {a = a} w e h =
      subst (λ t. Yields io o blk st m v a (record w { out = t })) e h

  -- The module, for any texts between its parts.
  module-Yields :
      (a b e g z : List ℕ) (n : ℕ) (block : List ℕ) (v : View)
      → blk.off + length block < 2 ^ 16
      → Held v.mem (blk.seg * 16 + blk.off) block
      → Yields io o blk st
          (outputs io o a
            >> (far_word io o
                >> (outputs io o symbol
                    >> (outputs io o b
                        >> (outputu io o n
                            >> (outputs io o e
                                >> (far_word io o
                                    >> (outputs io o symbol
                                        >> (outputs io o g
                                            >> (output_bytes io o (length block) blk
                                                >> outputs io o z))))))))))
          v
          tt
          (record v {
            out =
                v.out
                ++ (a
                    ++ (far_text is_far
                        ++ (symbol
                            ++ (b
                                ++ (decimal 6 n []
                                    ++ (e
                                        ++ (far_text is_far
                                            ++ (symbol ++ (g ++ (rows block ++ z))))))))));
          })
  module-Yields a b e g z n block v h held =
      let f = far_text is_far in
      let d = decimal 6 n [] in
      let v1 : View = record v { out = v.out ++ a } in
      let v2 : View = record v { out = v1.out ++ f } in
      let v3 : View = record v { out = v2.out ++ symbol } in
      let v4 : View = record v { out = v3.out ++ b } in
      let v5 : View = record v { out = v4.out ++ d } in
      let v6 : View = record v { out = v5.out ++ e } in
      let v7 : View = record v { out = v6.out ++ f } in
      let v8 : View = record v { out = v7.out ++ symbol } in
      let v9 : View = record v { out = v8.out ++ g } in
      let v10 : View = record v { out = v9.out ++ rows block } in
      Yields-out v (joined_module v.out a f symbol b d e g (rows block) z) (
        Yields-then io o blk st (shows a v) (
          Yields-then io o blk st (far_word-Yields v1) (
            Yields-then io o blk st (shows symbol v2) (
              Yields-then io o blk st (shows b v3) (
                Yields-then io o blk st (outputu-Yields n v4) (
                  Yields-then io o blk st (shows e v5) (
                    Yields-then io o blk st (far_word-Yields v6) (
                      Yields-then io o blk st (shows symbol v7) (
                        Yields-then io o blk st (shows g v8) (
                          Yields-then io o blk st (output_bytes-Yields block blk v9 h held)
                            (shows z v10)))))))))))

  pub output_module-Yields :
      (n : ℕ) (block : List ℕ) (v : View)
      → blk.off + length block < 2 ^ 16
      → Held v.mem (blk.seg * 16 + blk.off) block
      → Yields io o blk st
          (output_module io o n blk (length block))
          v
          tt
          (record v { out = v.out ++ module_text file symbol is_far n block })
  unfolding output_module module_text
  output_module-Yields n block v h held =
      module-Yields
        (codes "/* Automatically generated by " ++ (file ++ codes ". */\r\nunsigned char "))
        (codes "[") (codes "];\r\nunsigned char ") (codes "_lz4[]\r\n  = {\r\n")
        (codes "    };\r\n") n block v h held
