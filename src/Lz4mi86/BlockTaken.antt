-- ===== src/Lz4mi86/BlockTaken.antt =====
-- What `main` of lz4mi86.c takes of the block of a frame, and where it puts it.
use libi.Base.{ℕ, ◌^◌, ◌<◌, ◌≡◌, refl, sym, ap, Bool, some, List, ◌++◌, arith}
use libi.Base.{length}
use mathlib.Core.Path.{subst}
use libi.Memory.{Far}
use libi.Lz4mi86.{Io, Options, Outcome, Run, ◌>>◌, return, call}
use libi.Lz4mi86.Files.{far_input, fmemcpy}
use libi.Lz4mi86.Streams.{Streams, View, Yields, Now-call, Yields-bind, Yields-then, Yields-return}
use libi.Lz4mi86.Taken.{input-Yields}
use libi.Lz4mi86.FarTaken.{far_input-Yields}
use libi.Lz4mi86.Shown.{filter}
use libi.Lz4mi86.Frame.{bytes32}
use libi.Lz4mi86.Main.{fatal_or, take_block, read_block}
use libi.Lz4mi86.Fields.{leh32-bytes32}
use libi.Lz4mi86.Received.{fatal_if-Yields}

module _ {S : Type 0} (io : Io S) (blk : Far) (st : Streams io blk) (me symbol : List ℕ)
    (is_far : Bool) (file : List ℕ) where
  abbrev o : Options
  o = filter me symbol is_far file

  abbrev Gives : {A : Type 0} → Run S A → View → A → View → Type 0
  Gives m v a w = Yields io o blk st m v a w

  fmalloc-Yields : (n : ℕ) (v : View) → n < 2 ^ 16 → Gives (call (io.fmalloc n)) v (some blk) v
  fmalloc-Yields n v h = record {
    from = λ s now.
        let (os', e, l, t) = st.fmalloc_ok n s.os h in
        (
          record s { os = os' },
          ap (λ r. Outcome.done r.0 (record s { os = r.1 })) e,
          Now-call io o blk st s v os' l t now,
        );
  }

  take_block-Yields :
      (block more : List ℕ) (v : View)
      → 0 < length block
      → length block < 2 ^ 16
      → blk.off < 2 ^ 16
      → v.inp ≡ block ++ more
      → Gives
          (take_block io o (length block))
          v
          (blk, length block)
          (record v { inp = more; mem = fmemcpy blk block v.mem })
  unfolding take_block fatal_or
  take_block-Yields block more v h l b e =
      let n = length block in
      Yields-then io o blk st
        (fatal_if-Yields io blk st me symbol is_far file _ "LZ4 uncompressed block unsupported" v
          (ground (arith, l)))
        (Yields-then io o blk st
          (fatal_if-Yields io blk st me symbol is_far file _ "unexpected LZ4 end mark" v
            (ground (arith, h)))
          (Yields-then io o blk st
            (fatal_if-Yields io blk st me symbol is_far file _ "LZ4 input too large" v
              (ground (arith, l)))
            (Yields-bind io o blk st
              (λ blk'.
                fatal_or io o blk' "cannot get memory for LZ4 input"
                  (λ p. far_input io o n p n >> return (p, n)))
              (fmalloc-Yields n v l)
              (Yields-then io o blk st (far_input-Yields io o blk st blk n block more v b refl e)
                (Yields-return io o blk st (blk, n) _)))))

  pub read_block-Yields :
      (block more : List ℕ) (v : View)
      → 0 < length block
      → length block < 2 ^ 16
      → blk.off < 2 ^ 16
      → v.inp ≡ bytes32 (length block) ++ (block ++ more)
      → Gives
          (read_block io o)
          v
          (blk, length block)
          (record v { inp = more; mem = fmemcpy blk block v.mem })
  unfolding read_block
  read_block-Yields block more v h l b e =
      let n = length block in
      Yields-bind io o blk st _ (input-Yields io o blk st 4 (bytes32 n) (block ++ more) v refl e) (
        subst
          (λ k.
            Gives (take_block io o k) (record v { inp = block ++ more }) (blk, n)
              (record v { inp = more; mem = fmemcpy blk block v.mem }))
          (sym (leh32-bytes32 n l))
          (take_block-Yields block more (record v { inp = block ++ more }) h l b refl))
