-- ===== src/Lz4mi86/Received.antt =====
-- What `main` of lz4mi86.c takes from a frame, part by part.
use libi.Base.{
  ℕ, ◌^◌, ◌<◌, ◌≡◌, refl, sym, ap, Bool, true, false, not, Option, List, [], ◌∷◌, ◌++◌, arith,
}
use libi.Base.{length, ltb, ◌==◌, if◌then◌else◌}
use Prim.Native.String.{String}
use mathlib.Core.Path.{subst}
use libi.Memory.{Far}
use libi.Lz4mi86.{Io, Options, Outcome, Run, ◌>>=◌, ◌>>◌, return, codes}
use libi.Lz4mi86.Files.{fatal, input}
use libi.Endian.{leh32, leh64}
use libi.Lz4mi86.Streams.{
  Streams, View, Yields, Now-call, Now-inp, Yields-bind, Yields-then, Yields-return,
}
use libi.Lz4mi86.Taken.{input-Yields}
use libi.Lz4mi86.Shown.{filter}
use libi.Lz4mi86.Frame.{bytes32, bytes64, cksum_field}
use libi.Lz4mi86.Main.{
  fatal_or, fatal_if, open_input, read_xlen, read_header, read_end, open_output,
}
use libi.Lz4mi86.Header.{le32, le64, version_ok, features_ok, has_xlen, has_bcksum}
use libi.Lz4mi86.Fields.{leh64-bytes64}

module _ {S : Type 0} (io : Io S) (blk : Far) (st : Streams io blk) (me symbol : List ℕ)
    (is_far : Bool) (file : List ℕ) where
  abbrev o : Options
  o = filter me symbol is_far file

  abbrev Gives : {A : Type 0} → Run S A → View → A → View → Type 0
  Gives m v a w = Yields io o blk st m v a w

  pub fatal_if-Yields :
      (test : Bool) (msg : String) (v : View) → test ≡ false → Gives (fatal_if io o test msg) v tt v
  unfolding fatal_if
  fatal_if-Yields test msg v h = record {
    from = λ s now. (s, ap (λ b. (if b then fatal io o (codes msg) else return tt) s) h, now);
  }

  pub open_input-Yields : (v : View) → Gives (open_input io o) v tt v
  unfolding open_input fatal_or
  open_input-Yields v = record {
    from = λ s now.
        let (m, os', e, l, t) = st.binmode_ok s.in_fd s.os in
        let next : Option ℕ × S → Outcome S Unit = λ r.
          fatal_or io o r.0 "cannot open input file in binary mode" (λ m'. return tt)
            (record s { os = r.1 }) in
        (record s { os = os' }, ap next e, Now-call io o blk st s v os' l t now);
  }

  pub open_output-Yields : (v : View) → Gives (open_output io o) v tt v
  unfolding open_output fatal_or
  open_output-Yields v = record {
    from = λ s now.
        let (m, os', e, l, t) = st.binmode_ok s.out_fd s.os in
        let next : Option ℕ × S → Outcome S Unit = λ r.
          fatal_or io o r.0 "cannot open output file in binary mode" (λ m'. return tt)
            (record s { os = r.1 }) in
        (record s { os = os' }, ap next e, Now-call io o blk st s v os' l t now);
  }

  read_xlen-Yields :
      (flg n : ℕ) (more : List ℕ) (v : View)
      → n < 2 ^ 16
      → v.inp ≡ (if has_xlen flg then bytes64 n else []) ++ more
      → Gives (read_xlen io o flg) v (if has_xlen flg then n else 0) (record v { inp = more })
  unfolding read_xlen
  read_xlen-Yields flg n more v h e = go (has_xlen flg) e
    where
      field : ℕ → Run S ℕ
      field k = fatal_if io o (ltb 0xffff k) "LZ4 input too large" >> return k

      known : Gives (field n) (record v { inp = more }) n (record v { inp = more })
      known =
          Yields-then io o blk st
            (fatal_if-Yields _ "LZ4 input too large" (record v { inp = more }) (ground (arith, h)))
            (Yields-return io o blk st n (record v { inp = more }))

      go :
          (b : Bool)
          → v.inp ≡ (if b then bytes64 n else []) ++ more
          → Gives
              (if b then (input io o 8 8 >>= λ xlen. field (leh64 (le64 xlen))) else return 0)
              v
              (if b then n else 0)
              (record v { inp = more })
      go true k =
          Yields-bind io o blk st (λ xlen. field (leh64 (le64 xlen)))
            (input-Yields io o blk st 8 (bytes64 n) more v refl k)
            (subst (λ j. Gives (field j) (record v { inp = more }) n (record v { inp = more }))
              (sym (leh64-bytes64 n h)) known)
      go false k = record { from = λ s now. (s, refl, Now-inp io o blk st s v _ k now) }

  pub read_header-Yields :
      (flg bd hc n : ℕ) (more : List ℕ) (v : View)
      → n < 2 ^ 16
      → version_ok flg ≡ true
      → features_ok flg bd ≡ true
      → v.inp
        ≡ (4 ∷ 0x22 ∷ 0x4d ∷ 0x18 ∷ flg ∷ bd ∷ [])
          ++ ((if has_xlen flg then bytes64 n else []) ++ ((hc ∷ []) ++ more))
      → Gives (read_header io o) v (flg, (if has_xlen flg then n else 0)) (record v { inp = more })
  unfolding read_header le32 leh32
  read_header-Yields flg bd hc n more v h k l e =
      let v1 : View = record v {
        inp = (if has_xlen flg then bytes64 n else []) ++ ((hc ∷ []) ++ more);
      } in
      let v2 : View = record v { inp = (hc ∷ []) ++ more } in
      Yields-bind io o blk st _
        (input-Yields io o blk st 6 (4 ∷ 0x22 ∷ 0x4d ∷ 0x18 ∷ flg ∷ bd ∷ []) v1.inp v refl e)
        (Yields-then io o blk st (fatal_if-Yields _ "input is not LZ4" v1 refl) (
          Yields-then io o blk st (fatal_if-Yields _ "bad LZ4 version number" v1 (ap not k)) (
            Yields-then io o blk st
              (fatal_if-Yields _ "LZ4 input uses unsupported feature" v1 (ap not l))
              (Yields-bind io o blk st (λ xlen. input io o 1 1 >> return (flg, xlen))
                (read_xlen-Yields flg n ((hc ∷ []) ++ more) v1 h refl)
                (Yields-then io o blk st (input-Yields io o blk st 1 (hc ∷ []) more v2 refl refl) (
                  Yields-return io o blk st (flg, (if has_xlen flg then n else 0))
                    (record v { inp = more })))))))

  pub read_end-Yields :
      (flg : ℕ) (sum more : List ℕ) (v : View)
      → length sum ≡ 4
      → v.inp ≡ cksum_field flg sum ++ (bytes32 0 ++ more)
      → Gives (read_end io o flg) v tt (record v { inp = more })
  unfolding read_end le32 leh32
  read_end-Yields flg sum more v h e = go (has_bcksum flg) e
    where
      rest : Run S Unit
      rest = input io o 4 4 >>= λ size.
          (fatal_if io o (not (leh32 (le32 size) == 0)) "multiple LZ4 blocks unsupported"
            >> return tt)

      known : Gives rest (record v { inp = bytes32 0 ++ more }) tt (record v { inp = more })
      known =
          Yields-bind io o blk st _
            (input-Yields io o blk st 4 (bytes32 0) more (record v { inp = bytes32 0 ++ more }) refl
              refl)
            (Yields-then io o blk st
              (fatal_if-Yields _ "multiple LZ4 blocks unsupported" (record v { inp = more }) refl)
              (Yields-return io o blk st tt (record v { inp = more })))

      go :
          (b : Bool)
          → v.inp ≡ (if b then sum else []) ++ (bytes32 0 ++ more)
          → Gives
              ((if b then input io o 4 4 else return []) >>= λ x. rest)
              v
              tt
              (record v { inp = more })
      go true k =
          Yields-bind io o blk st (λ x. rest)
            (input-Yields io o blk st 4 sum (bytes32 0 ++ more) v h k) known
      go false k =
          Yields-bind io o blk st {A = List ℕ} (λ x. rest) {a = []}
            (record { from = λ s now. (s, refl, Now-inp io o blk st s v _ k now) }) known
