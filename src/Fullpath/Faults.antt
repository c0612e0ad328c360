-- ===== src/Fullpath/Faults.antt =====
-- Where `_fullpath` for ACK goes wrong.
use libi.Base.{
  ℕ, suc, ◌≤◌, ◌<◌, ◌≡◌, sym, ap, ◌∙◌, Bool, true, false, none, some, List, [], ◌∷◌, arith,
}
use libi.Base.{length, ltb, leb, ◌==◌, if◌then◌else◌, ltb_of_le}
use libi.Path.Chars.{max_path, path_sep_p}
use libi.Fullpath.{
  ok, err, ◌>>=◌, Dos, Buffer, loop, end_text, ack_fullpath, start_dir, letter, root, too_long,
  dos_error,
}

-- A buffer of two or three bytes is written past its end: the root of the current drive has three
-- and a NUL.
pub ack_fullpath_overflows :
    (dos : Dos) (size drive s : ℕ)
    → 2 ≤ size
    → size ≤ 3
    → dos.getdrive ≡ suc drive
    → path_sep_p s ≡ true
    → (text : List ℕ) × (ack_fullpath dos false size (some (s ∷ [])) ≡ ok text)
      × (size ≤ length text)
unfolding ack_fullpath
ack_fullpath_overflows dos size drive s h k hd hs =
    let n = if ltb max_path size then max_path else size in
    let not_zero : (dos.getdrive == 0) ≡ false = ground (arith, hd) in
    let far : Buffer × List ℕ = (start_dir dos dos.getdrive n, s ∷ []) in
    let nowhere : Buffer × List ℕ = (record { text = []; starts = [] }, s ∷ []) in
    let at_root : Buffer × List ℕ = (root dos.getdrive, []) in
    let run = λ (begun : Buffer × List ℕ).
      loop dos n (length begun.1) begun.1 begun.0 >>= λ buf. ok (end_text buf.text) in
    let in_root = λ (b : Bool). if b then at_root else far in
    let begun = λ (b : Bool). if b then nowhere else in_root (path_sep_p s) in
    (
      letter dos.getdrive ∷ b':' ∷ 0x5c ∷ [],
      ap (λ b. if b then err too_long else run (begun (dos.getdrive == 0))) (ltb_of_le size 2 h)
          ∙ (ap (λ b. run (begun b)) not_zero ∙ ap (λ b. run (in_root b)) hs),
      omega (arith, k),
    )

-- With a buffer shorter than `_MAX_PATH`, the result for a network path does not depend on the path.
pub ack_fullpath_ignores :
    (dos : Dos) (size : ℕ) (p q : List ℕ)
    → size < max_path
    → ack_fullpath dos false size (some (0x5c ∷ 0x5c ∷ p))
      ≡ ack_fullpath dos false size (some (0x5c ∷ 0x5c ∷ q))
unfolding ack_fullpath
ack_fullpath_ignores dos size p q h =
    let n = if ltb max_path size then max_path else size in
    let short : leb max_path n ≡ false = ground (arith, h) in
    let named = λ (path : List ℕ) (b : Bool).
      if ltb size 2
      then err too_long
      else if b
      then elim (dos.do_truename path) [ none ↦ err dos_error | some full ↦ ok full ]
      else elim (dos.do_truename dos.unwritten) [
        | none ↦ err dos_error
        | some full ↦ if ltb n (length dos.unwritten) then err too_long else ok dos.unwritten
      ] in
    ap (named (0x5c ∷ 0x5c ∷ p)) short ∙ sym (ap (named (0x5c ∷ 0x5c ∷ q)) short)
