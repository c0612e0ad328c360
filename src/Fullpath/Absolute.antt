-- ===== src/Fullpath/Absolute.antt =====
-- What `_fullpath` gives for a path from the root of a drive.
use libi.Base.{
  ℕ, suc, ◌≤◌, ◌≡◌, sym, ap, ◌∙◌, Bool, true, false, Option, some, List, [], ◌∷◌, arith,
}
use libi.Base.{length, ltb, if◌then◌else◌, ◌==◌, ltb_of_le}
use libi.Path.Chars.{max_path, path_sep_p}
use libi.Fullpath.{
  Result, ok, err, ◌>>=◌, Dos, letter, root, start_text, loop, end_text, drive_of, is_network,
  make_full, ack_fullpath, Buffer, start_dir, truename, too_long,
}
use libi.Fullpath.Stack.{Place, text_of, buffer_of, >>=_assoc}
use libi.Fullpath.Visit.{visit}
use libi.Fullpath.Walk.{single_byte, ReadsNames, loop-visit}

-- The root of a drive.
abbrev pub top_of : ℕ → Place
top_of drive = record { top = letter drive ∷ b':' ∷ 0x5c ∷ []; segs = [] }

module _ (dos : Dos) (seg : List ℕ → Option (List ℕ)) (reads : ReadsNames dos seg) where
  abbrev pub visited : ℕ → ℕ → List ℕ → Result (List ℕ)
  visited size drive p =
      visit size seg (top_of drive) [] p >>= λ w. ok (end_text (text_of w.top w.segs))

  start_text-root :
      (drive size s : ℕ) (p : List ℕ)
      → path_sep_p s ≡ true
      → start_text (single_byte dos) (suc drive) size (s ∷ p) ≡ (buffer_of (top_of (suc drive)), p)
  unfolding start_text
  start_text-root drive size s p e =
      let not_zero : (suc drive == 0) ≡ false = ground arith in
      let begun = λ (b : Bool).
        if b
        then (root (suc drive), p)
        else (start_dir (single_byte dos) (suc drive) size, s ∷ p) in
      ap (λ b. if b then (record { text = []; starts = [] }, s ∷ p) else begun (path_sep_p s))
        not_zero
      ∙ ap begun e

  make_full-visit :
      (size drive s : ℕ) (path p : List ℕ)
      → is_network path ≡ false
      → drive_of (single_byte dos) path ≡ ok (suc drive, s ∷ p)
      → path_sep_p s ≡ true
      → make_full (single_byte dos) size path ≡ visited size (suc drive) p
  unfolding make_full
  make_full-visit size drive s path p hn hd hs =
      let run = λ (begun : Buffer × List ℕ).
        loop (single_byte dos) size (length begun.1) begun.1 begun.0 >>= λ buf.
        ok (end_text buf.text) in
      let behind =
        λ (r : Result (ℕ × List ℕ)). r >>= λ d. run (start_text (single_byte dos) d.0 size d.1) in
      ap
        (λ b.
          if b
          then truename (single_byte dos) path size
          else behind (drive_of (single_byte dos) path))
        hn
      ∙ (ap behind hd
          ∙ (ap run (start_text-root drive size s p hs)
              ∙ (ap (λ r. r >>= λ buf. ok (end_text buf.text))
                    (loop-visit dos seg reads size (length p) p (top_of (suc drive)) (omega arith))
                  ∙ sym (
                      >>=_assoc (visit size seg (top_of (suc drive)) [] p) (λ w. ok (buffer_of w))
                        (λ buf. ok (end_text buf.text))))))

  pub ack_fullpath-visit :
      (size drive s c : ℕ) (path p : List ℕ)
      → 2 ≤ size
      → size ≤ 144
      → is_network (c ∷ path) ≡ false
      → drive_of (single_byte dos) (c ∷ path) ≡ ok (suc drive, s ∷ p)
      → path_sep_p s ≡ true
      → ack_fullpath (single_byte dos) false size (some (c ∷ path)) ≡ visited size (suc drive) p
  unfolding ack_fullpath
  ack_fullpath-visit size drive s c path p h2 hm hn hd hs =
      let done = λ (n : ℕ). make_full (single_byte dos) n (c ∷ path) in
      ap (λ b. if b then err too_long else done (if ltb max_path size then max_path else size))
        (ltb_of_le size 2 h2)
      ∙ (ap (λ b. done (if b then max_path else size)) (ltb_of_le max_path size hm)
          ∙ make_full-visit size drive s (c ∷ path) p hn hd hs)
