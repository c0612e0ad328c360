-- ===== src/Fullpath/Bounds.antt =====
-- How much `_fullpath` writes.
use libi.Base.{
  ℕ, ◌-◌, ◌≤◌, ◌<◌, ◌≡◌, Bool, true, false, Option, some, List, [], ◌∷◌, arith, inl, inr,
}
use libi.Base.{
  length, take, ltb, leb, ◌==◌, if◌then◌else◌, if_holds, length-append, length-take, Option-cases,
}
use libi.Path.Chars.{max_path, path_sep_p}
use libi.Fullpath.{
  Result, ok, err, ◌>>=◌, Dos, Buffer, loop, end_text, make_full, ack_fullpath, is_network, or_dot,
  drive_of, start_text, start_dir, getdcwd, getdcwd_maxpath, dir_starts, close_dir, out_of_range,
  opened,
}
use libi.Fullpath.Copies.{Within, Holds, loop-Holds}

module _ (dos : Dos) where
  -- DOS keeps a current directory of at most 64 bytes for each drive.
  abbrev pub ShortDirs : Type 0
  ShortDirs = (drive : ℕ) (dir : List ℕ) → dos.do_getdcwd drive ≡ some dir → length dir ≤ 64

  getdcwd_maxpath-Within : (drive : ℕ) → ShortDirs → Within 67 (getdcwd_maxpath dos drive)
  unfolding getdcwd_maxpath
  getdcwd_maxpath-Within drive hd = elim (Option-cases (dos.do_getdcwd drive)) [
    | inl e ↦ rw (e, Within) tt
    | inr (dir, e) ↦ rw (e, Within) (omega (arith, hd drive dir e))
  ]

  sized-Within :
      (size : ℕ) (r : Result (List ℕ))
      → 4 ≤ size
      → Within 67 r
      → Within (size - 1) (
          r >>= λ dir.
          if leb max_path size
          then ok dir
          else if leb size (length dir)
          then err out_of_range
          else ok dir)
  sized-Within size (ok dir) h k =
      if_holds (Within (size - 1)) (leb max_path size) _ _ (λ e. ground (arith, e, k))
        (λ e.
          if_holds (Within (size - 1)) (leb size (length dir)) _ _ (λ e'. tt)
            (λ e'. ground (arith, e', h)))
  sized-Within size (err e) h k = tt

  getdcwd-Within :
      (drive size : ℕ) → ShortDirs → 4 ≤ size → Within (size - 1) (getdcwd dos drive (some size))
  unfolding getdcwd
  getdcwd-Within drive size hd h =
      sized-Within size (getdcwd_maxpath dos drive) h (getdcwd_maxpath-Within drive hd)

  close_dir-Holds :
      (size : ℕ) (starts dir : List ℕ)
      → 1 ≤ size
      → length dir ≤ size - 1
      → length (close_dir dos starts dir).text ≤ size
  unfolding close_dir
  close_dir-Holds size [] dir h k = omega (arith, h, k, length-append dir (0x5c ∷ []))
  close_dir-Holds size (s ∷ starts) dir h k =
      if_holds (λ w. length (Buffer.text w) ≤ size) (s == length dir) _ _ (λ e. omega (arith, h, k))
        (λ e. omega (arith, h, k, length-append dir (0x5c ∷ [])))

  opened-Holds :
      (drive size : ℕ) (r : Result (List ℕ))
      → 4 ≤ size
      → Within (size - 1) r
      → length (opened dos drive r).text ≤ size
  unfolding opened
  opened-Holds drive size (ok dir) h k =
      close_dir-Holds size (dir_starts dos 0 [] dir) dir (omega (arith, h)) k
  opened-Holds drive size (err e) h k = omega (arith, h)

  start_dir-Holds :
      (drive size : ℕ) → ShortDirs → 4 ≤ size → length (start_dir dos drive size).text ≤ size
  unfolding start_dir
  start_dir-Holds drive size hd h =
      opened-Holds drive size (getdcwd dos drive (some size)) h (getdcwd-Within drive size hd h)

  start_text-Holds :
      (drive size : ℕ) (path : List ℕ)
      → ShortDirs
      → 4 ≤ size
      → length (start_text dos drive size path).0.text ≤ size
  unfolding start_text
  start_text-Holds drive size [] hd h =
      if_holds (λ (r : Buffer × List ℕ). length (Buffer.text r.0) ≤ size) (drive == 0) _ _
        (λ e. omega arith) (λ e. start_dir-Holds drive size hd h)
  start_text-Holds drive size (c ∷ path) hd h =
      let P = λ (r : Buffer × List ℕ). length (Buffer.text r.0) ≤ size in
      if_holds P (drive == 0) _ _ (λ e. omega arith)
        (λ e.
          if_holds P (path_sep_p c) _ _ (λ e'. omega (arith, h))
            (λ e'. start_dir-Holds drive size hd h))

  end_text_lem :
      (size : ℕ) (text : List ℕ) → 4 ≤ size → length text ≤ size → length (end_text text) < size
  unfolding end_text
  end_text_lem size text h k =
      if_holds (λ t. length t < size) (ltb 3 (length text)) (take (length text - 1) text) text
        (λ e. ground (arith, e, k, length-take (length text - 1) text)) (λ e. ground (arith, e, h))

  -- The text of a result is shorter than a size.
  abbrev pub Short : ℕ → Result (List ℕ) → Type 0
  Short size (ok text) = length text < size
  Short size (err e) = Unit

  Short-mono : (m n : ℕ) (r : Result (List ℕ)) → m ≤ n → Short m r → Short n r
  Short-mono m n (ok text) h k = omega (arith, h, k)
  Short-mono m n (err e) h k = tt

  end_text-Short :
      (size : ℕ) (r : Result Buffer)
      → 4 ≤ size
      → Holds size r
      → Short size (r >>= λ buf. ok (end_text buf.text))
  end_text-Short size (ok buf) h k = end_text_lem size buf.text h k
  end_text-Short size (err e) h k = tt

  started-Short :
      (size : ℕ) (r : Result (ℕ × List ℕ))
      → ShortDirs
      → 4 ≤ size
      → Short size (do
        (drive, rest) ← r
        let begun = start_text dos drive size rest
        buf ← loop dos size (length begun.1) begun.1 begun.0
        ok (end_text buf.text))
  started-Short size (ok (drive, rest)) hd h =
      let begun = start_text dos drive size rest in
      end_text-Short size (loop dos size (length begun.1) begun.1 begun.0) h (
        loop-Holds dos size (length begun.1) begun.1 begun.0
          (start_text-Holds drive size rest hd h))
  started-Short size (err e) hd h = tt

  make_full-Short :
      (size : ℕ) (path : List ℕ)
      → ShortDirs
      → 4 ≤ size
      → is_network path ≡ false
      → Short size (make_full dos size path)
  unfolding make_full
  make_full-Short size path hd h hn =
      if_holds (Short size) (is_network path) _ _ (λ e. absurd (ground (arith, e, hn)))
        (λ e. started-Short size (drive_of dos path) hd h)

  -- Where DOS keeps a current directory of at most 64 bytes for each drive, and the size is at
  -- least four, what `_fullpath` returns for any path that is no network path fits the buffer with
  -- its NUL.
  pub ack_fullpath-Short :
      (allocate : Bool) (size : ℕ) (path : Option (List ℕ))
      → ShortDirs
      → 4 ≤ size
      → is_network (or_dot path) ≡ false
      → Short (if allocate then max_path else size) (ack_fullpath dos allocate size path)
  unfolding ack_fullpath
  ack_fullpath-Short true size path hd h hn =
      if_holds (Short max_path) (ltb size 2) _ _ (λ e. tt)
        (λ e.
          if_holds (Short max_path) dos.memory _ _
            (λ e'. make_full-Short max_path (or_dot path) hd (omega arith) hn) (λ e'. tt))
  ack_fullpath-Short false size path hd h hn =
      let n = if ltb max_path size then max_path else size in
      if_holds (Short size) (ltb size 2) _ _ (λ e. tt)
        (λ e.
          Short-mono n size (make_full dos n (or_dot path)) (ground arith)
            (make_full-Short n (or_dot path) hd (ground (arith, h)) hn))
