-- ===== src/Fullpath.antt =====
-- host-ack/stdlib/fullpath.c: `_fullpath` for ACK, which makes a path absolute component by
-- component, and common/direct/getdcwd.c, which it calls, with getcwd.c. The DOS calls are
-- parameters.
pub mod Stack
pub mod Visit
pub mod Walk
pub mod Absolute
pub mod Copies
pub mod Bounds
pub mod Faults
pub mod Examples
use libi.Base.{
  ℕ, zero, suc, ◌+◌, ◌-◌, Bool, true, false, ◌&&◌, ◌||◌, not, Option, none, some, List, [], ◌∷◌,
  ◌++◌, ◌%◌, str_eq,
}
use libi.Base.{length, take, drop, ltb, leb, ◌==◌, if◌then◌else◌}
use libi.Path.Chars.{max_path, LeadTable, dbcs_lead_p, path_sep_p, drive_letter_p}

-- Why there is no result: EINVAL, ENAMETOOLONG, ERANGE, what DOS says, no memory, an array that
-- was never written is read, or the fuel has run out.
pub data Fault : Type 0 where
  invalid too_long out_of_range dos_error no_memory undefined stuck : Fault

pub data Result (A : Type 0) : Type 0 where
  ok : A → Result A
  err : Fault → Result A

infixl 5 ◌>>=◌
abbrev pub ◌>>=◌ : {A B : Type 0} → Result A → (A → Result B) → Result B
ok a >>= f = f a
err e >>= f = err e

-- `struct _fcb` behind a call of `_parsfnm`, which has read `used` bytes.
pub record Fcb : Type 0 where
  pub used : ℕ
  pub drive : ℕ
  pub name : List ℕ
  pub ext : List ℕ

-- What DOS gives: the table of lead bytes, `_getdrive`, the current directory of a drive without
-- its root, `_parsfnm`, the system call "truename", and what stands in an array on the stack that
-- was not written; and whether there is memory.
pub record Dos : Type 0 where
  pub dbcs : LeadTable
  pub getdrive : ℕ
  pub do_getdcwd : ℕ → Option (List ℕ)
  pub parsfnm : List ℕ → Fcb
  pub do_truename : List ℕ → Option (List ℕ)
  pub unwritten : List ℕ
  pub memory : Bool

-- `out_path` up to `j`, and `comp_start` up to `n_comps`, the last one first.
pub record Buffer : Type 0 where
  pub text : List ℕ
  pub starts : List ℕ

-- `COPY`, which stands for `COPY1` too.
unfoldable pub copy_chrs : ℕ → List ℕ → List ℕ → Result (List ℕ)
copy_chrs size chrs text =
    if leb size (length chrs) || leb (size - length chrs) (length text)
    then err too_long
    else ok (text ++ chrs)

unfoldable pub dbcs_strcspn : LeadTable → List ℕ → ℕ
dbcs_strcspn dbcs [] = 0
dbcs_strcspn dbcs (c ∷ []) = if path_sep_p c then 0 else 1
dbcs_strcspn dbcs (c ∷ d ∷ p) =
    let past_one = suc (dbcs_strcspn dbcs (d ∷ p)) in
    let past_two = suc (suc (dbcs_strcspn dbcs p)) in
    if path_sep_p c then 0 else if dbcs_lead_p c dbcs then past_two else past_one

-- How much of a field of the FCB is no padding: `m` bytes are behind, the first `len` of them count.
unfoldable pub field_len : LeadTable → ℕ → ℕ → List ℕ → ℕ
field_len dbcs m len [] = len
field_len dbcs m len (c ∷ []) = if c == b' ' then len else m + 1
field_len dbcs m len (c ∷ d ∷ field) =
    let blank = field_len dbcs (m + 1) len (d ∷ field) in
    let past_one = field_len dbcs (m + 1) (m + 1) (d ∷ field) in
    let past_two = field_len dbcs (m + 2) (m + 2) field in
    if c == b' ' then blank else if dbcs_lead_p c dbcs then past_two else past_one

-- What ".." does, with the starts of the components.
unfoldable pub go_up : ℕ → List ℕ → List ℕ → Result Buffer
unfolding copy_chrs
go_up size [] text = err undefined
go_up size (last ∷ []) text = do
  text' ← copy_chrs size (b'.' ∷ b'.' ∷ 0x5c ∷ []) (take last text)
  ok (record { text = text'; starts = length text' ∷ [] })
go_up size (last ∷ before ∷ starts) text =
    ok (record { text = take before text; starts = before ∷ starts })

-- `comp_start[n_comps++] = j`, where `n_comps` was never written if there is no start yet.
unfoldable pub push_start : List ℕ → List ℕ → Result Buffer
push_start [] text = err undefined
push_start (last ∷ starts) text = ok (record { text = text; starts = length text ∷ last ∷ starts })

unfoldable pub copy_name : LeadTable → ℕ → Fcb → List ℕ → Result (List ℕ)
unfolding copy_chrs field_len
copy_name dbcs size fcb text =
    let name_len = field_len dbcs 0 0 fcb.name in
    let ext_len = field_len dbcs 0 0 fcb.ext in
    if name_len == 0 then err invalid else do
      text1 ← copy_chrs size (take name_len fcb.name) text
      text2 ←
          (if ext_len == 0 then ok text1 else do
            dotted ← copy_chrs size (b'.' ∷ []) text1
            copy_chrs size (take ext_len fcb.ext) dotted)
      copy_chrs size (0x5c ∷ []) text2

abbrev pub letter : ℕ → ℕ
letter drive = (64 + drive) % 256

abbrev pub root : ℕ → Buffer
root drive = record { text = letter drive ∷ b':' ∷ 0x5c ∷ []; starts = 3 ∷ [] }

-- The text that is returned: without the last separator, but for a root.
unfoldable pub end_text : List ℕ → List ℕ
end_text text = if ltb 3 (length text) then take (length text - 1) text else text

unfoldable pub is_network : List ℕ → Bool
is_network [] = false
is_network (c ∷ []) = false
is_network (c ∷ d ∷ path) = d == 0x5c && c == 0x5c

-- A null or an empty path is the current directory.
unfoldable pub or_dot : Option (List ℕ) → List ℕ
or_dot none = b'.' ∷ []
or_dot (some []) = b'.' ∷ []
or_dot (some (c ∷ path)) = c ∷ path

module _ (dos : Dos) where
  -- `__libi86_getdcwd_maxpath`
  unfoldable pub getdcwd_maxpath : ℕ → Result (List ℕ)
  getdcwd_maxpath drive = elim (dos.do_getdcwd drive) [
    | none ↦ err dos_error
    | some dir ↦
        ok (((64 + (if drive == 0 then dos.getdrive else drive)) % 256) ∷ b':' ∷ 0x5c ∷ dir)
  ]

  -- `_getdcwd`, for the size of the buffer or a null pointer.
  unfoldable pub getdcwd : ℕ → Option ℕ → Result (List ℕ)
  unfolding getdcwd_maxpath
  getdcwd drive none = do dir ← getdcwd_maxpath drive; if dos.memory then ok dir else err no_memory
  getdcwd drive (some size) = getdcwd_maxpath drive >>= λ dir.
      if leb max_path size
      then ok dir
      else if leb size (length dir)
      then err out_of_range
      else ok dir

  -- `_getcwd`
  unfoldable pub getcwd : Option ℕ → Result (List ℕ)
  unfolding getdcwd
  getcwd size = getdcwd 0 size

  -- `__libi86_msdos_truename`; for a short buffer the system call gets an array that was not
  -- written, and its result is not looked at.
  unfoldable pub truename : List ℕ → ℕ → Result (List ℕ)
  truename path size =
      if leb max_path size
      then elim (dos.do_truename path) [ none ↦ err dos_error | some full ↦ ok full ]
      else elim (dos.do_truename dos.unwritten) [
        | none ↦ err dos_error
        | some full ↦ if ltb size (length dos.unwritten) then err too_long else ok dos.unwritten
      ]

  -- The starts of the components of the current directory, with `pos` bytes behind.
  unfoldable pub dir_starts : ℕ → List ℕ → List ℕ → List ℕ
  dir_starts pos starts [] = starts
  dir_starts pos starts (c ∷ []) =
      if dbcs_lead_p c dos.dbcs then starts else if path_sep_p c then (pos + 1) ∷ starts else starts
  dir_starts pos starts (c ∷ d ∷ dir) =
      let past_two = dir_starts (pos + 2) starts dir in
      let past_sep = dir_starts (pos + 1) ((pos + 1) ∷ starts) (d ∷ dir) in
      let past_one = dir_starts (pos + 1) starts (d ∷ dir) in
      if dbcs_lead_p c dos.dbcs then past_two else if path_sep_p c then past_sep else past_one

  -- The separator behind the current directory.
  unfoldable pub close_dir : List ℕ → List ℕ → Buffer
  close_dir [] dir = record { text = dir ++ (0x5c ∷ []); starts = (length dir + 1) ∷ [] }
  close_dir (last ∷ starts) dir =
      if last == length dir
      then record { text = dir; starts = last ∷ starts }
      else record { text = dir ++ (0x5c ∷ []); starts = (length dir + 1) ∷ last ∷ starts }

  -- What `out_path` starts with: the current directory, or else the drive alone.
  unfoldable pub opened : ℕ → Result (List ℕ) → Buffer
  unfolding dir_starts close_dir
  opened drive (ok dir) = close_dir (dir_starts 0 [] dir) dir
  opened drive (err e) = record { text = letter drive ∷ b':' ∷ []; starts = 2 ∷ [] }

  unfoldable pub start_dir : ℕ → ℕ → Buffer
  unfolding opened getdcwd
  start_dir drive size = opened drive (getdcwd drive (some size))

  unfoldable pub start_text : ℕ → ℕ → List ℕ → Buffer × List ℕ
  unfolding start_dir
  start_text drive size [] =
      if drive == 0 then (record { text = []; starts = [] }, []) else (start_dir drive size, [])
  start_text drive size (c ∷ path) =
      if drive == 0
      then (record { text = []; starts = [] }, c ∷ path)
      else if path_sep_p c
      then (root drive, path)
      else (start_dir drive size, c ∷ path)

  -- One component of `k` bytes that has a name of its own.
  unfoldable pub add_name : ℕ → ℕ → List ℕ → Buffer → Result Buffer
  unfolding copy_name push_start
  add_name size k path buf =
      let fcb = dos.parsfnm path in
      if not (fcb.used == k) || not (fcb.drive == 0)
      then err invalid
      else do text ← copy_name dos.dbcs size fcb buf.text; push_start buf.starts text

  -- One component of `k` bytes: none, ".", ".." or a name.
  unfoldable pub component : ℕ → ℕ → List ℕ → Buffer → Result Buffer
  unfolding go_up add_name
  component size k path buf =
      if k == 0 || (k == 1 && str_eq (take k path) (b'.' ∷ []))
      then ok buf
      else if k == 2 && str_eq (take k path) (b'.' ∷ b'.' ∷ [])
      then go_up size buf.starts buf.text
      else add_name size k path buf

  unfoldable pub loop : ℕ → ℕ → List ℕ → Buffer → Result Buffer
  unfolding component dbcs_strcspn
  loop size fuel [] buf = ok buf
  loop size zero (c ∷ path) buf = err stuck
  loop size (suc fuel) (c ∷ path) buf =
      let k = dbcs_strcspn dos.dbcs (c ∷ path) in
      component size k (c ∷ path) buf >>= λ next.
      loop size fuel (drop (if k == 0 then 1 else k) (c ∷ path)) next

  -- The path behind the drive letter, and the number of the drive.
  unfoldable pub drive_of : List ℕ → Result (ℕ × List ℕ)
  unfolding drive_letter_p
  drive_of [] = ok (dos.getdrive, [])
  drive_of (c ∷ []) = ok (dos.getdrive, c ∷ [])
  drive_of (c ∷ d ∷ path) =
      if d == b':' && not (dbcs_lead_p c dos.dbcs)
      then (if drive_letter_p c
          then ok ((if leb b'A' c && leb c b'Z' then c - 64 else c - 96), path)
          else err invalid)
      else ok (dos.getdrive, c ∷ d ∷ path)

  -- `_fullpath` behind the tests of its arguments.
  unfoldable pub make_full : ℕ → List ℕ → Result (List ℕ)
  unfolding truename drive_of start_text loop end_text is_network
  make_full size path = if is_network path then truename path size else do
    (drive, rest) ← drive_of path
    let begun = start_text drive size rest
    buf ← loop size (length begun.1) begun.1 begun.0
    ok (end_text buf.text)

  -- `_fullpath`; the first argument says whether `out_path` is null.
  unfoldable pub ack_fullpath : Bool → ℕ → Option (List ℕ) → Result (List ℕ)
  unfolding make_full or_dot
  ack_fullpath allocate size path =
      if ltb size 2
      then err too_long
      else if allocate
      then (if dos.memory then make_full max_path (or_dot path) else err no_memory)
      else make_full (if ltb max_path size then max_path else size) (or_dot path)
