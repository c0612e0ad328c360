-- ===== src/Fullpath/Examples.antt =====
-- Runs of `_fullpath` on a machine with a drive C:.
use libi.Base.{
  ℕ, zero, suc, ◌-◌, ◌≤◌, ◌≡◌, refl, ap, true, false, ◌||◌, not, Option, none, some, List, [], ◌∷◌,
  arith, length, take, str_eq, ◌==◌, if◌then◌else◌,
}
use libi.Path.Chars.{max_path, path_sep_p, dbcs_lead_p}
use libi.Fullpath.{
  Dos, Fcb, ok, ack_fullpath, dbcs_strcspn, drive_of, is_network, or_dot, end_text, field_len,
}
use libi.Fullpath.Stack.{seg_of}
use libi.Fullpath.Visit.{span, visit}
use libi.Fullpath.Walk.{ReadsNames, single_byte}
use libi.Fullpath.Absolute.{visited, ack_fullpath-visit}
use libi.Fullpath.Bounds.{ShortDirs, Short, ack_fullpath-Short}
use libi.Fullpath.Faults.{ack_fullpath_overflows}

pad : ℕ → List ℕ → List ℕ
pad n [] = pad_blank n
  where
    pad_blank : ℕ → List ℕ
    pad_blank zero = []
    pad_blank (suc n) = b' ' ∷ pad_blank n
pad n (c ∷ cs) = c ∷ pad (n - 1) cs

-- Names without extensions.
abbrev plain_fcb : List ℕ → Fcb
plain_fcb path =
    let k = dbcs_strcspn none path in
    record { used = k; drive = 0; name = pad 8 (take k path); ext = pad 3 [] }

abbrev pc : Dos
pc = record {
  dbcs = none;
  getdrive = 3;
  do_getdcwd = λ drive. some (b'D' ∷ 0x5c ∷ b'E' ∷ []);
  parsfnm = plain_fcb;
  do_truename = λ path. some path;
  unwritten = b'?' ∷ [];
  memory = true;
}

up_and_down :
    ack_fullpath pc false 144 (some (b'.' ∷ b'.' ∷ b'/' ∷ b'F' ∷ []))
    ≡ ok (b'C' ∷ b':' ∷ 0x5c ∷ b'D' ∷ 0x5c ∷ b'F' ∷ [])
unfolding ack_fullpath pad path_sep_p dbcs_lead_p str_eq
up_and_down = refl

-- The name of a component on this machine.
abbrev pc_seg : List ℕ → Option (List ℕ)
pc_seg c = seg_of (record { used = 0; drive = 0; name = pad 8 c; ext = pad 3 [] })

pc-ReadsNames : ReadsNames pc pc_seg
pc-ReadsNames p =
    let same : (span p == span p) ≡ true = ground arith in
    ap (λ b. if not b || not (0 == 0) then none else pc_seg (take (span p) p)) same

-- "C:/F/./G/../H"
abbrev long_way : List ℕ
long_way = b'F' ∷ b'/' ∷ b'.' ∷ b'/' ∷ b'G' ∷ b'/' ∷ b'.' ∷ b'.' ∷ b'/' ∷ b'H' ∷ []

c_drive : drive_of (single_byte pc) (b'C' ∷ b':' ∷ b'/' ∷ long_way) ≡ ok (3, b'/' ∷ long_way)
unfolding drive_of dbcs_lead_p
c_drive = refl

c_local : is_network (b'C' ∷ b':' ∷ b'/' ∷ long_way) ≡ false
unfolding is_network
c_local = refl

slash : path_sep_p b'/' ≡ true
unfolding path_sep_p
slash = refl

ack_fullpath-visit_example :
    ack_fullpath (single_byte pc) false 144 (some (b'C' ∷ b':' ∷ b'/' ∷ long_way))
    ≡ visited pc pc_seg pc-ReadsNames 144 3 long_way
ack_fullpath-visit_example =
    ack_fullpath-visit pc pc_seg pc-ReadsNames 144 2 b'/' b'C' (b':' ∷ b'/' ∷ long_way) long_way
      (omega arith) (omega arith) c_local c_drive slash

visited_way :
    visited pc pc_seg pc-ReadsNames 144 3 long_way
    ≡ ok (b'C' ∷ b':' ∷ 0x5c ∷ b'F' ∷ 0x5c ∷ b'H' ∷ [])
unfolding visit end_text pad field_len str_eq path_sep_p dbcs_lead_p
visited_way = refl

pc-ShortDirs : ShortDirs pc
pc-ShortDirs drive dir h = ground (arith, h)

dot_local : is_network (or_dot none) ≡ false
unfolding is_network or_dot
dot_local = refl

ack_fullpath-Short_example : Short pc (if false then max_path else 8) (ack_fullpath pc false 8 none)
ack_fullpath-Short_example = ack_fullpath-Short pc false 8 none pc-ShortDirs (omega arith) dot_local

ack_fullpath_overflows_example :
    (text : List ℕ) × (ack_fullpath pc false 2 (some (b'/' ∷ [])) ≡ ok text) × (2 ≤ length text)
ack_fullpath_overflows_example =
    ack_fullpath_overflows pc 2 2 b'/' (omega arith) (omega arith) refl slash
