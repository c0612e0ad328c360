-- ===== src/Process/Spawn.antt =====
-- common/process/spawnve.c: how `direct_spawn` and `comspec_spawn` run a file, and
-- common/process/libi86-comspec.c. DOS and the C library are parameters.
pub mod Direct
pub mod Slashes
use libi.Base.{ℕ, ◌+◌, ◌-◌, ◌*◌, ◌/◌, ◌%◌, ◌^◌, ◌⊎◌, inl, inr, Bool, true, false, ◌&&◌, ◌||◌, not}
use libi.Base.{Option, none, some, List, [], ◌∷◌, ◌++◌, length, ltb, leb, ◌==◌, if◌then◌else◌}
use libi.Path.Chars.{LeadTable, max_path}
use libi.Path.Itr.{find_var}
use libi.Process.Shell.{is_dos_shell, is_opt_c, is_unix_shell}
use libi.Process.Cmdline.{layout}
use libi.Process.Env.{MakeFcb, make_fcbs, EnvBlock, make_env_blk}
use libi.Process.Find.{find_raw_base_name, has_slash, unslash}

-- The values of `errno` that are told apart.
pub data Errno : Type 0 where
  enoent einval eacces e2big enametoolong enomem : Errno
  other : ℕ → Errno

-- What `_dos_spawn` is called with: the path, the text behind the length in `argb`, the
-- environment block and the two file control blocks. `subfunc` is always 0.
pub record Launch : Type 0 where
  pub path : List ℕ
  pub text : List ℕ
  pub env : EnvBlock
  pub fcb1 : List ℕ
  pub fcb2 : List ℕ

-- How a call ends: -1 with `errno`, before anything was run, or what came of `_dos_spawn`, an
-- error or what `_dos_wait` gave.
pub data Outcome : Type 0 where
  fails : Errno → Outcome
  launched : Launch → Errno ⊎ ℕ → Outcome

-- What the code calls: the table of lead bytes, the switch character, the error that
-- `_dos_getfileattr` sets if the file is not there, `_parsfnm` with the padded name and extension
-- of the block, `_makefcb`, the allocations, `environ`, `getenv`, and `_dos_spawn` with the
-- result of `_dos_wait` behind it. The last four are what uninitialized variables hold, and how
-- the library was compiled.
pub record Dos : Type 0 where
  pub dbcs : LeadTable
  pub swchr : ℕ
  pub getfileattr : List ℕ → Option Errno
  pub parsfnm : List ℕ → Option (List ℕ × List ℕ)
  pub makefcb : MakeFcb
  pub aligned_alloc : ℕ → Option ℕ
  pub allocmem : ℕ → Option ℕ
  pub malloc : ℕ → Bool
  pub environ : List (List ℕ)
  pub getenv : List ℕ → Option (List ℕ)
  pub dos_spawn : Launch → Errno ⊎ ℕ
  pub flag_lead : Bool
  pub flag_done : Bool
  pub envb_u : ℕ
  pub iso_c11 : Bool

-- Bits of `mode`: `_P_RESTRICT_EXT`, `_P_INTERP` and `_P_OPT_C_SPECIAL`, the `_P_SPVE_FLAGS`.
unfoldable pub has_bit : ℕ → ℕ → Bool
has_bit bit mode = mode / 2 ^ bit % 2 == 1

unfoldable pub clear_bit : ℕ → ℕ → ℕ
clear_bit bit mode = mode - mode / 2 ^ bit % 2 * 2 ^ bit

abbrev pub bit_restrict_ext : ℕ
bit_restrict_ext = 6

abbrev pub bit_interp : ℕ
bit_interp = 14

abbrev pub bit_opt_c_special : ℕ
bit_opt_c_special = 15

-- "COMSPEC", with and without the equals sign, and "C:\\COMMAND.COM".
abbrev pub comspec_name : List ℕ
comspec_name = b'C' ∷ b'O' ∷ b'M' ∷ b'S' ∷ b'P' ∷ b'E' ∷ b'C' ∷ []

abbrev pub comspec_default : List ℕ
comspec_default =
    b'C' ∷ b':' ∷ 0x5c ∷ b'C' ∷ b'O' ∷ b'M' ∷ b'M' ∷ b'A' ∷ b'N' ∷ b'D' ∷ b'.' ∷ b'C' ∷ b'O' ∷ b'M'
    ∷ []

module _ (dos : Dos) where
  -- `__libi86_comspec`
  unfoldable pub libi86_comspec : List (List ℕ) → List ℕ
  unfolding find_var
  libi86_comspec envp = elim (find_var (comspec_name ++ (b'=' ∷ [])) envp) [
    | some value ↦ value
    | none ↦ elim (dos.getenv comspec_name) [ some value ↦ value | none ↦ comspec_default ]
  ]

  -- `argv[1] && argv[2] && ! argv[3] && is_opt_c (argv[1])`, with the arguments behind `argv[0]`.
  unfoldable pub is_command : List (List ℕ) → Bool
  unfolding is_opt_c
  is_command [] = false
  is_command (a1 ∷ []) = false
  is_command (a1 ∷ a2 ∷ []) = is_opt_c dos.swchr a1
  is_command (a1 ∷ a2 ∷ a3 ∷ args) = false

  unfoldable pub launch : Launch → Outcome
  launch l = launched l (dos.dos_spawn l)

  -- Which layout the program gets.
  unfoldable pub command_line : ℕ → List ℕ → List ℕ → List (List ℕ) → Option (List ℕ)
  unfolding layout is_command is_dos_shell is_unix_shell has_bit
  command_line mode name ext args =
      layout dos.dbcs (is_dos_shell name ext && (has_bit bit_opt_c_special mode && is_command args))
        (is_dos_shell name ext) (not (is_dos_shell name ext) && is_unix_shell name ext) args

  -- The end of `direct_spawn`, with what `make_fcbs` and `make_env_blk` gave.
  unfoldable pub start : List ℕ → List ℕ → Option (List ℕ × List ℕ) → Option EnvBlock → Outcome
  unfolding launch
  start path text none env = fails enomem
  start path text (some fcbs) none = fails enomem
  start path text (some fcbs) (some env) =
      launch (record { path = path; text = text; env = env; fcb1 = fcbs.0; fcb2 = fcbs.1 })

  unfoldable pub load : List ℕ → List (List ℕ) → Option (List ℕ) → Outcome
  unfolding start make_fcbs make_env_blk
  load path envp none = fails e2big
  load path envp (some text) =
      start path text
        (make_fcbs dos.makefcb dos.dbcs dos.flag_lead dos.flag_done (text ++ (13 ∷ [])))
        (make_env_blk dos.iso_c11 dos.envb_u dos.aligned_alloc dos.allocmem envp)

  unfoldable pub direct_spawn :
      ℕ → List ℕ → List ℕ → List ℕ → List (List ℕ) → List (List ℕ) → Outcome
  unfolding command_line load
  direct_spawn mode path name ext args envp = load path envp (command_line mode name ext args)

  -- The path for the command interpreter, or `none` for ENAMETOOLONG.
  unfoldable pub unslashed : List ℕ → Option (List ℕ)
  unfolding has_slash unslash
  unslashed path =
      if has_slash path
      then (if leb max_path (length path) then none else some (unslash dos.dbcs false path))
      else some path

  unfoldable pub comspec_spawn : ℕ → List ℕ → List (List ℕ) → List (List ℕ) → Outcome
  unfolding unslashed libi86_comspec direct_spawn clear_bit find_raw_base_name
  comspec_spawn mode path args envp = elim (unslashed path) [
    | none ↦ fails enametoolong
    | some unslashed_path ↦
        let interpreter = libi86_comspec envp in
        elim (dos.parsfnm (find_raw_base_name interpreter dos.dbcs)) [
          | none ↦ fails einval
          | some fcb ↦
              if dos.malloc (length args + 4)
              then direct_spawn (clear_bit bit_opt_c_special mode) interpreter fcb.0 fcb.1
                  ((dos.swchr ∷ b'c' ∷ []) ∷ unslashed_path ∷ args) envp
              else fails enomem
        ]
  ]
