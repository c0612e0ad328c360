-- ===== src/Process/Examples.antt =====
-- Concrete programs and arguments, and the theorems about common/process at them.
pub mod Run
use libi.Base.{
  ℕ, zero, suc, ◌≡◌, ◌≤◌, ◌<◌, ◌*◌, ◌+◌, refl, ap, Bool, true, false, ◌⊎◌, inl, inr, ◌||◌,
}
use libi.Base.{
  Option, none, some, List, [], ◌∷◌, ◌++◌, arith, All, length, str_eq, if◌then◌else◌, not,
}
use libi.Path.Search.Walk.{hit_rest}
use libi.Path.Chars.{dbcs_lead_p, path_sep_p}
use libi.Process.Shell.{is_dos_shell, is_unix_shell}
use libi.Process.Cmdline.{layout, dos_plain, bare, blank, none_of}
use libi.Process.Cmdline.Fit.{fits, args_text, raw_text, layout-eq-fits}
use libi.Process.Cmdline.Words.{tame, Faithful}
use libi.Process.Cmdline.Overflow.{layout_overflows}
use libi.Process.Env.{EnvBlock, make_env_blk, env_bytes, make_fcbs, second_fcb, MakeFcb}
use libi.Process.Env.Block.{make_env_blk-allocmem}
use libi.Process.Env.Skip.{ends_name, make_fcbs-ends, make_fcbs-flag}
use libi.Process.Find.{
  find_spawner, direct, comspec, error, has_slash, find_raw_base_name, find_raw_ext,
}
use libi.Process.Find.Table.{find_spawner-table, is_batch, is_binary}
use libi.Process.Spawn.{
  Dos, Errno, enoent, Launch, Outcome, launched, fails, direct_spawn, unslashed, libi86_comspec,
}
use libi.Process.Spawn.{has_bit}
use libi.Process.Spawn.Direct.{direct_spawn-text, direct_spawn_injective}
use libi.Process.Spawn.Slashes.{unslashed-has_slash}
use libi.Process.Run.{locate, extensions, run_located, system_run}
use libi.Process.Run.Locate.{tried, locate-first, run_located-restricted}
use libi.Process.Run.System.{system_run-text}
use libi.Process.Search.{spawnvpe, is_specific_path, not_found, res_of, wanted}
use libi.Process.Search.Order.{spawnvpe-first_hit, path_value}

-- "P", "P.EXE" and "COMMAND.COM"
abbrev pub p_name : List ℕ
p_name = b'P' ∷ []

abbrev pub p_exe : List ℕ
p_exe = b'P' ∷ b'.' ∷ b'E' ∷ b'X' ∷ b'E' ∷ []

abbrev pub command_com : List ℕ
command_com = b'C' ∷ b'O' ∷ b'M' ∷ b'M' ∷ b'A' ∷ b'N' ∷ b'D' ∷ b'.' ∷ b'C' ∷ b'O' ∷ b'M' ∷ []

abbrev pub com_ext : List ℕ
com_ext = b'C' ∷ b'O' ∷ b'M' ∷ []

abbrev pub exe_ext : List ℕ
exe_ext = b'E' ∷ b'X' ∷ b'E' ∷ []

abbrev pub command_fcb : List ℕ
command_fcb = b'C' ∷ b'O' ∷ b'M' ∷ b'M' ∷ b'A' ∷ b'N' ∷ b'D' ∷ b' ' ∷ []

abbrev pub p_fcb : List ℕ
p_fcb = b'P' ∷ b' ' ∷ b' ' ∷ b' ' ∷ b' ' ∷ b' ' ∷ b' ' ∷ b' ' ∷ []

abbrev pub sh_fcb : List ℕ
sh_fcb = b'S' ∷ b'H' ∷ b' ' ∷ b' ' ∷ b' ' ∷ b' ' ∷ b' ' ∷ b' ' ∷ []

-- Parsing keeps the text.
abbrev parse : MakeFcb
parse text = (text, some text)

-- A machine with the interpreter, "P" and "P.EXE", and no variables.
abbrev pub pc : Dos
pc = record {
  dbcs = none;
  swchr = b'/';
  getfileattr = λ path.
      if str_eq path p_exe || (str_eq path p_name || str_eq path (b'C' ∷ b':' ∷ 0x5c ∷ command_com))
      then none
      else some enoent;
  parsfnm =
      λ base. if str_eq base p_exe then some (p_fcb, exe_ext) else some (command_fcb, com_ext);
  makefcb = parse;
  aligned_alloc = λ n. none;
  allocmem = λ n. some 0x1000;
  malloc = λ n. true;
  environ = [];
  getenv = λ var. none;
  dos_spawn = λ l. inr 0;
  flag_lead = false;
  flag_done = false;
  envb_u = 0;
  iso_c11 = true;
}

-- "a b" and "c"
abbrev pub two_args : List (List ℕ)
two_args = (b'a' ∷ b' ' ∷ b'b' ∷ []) ∷ (b'c' ∷ []) ∷ []

abbrev pub two_text : List ℕ
two_text = b' ' ∷ b'"' ∷ b'a' ∷ b' ' ∷ b'b' ∷ b'"' ∷ b' ' ∷ b'c' ∷ []

abbrev pub no_env : EnvBlock
no_env = record { envb = 0x1000; envb_c = none; bytes = 0 ∷ 0 ∷ 0 ∷ [] }

layout-two : layout none false false true two_args ≡ some two_text
unfolding layout dbcs_lead_p
layout-two = refl

layout-eq-fits_example : layout none false false true two_args ≡ fits (args_text none true two_args)
layout-eq-fits_example = layout-eq-fits none false false true two_args (inr refl)

abbrev many : ℕ → List ℕ
many zero = []
many (suc n) = b'a' ∷ many n

many-plain : (n : ℕ) → All (λ c. dos_plain c ≡ true) (many n)
unfolding dos_plain
many-plain zero = tt
many-plain (suc n) = (refl, many-plain n)

layout_overflows_example :
    (text : List ℕ) × ((layout none false true false ((many 124 ++ (b'%' ∷ p_exe)) ∷ [])
        ≡ some text)
      × (133 < length text))
layout_overflows_example = layout_overflows (many 124) p_exe refl (many-plain 124)

-- The call of DOS for "P.EXE" with both arguments.
abbrev pub two_launch : Launch
two_launch = record {
  path = p_exe;
  text = two_text;
  env = no_env;
  fcb1 = two_text ++ (13 ∷ []);
  fcb2 = b' ' ∷ b'"' ∷ b'a' ∷ b' ' ∷ b'b' ∷ b'"' ∷ b' ' ∷ b'c' ∷ 13 ∷ [];
}

sh-is_dos_shell : is_dos_shell sh_fcb exe_ext ≡ false
unfolding is_dos_shell
sh-is_dos_shell = refl

sh-is_unix_shell : is_unix_shell sh_fcb exe_ext ≡ true
unfolding is_unix_shell str_eq
sh-is_unix_shell = refl

sh-launched : direct_spawn pc 0 p_exe sh_fcb exe_ext two_args [] ≡ launched two_launch (inr 0)
unfolding direct_spawn dbcs_lead_p
sh-launched = refl

two-Faithful : All Faithful two_args
unfolding bare blank none_of tame
two-Faithful = (inl refl, (inr (refl, tt), tt))

direct_spawn_injective_example : two_args ≡ two_args
direct_spawn_injective_example =
    direct_spawn_injective pc 0 p_exe sh_fcb exe_ext two_args two_args [] [] two_launch two_launch
      (inr 0) (inr 0) refl sh-is_dos_shell sh-is_unix_shell two-Faithful two-Faithful sh-launched
      sh-launched refl

two-small : length (env_bytes two_args) < 65536
unfolding env_bytes
two-small = omega arith

p-not_interp : has_bit 14 0 ≡ false
unfolding has_bit
p-not_interp = refl

p-find_raw_ext : find_raw_ext (find_raw_base_name p_name none) none ≡ none
unfolding find_raw_ext find_raw_base_name dbcs_lead_p path_sep_p
p-find_raw_ext = refl

p-extensions :
    tried pc (has_bit 6 0)
    ≡ ((b'.' ∷ com_ext) ∷ [])
      ++ ((b'.' ∷ exe_ext)
          ∷ (b'.' ∷ b'B' ∷ b'A' ∷ b'T' ∷ [])
          ∷ (b'.' ∷ b'B' ∷ b'T' ∷ b'M' ∷ [])
          ∷ []
          ∷ [])
unfolding has_bit
p-extensions = refl

p-com_absent :
    All (λ x. (e : Errno) × (pc.getfileattr (p_name ++ x) ≡ some e)) ((b'.' ∷ com_ext) ∷ [])
unfolding str_eq
p-com_absent = ((enoent, refl), tt)

p-exe_there : pc.getfileattr p_exe ≡ none
unfolding str_eq
p-exe_there = refl

make_env_blk-allocmem_example :
    (paras : ℕ) × ((length (env_bytes two_args) ≤ paras * 16)
      × ((paras * 16 < length (env_bytes two_args) + 16)
          × (pc.allocmem paras ≡ some 0x1000
              → make_env_blk true 0 (λ n. none) pc.allocmem two_args
                ≡ some (record { envb = 0x1000; envb_c = none; bytes = env_bytes two_args }))))
make_env_blk-allocmem_example =
    make_env_blk-allocmem true 0 0x1000 (λ n. none) pc.allocmem two_args two-small refl

-- "P.COM" is not there, and "P.EXE" is.
locate-first_example : locate pc 0 p_name ≡ inl p_exe
locate-first_example =
    locate-first pc 0 p_name (b'.' ∷ exe_ext) ((b'.' ∷ com_ext) ∷ [])
      ((b'.' ∷ b'B' ∷ b'A' ∷ b'T' ∷ []) ∷ (b'.' ∷ b'B' ∷ b'T' ∷ b'M' ∷ []) ∷ [] ∷ []) p-not_interp
      p-find_raw_ext (omega arith) p-extensions p-com_absent p-exe_there
