-- ===== src/Process/Env.antt =====
-- common/process/spawnve.c: the two file control blocks that a program gets, and its environment
-- block.
pub mod Block
pub mod Skip
use libi.Base.{ℕ, ◌+◌, ◌-◌, ◌/◌, ◌%◌, ◌^◌, Bool, true, false, ◌&&◌, ◌||◌, not, Option, none, some}
use libi.Base.{List, [], ◌∷◌, ◌++◌, length, ltb, ◌==◌, if◌then◌else◌}
use libi.Path.Chars.{LeadTable, dbcs_lead_p}

-- The cases of the `switch` in `make_fcbs`: control characters, and what ends a file name.
unfoldable pub control : ℕ → Bool
control c = ltb c 0x20

unfoldable pub name_end : ℕ → Bool
name_end c =
    (c == b':' || c == b'.' || c == b';' || c == b',' || c == b'=' || c == b'+' || c == b' ')
    || (c == b'/' || c == b'"' || c == b'[' || c == b']' || c == b'<' || c == b'>' || c == b'|')

-- The loop of `make_fcbs` that skips what is left of the first file name, up to `--p`, with
-- `last_c_lead_p` and `done_arg1`. The carriage return at the end of the command line stops it.
unfoldable pub skip_name : LeadTable → Bool → Bool → List ℕ → List ℕ
unfolding control name_end
skip_name dbcs lead done [] = []
skip_name dbcs lead done (c ∷ p) =
    let done' = done || (control c || (name_end c && not lead)) in
    let lead' =
      (if control c then lead else if name_end c then false else not lead && dbcs_lead_p c dbcs) in
    let rest = skip_name dbcs lead' done' p in if done' then c ∷ p else rest

-- `_makefcb`, which gives the block and what is left of the text, or null, is DOS's or the DOS
-- extender's. The two flags stand for what the uninitialized `flags` holds.
abbrev pub MakeFcb : Type 0
MakeFcb = List ℕ → List ℕ × Option (List ℕ)

-- Both blocks, the second from `args`, or `none` for ENOMEM.
unfoldable pub second_fcb : MakeFcb → List ℕ → List ℕ → Option (List ℕ × List ℕ)
second_fcb makefcb fcb1 args = elim ((makefcb args).1) [
  | none ↦ none
  | some p ↦ some (fcb1, (makefcb args).0)
]

unfoldable pub make_fcbs : MakeFcb → LeadTable → Bool → Bool → List ℕ → Option (List ℕ × List ℕ)
unfolding skip_name second_fcb
make_fcbs makefcb dbcs lead done args = elim ((makefcb args).1) [
  | none ↦ none
  | some p ↦ second_fcb makefcb ((makefcb args).0) (skip_name dbcs lead done p)
]

-- `env_sz`, a 16-bit `size_t`.
unfoldable pub env_size : List (List ℕ) → ℕ
env_size [] = 3
env_size (p ∷ envp) = (env_size envp + (length p + 1)) % 2 ^ 16

-- What is copied out: each variable with its NUL, and three more NULs.
unfoldable pub env_bytes : List (List ℕ) → List ℕ
env_bytes [] = 0 ∷ 0 ∷ 0 ∷ []
env_bytes (p ∷ envp) = p ++ (0 ∷ env_bytes envp)

-- The segment that the bytes were copied to, what `*p_envb_c` became, and the bytes. The block
-- of `aligned_alloc` is given by the paragraph it starts at.
pub record EnvBlock : Type 0 where
  pub envb : ℕ
  pub envb_c : Option ℕ
  pub bytes : List ℕ

-- A block from `_dos_allocmem`, which takes a size in paragraphs. `none` is ENOMEM.
unfoldable pub env_from_dos : (ℕ → Option ℕ) → ℕ → List ℕ → Option EnvBlock
env_from_dos allocmem env_sz bytes = elim (allocmem ((env_sz - 1) / 0x10 + 1)) [
  | none ↦ none
  | some seg ↦ some (record { envb = seg; envb_c = none; bytes = bytes })
]

-- `iso_c11` says whether the branch for ISO C 2011 without a DOS extender is compiled, and `envb_u`
-- what that variable holds before it is set. `aligned_alloc` takes a size in bytes.
unfoldable pub make_env_blk :
    Bool → ℕ → (ℕ → Option ℕ) → (ℕ → Option ℕ) → List (List ℕ) → Option EnvBlock
unfolding env_size env_bytes env_from_dos
make_env_blk iso_c11 envb_u aligned_alloc allocmem envp =
    elim (if iso_c11 then aligned_alloc (env_size envp) else none) [
      | some envb_c ↦ some (record { envb = envb_u; envb_c = some envb_c; bytes = env_bytes envp })
      | none ↦ env_from_dos allocmem (env_size envp) (env_bytes envp)
    ]
