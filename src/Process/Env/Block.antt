-- ===== src/Process/Env/Block.antt =====
-- How large the environment block is, and where its text goes.
use libi.Base.{ℕ, ◌+◌, ◌-◌, ◌*◌, ◌/◌, ◌^◌, ◌≤◌, ◌<◌, ◌≡◌, ap, refl, ◌∙◌, Bool}
use libi.Base.{Option, none, some, List, [], ◌∷◌, arith}
use libi.Base.{length, length-append, if◌then◌else◌}
use libi.Process.Env.{env_from_dos, env_size, env_bytes, make_env_blk}

env_size-length :
    (envp : List (List ℕ))
    → length (env_bytes envp) < 2 ^ 16
    → env_size envp ≡ length (env_bytes envp)
unfolding env_size env_bytes
env_size-length [] h = refl
env_size-length (p ∷ envp) h = omega (
  arith,
  h,
  length-append p (0 ∷ env_bytes envp),
  env_size-length envp (omega (arith, h, length-append p (0 ∷ env_bytes envp))),
)

length-env_bytes : (envp : List (List ℕ)) → 3 ≤ length (env_bytes envp)
unfolding env_bytes
length-env_bytes [] = omega arith
length-env_bytes (p ∷ envp) =
    omega (arith, length-append p (0 ∷ env_bytes envp), length-env_bytes envp)

env_from_dos-some :
    (allocmem : ℕ → Option ℕ) (seg env_sz : ℕ) (bytes : List ℕ)
    → allocmem ((env_sz - 1) / 16 + 1) ≡ some seg
    → env_from_dos allocmem env_sz bytes
      ≡ some (record { envb = seg; envb_c = none; bytes = bytes })
unfolding env_from_dos
env_from_dos-some allocmem seg env_sz bytes e = rw (env_from_dos, e) refl

-- An environment of less than 64 KiB goes to the block from `_dos_allocmem`, where there is no
-- block from `aligned_alloc`, and that block is large enough, by less than a paragraph.
pub make_env_blk-allocmem :
    (iso_c11 : Bool) (u seg : ℕ) (aligned_alloc allocmem : ℕ → Option ℕ) (envp : List (List ℕ))
    → length (env_bytes envp) < 2 ^ 16
    → (if iso_c11 then aligned_alloc (length (env_bytes envp)) else none) ≡ none
    → (paras : ℕ) × ((length (env_bytes envp) ≤ paras * 16)
        × ((paras * 16 < length (env_bytes envp) + 16)
            × (allocmem paras ≡ some seg
                → make_env_blk iso_c11 u aligned_alloc allocmem envp
                  ≡ some (record { envb = seg; envb_c = none; bytes = env_bytes envp }))))
unfolding make_env_blk
make_env_blk-allocmem iso_c11 u seg aligned_alloc allocmem envp h k = (
  (length (env_bytes envp) - 1) / 16 + 1,
  (omega arith, (omega (arith, length-env_bytes envp), from_dos)),
)
  where
    from_dos :
        allocmem ((length (env_bytes envp) - 1) / 16 + 1) ≡ some seg
        → make_env_blk iso_c11 u aligned_alloc allocmem envp
          ≡ some (record { envb = seg; envb_c = none; bytes = env_bytes envp })
    from_dos e =
        rw (make_env_blk, env_size-length envp h, k)
          (ap (λ n. env_from_dos allocmem n (env_bytes envp)) (env_size-length envp h)
            ∙ env_from_dos-some allocmem seg (length (env_bytes envp)) (env_bytes envp) e)
