-- ===== src/Process/Spawn/Slashes.antt =====
-- The slashes that `comspec_spawn` replaces.
use libi.Base.{ℕ, suc, ◌≤◌, ◌≡◌, ap, refl, ◌∙◌, Bool, true, false, ◌&&◌, not}
use libi.Base.{none, some, List, [], ◌∷◌, arith}
use libi.Base.{length, ◌==◌}
use libi.Path.Chars.{LeadTable, dbcs_lead_p, max_path}
use libi.Process.Find.{has_slash, unslash}
use libi.Process.Spawn.{Dos, unslashed}

unslash-has_slash : (p : List ℕ) → has_slash (unslash none false p) ≡ false
unfolding unslash has_slash dbcs_lead_p
unslash-has_slash [] = refl
unslash-has_slash (c ∷ p) = ground (arith, unslash-has_slash p)

length-unslash :
    (dbcs : LeadTable) (p : List ℕ) (lead : Bool) → length (unslash dbcs lead p) ≡ length p
unfolding unslash
length-unslash dbcs [] lead = refl
length-unslash dbcs (c ∷ p) lead =
    ap suc (length-unslash dbcs p (not lead && (not (c == b'/') && dbcs_lead_p c dbcs)))

-- Without double-byte characters, the path that `comspec_spawn` hands to the interpreter has no
-- slash and is as long as the one it was given; there is none if that has a slash and is not
-- shorter than `_MAX_PATH`.
pub unslashed-has_slash :
    (dos : Dos) (path : List ℕ)
    → dos.dbcs ≡ none
    → (unslashed dos path ≡ none → (has_slash path ≡ true) × (max_path ≤ length path))
      × ((p : List ℕ)
          → unslashed dos path ≡ some p
          → (has_slash p ≡ false) × (length p ≡ length path))
unfolding unslashed
unslashed-has_slash dos path h =
    let clean = ap (λ d. has_slash (unslash d false path)) h ∙ unslash-has_slash path in
    let same = length-unslash dos.dbcs path false in
    (λ e. ground (arith, e), λ p e. (ground (arith, e, clean), ground (arith, e, same)))
