-- ===== src/Process/Env/Skip.antt =====
-- Where the text for the second file control block starts.
use libi.Base.{ℕ, ◌≡◌, ap, refl, Bool, true, false, ◌||◌}
use libi.Base.{none, some, List, [], ◌∷◌, ◌++◌, arith}
use libi.Base.{All}
use libi.Path.Chars.{LeadTable, dbcs_lead_p}
use libi.Process.Env.{MakeFcb, control, name_end, skip_name, second_fcb, make_fcbs}

-- What ends the first file name.
unfoldable pub ends_name : ℕ → Bool
unfolding control name_end
ends_name c = control c || name_end c

skip_name-ends :
    (p : List ℕ) (c : ℕ) (r : List ℕ)
    → All (λ x. ends_name x ≡ false) p
    → ends_name c ≡ true
    → skip_name none false false (p ++ (c ∷ r)) ≡ c ∷ r
unfolding skip_name ends_name dbcs_lead_p
skip_name-ends [] c r h k = ground (arith, k)
skip_name-ends (x ∷ p) c r (h, hs) k = ground (arith, h, skip_name-ends p c r hs k)

skip_name-flag : (dbcs : LeadTable) (lead : Bool) (p : List ℕ) → skip_name dbcs lead true p ≡ p
unfolding skip_name
skip_name-flag dbcs lead [] = refl
skip_name-flag dbcs lead (c ∷ p) = refl

-- Without double-byte characters, and with both flags clear, the text for the second block is
-- what stands from the first control character or other end of a file name on, behind what
-- `_makefcb` has left of the text for the first block.
pub make_fcbs-ends :
    (makefcb : MakeFcb) (args p r : List ℕ) (c : ℕ)
    → (makefcb args).1 ≡ some (p ++ (c ∷ r))
    → All (λ x. ends_name x ≡ false) p
    → ends_name c ≡ true
    → make_fcbs makefcb none false false args ≡ second_fcb makefcb ((makefcb args).0) (c ∷ r)
unfolding make_fcbs
make_fcbs-ends makefcb args p r c h k e =
    rw (make_fcbs, h) (ap (λ t. second_fcb makefcb ((makefcb args).0) t) (skip_name-ends p c r k e))

-- If the flag happens to be set at the start, nothing is skipped.
pub make_fcbs-flag :
    (makefcb : MakeFcb) (dbcs : LeadTable) (lead : Bool) (args p : List ℕ)
    → (makefcb args).1 ≡ some p
    → make_fcbs makefcb dbcs lead true args ≡ second_fcb makefcb ((makefcb args).0) p
unfolding make_fcbs
make_fcbs-flag makefcb dbcs lead args p h =
    rw (make_fcbs, h)
      (ap (λ t. second_fcb makefcb ((makefcb args).0) t) (skip_name-flag dbcs lead p))
