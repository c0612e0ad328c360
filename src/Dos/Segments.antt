-- ===== src/Dos/Segments.antt =====
-- The descriptor for the segment that DOS has last given, as `_getsysvars` and
-- `_dos_get_dbcs_lead_table` keep it in protected mode.
use libi.Base.{
  ℕ, ◌≡◌, refl, ap, sym, ◌∙◌, ◌||◌, not, Option, none, some, arith, List, [], ◌∷◌, ◌==◌,
  if◌then◌else◌, if_holds, inl, inr, ◌⊎◌, Option-cases,
}

infixl 5 ◌>>=◌
abbrev pub ◌>>=◌ : {A B : Type 0} → Option A → (A → Option B) → Option B
none >>= f = none
some a >>= f = f a

-- `cached_seg_pm` and `cached_seg_rm`
pub record Cache : Type 0 where
  pub seg_pm : ℕ
  pub seg_rm : ℕ

-- The descriptor for a segment, with the DPMI call as a parameter; `none` is `abort`.
unfoldable pub to_cache : ℕ → Option ℕ → Option (ℕ × Cache)
to_cache rm none = none
to_cache rm (some pm) = some (pm, record { seg_pm = pm; seg_rm = rm })

unfoldable pub segment_pm : (ℕ → Option ℕ) → ℕ → Cache → Option (ℕ × Cache)
unfolding to_cache
segment_pm to_descriptor rm c =
    if c.seg_pm == 0 || not (rm == c.seg_rm)
    then to_cache rm (to_descriptor rm)
    else some (c.seg_pm, c)

-- Calls in turn, with what they return.
unfoldable pub lookups : (ℕ → Option ℕ) → List ℕ → Cache → Option (List ℕ)
unfolding segment_pm
lookups to_descriptor [] c = some []
lookups to_descriptor (rm ∷ rms) c = do
  (pm, c') ← segment_pm to_descriptor rm c
  rest ← lookups to_descriptor rms c'
  some (pm ∷ rest)

-- The same without a cache.
abbrev pub descriptors : (ℕ → Option ℕ) → List ℕ → Option (List ℕ)
descriptors to_descriptor [] = some []
descriptors to_descriptor (rm ∷ rms) = do
  pm ← to_descriptor rm
  rest ← descriptors to_descriptor rms
  some (pm ∷ rest)

-- Nothing is kept, or the descriptor for the segment that is kept.
abbrev pub IsKept : (ℕ → Option ℕ) → Cache → Type 0
IsKept to_descriptor c = (c.seg_pm ≡ 0) ⊎ (to_descriptor c.seg_rm ≡ some c.seg_pm)

-- A call returns the descriptor of its segment and keeps it.
pub segment_pm-kept :
    (to_descriptor : ℕ → Option ℕ) (rm : ℕ) (c : Cache)
    → IsKept to_descriptor c
    → segment_pm to_descriptor rm c ≡ to_cache rm (to_descriptor rm)
unfolding segment_pm to_cache
segment_pm-kept to_descriptor rm c h =
    if_holds (λ r. r ≡ to_cache rm (to_descriptor rm)) (c.seg_pm == 0 || not (rm == c.seg_rm)) _ _
      (λ e. refl)
      (λ e.
        let same : rm ≡ c.seg_rm = ground (arith, e) in
        let kept : to_descriptor c.seg_rm ≡ some c.seg_pm = elim h [
          | inl z ↦ absurd (ground (arith, e, z))
          | inr q ↦ q
        ] in
        ap (λ r. to_cache r (some c.seg_pm)) (sym same)
        ∙ sym (ap (to_cache rm) (ap to_descriptor same ∙ kept)))

-- Where DPMI gives one descriptor for each segment, calls in turn return what they would return
-- without the descriptor that is kept.
pub lookups-descriptors :
    (to_descriptor : ℕ → Option ℕ) (rms : List ℕ) (c : Cache)
    → IsKept to_descriptor c
    → lookups to_descriptor rms c ≡ descriptors to_descriptor rms
unfolding lookups to_cache
lookups-descriptors to_descriptor [] c h = refl
lookups-descriptors to_descriptor (rm ∷ rms) c h =
    let next = λ (pm : ℕ) (r : Option (List ℕ)). r >>= λ rest. some (pm ∷ rest) in
    let kept = λ (o : Option ℕ). to_cache rm o >>= λ x. next x.0 (lookups to_descriptor rms x.1) in
    let found = λ (o : Option ℕ). o >>= λ pm. next pm (descriptors to_descriptor rms) in
    ap (λ r. r >>= λ x. next x.0 (lookups to_descriptor rms x.1))
      (segment_pm-kept to_descriptor rm c h)
    ∙ elim (Option-cases (to_descriptor rm)) [
      | inl e ↦ ap kept e ∙ sym (ap found e)
      | inr (pm, e) ↦
          ap kept e
          ∙ (ap (next pm) (
                lookups-descriptors to_descriptor rms (record { seg_pm = pm; seg_rm = rm }) (inr e))
              ∙ sym (ap found e))
    ]
