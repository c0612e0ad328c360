-- ===== src/Dos/Tables.antt =====
-- The pointers that DOS gives to its own tables: host-gcc/dos-dbcs/dos-get-dbcs-lead-table.c and
-- the part of host-gcc/dos/getsysvars.c for protected mode. A far pointer is a segment or a
-- descriptor and an offset.
use libi.Base.{
  ℕ, ◌%◌, ◌≡◌, ◌≤◌, refl, ap, ◌∙◌, Bool, false, ◌&&◌, not, Option, none, some, arith, ltb, ◌==◌,
  if◌then◌else◌, inr, Bool-cases, inl,
}
use libi.Dos.Segments.{Cache, IsKept, ◌>>=◌, segment_pm, segment_pm-kept, to_cache}

-- The carry flag, AX, SI and DS behind the call of service 6300h.
pub record Answer : Type 0 where
  pub carry : Bool
  pub ax : ℕ
  pub si : ℕ
  pub ds : ℕ

-- The table, or `none` for a null pointer: `word` is what memory has as a 16-bit word at a far
-- pointer, and `! *lt` tests the first bounds of lead bytes, both in one word.
unfoldable pub lead_table_at : (ℕ → ℕ → ℕ) → ℕ → ℕ → Option (ℕ × ℕ)
lead_table_at word seg off = if word seg off == 0 then none else some (seg, off)

-- In real mode.
unfoldable pub get_lead_table_rm : ℕ → (ℕ → ℕ → ℕ) → Answer → Option (ℕ × ℕ)
unfolding lead_table_at
get_lead_table_rm osmajor word a =
    if (if ltb osmajor 3 then a.carry else not (a.ax % 256 == 0))
    then none
    else if a.si == 0xffff
    then none
    else lead_table_at word a.ds a.si

-- In protected mode, with the descriptor that is kept; `none` is `abort`.
unfoldable pub get_lead_table_pm :
    (ℕ → Option ℕ) → (ℕ → ℕ → ℕ) → Option Answer → Cache → Option (Option (ℕ × ℕ) × Cache)
unfolding lead_table_at segment_pm
get_lead_table_pm to_descriptor word none c = none
get_lead_table_pm to_descriptor word (some a) c =
    if not (a.ax % 256 == 0)
    then some (none, c)
    else if a.si == 0xffff
    then some (none, c)
    else (segment_pm to_descriptor a.ds c >>= λ r. some (lead_table_at word r.0 a.si, r.1))

-- `_getsysvars` in protected mode, for BX and ES behind the call of service 52h.
unfoldable pub getsysvars_pm :
    (ℕ → Option ℕ) → Option (ℕ × ℕ) → Cache → Option (Option (ℕ × ℕ) × Cache)
unfolding segment_pm
getsysvars_pm to_descriptor none c = none
getsysvars_pm to_descriptor (some (bx, es)) c =
    if bx == 0 && es == 0
    then some (none, c)
    else (segment_pm to_descriptor es c >>= λ r. some (some (r.0, bx), r.1))

-- A far pointer of real mode with its segment replaced.
abbrev pub moved_to : ℕ → Option (ℕ × ℕ) → Option (ℕ × ℕ)
moved_to pm none = none
moved_to pm (some (seg, off)) = some (pm, off)

lead_table_at-moved_to :
    (word_rm word_pm : ℕ → ℕ → ℕ) (rm pm off : ℕ)
    → word_pm pm off ≡ word_rm rm off
    → lead_table_at word_pm pm off ≡ moved_to pm (lead_table_at word_rm rm off)
unfolding lead_table_at
lead_table_at-moved_to word_rm word_pm rm pm off h = elim (Bool-cases (word_rm rm off == 0)) [
  | inl e ↦ rw (h, e) refl
  | inr e ↦ rw (h, e) refl
]

segment_pm-some :
    (to_descriptor : ℕ → Option ℕ) (rm pm : ℕ) (c : Cache)
    → IsKept to_descriptor c
    → to_descriptor rm ≡ some pm
    → segment_pm to_descriptor rm c ≡ some (pm, record { seg_pm = pm; seg_rm = rm })
unfolding to_cache
segment_pm-some to_descriptor rm pm c h e =
    segment_pm-kept to_descriptor rm c h ∙ ap (to_cache rm) e

-- Where DOS is of version 3 or later, DPMI gives a descriptor for the segment that DOS names, and
-- the first word of the table is the same by both, `_dos_get_dbcs_lead_table` in protected mode
-- gives the pointer that it gives in real mode, null or with the descriptor for the segment, and
-- what is kept is then still the descriptor of its segment.
get_lead_table_pm-rm :
    (to_descriptor : ℕ → Option ℕ) (word_rm word_pm : ℕ → ℕ → ℕ) (osmajor pm : ℕ) (a : Answer)
    (c : Cache)
    → 3 ≤ osmajor
    → IsKept to_descriptor c
    → to_descriptor a.ds ≡ some pm
    → word_pm pm a.si ≡ word_rm a.ds a.si
    → (c' : Cache) × (get_lead_table_pm to_descriptor word_pm (some a) c
        ≡ some (moved_to pm (get_lead_table_rm osmajor word_rm a), c'))
      × IsKept to_descriptor c'
unfolding get_lead_table_pm get_lead_table_rm
get_lead_table_pm-rm to_descriptor word_rm word_pm osmajor pm a c h k e same =
    let recent : ltb osmajor 3 ≡ false = ground (arith, h) in
    elim (Bool-cases (a.ax % 256 == 0)) [
      | inr bad ↦ (c, rw (recent, bad) refl, k)
      | inl good ↦ elim (Bool-cases (a.si == 0xffff)) [
        | inl unset ↦ (c, rw (recent, good, unset) refl, k)
        | inr set ↦ (
          record { seg_pm = pm; seg_rm = a.ds },
          rw (recent, good, set, segment_pm-some to_descriptor a.ds pm c k e)
              (ap (λ o. some (o, record { seg_pm = pm; seg_rm = a.ds }))
                (lead_table_at-moved_to word_rm word_pm a.ds pm a.si same)),
          inr e,
        )
      ]
    ]
