-- ===== src/Strings/Order.antt =====
-- `_stricmp` orders the strings in lower case.
use libi.Base.{
  ℕ, ◌+◌, ◌-◌, ◌≡◌, ◌<◌, refl, ap, sym, ◌∙◌, Bool, List, [], ◌∷◌, map, arith, All, ◌==◌,
  if◌then◌else◌, Bool-cases, ==_iff, inl, inr, ◌↔◌,
}
use libi.Video.{ℤ, pos, negsuc}
use libi.Strings.{tolower, difference, stricmp}

-- The sign changed.
abbrev pub opposite : ℤ → ℤ
opposite (pos n) = if n == 0 then pos 0 else negsuc (n - 1)
opposite (negsuc n) = pos (n + 1)

-- A string has no NUL.
abbrev pub IsString : List ℕ → Type 0
IsString s = All (λ c. 0 < c) s

difference-opposite : (a b : ℕ) → difference b a ≡ opposite (difference a b)
unfolding difference
difference-opposite a b = ground arith

difference-zero : (a b : ℕ) → difference a b ≡ pos 0 → a ≡ b
unfolding difference
difference-zero a b h = ground (arith, h)

tolower-pos : (c : ℕ) → 0 < c → 0 < tolower c
unfolding tolower
tolower-pos c h = ground (arith, h)

stricmp-opposite : (s t : List ℕ) → stricmp t s ≡ opposite (stricmp s t)
unfolding stricmp
stricmp-opposite [] [] = refl
stricmp-opposite [] (d ∷ q) = difference-opposite 0 (tolower d)
stricmp-opposite (c ∷ p) [] = difference-opposite (tolower c) 0
stricmp-opposite (c ∷ p) (d ∷ q) =
    ground (arith, stricmp-opposite p q, difference-opposite (tolower c) (tolower d))

stricmp-eq :
    (s t : List ℕ) → IsString s → IsString t → stricmp s t ≡ pos 0 → map tolower s ≡ map tolower t
unfolding stricmp
stricmp-eq [] [] hs ht h = refl
stricmp-eq [] (d ∷ q) hs ht h =
    absurd (ground (arith, difference-zero 0 (tolower d) h, tolower-pos d ht.0))
stricmp-eq (c ∷ p) [] hs ht h =
    absurd (ground (arith, difference-zero (tolower c) 0 h, tolower-pos c hs.0))
stricmp-eq (c ∷ p) (d ∷ q) hs ht h =
    let either = λ (b : Bool). if b then stricmp p q else difference (tolower c) (tolower d) in
    elim (Bool-cases (tolower c == tolower d)) [
      | inl e ↦
          let same : tolower c ≡ tolower d = (==_iff (tolower c) (tolower d)).0 e in
          λ i. same i ∷ stricmp-eq p q hs.1 ht.1 (sym (ap either e) ∙ h) i
      | inr e ↦
          let same = difference-zero (tolower c) (tolower d) (sym (ap either e) ∙ h) in
          absurd (ground (arith, e, same))
    ]

stricmp_refl : (s t : List ℕ) → map tolower s ≡ map tolower t → stricmp s t ≡ pos 0
unfolding stricmp
stricmp_refl [] [] h = refl
stricmp_refl [] (d ∷ q) h = absurd (cc)
stricmp_refl (c ∷ p) [] h = absurd (cc)
stricmp_refl (c ∷ p) (d ∷ q) h =
    let same : tolower c ≡ tolower d = cc h in
    ap (λ b. if b then stricmp p q else difference (tolower c) (tolower d))
      ((==_iff (tolower c) (tolower d)).1 same)
    ∙ stricmp_refl p q (cc h)

-- `_stricmp` returns 0 exactly for two strings that are the same in lower case, and with the
-- strings swapped it returns the opposite number.
pub stricmp_iff :
    (s t : List ℕ)
    → IsString s
    → IsString t
    → ((stricmp s t ≡ pos 0) ↔ (map tolower s ≡ map tolower t))
      × (stricmp t s ≡ opposite (stricmp s t))
stricmp_iff s t hs ht = ((stricmp-eq s t hs ht, stricmp_refl s t), stricmp-opposite s t)
