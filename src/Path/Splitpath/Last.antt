-- ===== src/Path/Splitpath/Last.antt =====
-- The two loops of `_splitpath` find the last character that passes a test.
use libi.Base.{ℕ, ◌+◌, ◌≡◌, refl, ap, ◌∙◌, Bool, true, false, Option}
use libi.Base.{some, List, [], ◌∷◌, ◌++◌, arith, ◌==◌, not, ◌||◌}
use libi.Base.{length, if◌then◌else◌}
use libi.Base.{Bool-cases, inl, inr, ◌⊎◌}
use libi.Path.Chars.{LeadTable, dbcs_lead_p, path_sep_p}
use libi.Path.Splitpath.{find_dir_end, find_name_end}

-- No character of the text passes the test; a lead byte and the byte behind it are one character.
unfoldable pub free : (ℕ → Bool) → LeadTable → List ℕ → Bool
free test dbcs [] = true
free test dbcs (c ∷ []) = not (test c)
free test dbcs (c ∷ d ∷ q) =
    let past_both = free test dbcs q in
    let past_one = free test dbcs (d ∷ q) in
    if test c then false else if dbcs_lead_p c dbcs then past_both else past_one

-- The text is a row of whole characters: no lead byte stands at its end without the byte behind it.
unfoldable pub whole_chars : (ℕ → Bool) → LeadTable → List ℕ → Bool
whole_chars test dbcs [] = true
whole_chars test dbcs (c ∷ []) = test c || not (dbcs_lead_p c dbcs)
whole_chars test dbcs (c ∷ d ∷ q) =
    let past_both = whole_chars test dbcs q in
    let past_one = whole_chars test dbcs (d ∷ q) in
    if test c || not (dbcs_lead_p c dbcs) then past_one else past_both

-- Both loops: the offset `k` bytes past the start of the last character that passes the test.
unfoldable pub find_last : (ℕ → Bool) → ℕ → LeadTable → List ℕ → ℕ → Option ℕ → Option ℕ
find_last test k dbcs [] i found = found
find_last test k dbcs (c ∷ []) i found = if test c then some (i + k) else found
find_last test k dbcs (c ∷ d ∷ q) i found =
    let past_both = find_last test k dbcs q (i + 2) found in
    let past_hit = find_last test k dbcs (d ∷ q) (i + 1) (some (i + k)) in
    let past_one = find_last test k dbcs (d ∷ q) (i + 1) found in
    if test c then past_hit else if dbcs_lead_p c dbcs then past_both else past_one

abbrev pub is_dot : ℕ → Bool
is_dot c = c == b'.'

pub find_dir_end-last :
    (dbcs : LeadTable) (q : List ℕ) (i : ℕ) (found : Option ℕ)
    → find_dir_end dbcs q i found ≡ find_last path_sep_p 1 dbcs q i found
unfolding find_dir_end find_last
find_dir_end-last dbcs [] i found = refl
find_dir_end-last dbcs (c ∷ []) i found = refl
find_dir_end-last dbcs (c ∷ d ∷ q) i found =
    rw
      (
        find_dir_end-last dbcs q (i + 2) found,
        find_dir_end-last dbcs (d ∷ q) (i + 1) (some (i + 1)),
        find_dir_end-last dbcs (d ∷ q) (i + 1) found,
      )
      refl

pub find_name_end-last :
    (dbcs : LeadTable) (q : List ℕ) (i : ℕ) (found : Option ℕ)
    → find_name_end dbcs q i found ≡ find_last is_dot 0 dbcs q i found
unfolding find_name_end find_last
find_name_end-last dbcs [] i found = refl
find_name_end-last dbcs (c ∷ []) i found =
    ap (λ n. if c == b'.' then some n else found) (omega arith)
find_name_end-last dbcs (c ∷ d ∷ q) i found =
    rw
      (
        find_name_end-last dbcs q (i + 2) found,
        find_name_end-last dbcs (d ∷ q) (i + 1) (some i),
        find_name_end-last dbcs (d ∷ q) (i + 1) found,
      )
      (ap
        (λ n.
          if c == b'.'
          then find_last is_dot 0 dbcs (d ∷ q) (i + 1) (some n)
          else if dbcs_lead_p c dbcs
          then find_last is_dot 0 dbcs q (i + 2) found
          else find_last is_dot 0 dbcs (d ∷ q) (i + 1) found)
        (omega arith))

-- A last hit at `c`, which is a character of its own, with none that passes the test behind it.
pub record Hit (test : ℕ → Bool) (dbcs : LeadTable) (q : List ℕ) : Type 0 where
  pub before : List ℕ
  pub c : ℕ
  pub behind : List ℕ
  pub whole : q ≡ before ++ (c ∷ behind)
  pub chars : whole_chars test dbcs before ≡ true
  pub hit : test c ≡ true
  pub rest : free test dbcs behind ≡ true

module _ (test : ℕ → Bool) (k : ℕ) (dbcs : LeadTable) where
  abbrev pub Found : List ℕ → ℕ → Option ℕ → Option ℕ → Type 0
  Found q i found r =
      ((free test dbcs q ≡ true) × (r ≡ found))
      ⊎ ((h : Hit test dbcs q) × (r ≡ some (i + length h.before + k)))

  abbrev pub HitAt : List ℕ → ℕ → Option ℕ → Type 0
  HitAt q i r = (h : Hit test dbcs q) × (r ≡ some (i + length h.before + k))

  here :
      (c : ℕ) (q : List ℕ) (i : ℕ) (r : Option ℕ)
      → test c ≡ true
      → free test dbcs q ≡ true
      → r ≡ some (i + k)
      → HitAt (c ∷ q) i r
  here c q i r hit rest e = (
    record {
      before = [];
      c = c;
      behind = q;
      whole = refl;
      chars = unfold whole_chars in refl;
      hit = hit;
      rest = rest;
    },
    e ∙ ap some (omega arith),
  )

  -- The same with a character of one byte, and with one of two bytes, before the text.
  whole_chars-one :
      (c : ℕ) (q : List ℕ)
      → (test c || not (dbcs_lead_p c dbcs)) ≡ true
      → whole_chars test dbcs q ≡ true
      → whole_chars test dbcs (c ∷ q) ≡ true
  unfolding whole_chars
  whole_chars-one c [] h k = h
  whole_chars-one c (d ∷ q) h k = rw h k

  whole_chars-two :
      (c d : ℕ) (q : List ℕ)
      → (test c || not (dbcs_lead_p c dbcs)) ≡ false
      → whole_chars test dbcs q ≡ true
      → whole_chars test dbcs (c ∷ d ∷ q) ≡ true
  unfolding whole_chars
  whole_chars-two c d q h k = rw h k

  widen :
      (c : ℕ) (q : List ℕ) (i : ℕ) (r : Option ℕ)
      → (test c || not (dbcs_lead_p c dbcs)) ≡ true
      → HitAt q (i + 1) r
      → HitAt (c ∷ q) i r
  widen c q i r single (h, e) = (
    record {
      before = c ∷ h.before;
      c = h.c;
      behind = h.behind;
      whole = ap (λ t. c ∷ t) h.whole;
      chars = whole_chars-one c h.before single h.chars;
      hit = h.hit;
      rest = h.rest;
    },
    e ∙ ap some (omega arith),
  )

  widen_two :
      (c d : ℕ) (q : List ℕ) (i : ℕ) (r : Option ℕ)
      → (test c || not (dbcs_lead_p c dbcs)) ≡ false
      → HitAt q (i + 2) r
      → HitAt (c ∷ d ∷ q) i r
  widen_two c d q i r double (h, e) = (
    record {
      before = c ∷ d ∷ h.before;
      c = h.c;
      behind = h.behind;
      whole = ap (λ t. c ∷ d ∷ t) h.whole;
      chars = whole_chars-two c d h.before double h.chars;
      hit = h.hit;
      rest = h.rest;
    },
    e ∙ ap some (omega arith),
  )

  pub find_last-Found :
      (q : List ℕ) (i : ℕ) (found : Option ℕ) → Found q i found (find_last test k dbcs q i found)
  unfolding find_last free
  find_last-Found [] i found = inl (refl, refl)
  find_last-Found (c ∷ []) i found = elim (Bool-cases (test c)) [
    | inl hit ↦ rw hit (inr (here c [] i _ hit refl refl))
    | inr miss ↦ rw miss (inl (refl, refl))
  ]
  find_last-Found (c ∷ d ∷ q) i found = elim (Bool-cases (test c)) [
    | inl hit ↦ rw hit (elim (find_last-Found (d ∷ q) (i + 1) (some (i + k))) [
      | inl (f, e) ↦ inr (here c (d ∷ q) i _ hit f e)
      | inr h ↦ inr (widen c (d ∷ q) i _ (ap (λ b. b || not (dbcs_lead_p c dbcs)) hit) h)
    ])
    | inr miss ↦ rw miss (elim (Bool-cases (dbcs_lead_p c dbcs)) [
      | inl double ↦ rw double (elim (find_last-Found q (i + 2) found) [
        | inl (f, e) ↦ inl (f, e)
        | inr h ↦
            inr
              (widen_two c d q i _ (ap (λ b. b || not (dbcs_lead_p c dbcs)) miss ∙ ap not double) h)
      ])
      | inr single ↦ rw single (elim (find_last-Found (d ∷ q) (i + 1) found) [
        | inl (f, e) ↦ inl (f, e)
        | inr h ↦
            inr
              (widen c (d ∷ q) i _ (ap (λ b. b || not (dbcs_lead_p c dbcs)) miss ∙ ap not single) h)
      ])
    ])
  ]
