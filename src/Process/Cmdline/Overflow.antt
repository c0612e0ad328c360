-- ===== src/Process/Cmdline/Overflow.antt =====
-- The command line for a DOS shell, whose bounds COPY2 and COPY3 test at one position only.
use libi.Base.{ℕ, suc, ◌+◌, ◌≤◌, ◌<◌, ◌≡◌, ap, refl, ◌∙◌, Bool, true, false, ◌&&◌, not}
use libi.Base.{Option, none, some, List, [], ◌∷◌, ◌++◌, append-nil, append_assoc, arith}
use libi.Base.{length, length-append, All, if◌then◌else◌}
use libi.Path.Chars.{LeadTable, dbcs_lead_p}
use libi.Process.Cmdline.{◌>>=◌, DosOut, copy1, copy2, copy3, bare, none_of, dos_special}
use libi.Process.Cmdline.{dos_char, dos_plain, dos_loop, put_dos_arg, put_dos_args, layout}

-- The text was written, `n` bytes of it or more.
abbrev Wrote : ℕ → Option DosOut → Type 0
Wrote n none = ⊥
Wrote n (some s) = n ≤ length s.0

dos_char-past :
    (dbcs : LeadTable) (c : ℕ) (out : List ℕ) (outside : Bool)
    → 127 ≤ length out
    → Wrote (1 + length out) (dos_char dbcs c (out, outside))
unfolding dos_char copy1 copy2 copy3
dos_char-past dbcs c out outside h = ground (
  arith,
  h,
  length-append out (b'"' ∷ c ∷ b'"' ∷ []),
  length-append out (c ∷ []),
  length-append out (0x5c ∷ b'"' ∷ []),
  length-append out (b'%' ∷ b'%' ∷ []),
)

trail-past :
    (c : ℕ) (out : List ℕ) (outside : Bool)
    → 127 ≤ length out
    → Wrote (1 + length out) (copy1 out c >>= λ o. some (o, outside))
unfolding copy1
trail-past c out outside h = ground (arith, h, length-append out (c ∷ []))

copy1-past : (c : ℕ) (out : List ℕ) → 127 ≤ length out → copy1 out c ≡ some (out ++ (c ∷ []))
unfolding copy1
copy1-past c out h = ground (arith, h)

Wrote-bind :
    (n m : ℕ) (r : Option DosOut) (f : DosOut → Option DosOut)
    → Wrote n r
    → ((s : DosOut) → n ≤ length s.0 → Wrote m (f s))
    → Wrote m (r >>= f)
Wrote-bind n m none f h k = absurd h
Wrote-bind n m (some s) f h k = k s h

Wrote-weaken : (n m : ℕ) (r : Option DosOut) → Wrote m r → n ≤ m → Wrote n r
Wrote-weaken n m none h k = absurd h
Wrote-weaken n m (some s) h k = omega (arith, h, k)

step-past :
    (dbcs : LeadTable) (lead : Bool) (c : ℕ) (out : List ℕ) (outside : Bool)
    → 127 ≤ length out
    → Wrote
        (1 + length out)
        (if lead then (copy1 out c >>= λ o. some (o, outside)) else dos_char dbcs c (out, outside))
step-past dbcs true c out outside h = trail-past c out outside h
step-past dbcs false c out outside h = dos_char-past dbcs c out outside h

dos_loop-past :
    (dbcs : LeadTable) (p : List ℕ) (lead : Bool) (s : DosOut)
    → 127 ≤ length s.0
    → Wrote (length s.0 + length p) (dos_loop dbcs lead s p)
unfolding dos_loop
dos_loop-past dbcs [] lead (out, outside) h = omega arith
dos_loop-past dbcs (c ∷ p) lead (out, outside) h =
    Wrote-bind (1 + length out) _ _ _ (step-past dbcs lead c out outside h) λ s k.
      Wrote-weaken _ _ _
        (dos_loop-past dbcs p (not lead && (dos_plain c && dbcs_lead_p c dbcs)) s
          (omega (arith, h, k)))
        (omega (arith, h, k))

dos_char-plain :
    (c : ℕ) (out : List ℕ) (outside : Bool)
    → length out ≤ 125
    → dos_plain c ≡ true
    → dos_char none c (out, outside) ≡ some (out ++ (c ∷ []), outside)
unfolding dos_char dos_plain copy1
dos_char-plain c out outside h k = ground (arith, h, k)

no_lead : (b : Bool) → b && false ≡ false
no_lead true = refl
no_lead false = refl

dos_loop-plain :
    (out : List ℕ) (outside : Bool) (p r : List ℕ)
    → length out + length p ≤ 126
    → All (λ c. dos_plain c ≡ true) p
    → dos_loop none false (out, outside) (p ++ r) ≡ dos_loop none false (out ++ p, outside) r
unfolding dos_loop dbcs_lead_p
dos_loop-plain out outside [] r h k = rw (append-nil out)
dos_loop-plain out outside (c ∷ p) r h (k, ks) =
    ap (λ o. o >>= λ s. dos_loop none (dos_plain c && false) s (p ++ r))
      (dos_char-plain c out outside (omega (arith, h)) k)
    ∙ (ap (λ b. dos_loop none b (out ++ (c ∷ []), outside) (p ++ r)) (no_lead (dos_plain c))
        ∙ (dos_loop-plain (out ++ (c ∷ [])) outside p r
              (omega (arith, h, length-append out (c ∷ []))) ks
            ∙ ap (λ o. dos_loop none false (o, outside) r) (append_assoc out (c ∷ []) p)))

none_of-percent : (p t : List ℕ) → none_of dos_special (p ++ (b'%' ∷ t)) ≡ false
unfolding none_of dos_special
none_of-percent [] t = refl
none_of-percent (c ∷ p) t = ground (arith, none_of-percent p t)

bare-percent : (p t : List ℕ) → bare dos_special (p ++ (b'%' ∷ t)) ≡ false
unfolding bare
bare-percent [] t = none_of-percent [] t
bare-percent (c ∷ p) t = none_of-percent (c ∷ p) t

-- The quoted argument from the percent sign on, which two bytes of are written at 127.
percent-past :
    (out t : List ℕ) (outside : Bool)
    → length out ≡ 126
    → Wrote (128 + length t) (dos_loop none false (out, outside) (b'%' ∷ t))
unfolding dos_loop dos_char copy2
percent-past out t outside h =
    Wrote-bind 128 _ (dos_char none b'%' (out, outside)) _
      (ground (arith, h, length-append out (b'%' ∷ b'%' ∷ [])))
      λ s k. Wrote-weaken _ _ _ (dos_loop-past none t _ s (omega (arith, k))) (omega (arith, k))

closed-past :
    (n : ℕ) (r : Option DosOut)
    → Wrote n r
    → 127 ≤ n
    → Wrote (suc n) ((r >>= λ x. copy1 x.0 b'"' >>= λ out3. some (out3, not x.1)) >>= λ s'. some s')
unfolding copy1
closed-past n none h k = absurd h
closed-past n (some (out, outside)) h k = ground (arith, h, k, length-append out (b'"' ∷ []))

Wrote-text :
    (n : ℕ) (r : Option DosOut)
    → Wrote n r
    → (text : List ℕ) × (((r >>= λ s. some s.0) ≡ some text) × (n ≤ length text))
Wrote-text n none h = absurd h
Wrote-text n (some s) h = (s.0, (refl, h))

-- A DOS shell gets the arguments without any limit once a percent sign that is the last
-- character to fit has passed the end of `argb`.
pub layout_overflows :
    (p t : List ℕ)
    → length p ≡ 124
    → All (λ c. dos_plain c ≡ true) p
    → (text : List ℕ) × ((layout none false true false ((p ++ (b'%' ∷ t)) ∷ []) ≡ some text)
        × (128 + length t < length text))
unfolding layout put_dos_args put_dos_arg copy1
layout_overflows p t h k =
    rw (bare-percent p t, dos_loop-plain (b' ' ∷ b'"' ∷ []) false p (b'%' ∷ t) (omega (arith, h)) k)
      (Wrote-text _ _ (
        closed-past (128 + length t) (dos_loop none false (b' ' ∷ b'"' ∷ p, false) (b'%' ∷ t))
          (percent-past (b' ' ∷ b'"' ∷ p) t false (omega (arith, h))) (omega arith)))
