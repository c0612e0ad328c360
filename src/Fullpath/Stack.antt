-- ===== src/Fullpath/Stack.antt =====
-- `_fullpath` works on a stack of components.
use libi.Base.{
  ℕ, ◌+◌, ◌≡◌, refl, sym, ap, ◌∙◌, Bool, true, false, Option, none, some, List, [], ◌∷◌, ◌++◌,
  arith, append_assoc,
}
use libi.Base.{
  length, take, ltb, ◌==◌, if◌then◌else◌, if_holds, Bool-cases, take_prefix, take_all,
  length-append, inl, inr, ltb_of_le,
}
use libi.Fullpath.{
  Result, ok, err, ◌>>=◌, invalid, too_long, Fcb, Buffer, copy_chrs, field_len, go_up, copy_name,
}

-- The text up to the root, and the components behind it, the last one first, each with its
-- separator.
pub record Place : Type 0 where
  pub top : List ℕ
  pub segs : List (List ℕ)

abbrev pub text_of : List ℕ → List (List ℕ) → List ℕ
text_of top [] = top
text_of top (seg ∷ segs) = text_of top segs ++ seg

abbrev pub starts_of : List ℕ → List (List ℕ) → List ℕ
starts_of top [] = length top ∷ []
starts_of top (seg ∷ segs) = length (text_of top segs ++ seg) ∷ starts_of top segs

-- The buffer for a place.
abbrev pub buffer_of : Place → Buffer
buffer_of v = record { text = text_of v.top v.segs; starts = starts_of v.top v.segs }

-- A text with another behind it, where this leaves room for the NUL.
abbrev pub fit : ℕ → List ℕ → List ℕ → Result (List ℕ)
fit size text chrs =
    if ltb (length text + length chrs) size then ok (text ++ chrs) else err too_long

-- One component more, up to its separator.
abbrev pub enter : ℕ → List ℕ → Place → Result Place
enter size seg v =
    fit size (text_of v.top v.segs) seg >>= λ _. ok (record v { segs = seg ∷ v.segs })

-- The parent; behind the root the text gets a ".." that stays.
abbrev pub leave : ℕ → List ℕ → List (List ℕ) → Result Place
leave size top [] =
    fit size top (b'.' ∷ b'.' ∷ 0x5c ∷ []) >>= λ top'. ok (record { top = top'; segs = [] })
leave size top (seg ∷ segs) = ok (record { top = top; segs = segs })

pub >>=_assoc :
    {A B C : Type 0} (m : Result A) (f : A → Result B) (g : B → Result C)
    → (m >>= λ a. f a >>= g) ≡ ((m >>= f) >>= g)
>>=_assoc (ok a) f g = refl
>>=_assoc (err e) f g = refl

copy_chrs-fit : (size : ℕ) (chrs text : List ℕ) → copy_chrs size chrs text ≡ fit size text chrs
unfolding copy_chrs
copy_chrs-fit size chrs text = ground arith

-- The segment for a field of a file control block.
abbrev pub seg_of : Fcb → Option (List ℕ)
seg_of fcb =
    let name_len = field_len none 0 0 fcb.name in
    let ext_len = field_len none 0 0 fcb.ext in
    if name_len == 0
    then none
    else some (
        take name_len fcb.name
        ++ ((if ext_len == 0 then [] else b'.' ∷ take ext_len fcb.ext) ++ (0x5c ∷ [])))

abbrev pub enter_text : ℕ → List ℕ → Option (List ℕ) → Result (List ℕ)
enter_text size text none = err invalid
enter_text size text (some seg) = fit size text seg

-- Where copies in turn stand for one.
fit-fit :
    (size : ℕ) (text a b : List ℕ)
    → (fit size text a >>= λ t. fit size t b) ≡ fit size text (a ++ b)
fit-fit size text a b =
    if_holds (λ r. (r >>= λ t. fit size t b) ≡ fit size text (a ++ b))
      (ltb (length text + length a) size) (ok (text ++ a)) (err too_long)
      (λ e.
        ap (λ n. if ltb n size then ok ((text ++ a) ++ b) else err too_long)
          (omega (arith, length-append text a, length-append a b))
        ∙ ap (λ t. if ltb (length text + length (a ++ b)) size then ok t else err too_long)
            (append_assoc text a b))
      (λ e. sym (
        ap (λ c. if c then ok (text ++ (a ++ b)) else err too_long)
          (ltb_of_le (length text + length (a ++ b)) size (ground (arith, e, length-append a b)))))

copy_chrs-eq-fit : copy_chrs ≡ λ size chrs text. fit size text chrs
copy_chrs-eq-fit i size chrs text = copy_chrs-fit size chrs text i

copies-fit :
    (size : ℕ) (text name ext : List ℕ) (bare : Bool)
    → (copy_chrs size name text >>= λ text1.
        (if bare
          then ok text1
          else (copy_chrs size (b'.' ∷ []) text1 >>= λ t. copy_chrs size ext t))
        >>= λ text2. copy_chrs size (0x5c ∷ []) text2)
      ≡ fit size text (name ++ ((if bare then [] else b'.' ∷ ext) ++ (0x5c ∷ [])))
copies-fit size text name ext true =
    ap
      (λ (cp : ℕ → List ℕ → List ℕ → Result (List ℕ)).
        cp size name text >>= λ t. cp size (0x5c ∷ []) t)
      copy_chrs-eq-fit
    ∙ fit-fit size text name (0x5c ∷ [])
copies-fit size text name ext false =
    ap
      (λ (cp : ℕ → List ℕ → List ℕ → Result (List ℕ)). cp size name text >>= λ t.
        (cp size (b'.' ∷ []) t >>= λ d. cp size ext d) >>= λ u. cp size (0x5c ∷ []) u)
      copy_chrs-eq-fit
    ∙ ((λ i. fit size text name >>= λ t.
          fit-fit size t (b'.' ∷ []) ext i >>= λ u. fit size u (0x5c ∷ []))
        ∙ ((λ i. fit size text name >>= λ t. fit-fit size t (b'.' ∷ ext) (0x5c ∷ []) i)
            ∙ fit-fit size text name ((b'.' ∷ ext) ++ (0x5c ∷ []))))

pub copy_name-fit :
    (size : ℕ) (fcb : Fcb) (text : List ℕ)
    → copy_name none size fcb text ≡ enter_text size text (seg_of fcb)
unfolding copy_name
copy_name-fit size fcb text =
    let name = take (field_len none 0 0 fcb.name) fcb.name in
    let ext = take (field_len none 0 0 fcb.ext) fcb.ext in
    elim (Bool-cases (field_len none 0 0 fcb.name == 0)) [
      | inl e ↦ rw e refl
      | inr e ↦ rw e (copies-fit size text name ext (field_len none 0 0 fcb.ext == 0))
    ]

take-text : (text seg : List ℕ) → take (length text) (text ++ seg) ≡ text
take-text text seg = take_prefix (length text) text seg refl

pub go_up-leave :
    (size : ℕ) (top : List ℕ) (segs : List (List ℕ))
    → go_up size (starts_of top segs) (text_of top segs)
      ≡ (leave size top segs >>= λ v. ok (buffer_of v))
unfolding go_up
go_up-leave size top [] =
    ap
      (λ t. copy_chrs size (b'.' ∷ b'.' ∷ 0x5c ∷ []) t >>= λ text'.
        ok (record { text = text'; starts = length text' ∷ [] }))
      (take_all (length top) top (omega arith))
    ∙ (ap (λ r. r >>= λ text'. ok (record { text = text'; starts = length text' ∷ [] }))
          (copy_chrs-fit size (b'.' ∷ b'.' ∷ 0x5c ∷ []) top)
        ∙ >>=_assoc (fit size top (b'.' ∷ b'.' ∷ 0x5c ∷ [])) _ _)
go_up-leave size top (seg ∷ []) =
    ap (λ t. ok (record { text = t; starts = length top ∷ [] })) (take-text top seg)
go_up-leave size top (seg ∷ s ∷ segs) =
    ap (λ t. ok (record { text = t; starts = starts_of top (s ∷ segs) }))
      (take-text (text_of top segs ++ s) seg)
