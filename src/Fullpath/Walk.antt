-- ===== src/Fullpath/Walk.antt =====
-- The loop of `_fullpath` over the components of a path.
use libi.Base.{
  ℕ, zero, suc, ◌+◌, ltb, ◌≤◌, ◌≡◌, refl, sym, ap, ◌∙◌, Bool, true, false, ◌&&◌, ◌||◌, not, Option,
  none, some, List, [], ◌∷◌, ◌++◌, arith, inl, inr,
}
use libi.Base.{
  length, take, drop, ◌==◌, if◌then◌else◌, if_holds, Bool-cases, str_eq, length-drop, length-take,
}
use libi.Fullpath.{
  Result, ok, err, ◌>>=◌, invalid, too_long, Fcb, Dos, push_start, copy_name, add_name, component,
  loop,
}
use libi.Fullpath.Stack.{
  Place, buffer_of, text_of, starts_of, enter_text, leave, seg_of, copy_name-fit, go_up-leave,
  >>=_assoc,
}
use libi.Fullpath.Visit.{span, enter_name, turn, visit, span-le, turn-nil, visit-span, visit-drop}

is_dot : (c : List ℕ) → (length c == 1 && str_eq c (b'.' ∷ [])) ≡ str_eq c (b'.' ∷ [])
unfolding str_eq
is_dot [] = refl
is_dot (x ∷ []) = refl
is_dot (x ∷ y ∷ c) = ground arith

is_dots :
    (c : List ℕ) → (length c == 2 && str_eq c (b'.' ∷ b'.' ∷ [])) ≡ str_eq c (b'.' ∷ b'.' ∷ [])
unfolding str_eq
is_dots [] = refl
is_dots (x ∷ []) = ground arith
is_dots (x ∷ y ∷ []) = refl
is_dots (x ∷ y ∷ z ∷ c) = ground arith

is_nil : (c : List ℕ) → (length c == 0) ≡ str_eq c []
unfolding str_eq
is_nil [] = refl
is_nil (x ∷ c) = ground arith

-- The name of a component in a file control block.
abbrev pub name_at : Fcb → ℕ → Option (List ℕ)
name_at fcb k = if not (fcb.used == k) || not (fcb.drive == 0) then none else seg_of fcb

push_start-top :
    (top : List ℕ) (segs : List (List ℕ)) (text : List ℕ)
    → push_start (starts_of top segs) text
      ≡ ok (record { text = text; starts = length text ∷ starts_of top segs })
unfolding push_start
push_start-top top [] text = refl
push_start-top top (s ∷ segs) text = refl

push_start-enter :
    (size : ℕ) (v : Place) (o : Option (List ℕ))
    → (enter_text size (text_of v.top v.segs) o >>= λ t. push_start (starts_of v.top v.segs) t)
      ≡ (enter_name size o v >>= λ w. ok (buffer_of w))
push_start-enter size v none = refl
push_start-enter size v (some seg) =
    if_holds
      (λ r.
        (r >>= λ t. push_start (starts_of v.top v.segs) t)
        ≡ ((r >>= λ _. ok (record v { segs = seg ∷ v.segs })) >>= λ w. ok (buffer_of w)))
      (ltb (length (text_of v.top v.segs) + length seg) size) (ok (text_of v.top v.segs ++ seg))
      (err too_long) (λ e. push_start-top v.top v.segs (text_of v.top v.segs ++ seg)) (λ e. refl)

push_if :
    {A B : Type 0} (b : Bool) (x y : Result A) (f : A → Result B)
    → (if b then (x >>= f) else (y >>= f)) ≡ ((if b then x else y) >>= f)
push_if true x y f = refl
push_if false x y f = refl

length-span : (p : List ℕ) → length (take (span p) p) ≡ span p
length-span p = omega (arith, length-take (span p) p, span-le p)

-- No byte is the first of two.
abbrev pub single_byte : Dos → Dos
single_byte dos = record dos { dbcs = none }

-- What `_parsfnm` reads of a path is its first component, and no more.
abbrev pub ReadsNames : Dos → (List ℕ → Option (List ℕ)) → Type 0
ReadsNames dos seg = (p : List ℕ) → name_at (dos.parsfnm p) (span p) ≡ seg (take (span p) p)

module _ (dos : Dos) (seg : List ℕ → Option (List ℕ)) (reads : ReadsNames dos seg) where
  add_name-enter :
      (size k : ℕ) (path : List ℕ) (v : Place)
      → add_name (single_byte dos) size k path (buffer_of v)
        ≡ (enter_name size (name_at (dos.parsfnm path) k) v >>= λ w. ok (buffer_of w))
  unfolding add_name
  add_name-enter size k path v =
      let fcb = dos.parsfnm path in
      let text = text_of v.top v.segs in
      let added = copy_name none size fcb text >>= λ t. push_start (starts_of v.top v.segs) t in
      let left = λ (b : Bool). if b then err invalid else added in
      let right = λ (b : Bool).
        enter_name size (if b then none else seg_of fcb) v >>= λ w. ok (buffer_of w) in
      elim (Bool-cases (not (fcb.used == k) || not (fcb.drive == 0))) [
        | inl e ↦ ap left e ∙ sym (ap right e)
        | inr e ↦
            ap left e
            ∙ (ap (λ r. r >>= λ t. push_start (starts_of v.top v.segs) t)
                  (copy_name-fit size fcb text)
                ∙ (push_start-enter size v (seg_of fcb) ∙ sym (ap right e)))
      ]

  component-turn :
      (size : ℕ) (p : List ℕ) (v : Place)
      → component (single_byte dos) size (span p) p (buffer_of v)
        ≡ (turn size seg (take (span p) p) v >>= λ w. ok (buffer_of w))
  unfolding component
  component-turn size p v =
      let c = take (span p) p in
      let len = sym (length-span p) in
      let nothing = str_eq c [] || str_eq c (b'.' ∷ []) in
      let dots = str_eq c (b'.' ∷ b'.' ∷ []) in
      let named =
        add_name-enter size (span p) p v
        ∙ ap (λ o. enter_name size o v >>= λ w. ok (buffer_of w)) (reads p) in
      let test1 =
        ap (λ n. n == 0 || (n == 1 && str_eq c (b'.' ∷ []))) len
        ∙ (λ i. is_nil c i || is_dot c i) in
      let test2 = ap (λ n. n == 2 && str_eq c (b'.' ∷ b'.' ∷ [])) len ∙ is_dots c in
      (λ i.
        if test1 i
        then ok (buffer_of v)
        else if test2 i
        then go_up-leave size v.top v.segs i
        else named i)
      ∙ (ap (λ r. if nothing then (ok v >>= λ w. ok (buffer_of w)) else r)
            (push_if dots (leave size v.top v.segs) (enter_name size (seg c) v) _)
          ∙ push_if nothing (ok v) _ _)

  -- The loop visits the components in turn, and the fuel for each byte is enough.
  pub loop-visit :
      (size fuel : ℕ) (p : List ℕ) (v : Place)
      → length p ≤ fuel
      → loop (single_byte dos) size fuel p (buffer_of v)
        ≡ (visit size seg v [] p >>= λ w. ok (buffer_of w))
  unfolding loop
  loop-visit size fuel [] v h =
      unfold visit in ap (λ r. r >>= λ w. ok (buffer_of w)) (sym (turn-nil size seg v))
  loop-visit size zero (c ∷ p) v h = absurd (omega (arith, h))
  loop-visit size (suc fuel) (c ∷ p) v h =
      let k = span (c ∷ p) in
      let rest = drop (if k == 0 then 1 else k) (c ∷ p) in
      let turned = turn size seg (take k (c ∷ p)) v in
      let some_read : 1 ≤ (if k == 0 then 1 else k) = ground arith in
      let shorter : length rest ≤ fuel =
        omega (arith, h, length-drop (if k == 0 then 1 else k) (c ∷ p), some_read) in
      ap (λ r. r >>= λ next. loop (single_byte dos) size fuel rest next)
        (component-turn size (c ∷ p) v)
      ∙ (sym (>>=_assoc turned (λ w. ok (buffer_of w)) (loop (single_byte dos) size fuel rest))
          ∙ ((λ i. turned >>= λ w. loop-visit size fuel rest w shorter i)
              ∙ ((λ i. turned >>= λ w. visit-drop size seg c p w i >>= λ u. ok (buffer_of u))
                  ∙ (>>=_assoc turned (λ w. visit size seg w [] (drop k (c ∷ p)))
                        (λ u. ok (buffer_of u))
                      ∙ sym (
                          ap (λ r. r >>= λ u. ok (buffer_of u))
                            (visit-span size seg (c ∷ p) [] v))))))
