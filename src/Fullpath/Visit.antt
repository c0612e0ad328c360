-- ===== src/Fullpath/Visit.antt =====
-- What a path does to a stack of components, visited one after the other.
use libi.Base.{
  ℕ, suc, ◌≤◌, ◌≡◌, refl, sym, ap, ◌∙◌, Bool, true, false, ◌||◌, Option, none, some, List, [], ◌∷◌,
  ◌++◌, arith, append-nil, append_assoc, inl, inr,
}
use libi.Base.{length, take, drop, ◌==◌, if◌then◌else◌, if_holds, Bool-cases, str_eq}
use libi.Path.Chars.{path_sep_p, dbcs_lead_p}
use libi.Fullpath.{Result, ok, err, ◌>>=◌, invalid, dbcs_strcspn}
use libi.Fullpath.Stack.{Place, enter, leave}

abbrev pub span : List ℕ → ℕ
span = dbcs_strcspn none

-- A name, where there is one.
abbrev pub enter_name : ℕ → Option (List ℕ) → Place → Result Place
enter_name size none v = err invalid
enter_name size (some seg) v = enter size seg v

-- One component, with what its name gives.
abbrev pub turn : ℕ → (List ℕ → Option (List ℕ)) → List ℕ → Place → Result Place
turn size seg c v =
    if str_eq c [] || str_eq c (b'.' ∷ [])
    then ok v
    else if str_eq c (b'.' ∷ b'.' ∷ [])
    then leave size v.top v.segs
    else enter_name size (seg c) v

-- All components of a path in turn, where `c` is what has been read of the next one.
unfoldable pub visit : ℕ → (List ℕ → Option (List ℕ)) → Place → List ℕ → List ℕ → Result Place
visit size seg v c [] = turn size seg c v
visit size seg v c (d ∷ path) =
    if path_sep_p d
    then (turn size seg c v >>= λ w. visit size seg w [] path)
    else visit size seg v (c ++ (d ∷ [])) path

span-cons : (c : ℕ) (p : List ℕ) → span (c ∷ p) ≡ (if path_sep_p c then 0 else suc (span p))
unfolding dbcs_strcspn dbcs_lead_p
span-cons c [] = refl
span-cons c (d ∷ p) = refl

pub span-le : (p : List ℕ) → span p ≤ length p
unfolding dbcs_strcspn
span-le [] = omega arith
span-le (c ∷ p) = rw (span-cons c p) (
    if_holds (λ n. n ≤ suc (length p)) (path_sep_p c) 0 (suc (span p)) (λ e. omega arith)
      (λ e. omega (arith, span-le p)))

>>=-ok : {A : Type 0} (m : Result A) → (m >>= λ a. ok a) ≡ m
>>=-ok (ok a) = refl
>>=-ok (err e) = refl

pub turn-nil : (size : ℕ) (seg : List ℕ → Option (List ℕ)) (v : Place) → turn size seg [] v ≡ ok v
unfolding str_eq
turn-nil size seg v = refl

visit-sep :
    (size : ℕ) (seg : List ℕ → Option (List ℕ)) (v : Place) (c : ℕ) (p : List ℕ)
    → path_sep_p c ≡ true
    → visit size seg v [] (c ∷ p) ≡ visit size seg v [] p
unfolding visit str_eq
visit-sep size seg v c p e =
    ap (λ b. if b then visit size seg v [] p else visit size seg v (c ∷ []) p) e

-- A path is its first component and the rest.
pub visit-span :
    (size : ℕ) (seg : List ℕ → Option (List ℕ)) (p : List ℕ) (c : List ℕ) (v : Place)
    → visit size seg v c p
      ≡ (turn size seg (c ++ take (span p) p) v >>= λ w. visit size seg w [] (drop (span p) p))
unfolding visit
visit-span size seg [] c v =
    unfold dbcs_strcspn in
    sym (
      (λ i. turn size seg (append-nil c i) v >>= λ w. turn-nil size seg w i)
      ∙ >>=-ok (turn size seg c v))
visit-span size seg (d ∷ p) c v =
    let parts = λ (n : ℕ).
      turn size seg (c ++ take n (d ∷ p)) v >>= λ w. visit size seg w [] (drop n (d ∷ p)) in
    let branches = λ (b : Bool).
      if b
      then (turn size seg c v >>= λ w. visit size seg w [] p)
      else visit size seg v (c ++ (d ∷ [])) p in
    let ih = visit-span size seg p (c ++ (d ∷ [])) v in
    elim (Bool-cases (path_sep_p d)) [
      | inl e ↦
          ap branches e
          ∙ (sym (λ i. turn size seg (append-nil c i) v >>= λ w. visit-sep size seg w d p e i)
              ∙ sym (ap parts (span-cons d p ∙ ap (λ b. if b then 0 else suc (span p)) e)))
      | inr e ↦
          ap branches e
          ∙ (ih
              ∙ (ap (λ t. turn size seg t v >>= λ w. visit size seg w [] (drop (span p) p))
                    (append_assoc c (d ∷ []) (take (span p) p))
                  ∙ sym (ap parts (span-cons d p ∙ ap (λ b. if b then 0 else suc (span p)) e))))
    ]

pub visit-drop :
    (size : ℕ) (seg : List ℕ → Option (List ℕ)) (c : ℕ) (p : List ℕ) (v : Place)
    → visit size seg v [] (drop (if span (c ∷ p) == 0 then 1 else span (c ∷ p)) (c ∷ p))
      ≡ visit size seg v [] (drop (span (c ∷ p)) (c ∷ p))
visit-drop size seg c p v =
    let past = λ (n : ℕ). visit size seg v [] (drop (if n == 0 then 1 else n) (c ∷ p)) in
    let here = λ (n : ℕ). visit size seg v [] (drop n (c ∷ p)) in
    elim (Bool-cases (path_sep_p c)) [
      | inl e ↦
          let none_read = span-cons c p ∙ ap (λ b. if b then 0 else suc (span p)) e in
          ap past none_read ∙ (sym (visit-sep size seg v c p e) ∙ sym (ap here none_read))
      | inr e ↦
          let read = span-cons c p ∙ ap (λ b. if b then 0 else suc (span p)) e in
          let not_zero : (suc (span p) == 0) ≡ false = ground arith in
          ap past read
          ∙ (ap (λ b. here (if b then 1 else suc (span p))) not_zero ∙ sym (ap here read))
    ]
