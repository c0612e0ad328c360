-- ===== src/Console/Text.antt =====
-- What `cputs` writes.
use libi.Base.{ℕ, ◌≡◌, refl, sym, ap, ◌∙◌, Bool, true, false, Option, none, some, arith, All}
use libi.Base.{List, [], ◌∷◌, ◌++◌, length, append_assoc, ◌==◌, if◌then◌else◌, if_holds}
use libi.Console.{chunks, joined, write_all, cputs_text, cputs, written}

-- A text with carriage returns before its line feeds.
unfoldable pub crlf : List ℕ → List ℕ
crlf [] = []
crlf (c ∷ text) = let rest = crlf text in if c == 10 then 13 ∷ 10 ∷ rest else c ∷ rest

joined-chunks : (text out : List ℕ) → joined (chunks out text) ≡ out ++ crlf text
unfolding chunks crlf joined
joined-chunks [] out = refl
joined-chunks (c ∷ text) out =
    let left = λ (b : Bool).
      joined (if b then out ∷ (13 ∷ 10 ∷ []) ∷ chunks [] text else chunks (out ++ (c ∷ [])) text) in
    let right = λ (b : Bool). out ++ (if b then 13 ∷ 10 ∷ crlf text else c ∷ crlf text) in
    if_holds (λ (b : Bool). left (c == 10) ≡ right (c == 10)) (c == 10) true false
      (λ e. ap left e ∙ (ap (λ t. out ++ (13 ∷ 10 ∷ t)) (joined-chunks text []) ∙ sym (ap right e)))
      (λ e.
        ap left e
        ∙ (joined-chunks text (out ++ (c ∷ []))
            ∙ (append_assoc out (c ∷ []) (crlf text) ∙ sym (ap right e))))

-- Every write is whole.
abbrev pub Whole : (List ℕ → Option ℕ) → List (List ℕ) → Type 0
Whole write cs = All (λ c. write c ≡ some (length c)) cs

written-some : (r : Option ℕ) (len : ℕ) → written r len ≡ true → r ≡ some len
unfolding written
written-some none len h = absurd (ground (arith, h))
written-some (some n) len h = ap some (ground (arith, h))

some-written : (r : Option ℕ) (len : ℕ) → r ≡ some len → written r len ≡ true
unfolding written
some-written r len h = ap (λ q. written q len) h ∙ ground arith

write_all-Whole :
    (write : List ℕ → Option ℕ) (cs : List (List ℕ)) → write_all write cs ≡ true → Whole write cs
unfolding write_all
write_all-Whole write [] h = tt
write_all-Whole write (c ∷ cs) h =
    if_holds (λ (b : Bool). (b ≡ true) → Whole write (c ∷ cs)) (written (write c) (length c)) _ _
      (λ e k. (written-some (write c) (length c) e, write_all-Whole write cs k))
      (λ e k. absurd (ground (arith, k))) h

Whole-write_all :
    (write : List ℕ → Option ℕ) (cs : List (List ℕ)) → Whole write cs → write_all write cs ≡ true
unfolding write_all
Whole-write_all write [] h = refl
Whole-write_all write (c ∷ cs) (h, hs) =
    ap (λ b. if b then write_all write cs else false) (some-written (write c) (length c) h)
    ∙ Whole-write_all write cs hs

-- `cputs` returns 0 exactly where each of its calls of `write` takes all that it is given, and
-- these calls are given the text with a carriage return before each line feed.
cputs-crlf :
    (write : List ℕ → Option ℕ) (text : List ℕ)
    → (cputs_text text ≡ crlf text)
      × ((cputs write text ≡ true → Whole write (chunks [] text))
          × (Whole write (chunks [] text) → cputs write text ≡ true))
unfolding cputs cputs_text
cputs-crlf write text = (
  joined-chunks text [],
  (write_all-Whole write (chunks [] text), Whole-write_all write (chunks [] text)),
)
