-- ===== src/Process/Cmdline/Words.antt =====
-- The command line for a Unix shell can be decoded: it is that of one list of arguments. The
-- decoder undoes what `direct_spawn` writes, and is no model of a shell.
use libi.Base.{ℕ, ◌≡◌, ap, refl, ◌∙◌, sym, Bool, true, false, ◌||◌, not}
use libi.Base.{◌⊎◌, none, some, List, [], ◌∷◌, ◌++◌, append-nil, append_assoc, arith, inl, inr}
use libi.Base.{All, ◌==◌, if◌then◌else◌, Bool-cases}
use libi.Path.Chars.{dbcs_lead_p}
use libi.Process.Cmdline.{bare, blank, none_of, escaped, layout}
use libi.Process.Cmdline.Fit.{fits, quoted, arg_text, args_text, layout-eq-fits}

-- Between words, in a word, between double quotes, and there behind a backslash, with the part
-- of the word that has been read.
pub data Reader : Type 0 where
  gap : Reader
  word quote escape : List ℕ → Reader

-- The next state, and the word that ends here.
unfoldable pub decode_step : Reader → ℕ → Reader × List (List ℕ)
unfolding blank
decode_step gap c =
    if blank c then (gap, []) else if c == b'"' then (quote [], []) else (word (c ∷ []), [])
decode_step (word w) c =
    if blank c
    then (gap, w ∷ [])
    else if c == b'"'
    then (quote w, [])
    else (word (w ++ (c ∷ [])), [])
decode_step (quote w) c =
    if c == b'"'
    then (word w, [])
    else if c == 0x5c
    then (escape w, [])
    else (quote (w ++ (c ∷ [])), [])
decode_step (escape w) c =
    if c == b'"' || c == 0x5c
    then (quote (w ++ (c ∷ [])), [])
    else (quote (w ++ (0x5c ∷ c ∷ [])), [])

unfoldable pub flush : Reader → List (List ℕ)
flush gap = []
flush (word w) = w ∷ []
flush (quote w) = w ∷ []
flush (escape w) = w ∷ []

unfoldable pub decode : Reader → List ℕ → List (List ℕ)
unfolding decode_step flush
decode s [] = flush s
decode s (c ∷ t) = (decode_step s c).1 ++ decode ((decode_step s c).0) t

-- Neither a quotation mark nor a backslash.
unfoldable pub tame : ℕ → Bool
tame c = not (c == b'"' || c == 0x5c)

-- An argument that is written in quotes, or has nothing in it that an escape is for.
abbrev pub Faithful : List ℕ → Type 0
Faithful p = (bare blank p ≡ false) ⊎ All (λ c. tame c ≡ true) p

quote-char :
    (w : List ℕ) (c : ℕ) (r : List ℕ)
    → decode (quote w) (if escaped true c then 0x5c ∷ c ∷ r else c ∷ r)
      ≡ decode (quote (w ++ (c ∷ []))) r
unfolding decode decode_step escaped
quote-char w c r = ground arith

no_lead : (b : Bool) → (if b then false else false) ≡ false
no_lead true = refl
no_lead false = refl

escape-append :
    (b : Bool) (c : ℕ) (q r : List ℕ)
    → (if b then 0x5c ∷ c ∷ q else c ∷ q) ++ r ≡ (if b then 0x5c ∷ c ∷ (q ++ r) else c ∷ (q ++ r))
escape-append true c q r = refl
escape-append false c q r = refl

-- A word that has taken `c` has taken the rest after it.
take-char : (w : List ℕ) (c : ℕ) (p : List ℕ) → (w ++ (c ∷ [])) ++ p ≡ w ++ (c ∷ p)
take-char w c p = append_assoc w (c ∷ []) p

quote-quoted :
    (w p r : List ℕ) → decode (quote w) (quoted none true false p ++ r) ≡ decode (quote (w ++ p)) r
unfolding quoted dbcs_lead_p
quote-quoted w [] r = rw (append-nil w)
quote-quoted w (c ∷ p) r = rw (no_lead (c == b'"' || c == 0x5c)) (
    ap (λ t. decode (quote w) t) (escape-append (escaped true c) c (quoted none true false p) r)
    ∙ (quote-char w c (quoted none true false p ++ r)
        ∙ (quote-quoted (w ++ (c ∷ [])) p r ∙ ap (λ v. decode (quote v) r) (take-char w c p))))

word-char :
    (w : List ℕ) (c : ℕ) (r : List ℕ)
    → blank c ≡ false
    → tame c ≡ true
    → decode (word w) (c ∷ r) ≡ decode (word (w ++ (c ∷ []))) r
unfolding decode decode_step tame
word-char w c r h k = ground (arith, h, k)

gap-char :
    (c : ℕ) (r : List ℕ)
    → blank c ≡ false
    → tame c ≡ true
    → decode gap (c ∷ r) ≡ decode (word (c ∷ [])) r
unfolding decode decode_step tame
gap-char c r h k = ground (arith, h, k)

none_of_head : (c : ℕ) (p : List ℕ) → none_of blank (c ∷ p) ≡ true → blank c ≡ false
unfolding none_of
none_of_head c p h = ground (arith, h)

none_of_tail : (c : ℕ) (p : List ℕ) → none_of blank (c ∷ p) ≡ true → none_of blank p ≡ true
unfolding none_of
none_of_tail c p h = ground (arith, h)

word-bare :
    (w p r : List ℕ)
    → none_of blank p ≡ true
    → All (λ c. tame c ≡ true) p
    → decode (word w) (p ++ r) ≡ decode (word (w ++ p)) r
word-bare w [] r h k = rw (append-nil w)
word-bare w (c ∷ p) r h (k, ks) =
    word-char w c (p ++ r) (none_of_head c p h) k
    ∙ (word-bare (w ++ (c ∷ [])) p r (none_of_tail c p h) ks
        ∙ ap (λ v. decode (word v) r) (take-char w c p))

gap-bare :
    (p r : List ℕ)
    → bare blank p ≡ true
    → All (λ c. tame c ≡ true) p
    → decode gap (p ++ r) ≡ decode (word p) r
unfolding bare
gap-bare [] r h k = absurd (ground (arith, h))
gap-bare (c ∷ p) r h (k, ks) =
    gap-char c (p ++ r) (none_of_head c p h) k ∙ word-bare (c ∷ []) p r (none_of_tail c p h) ks

gap-quoted :
    (p r : List ℕ)
    → decode gap ((b'"' ∷ (quoted none true false p ++ (b'"' ∷ []))) ++ r) ≡ decode (word p) r
unfolding decode decode_step
gap-quoted p r =
    ap (λ t. decode (quote []) t) (append_assoc (quoted none true false p) (b'"' ∷ []) r)
    ∙ quote-quoted [] p (b'"' ∷ r)

gap-arg : (p r : List ℕ) → Faithful p → decode gap (arg_text none true p ++ r) ≡ decode (word p) r
unfolding arg_text
gap-arg p r h = elim (Bool-cases (bare blank p)) [
  | inl e ↦ elim h [ inl k ↦ absurd (ground (arith, e, k)) | inr k ↦ rw e (gap-bare p r e k) ]
  | inr e ↦ rw e (gap-quoted p r)
]

-- Between arguments the reader is at a gap, or in the word that the last argument gave.
abbrev Between : Reader → Type 0
Between gap = Unit
Between (word w) = Unit
Between (quote w) = ⊥
Between (escape w) = ⊥

words-args :
    (s : Reader) (args : List (List ℕ))
    → Between s
    → All Faithful args
    → decode s (args_text none true args) ≡ flush s ++ args
unfolding decode args_text flush decode_step blank
words-args gap [] h k = refl
words-args gap (p ∷ args) h (k, ks) =
    gap-arg p (args_text none true args) k ∙ words-args (word p) args tt ks
words-args (word w) [] h k = refl
words-args (word w) (p ∷ args) h (k, ks) =
    ap (λ ws. w ∷ ws) (gap-arg p (args_text none true args) k ∙ words-args (word p) args tt ks)
words-args (quote w) args h k = absurd h
words-args (escape w) args h k = absurd h

some-fits : (t text : List ℕ) → fits t ≡ some text → t ≡ text
some-fits t text h = ground (arith, h)

-- The decoder gives the arguments of a command line.
pub decode-layout :
    (args : List (List ℕ)) (text : List ℕ)
    → All Faithful args
    → layout none false false true args ≡ some text
    → decode gap text ≡ args
decode-layout args text h k =
    ap (λ t. decode gap t)
      (sym (
        some-fits (args_text none true args) text
          (sym (layout-eq-fits none false false true args (inr refl)) ∙ k)))
    ∙ (words-args gap args tt h ∙ unfold flush in refl)
