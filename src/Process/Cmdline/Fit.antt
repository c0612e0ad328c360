-- ===== src/Process/Cmdline/Fit.antt =====
-- The command line for a program that is not a DOS shell, and a special "/c" command: the exact
-- text, if it fits, and E2BIG if it does not.
use libi.Base.{ℕ, ◌≤◌, ◌≡◌, ap, ◌∙◌, sym, Bool, true, false, ◌||◌}
use libi.Base.{
  ◌⊎◌, Option, none, some, List, [], ◌∷◌, ◌++◌, append-nil, append_assoc, arith, inl, inr,
}
use libi.Base.{length, length-append, ltb, ◌==◌, if◌then◌else◌, Bool-cases, ltb_of_lt, ltb_of_le}
use libi.Path.Chars.{LeadTable, dbcs_lead_p}
use libi.Process.Cmdline.{◌>>=◌, copy, copy1, bare, blank, escaped, quote_loop, put_arg}
use libi.Process.Cmdline.{put_args, put_raw_args, layout}

-- A text of 126 bytes at most has room in `argb`, between the length and the carriage return.
abbrev pub fits : List ℕ → Option (List ℕ)
fits text = if ltb 126 (length text) then none else some text

-- The characters between the quotes: a backslash before a quotation mark, and for a Unix shell
-- before a backslash, the bytes of double-byte characters left as they are.
unfoldable pub quoted : LeadTable → Bool → Bool → List ℕ → List ℕ
unfolding escaped
quoted dbcs unix_shell lead [] = []
quoted dbcs unix_shell true (c ∷ p) = c ∷ quoted dbcs unix_shell false p
quoted dbcs unix_shell false (c ∷ p) =
    let rest =
      quoted dbcs unix_shell (if c == b'"' || c == 0x5c then false else dbcs_lead_p c dbcs) p in
    if escaped unix_shell c then 0x5c ∷ c ∷ rest else c ∷ rest

unfoldable pub arg_text : LeadTable → Bool → List ℕ → List ℕ
unfolding quoted bare blank
arg_text dbcs unix_shell p =
    if bare blank p then p else (b'"' ∷ []) ++ (quoted dbcs unix_shell false p ++ (b'"' ∷ []))

unfoldable pub args_text : LeadTable → Bool → List (List ℕ) → List ℕ
unfolding arg_text
args_text dbcs unix_shell [] = []
args_text dbcs unix_shell (p ∷ pp) =
    ((b' ' ∷ []) ++ arg_text dbcs unix_shell p) ++ args_text dbcs unix_shell pp

unfoldable pub raw_text : List (List ℕ) → List ℕ
raw_text [] = []
raw_text (p ∷ pp) = (b' ' ∷ []) ++ (p ++ raw_text pp)

abbrev Writes : (List ℕ → Option (List ℕ)) → List ℕ → Type 0
Writes f text = (out : List ℕ) → length out ≤ 126 → f out ≡ fits (out ++ text)

fits_long : (text : List ℕ) → 127 ≤ length text → fits text ≡ none
fits_long text h = ap (λ b. if b then none else some text) (ltb_of_lt 126 (length text) h)

fits_short : (text : List ℕ) → length text ≤ 126 → fits text ≡ some text
fits_short text h = ap (λ b. if b then none else some text) (ltb_of_le 126 (length text) h)

pub fits_text : (t text : List ℕ) → fits t ≡ some text → (text ≡ t) × (length text ≤ 126)
fits_text t text h = ground (arith, h)

copy1-Writes : (c : ℕ) → Writes (λ out. copy1 out c) (c ∷ [])
unfolding copy1
copy1-Writes c out h = ground (arith, length-append out (c ∷ []))

copy-Writes : (chrs : List ℕ) → Writes (λ out. copy out chrs) chrs
unfolding copy
copy-Writes chrs out h = ground (arith, length-append out chrs)

skip-Writes : Writes some []
skip-Writes out h = rw (append-nil out, fits_short out h)

bind-Writes :
    (f g : List ℕ → Option (List ℕ)) (a b : List ℕ)
    → Writes f a
    → Writes g b
    → Writes (λ out. f out >>= g) (a ++ b)
bind-Writes f g a b hf hg out h = elim (Bool-cases (ltb 126 (length (out ++ a)))) [
  | inl e ↦
      ap (λ o. o >>= g) (hf out h ∙ fits_long (out ++ a) (ground (arith, e)))
      ∙ sym (
          fits_long (out ++ (a ++ b))
            (ground (arith, e, length-append out (a ++ b), length-append a b, length-append out a)))
  | inr e ↦
      ap (λ o. o >>= g) (hf out h ∙ fits_short (out ++ a) (ground (arith, e)))
      ∙ (hg (out ++ a) (ground (arith, e)) ∙ ap fits (append_assoc out a b))
]

escape-Writes :
    (b : Bool) (g : List ℕ → Option (List ℕ)) (r : List ℕ)
    → Writes g r
    → Writes (λ out. (if b then copy1 out 0x5c else some out) >>= g) (if b then 0x5c ∷ r else r)
escape-Writes true g r h = bind-Writes _ _ _ _ (copy1-Writes 0x5c) h
escape-Writes false g r h = h

quote_loop-Writes :
    (dbcs : LeadTable) (unix_shell lead : Bool) (p : List ℕ)
    → Writes (λ out. quote_loop dbcs unix_shell lead out p) (quoted dbcs unix_shell lead p)
unfolding quote_loop quoted
quote_loop-Writes dbcs unix_shell lead [] = skip-Writes
quote_loop-Writes dbcs unix_shell true (c ∷ p) =
    bind-Writes _ _ _ _ (copy1-Writes c) (quote_loop-Writes dbcs unix_shell false p)
quote_loop-Writes dbcs unix_shell false (c ∷ p) =
    escape-Writes (escaped unix_shell c) _ _
      (bind-Writes _ _ _ _ (copy1-Writes c) (quote_loop-Writes dbcs unix_shell _ p))

quote-Writes :
    (dbcs : LeadTable) (unix_shell b : Bool) (p : List ℕ)
    → Writes
        (λ out.
          if b
          then copy out p
          else (copy1 out b'"' >>= λ o.
              quote_loop dbcs unix_shell false o p >>= λ o'. copy1 o' b'"'))
        (if b then p else (b'"' ∷ []) ++ (quoted dbcs unix_shell false p ++ (b'"' ∷ [])))
quote-Writes dbcs unix_shell true p = copy-Writes p
quote-Writes dbcs unix_shell false p =
    bind-Writes _ _ _ _ (copy1-Writes b'"')
      (bind-Writes _ _ _ _ (quote_loop-Writes dbcs unix_shell false p) (copy1-Writes b'"'))

arg-Writes :
    (dbcs : LeadTable) (unix_shell : Bool) (p : List ℕ)
    → Writes (λ out. put_arg dbcs unix_shell out p) ((b' ' ∷ []) ++ arg_text dbcs unix_shell p)
unfolding put_arg arg_text
arg-Writes dbcs unix_shell p =
    bind-Writes _ _ _ _ (copy1-Writes b' ') (quote-Writes dbcs unix_shell (bare blank p) p)

args-Writes :
    (dbcs : LeadTable) (unix_shell : Bool) (pp : List (List ℕ))
    → Writes (λ out. put_args dbcs unix_shell out pp) (args_text dbcs unix_shell pp)
unfolding put_args args_text
args-Writes dbcs unix_shell [] = skip-Writes
args-Writes dbcs unix_shell (p ∷ pp) =
    bind-Writes _ _ _ _ (arg-Writes dbcs unix_shell p) (args-Writes dbcs unix_shell pp)

raw-Writes : (pp : List (List ℕ)) → Writes (λ out. put_raw_args out pp) (raw_text pp)
unfolding put_raw_args raw_text
raw-Writes [] = skip-Writes
raw-Writes (p ∷ pp) =
    bind-Writes _ _ _ _ (copy1-Writes b' ') (bind-Writes _ _ _ _ (copy-Writes p) (raw-Writes pp))

-- For a program that is not a DOS shell, or a special "/c" command for a DOS shell, the
-- arguments are laid out as a blank before each, quoted where one is empty or has a blank or a
-- tab and this is not a special command; a text of more than 126 bytes is E2BIG.
pub layout-eq-fits :
    (dbcs : LeadTable) (opt_c_special dos_shell unix_shell : Bool) (args : List (List ℕ))
    → (opt_c_special ≡ true) ⊎ (dos_shell ≡ false)
    → layout dbcs opt_c_special dos_shell unix_shell args
      ≡ fits (if opt_c_special then raw_text args else args_text dbcs unix_shell args)
unfolding layout
layout-eq-fits dbcs true dos_shell unix_shell args h = raw-Writes args [] (omega arith)
layout-eq-fits dbcs false true unix_shell args (inl h) = absurd (ground (arith, h))
layout-eq-fits dbcs false true unix_shell args (inr h) = absurd (ground (arith, h))
layout-eq-fits dbcs false false unix_shell args h =
    args-Writes dbcs unix_shell args [] (omega arith)
