-- ===== src/Errors/Messages.antt =====
-- Messages on the standard error: common/err/vwarn.c and vwarnx.c. The text that the C library
-- makes of the format and the arguments is given, `none` for a null format, and what `strerror`
-- says of errno.
use libi.Base.{ℕ, ◌≡◌, sym, ap, append_assoc, Option, none, some, List, [], ◌∷◌, ◌++◌}

abbrev colon : List ℕ
colon = b':' ∷ b' ' ∷ []

-- `_vwarnx`
unfoldable pub vwarnx : List ℕ → Option (List ℕ) → List ℕ
vwarnx progname none = progname ++ (colon ++ (10 ∷ []))
vwarnx progname (some text) = progname ++ (colon ++ (text ++ (10 ∷ [])))

-- `_vwarn`
unfoldable pub vwarn : List ℕ → Option (List ℕ) → List ℕ → List ℕ
vwarn progname none message = progname ++ (colon ++ (message ++ (10 ∷ [])))
vwarn progname (some text) message =
    progname ++ (colon ++ (text ++ (colon ++ (message ++ (10 ∷ [])))))

-- A warning with errno is one without it, for the text with the message of errno behind.
vwarn-vwarnx :
    (progname text message : List ℕ)
    → vwarn progname (some text) message ≡ vwarnx progname (some (text ++ (colon ++ message)))
unfolding vwarn vwarnx
vwarn-vwarnx progname text message =
    ap (λ t. progname ++ (colon ++ t)) (sym (append_assoc text (colon ++ message) (10 ∷ [])))
