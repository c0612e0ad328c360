-- ===== src/Fullpath/Copies.antt =====
-- How much the loop of `_fullpath` writes.
use libi.Base.{ℕ, zero, suc, ◌-◌, ◌≤◌, ◌&&◌, ◌||◌, not, List, [], ◌∷◌, arith}
use libi.Base.{length, take, leb, ◌==◌, if_holds, length-append, length-take, str_eq}
use libi.Fullpath.{
  Result, ok, err, ◌>>=◌, Dos, Buffer, copy_chrs, copy_name, go_up, push_start, add_name, field_len,
  component, loop, dbcs_strcspn,
}

-- The text of a result is within a size.
abbrev pub Within : ℕ → Result (List ℕ) → Type 0
Within size (ok text) = length text ≤ size
Within size (err e) = Unit

abbrev pub Holds : ℕ → Result Buffer → Type 0
Holds size (ok buf) = length buf.text ≤ size
Holds size (err e) = Unit

>>=-Within :
    (size : ℕ) (r : Result (List ℕ)) (f : List ℕ → Result (List ℕ))
    → Within size r
    → ((text : List ℕ) → length text ≤ size → Within size (f text))
    → Within size (r >>= f)
>>=-Within size (ok text) f h k = k text h
>>=-Within size (err e) f h k = tt

>>=-Holds :
    (size : ℕ) (r : Result (List ℕ)) (f : List ℕ → Result Buffer)
    → Within size r
    → ((text : List ℕ) → length text ≤ size → Holds size (f text))
    → Holds size (r >>= f)
>>=-Holds size (ok text) f h k = k text h
>>=-Holds size (err e) f h k = tt

next-Holds :
    (size : ℕ) (r : Result Buffer) (f : Buffer → Result Buffer)
    → Holds size r
    → ((buf : Buffer) → length buf.text ≤ size → Holds size (f buf))
    → Holds size (r >>= f)
next-Holds size (ok buf) f h k = k buf h
next-Holds size (err e) f h k = tt

copy_chrs-Within : (size : ℕ) (chrs text : List ℕ) → Within size (copy_chrs size chrs text)
unfolding copy_chrs
copy_chrs-Within size chrs text =
    if_holds (Within size) (leb size (length chrs) || leb (size - length chrs) (length text)) _ _
      (λ e. tt) (λ e. ground (arith, e, length-append text chrs))

copy_name-Within :
    (dos : Dos) (size : ℕ) (path text : List ℕ)
    → length text ≤ size
    → Within size (copy_name dos.dbcs size (dos.parsfnm path) text)
unfolding copy_name
copy_name-Within dos size path text h =
    let fcb = dos.parsfnm path in
    let name = take (field_len dos.dbcs 0 0 fcb.name) fcb.name in
    let ext = take (field_len dos.dbcs 0 0 fcb.ext) fcb.ext in
    if_holds (Within size) (field_len dos.dbcs 0 0 fcb.name == 0) _ _ (λ e. tt)
      (λ e. >>=-Within size (copy_chrs size name text) _ (copy_chrs-Within size name text) (λ t k.
        >>=-Within size _ _
          (if_holds (Within size) (field_len dos.dbcs 0 0 fcb.ext == 0) _ _ (λ e'. k)
            (λ e'.
              >>=-Within size (copy_chrs size (b'.' ∷ []) t) _ (copy_chrs-Within size (b'.' ∷ []) t)
                (λ d k'. copy_chrs-Within size ext d)))
          (λ u k'. copy_chrs-Within size (0x5c ∷ []) u)))

push_start-Holds :
    (size : ℕ) (starts text : List ℕ) → length text ≤ size → Holds size (push_start starts text)
unfolding push_start
push_start-Holds size [] text h = tt
push_start-Holds size (s ∷ starts) text h = h

go_up-Holds :
    (size : ℕ) (starts text : List ℕ) → length text ≤ size → Holds size (go_up size starts text)
unfolding go_up
go_up-Holds size [] text h = tt
go_up-Holds size (s ∷ []) text h =
    >>=-Holds size (copy_chrs size (b'.' ∷ b'.' ∷ 0x5c ∷ []) (take s text)) _
      (copy_chrs-Within size (b'.' ∷ b'.' ∷ 0x5c ∷ []) (take s text)) (λ t k. k)
go_up-Holds size (s ∷ s' ∷ starts) text h = omega (arith, h, length-take s' text)

module _ (dos : Dos) where
  add_name-Holds :
      (size k : ℕ) (path : List ℕ) (buf : Buffer)
      → length buf.text ≤ size
      → Holds size (add_name dos size k path buf)
  unfolding add_name
  add_name-Holds size k path buf h =
      let fcb = dos.parsfnm path in
      if_holds (Holds size) (not (fcb.used == k) || not (fcb.drive == 0)) _ _ (λ e. tt)
        (λ e.
          >>=-Holds size (copy_name dos.dbcs size fcb buf.text) _
            (copy_name-Within dos size path buf.text h)
            (λ t k'. push_start-Holds size buf.starts t k'))

  component-Holds :
      (size k : ℕ) (path : List ℕ) (buf : Buffer)
      → length buf.text ≤ size
      → Holds size (component dos size k path buf)
  unfolding component
  component-Holds size k path buf h =
      if_holds (Holds size) (k == 0 || (k == 1 && str_eq (take k path) (b'.' ∷ []))) _ _ (λ e. h)
        (λ e.
          if_holds (Holds size) (k == 2 && str_eq (take k path) (b'.' ∷ b'.' ∷ [])) _ _
            (λ e'. go_up-Holds size buf.starts buf.text h) (λ e'. add_name-Holds size k path buf h))

  pub loop-Holds :
      (size fuel : ℕ) (path : List ℕ) (buf : Buffer)
      → length buf.text ≤ size
      → Holds size (loop dos size fuel path buf)
  unfolding loop
  loop-Holds size fuel [] buf h = h
  loop-Holds size zero (c ∷ path) buf h = tt
  loop-Holds size (suc fuel) (c ∷ path) buf h =
      next-Holds size (component dos size (dbcs_strcspn dos.dbcs (c ∷ path)) (c ∷ path) buf) _
        (component-Holds size (dbcs_strcspn dos.dbcs (c ∷ path)) (c ∷ path) buf h)
        (λ next k. loop-Holds size fuel _ next k)
