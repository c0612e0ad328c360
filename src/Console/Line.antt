-- ===== src/Console/Line.antt =====
-- What is read from the keyboard.
use libi.Base.{
  ℕ, suc, zero, ◌+◌, ◌-◌, ◌≤◌, ◌<◌, ◌≡◌, refl, sym, ap, ◌∙◌, Bool, true, false, ◌&&◌, ◌||◌, not,
  Option, none, some, arith,
}
use libi.Base.{
  List, [], ◌∷◌, ◌++◌, All, length, length-append, take, ltb_of_lt, ltb_of_le, append-nil,
  append_assoc, ltb, ◌==◌, if◌then◌else◌, if_holds,
}
use libi.Console.{
  iscntrl, but_last, rub, Input, key_step, line_loop, no_input, Got, invalid, end_of_file, line,
  finish_line, cgets, getpass, cputs_text,
}

-- A text within a limit that has no control characters.
abbrev pub Clean : ℕ → List ℕ → Type 0
Clean len text = (length text ≤ len) × All (λ c. iscntrl c ≡ false) text

All-append :
    (xs : List ℕ) (c : ℕ)
    → All (λ c. iscntrl c ≡ false) xs
    → iscntrl c ≡ false
    → All (λ c. iscntrl c ≡ false) (xs ++ (c ∷ []))
All-append [] c h k = (k, tt)
All-append (x ∷ xs) c (h, hs) k = (h, All-append xs c hs k)

but_last-Clean : (len : ℕ) (text : List ℕ) → Clean len text → Clean len (but_last text)
unfolding but_last
but_last-Clean len [] h = h
but_last-Clean len (c ∷ []) (h, k) = (omega arith, tt)
but_last-Clean zero (c ∷ d ∷ text) (h, k) = absurd (omega (arith, h))
but_last-Clean (suc len) (c ∷ d ∷ text) (h, (k, ks)) =
    let rest = but_last-Clean len (d ∷ text) (omega (arith, h), ks) in
    (omega (arith, rest.0), (k, rest.1))

rub-Clean :
    (len : ℕ) (echoes : Bool) (typed : List ℕ) (s : Input)
    → Clean len typed
    → Clean len s.typed
    → Clean len ((rub echoes typed s).typed)
unfolding rub
rub-Clean len echoes [] s h k = k
rub-Clean len echoes (c ∷ cs) s h k = but_last-Clean len (c ∷ cs) h

key_step-Clean :
    (len : ℕ) (echoes : Bool) (ch : ℕ) (s : Input)
    → Clean len s.typed
    → Clean len ((key_step len echoes ch s).typed)
unfolding key_step
key_step-Clean len echoes ch s h =
    if_holds (λ w. Clean len (Input.typed w)) (ch == 8) _ _
      (λ e. rub-Clean len echoes s.typed s h h)
      (λ e.
        if_holds (λ w. Clean len (Input.typed w)) (ltb (length s.typed) len && not (iscntrl ch)) _ _
          (λ k. (
            ground (arith, h, k, length-append s.typed (ch ∷ [])),
            All-append s.typed ch h.1 (ground (arith, k)),
          ))
          (λ k. h))

line_loop-Clean :
    (len : ℕ) (echoes : Bool) (keys : List ℕ) (skip : Bool) (s : Input)
    → Clean len s.typed
    → Clean len ((line_loop len echoes skip s keys).1.typed)
unfolding line_loop
line_loop-Clean len echoes [] skip s h = h
line_loop-Clean len echoes (ch ∷ keys) skip s h =
    if_holds (λ (r : Bool × Input). Clean len (Input.typed r.1)) (not skip && ch == 13) _ _ (λ e. h)
      (λ e. line_loop-Clean len echoes keys (not skip && ch == 0) _ (
        if_holds (λ w. Clean len (Input.typed w)) (skip || ch == 0) _ _ (λ k. h)
          (λ k. key_step-Clean len echoes ch s h)))

abbrev pub CleanGot : ℕ → Got → Type 0
CleanGot size invalid = size ≡ 0
CleanGot size end_of_file = Unit
CleanGot size (line text echo) = (1 ≤ size) × Clean (size - 1) text

finish_line-Clean :
    (size : ℕ) (b : Bool) (typed echo : List ℕ)
    → 1 ≤ size
    → Clean (size - 1) typed
    → CleanGot size (finish_line b typed echo)
unfolding finish_line
finish_line-Clean size true typed echo h k = (h, k)
finish_line-Clean size false [] echo h k = tt
finish_line-Clean size false (c ∷ cs) echo h k = (h, k)

-- Whatever the keys, `cgets` is invalid only for the size 0, and a text that it returns has no
-- control characters and is shorter than the size, so that with the counts and the NUL it takes
-- no more than the size and two bytes. A password has at most eight characters, none of them a
-- control character.
pub cgets-CleanGot :
    (size : ℕ) (keys prompt : List ℕ)
    → CleanGot size (cgets size keys) × Clean 8 ((getpass prompt keys).0)
unfolding cgets getpass
cgets-CleanGot size keys prompt = (
  sized size keys,
  line_loop-Clean 8 false keys false (no_input (cputs_text prompt)) (omega arith, tt),
)
  where
    sized : (size : ℕ) (keys : List ℕ) → CleanGot size (cgets size keys)
    sized size keys =
        let r = line_loop (size - 1) true false (no_input []) keys in
        if_holds (CleanGot size) (size == 0) _ _ (λ e. ground (arith, e))
          (λ e.
            finish_line-Clean size r.0 (r.1.typed) (r.1.echo) (ground (arith, e))
              (line_loop-Clean (size - 1) true keys false (no_input []) (omega arith, tt)))

-- Characters that `cgets` takes as they are.
abbrev pub Plain : List ℕ → Type 0
Plain keys = All (λ c. iscntrl c ≡ false) keys

-- It is none of the keys that the loop tells apart.
plain-key :
    (c : ℕ) → iscntrl c ≡ false → ((c == 13) ≡ false) × (((c == 0) ≡ false) × ((c == 8) ≡ false))
unfolding iscntrl
plain-key c h = (ground (arith, h), (ground (arith, h), ground (arith, h)))

abbrev key_added : ℕ → Input → Input
key_added c s = record { typed = s.typed ++ (c ∷ []); echo = s.echo ++ (c ∷ []) }

key_step-full :
    (len c : ℕ) (s : Input) → iscntrl c ≡ false → length s.typed ≡ len → key_step len true c s ≡ s
unfolding key_step
key_step-full len c s h k =
    ap
      (λ b.
        if b
        then rub true s.typed s
        else (if ltb (length s.typed) len && not (iscntrl c) then key_added c s else s))
      ((plain-key c h).1.1)
    ∙ ap (λ b. if b && not (iscntrl c) then key_added c s else s)
        (ltb_of_le (length s.typed) len (omega (arith, k)))

key_step-room :
    (len c : ℕ) (s : Input)
    → iscntrl c ≡ false
    → length s.typed < len
    → key_step len true c s ≡ key_added c s
unfolding key_step
key_step-room len c s h k =
    ap
      (λ b.
        if b
        then rub true s.typed s
        else (if ltb (length s.typed) len && not (iscntrl c) then key_added c s else s))
      ((plain-key c h).1.1)
    ∙ (ap (λ b. if b && not (iscntrl c) then key_added c s else s)
          (ltb_of_lt (length s.typed) len k)
        ∙ ap (λ b. if not b then key_added c s else s) h)

line_loop-key :
    (len c : ℕ) (s : Input) (t : List ℕ)
    → iscntrl c ≡ false
    → line_loop len true false s (c ∷ t) ≡ line_loop len true false (key_step len true c s) t
unfolding line_loop
line_loop-key len c s t h =
    ap
      (λ b.
        if b
        then (true, s)
        else line_loop len true (c == 0) (if c == 0 then s else key_step len true c s) t)
      ((plain-key c h).0)
    ∙ ap (λ b. line_loop len true b (if b then s else key_step len true c s) t)
        ((plain-key c h).1.0)

take-nil : (n : ℕ) → take n ((no_input []).typed) ≡ []
take-nil zero = refl
take-nil (suc n) = refl

-- `room` characters more are taken, and the carriage return ends the loop.
line_loop-Plain :
    (len : ℕ) (keys rest : List ℕ) (room : ℕ) (s : Input)
    → Plain keys
    → length s.typed + room ≡ len
    → ((line_loop len true false s (keys ++ (13 ∷ rest))).0 ≡ true)
      × ((line_loop len true false s (keys ++ (13 ∷ rest))).1.typed ≡ s.typed ++ take room keys)
line_loop-Plain len [] rest room s h k =
    unfold line_loop in (refl, sym (ap (λ t. s.typed ++ t) (take-nil room) ∙ append-nil s.typed))
line_loop-Plain len (c ∷ keys) rest zero s (h, hs) k =
    let ih = line_loop-Plain len keys rest zero s hs k in
    let step =
      line_loop-key len c s (keys ++ (13 ∷ rest)) h
      ∙ ap (λ w. line_loop len true false w (keys ++ (13 ∷ rest)))
          (key_step-full len c s h (omega (arith, k))) in
    (ap (λ r. r.0) step ∙ ih.0, ap (λ r. Input.typed r.1) step ∙ ih.1)
line_loop-Plain len (c ∷ keys) rest (suc room) s (h, hs) k =
    let ih =
      line_loop-Plain len keys rest room (key_added c s) hs
        (omega (arith, k, length-append s.typed (c ∷ []))) in
    let step =
      line_loop-key len c s (keys ++ (13 ∷ rest)) h
      ∙ ap (λ w. line_loop len true false w (keys ++ (13 ∷ rest)))
          (key_step-room len c s h (omega (arith, k))) in
    (
      ap (λ r. r.0) step ∙ ih.0,
      ap (λ r. Input.typed r.1) step ∙ (ih.1 ∙ append_assoc s.typed (c ∷ []) (take room keys)),
    )

-- The text in what `cgets` returns.
abbrev pub text_of : Got → Option (List ℕ)
text_of invalid = none
text_of end_of_file = none
text_of (line text echo) = some text

text_of-finish_line :
    (b : Bool) (typed echo : List ℕ) → b ≡ true → text_of (finish_line b typed echo) ≡ some typed
unfolding finish_line
text_of-finish_line true typed echo h = refl
text_of-finish_line false typed echo h = absurd (ground (arith, h))

-- Keys that are no control characters and then a carriage return give these characters, cut off
-- to one less than the size, whatever keys come behind.
pub cgets-take :
    (n : ℕ) (keys rest : List ℕ)
    → Plain keys
    → text_of (cgets (suc n) (keys ++ (13 ∷ rest))) ≡ some (take n keys)
unfolding cgets
cgets-take n keys rest h =
    let all = keys ++ (13 ∷ rest) in
    let r = line_loop (suc n - 1) true false (no_input []) all in
    let plain = line_loop-Plain (suc n - 1) keys rest n (no_input []) h (omega arith) in
    if_holds (λ got. text_of got ≡ some (take n keys)) (suc n == 0) invalid
      (finish_line r.0 (r.1.typed) (r.1.echo)) (λ e. absurd (ground (arith, e)))
      (λ e. text_of-finish_line r.0 (r.1.typed) (r.1.echo) plain.0 ∙ ap some plain.1)
