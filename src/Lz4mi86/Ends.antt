-- ===== src/Lz4mi86/Ends.antt =====
-- lz4mi86 ends, whatever the system does.
use libi.Base.{
  ℕ, zero, suc, ◌-◌, ◌≤◌, ◌≡◌, refl, ◌⊎◌, inl, inr, Bool, true, false, Option, none, some, List, [],
  ◌∷◌, arith, if_holds,
}
use libi.Base.{length, drop, length-drop, ◌==◌, if◌then◌else◌}
use Prim.Native.Nat.{min}
use mathlib.Core.Path.{subst}
use libi.Memory.{Far}
use libi.Lz4mi86.{Io, Options, State, Outcome, Run, ◌>>=◌, ◌>>◌, return, call, minus_one, codes}
use libi.Lz4mi86.Files.{
  ouch, output_loop, errputs, fatal, output_fd, outputs, usage, input, far_input, moved_count,
  moved_bytes, and_more,
}

-- A value of which `P` holds, or a call of `exit` with 1 or 2.
abbrev pub Ended : {S A : Type 0} → (A → Type 0) → Outcome S A → Type 0
Ended P (Outcome.done a s) = P a
Ended P (Outcome.exited c s) = (c ≡ 1) ⊎ (c ≡ 2)
Ended P Outcome.stuck = ⊥

abbrev pub Any : {A : Type 0} → A → Type 0
Any a = Unit

-- So it ends from every state.
pub record Ends {S A : Type 0} (P : A → Type 0) (m : Run S A) : Type 0 where
  pub from : (s : State S) → Ended P (m s)

Ended-then :
    {S A B : Type 0} (Q : A → Type 0) (P : B → Type 0) (r : Outcome S A) (f : A → Run S B)
    → Ended Q r
    → ((a : A) → Q a → Ends P (f a))
    → Ended P (elim r [
      | Outcome.done a s' ↦ f a s'
      | Outcome.exited c s' ↦ Outcome.exited c s'
      | Outcome.stuck ↦ Outcome.stuck
    ])
Ended-then Q P (Outcome.done a s') f h k = (k a h).from s'
Ended-then Q P (Outcome.exited c s') f h k = h
Ended-then Q P Outcome.stuck f h k = h

pub Ends-bind :
    {S A B : Type 0} {P : B → Type 0} {m : Run S A} {f : A → Run S B}
    → Ends Any m
    → ((a : A) → Ends P (f a))
    → Ends P (m >>= f)
Ends-bind {P = P} {m = m} {f = f} h k = record {
  from = λ s. Ended-then Any P (m s) f (h.from s) (λ a q. k a);
}

pub Ends-then :
    {S A B : Type 0} {P : B → Type 0} {m : Run S A} {n : Run S B}
    → Ends Any m
    → Ends P n
    → Ends P (m >> n)
Ends-then h k = Ends-bind h (λ a. k)

pub Ends-if :
    {S A : Type 0} {P : A → Type 0} {m n : Run S A} (b : Bool)
    → Ends P m
    → Ends P n
    → Ends P (if b then m else n)
Ends-if true h k = h
Ends-if false h k = k

pub Ends-return : {S A : Type 0} (a : A) → Ends {S = S} Any (return a)
Ends-return a = record { from = λ s. tt }

pub Ends-call : {S A : Type 0} (f : S → A × S) → Ends Any (call f)
Ends-call f = record { from = λ s. tt }

and_more-Ended :
    {S A B : Type 0} (P : B → Type 0) (r : Option A) (x : Outcome S B) (f : A → Outcome S B)
    → Ended P x
    → ((a : A) → r ≡ some a → Ended P (f a))
    → Ended P (and_more r x f)
and_more-Ended P none x f h k = h
and_more-Ended P (some a) x f h k = k a refl

moved_count-pos : (r : Option ℕ) (k : ℕ) → moved_count r ≡ some k → 1 ≤ k
unfolding moved_count
moved_count-pos none k h = absurd cc
moved_count-pos (some zero) k h = absurd cc
moved_count-pos (some (suc r)) k h = let e : suc r ≡ k = cc in omega (arith, e)

moved_bytes-pos : (r : Option (List ℕ)) (b : List ℕ) → moved_bytes r ≡ some b → 1 ≤ length b
unfolding moved_bytes
moved_bytes-pos none b h = absurd cc
moved_bytes-pos (some []) b h = absurd cc
moved_bytes-pos (some (c ∷ buf)) b h =
    let e : c ∷ buf ≡ b = cc in subst (λ l. 1 ≤ length l) e (omega arith)

module _ {S : Type 0} (io : Io S) (o : Options) where
  ouch-Ended : {A : Type 0} (P : A → Type 0) (s : State S) → Ended P (ouch io o s)
  unfolding ouch
  ouch-Ended P s = go o.out_path
    where
      go :
          (path : Option (List ℕ))
          → Ended P (elim path [
            | none ↦ Outcome.exited 2 s
            | some p ↦
                if s.out_fd == minus_one
                then Outcome.exited 2 s
                else Outcome.exited 2 (record s { os = io.unlink p (io.close s.out_fd s.os).1 })
          ])
      go none = inr refl
      go (some p) =
          if_holds (Ended P) (s.out_fd == minus_one) (Outcome.exited 2 s)
            (Outcome.exited 2 (record s { os = io.unlink p (io.close s.out_fd s.os).1 }))
            (λ e. inr refl) (λ e. inr refl)

  output_loop-Ended :
      (fuel fd : ℕ) (buf : List ℕ) (failed : Run S Unit) (s : State S)
      → length buf ≤ fuel
      → ((s' : State S) → Ended Any (failed s'))
      → Ended Any (output_loop io o fuel fd buf failed s)
  unfolding output_loop
  output_loop-Ended fuel fd [] failed s h k = tt
  output_loop-Ended zero fd (c ∷ buf) failed s h k = absurd (omega (arith, h))
  output_loop-Ended (suc fuel) fd (c ∷ buf) failed s h k =
      let r = io.write fd (c ∷ buf) (io.set_errno 0 s.os) in
      let s' = record s { os = r.1 } in
      and_more-Ended Any (moved_count r.0) (failed s') _ (k s') (λ n e.
        output_loop-Ended fuel fd (drop n (c ∷ buf)) failed s'
          (omega (arith, h, length-drop n (c ∷ buf), moved_count-pos r.0 n e)) k)

  errputs-Ends : (text : List ℕ) → Ends Any (errputs io o text)
  unfolding errputs
  errputs-Ends text = record {
    from = λ s. output_loop-Ended (length text) 2 text (ouch io o) s (omega arith) (ouch-Ended Any);
  }

  pub fatal-Ends : {A : Type 0} (P : A → Type 0) (msg : List ℕ) → Ends P (fatal io o msg)
  unfolding fatal
  fatal-Ends P msg = record {
    from = λ s.
        (Ends-then (errputs-Ends o.me) (
            Ends-then (errputs-Ends (codes ": ")) (
              Ends-then (errputs-Ends msg) (
                Ends-then (errputs-Ends (codes ": ")) (
                  Ends-then
                    (errputs-Ends (
                      if io.errno s.os == 0
                      then codes "EOF or disk full"
                      else io.strerror (io.errno s.os)))
                    (Ends-then (errputs-Ends (codes "\r\n"))
                      (record { from = ouch-Ended P }))))))).from
          s;
  }

  pub outputs-Ends : (text : List ℕ) → Ends Any (outputs io o text)
  unfolding outputs output_fd
  outputs-Ends text = record {
    from = λ s.
        output_loop-Ended (length text) s.out_fd text _ s (omega arith)
          (Ends-if {P = Any} (s.out_fd == 2) (record { from = ouch-Ended Any })
            (fatal-Ends Any (codes "cannot write output file"))).from;
  }

  pub usage-Ends : {A : Type 0} (P : A → Type 0) → Ends P (usage io o)
  unfolding usage
  usage-Ends P = Ends-then (errputs-Ends (codes "usage: ")) (
      Ends-then (errputs-Ends o.me) (
        Ends-then (errputs-Ends (codes " [-F] [-o OUT-FILE] [-s SYMBOL] [IN-FILE]\r\n"))
          (record { from = λ s. inl refl })))

  input-Ended : (fuel n : ℕ) (s : State S) → n ≤ fuel → Ended Any (input io o fuel n s)
  unfolding input
  input-Ended fuel zero s h = tt
  input-Ended zero (suc n) s h = absurd (omega (arith, h))
  input-Ended (suc fuel) (suc n) s h =
      let r = io.read s.in_fd (suc n) (io.set_errno 0 s.os) in
      let s' = record s { os = r.1 } in
      and_more-Ended Any (moved_bytes r.0) _ _ ((fatal-Ends Any _).from s') (λ buf e.
        (Ends-bind {P = Any}
            (record {
              from = λ s1.
                  input-Ended fuel (suc n - length buf) s1
                    (omega (arith, h, moved_bytes-pos r.0 buf e));
            })
            (λ rest. record { from = λ s1. tt })).from
          s')

  pub far_input-Ended :
      (fuel : ℕ) (p : Far) (n : ℕ) (s : State S) → n ≤ fuel → Ended Any (far_input io o fuel p n s)
  unfolding far_input
  far_input-Ended fuel p zero s h = tt
  far_input-Ended zero p (suc n) s h = absurd (omega (arith, h))
  far_input-Ended (suc fuel) p (suc n) s h =
      let r = io.read s.in_fd (min (suc n) 0x100) (io.set_errno 0 s.os) in
      let s' = record s { os = r.1 } in
      and_more-Ended Any (moved_bytes r.0) _ _ ((fatal-Ends Any _).from s') (λ buf e.
        far_input-Ended fuel _ (suc n - length buf) _ (omega (arith, h, moved_bytes-pos r.0 buf e)))

  pub input-Ends : (n : ℕ) → Ends Any (input io o n n)
  input-Ends n = record { from = λ s. input-Ended n n s (omega arith) }
