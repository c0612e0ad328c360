-- ===== src/Lz4mi86/Files.antt =====
-- The functions of lz4mi86.c around `main`: output, messages and input.
use libi.Base.{ℕ, zero, suc, ◌+◌, ◌-◌, ◌/◌, ◌%◌, ◌^◌, Option, none, some, List, [], ◌∷◌, ◌++◌}
use libi.Base.{length, drop, ◌==◌, if◌then◌else◌}
use Prim.Native.Nat.{min}
use libi.Memory.{Far, Memory, at, store}
use libi.Lz4mi86.{Io, Options, Outcome, Run, ◌>>=◌, ◌>>◌, return, minus_one, codes}

-- The digits that `outputu` puts in front of those it has.
unfoldable pub decimal : ℕ → ℕ → List ℕ → List ℕ
decimal zero u p = p
decimal (suc fuel) u p =
    let more = decimal fuel (u / 10) ((u % 10 + b'0') ∷ p) in
    if u / 10 == 0 then (u % 10 + b'0') ∷ p else more

-- `_fmemcpy` from a buffer in near memory.
unfoldable pub fmemcpy : Far → List ℕ → Memory → Memory
unfolding store at
fmemcpy p [] mem = mem
fmemcpy p (b ∷ buf) mem =
    fmemcpy (record { seg = p.seg; off = (p.off + 1) % 2 ^ 16 }) buf (store mem (at p 0) b)

-- `if (r == 0 || r == -1)`, for a count and for the bytes that were read.
unfoldable pub moved_count : Option ℕ → Option ℕ
moved_count none = none
moved_count (some zero) = none
moved_count (some (suc r)) = some (suc r)

unfoldable pub moved_bytes : Option (List ℕ) → Option (List ℕ)
moved_bytes none = none
moved_bytes (some []) = none
moved_bytes (some (b ∷ buf)) = some (b ∷ buf)

abbrev pub and_more : {A B : Type 0} → Option A → B → (A → B) → B
and_more none failed more = failed
and_more (some r) failed more = more r

module _ {S : Type 0} (io : Io S) (o : Options) where
  -- `ouch`
  unfoldable pub ouch : {A : Type 0} → Run S A
  ouch s = elim o.out_path [
    | none ↦ Outcome.exited 2 s
    | some path ↦
        if s.out_fd == minus_one
        then Outcome.exited 2 s
        else Outcome.exited 2 (record s { os = io.unlink path (io.close s.out_fd s.os).1 })
  ]

  -- The loop of `output_fd`; `failed` is what it does where nothing is written. No more is written
  -- than there is, so that `n -= r` does not wrap.
  unfoldable pub output_loop : ℕ → ℕ → List ℕ → Run S Unit → Run S Unit
  output_loop fuel fd [] failed s = Outcome.done tt s
  output_loop zero fd (c ∷ buf) failed s = Outcome.stuck
  output_loop (suc fuel) fd (c ∷ buf) failed s =
      let (r, os') = io.write fd (c ∷ buf) (io.set_errno 0 s.os) in
      let s' = record s { os = os' } in
      and_more (moved_count r) (failed s') (λ r'. output_loop fuel fd (drop r' (c ∷ buf)) failed s')

  -- `errputs`, with the failure of `output_fd` there.
  unfoldable pub errputs : List ℕ → Run S Unit
  errputs text = output_loop (length text) 2 text ouch

  -- `fatal`
  unfoldable pub fatal : {A : Type 0} → List ℕ → Run S A
  fatal msg s =
      let err = io.errno s.os in
      (do
        errputs o.me
        errputs (codes ": ")
        errputs msg
        errputs (codes ": ")
        errputs (if err == 0 then codes "EOF or disk full" else io.strerror err)
        errputs (codes "\r\n")
        ouch)
        s

  -- `output_fd`
  unfoldable pub output_fd : ℕ → List ℕ → Run S Unit
  output_fd fd buf =
      output_loop (length buf) fd buf
        (if fd == 2 then ouch else fatal (codes "cannot write output file"))

  -- `outputs`, and `outputc` for one character
  unfoldable pub outputs : List ℕ → Run S Unit
  outputs text s = output_fd s.out_fd text s

  -- `outputu`, whose buffer takes 6 digits.
  unfoldable pub outputu : ℕ → Run S Unit
  outputu u = outputs (decimal 6 u [])

  -- `usage`
  unfoldable pub usage : {A : Type 0} → Run S A
  usage = do
    errputs (codes "usage: ")
    errputs o.me
    errputs (codes " [-F] [-o OUT-FILE] [-s SYMBOL] [IN-FILE]\r\n")
    λ s. Outcome.exited 1 s

  -- `input`: the bytes that are read.
  unfoldable pub input : ℕ → ℕ → Run S (List ℕ)
  input fuel zero s = Outcome.done [] s
  input zero (suc n) s = Outcome.stuck
  input (suc fuel) (suc n) s =
      let (r, os') = io.read s.in_fd (suc n) (io.set_errno 0 s.os) in
      let s' = record s { os = os' } in
      and_more (moved_bytes r) (fatal (codes "cannot read input file") s')
        (λ buf. (do rest ← input fuel (suc n - length buf); return (buf ++ rest)) s')

  -- `far_input`
  unfoldable pub far_input : ℕ → Far → ℕ → Run S Unit
  far_input fuel p zero s = Outcome.done tt s
  far_input zero p (suc n) s = Outcome.stuck
  far_input (suc fuel) p (suc n) s =
      let (r, os') = io.read s.in_fd (min (suc n) 0x100) (io.set_errno 0 s.os) in
      let s' = record s { os = os' } in
      and_more (moved_bytes r) (fatal (codes "cannot read input file") s') (λ buf.
        far_input fuel (record { seg = p.seg; off = (p.off + length buf) % 2 ^ 16 })
          (suc n - length buf) (record s' { mem = fmemcpy p buf s'.mem }))
