-- ===== src/Delay.antt =====
-- host-ack/i86/delay.c: `delay`, which reads the clock until the time is over. The readings are
-- numbered, and times are seconds and microseconds since the epoch, before 2038.
pub mod Micro
pub mod Elapsed
pub mod Ends
pub mod Examples
use libi.Base.{
  ℕ, zero, suc, ◌+◌, ◌-◌, ◌*◌, ◌/◌, Bool, true, false, ◌&&◌, ◌||◌, not, Option, none, some,
}
use libi.Base.{ltb, leb, ◌==◌, if◌then◌else◌}

-- `struct timeval`
pub record Time : Type 0 where
  pub sec : ℕ
  pub usec : ℕ

-- A loop ends, or the clock fails, or the fuel has run out.
pub data Wait (A : Type 0) : Type 0 where
  passed : A → Wait A
  failed stuck : Wait A

infixl 5 ◌>>=◌
abbrev pub ◌>>=◌ : {A B : Type 0} → Wait A → (A → Wait B) → Wait B
passed a >>= f = f a
failed >>= f = failed
stuck >>= f = stuck

-- `! (s_diff < 1 || s_diff == 1 && tv.tv_usec < tv_start.tv_usec)`
unfoldable pub second_passed : Time → Time → Bool
second_passed start tv =
    not (ltb tv.sec (start.sec + 1) || (tv.sec == start.sec + 1 && ltb tv.usec start.usec))

-- `! (us_diff < us)`
unfoldable pub rest_passed : ℕ → Time → Time → Bool
rest_passed us start tv =
    leb (start.usec + us) (tv.usec + (if ltb start.sec tv.sec then 1000000 else 0))

-- What is left behind the loop over whole seconds: `ms`, `tv_start`, and the next reading.
pub record Left : Type 0 where
  pub ms : ℕ
  pub start : Time
  pub next : ℕ

-- What `gettimeofday` gives, and the fuel for a loop that reads it.
module _ (clock : ℕ → Option Time) (fuel : ℕ) where
  -- A `do` loop from reading `i` on, with the number of the reading behind it.
  unfoldable pub until : (Time → Bool) → ℕ → ℕ → Wait ℕ
  until pass zero i = stuck
  until pass (suc readings) i =
      let rest = until pass readings (i + 1) in
      elim (clock i) [ none ↦ failed | some tv ↦ if pass tv then passed (i + 1) else rest ]

  unfoldable pub whole_seconds : ℕ → ℕ → Time → ℕ → Wait Left
  unfolding until second_passed
  whole_seconds zero ms start i = stuck
  whole_seconds (suc rounds) ms start i =
      if ltb ms 1000
      then passed (record { ms = ms; start = start; next = i })
      else (until (second_passed start) fuel i >>= λ next.
          whole_seconds rounds (ms - 1000) (record start { sec = start.sec + 1 }) next)

  unfoldable pub last_part : Left → Wait ℕ
  unfolding until rest_passed
  last_part left =
      if left.ms == 0
      then passed left.next
      else until (rest_passed (left.ms * 1000) left.start) fuel left.next

  -- `delay`, with the number of readings that it took.
  unfoldable pub delay : ℕ → Wait ℕ
  unfolding whole_seconds last_part
  delay ms = if ms == 0 then passed 0 else (elim (clock 0) [
    | none ↦ failed
    | some start ↦ whole_seconds (ms / 1000 + 1) ms start 1 >>= last_part
  ])
