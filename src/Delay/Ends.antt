-- ===== src/Delay/Ends.antt =====
-- `delay` ends on every clock that goes by small steps.
use libi.Base.{
  ℕ, zero, suc, ◌+◌, ◌-◌, ◌*◌, ◌/◌, ◌≤◌, ◌<◌, ◌≡◌, refl, Bool, true, Option, some, arith,
}
use libi.Base.{ltb, ◌==◌, Bool-cases, inl, inr}
use libi.Delay.{
  Time, passed, second_passed, rest_passed, Left, until, whole_seconds, last_part, delay,
}
use libi.Delay.Micro.{micro, second_passed-micro}

micro-second_passed :
    (start tv : Time)
    → tv.usec < 1000000
    → micro start + 1000000 ≤ micro tv
    → second_passed start tv ≡ true
unfolding second_passed
micro-second_passed start tv h k = ground (arith, h, k)

micro-rest_passed :
    (us : ℕ) (start tv : Time)
    → start.usec < 1000000
    → tv.usec < 1000000
    → micro start + us ≤ micro tv
    → micro tv < micro start + 1000000
    → rest_passed us start tv ≡ true
unfolding rest_passed
micro-rest_passed us start tv h k l e = ground (arith, h, k, l, e)

-- A clock that never fails and goes on by 1 to 1000 microseconds from one reading to the next.
module _ (times : ℕ → Time) (fuel : ℕ) (in_range : (i : ℕ) → (times i).usec < 1000000)
    (ticks : (i : ℕ) → micro (times i) < micro (times (i + 1)))
    (fine : (i : ℕ) → micro (times (i + 1)) ≤ micro (times i) + 1000) where
  abbrev clock : ℕ → Option Time
  clock i = some (times i)

  -- A loop ends whose condition holds of all readings from `from` on to `to`, at one before `to`.
  until_ends :
      (pass : Time → Bool) (from to readings i : ℕ)
      → ((j : ℕ) → from ≤ micro (times j) → micro (times j) < to → pass (times j) ≡ true)
      → from + 1000 ≤ to
      → 0 < readings
      → micro (times i) < to
      → from < micro (times i) + readings
      → (j : ℕ) × (until clock fuel pass readings i ≡ passed (j + 1))
        × ((pass (times j) ≡ true) × (micro (times j) < to))
  unfolding until
  until_ends pass from to zero i holds w pos early near = absurd (omega (arith, pos))
  until_ends pass from to (suc readings) i holds w pos early near =
      elim (Bool-cases (pass (times i))) [
        | inl e ↦ (i, rw e refl, (e, early))
        | inr e ↦
            let before : micro (times i) < from = ground (arith, e, holds i, early) in
            let (j, run, r) =
              until_ends pass from to readings (i + 1) holds w (omega (arith, near, before))
                (omega (arith, before, w, fine i)) (omega (arith, near, ticks i)) in
            (j, rw e run, r)
      ]

  -- The next reading comes within 2000 microseconds behind `start`.
  abbrev Close : Time → ℕ → Type 0
  Close start i = (micro start ≤ micro (times i)) × (micro (times i) ≤ micro start + 2000)

  -- Whole seconds are over, and the next reading is close behind the time that is then the start.
  abbrev Ready : Left → Type 0
  Ready left = (left.ms < 1000) × (left.start.usec < 1000000) × Close left.start left.next

  whole_seconds_ends :
      (rounds ms : ℕ) (start : Time) (i : ℕ)
      → 1000000 < fuel
      → ms < rounds * 1000
      → start.usec < 1000000
      → Close start i
      → (left : Left) × (whole_seconds clock fuel rounds ms start i ≡ passed left) × Ready left
  unfolding whole_seconds
  whole_seconds_ends zero ms start i f h u c = absurd (omega (arith, h))
  whole_seconds_ends (suc rounds) ms start i f h u (late, near) = elim (Bool-cases (ltb ms 1000)) [
    | inl e ↦
        let short : ms < 1000 = ground (arith, e) in
        (record { ms = ms; start = start; next = i }, rw e refl, (short, u, (late, near)))
    | inr e ↦
        let long : 1000 ≤ ms = ground (arith, e) in
        let (j, run, (pass, bound)) =
          until_ends (second_passed start) (micro start + 1000000) (micro start + 1001000) fuel i
            (λ j l k. micro-second_passed start (times j) (in_range j) l) (omega arith)
            (omega (arith, f)) (omega (arith, near)) (omega (arith, f, late)) in
        let over : micro start + 1000000 ≤ micro (times j) =
          second_passed-micro start (times j) u pass in
        let (left, rest, ready) =
          whole_seconds_ends rounds (ms - 1000) (record start { sec = start.sec + 1 }) (j + 1) f
            (omega (arith, h, long)) u
            (omega (arith, over, ticks j), omega (arith, bound, fine j)) in
        (left, rw (e, run) rest, ready)
  ]

  last_part_ends :
      (left : Left) → 1000000 < fuel → Ready left → (n : ℕ) × (last_part clock fuel left ≡ passed n)
  unfolding last_part
  last_part_ends left f (short, u, (late, near)) = elim (Bool-cases (left.ms == 0)) [
    | inl e ↦ (left.next, rw e refl)
    | inr e ↦
        let some_left : 0 < left.ms = ground (arith, e) in
        let us = left.ms * 1000 in
        let (j, run, r) =
          until_ends (rest_passed us left.start) (micro left.start + us)
            (micro left.start + 1000000) fuel left.next
            (λ j l k. micro-rest_passed us left.start (times j) u (in_range j) l k)
            (omega (arith, short)) (omega (arith, f)) (omega (arith, near))
            (omega (arith, short, late, f)) in
        (j + 1, rw (e, run) refl)
  ]

  -- On a clock that never fails, and that goes on by at least one microsecond and at most a
  -- millisecond from one reading to the next, `delay` ends for every time, where no loop needs more
  -- than 1,000,001 readings.
  pub delay_ends : (ms : ℕ) → 1000000 < fuel → (n : ℕ) × (delay clock fuel ms ≡ passed n)
  unfolding delay
  delay_ends ms f = elim (Bool-cases (ms == 0)) [
    | inl e ↦ (0, rw e refl)
    | inr e ↦
        let (left, run, ready) =
          whole_seconds_ends (ms / 1000 + 1) ms (times 0) 1 f (omega arith) (in_range 0)
            (omega (arith, ticks 0), omega (arith, fine 0)) in
        let (n, rest) = last_part_ends left f ready in (n, rw (e, run) rest)
  ]
