-- ===== src/Delay/Examples.antt =====
-- A clock of one millisecond, and the theorems at it.
use libi.Base.{ℕ, ◌+◌, ◌-◌, ◌*◌, ◌/◌, ◌%◌, ◌≤◌, ◌<◌, ◌≡◌, refl, ap, Option, none, some, arith}
use libi.Delay.{Time, passed, delay}
use libi.Delay.Micro.{micro}
use libi.Delay.Elapsed.{delay_long_enough}
use libi.Delay.Ends.{delay_ends}

abbrev at_ms : ℕ → Time
at_ms i = record { sec = i / 1000; usec = i % 1000 * 1000 }

abbrev ms_clock : ℕ → Option Time
ms_clock i = some (at_ms i)

micro_of : Option Time → ℕ
micro_of none = 0
micro_of (some t) = micro t

usec_of : Option Time → ℕ
usec_of none = 0
usec_of (some t) = t.usec

ms_clock-in_range : (i : ℕ) (t : Time) → ms_clock i ≡ some t → t.usec < 1000000
unfolding usec_of
ms_clock-in_range i t e = omega (arith, ap usec_of e)

ms_clock-monotone :
    (i j : ℕ) (s t : Time) → i ≤ j → ms_clock i ≡ some s → ms_clock j ≡ some t → micro s ≤ micro t
unfolding micro_of
ms_clock-monotone i j s t h e f = omega (arith, h, ap micro_of e, ap micro_of f)

three_ms : delay ms_clock 10 3 ≡ passed 4
unfolding delay
three_ms = refl

delay_long_enough_example :
    (s t : Time) × (0 < 4)
    × ((ms_clock 0 ≡ some s) × ((ms_clock (4 - 1) ≡ some t) × (micro s + 3 * 1000 ≤ micro t)))
delay_long_enough_example =
    delay_long_enough ms_clock 10 ms_clock-in_range ms_clock-monotone 3 4 (omega arith) three_ms

delay_ends_example : (n : ℕ) × (delay ms_clock 1000001 2500 ≡ passed n)
delay_ends_example =
    delay_ends at_ms 1000001 (λ i. omega arith) (λ i. omega arith) (λ i. omega arith) 2500
      (omega arith)
