-- ===== src/Delay/Micro.antt =====
-- Microseconds, and what holds of the result of a wait.
use libi.Base.{ℕ, ◌+◌, ◌*◌, ◌≤◌, ◌<◌, ◌≡◌, true, arith}
use libi.Delay.{Time, Wait, passed, failed, stuck, ◌>>=◌, second_passed, rest_passed}

-- The microseconds since the epoch.
abbrev pub micro : Time → ℕ
micro t = t.sec * 1000000 + t.usec

pub second_passed-micro :
    (start tv : Time)
    → start.usec < 1000000
    → second_passed start tv ≡ true
    → micro start + 1000000 ≤ micro tv
unfolding second_passed
second_passed-micro start tv h e = ground (arith, h, e)

pub rest_passed-micro :
    (us : ℕ) (start tv : Time)
    → tv.usec < 1000000
    → micro start ≤ micro tv
    → rest_passed us start tv ≡ true
    → micro start + us ≤ micro tv
unfolding rest_passed
rest_passed-micro us start tv h k e = ground (arith, h, k, e)

-- What holds of a result, if there is one.
abbrev pub Holds : {A : Type 0} → (A → Type 0) → Wait A → Type 0
Holds P (passed a) = P a
Holds P failed = Unit
Holds P stuck = Unit

pub >>=-Holds :
    {A B : Type 0} (P : A → Type 0) (Q : B → Type 0) (w : Wait A) (f : A → Wait B)
    → Holds P w
    → ((a : A) → P a → Holds Q (f a))
    → Holds Q (w >>= f)
>>=-Holds P Q (passed a) f h k = k a h
>>=-Holds P Q failed f h k = tt
>>=-Holds P Q stuck f h k = tt

pub Holds-map :
    {A : Type 0} (P Q : A → Type 0) (w : Wait A) → Holds P w → ((a : A) → P a → Q a) → Holds Q w
Holds-map P Q (passed a) h k = k a h
Holds-map P Q failed h k = tt
Holds-map P Q stuck h k = tt
