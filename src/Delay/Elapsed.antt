-- ===== src/Delay/Elapsed.antt =====
-- `delay` does not end too early.
use libi.Base.{
  ℕ, zero, suc, ◌+◌, ◌-◌, ◌*◌, ◌/◌, ◌≤◌, ◌<◌, ◌≡◌, refl, ap, ◌∙◌, Bool, true, false, Option, none,
  some, arith,
}
use libi.Base.{ltb, ◌==◌, if◌then◌else◌, if_holds, ==_iff}
use libi.Delay.Micro.{micro, second_passed-micro, rest_passed-micro, Holds, >>=-Holds, Holds-map}
use libi.Delay.{
  Time, Wait, passed, failed, ◌>>=◌, second_passed, rest_passed, Left, until, whole_seconds,
  last_part, delay,
}
use mathlib.Core.Path.{subst}

module _ (clock : ℕ → Option Time) (fuel : ℕ)
    (in_range : (i : ℕ) (t : Time) → clock i ≡ some t → t.usec < 1000000)
    (monotone : (i j : ℕ) (s t : Time)
      → i ≤ j
      → clock i ≡ some s
      → clock j ≡ some t
      → micro s ≤ micro t) where
  -- The reading before `next` is at least `start` and `us` microseconds.
  record Reached (start : Time) (us next : ℕ) : Type 0 where
    last : ℕ
    time : Time
    before : next ≡ last + 1
    read : clock last ≡ some time
    late : micro start + us ≤ micro time

  -- A loop ends at a reading that its condition lets pass.
  record PassedAt (pass : Time → Bool) (i next : ℕ) : Type 0 where
    at : ℕ
    tv : Time
    behind : next ≡ at + 1
    not_before : i ≤ at
    reading : clock at ≡ some tv
    passes : pass tv ≡ true

  until-PassedAt :
      (pass : Time → Bool) (readings i : ℕ)
      → Holds (PassedAt pass i) (until clock fuel pass readings i)
  unfolding until
  until-PassedAt pass zero i = tt
  until-PassedAt pass (suc readings) i =
      at_reading (clock i) refl (until-PassedAt pass readings (i + 1))
    where
      at_reading :
          (o : Option Time)
          → clock i ≡ o
          → Holds (PassedAt pass (i + 1)) (until clock fuel pass readings (i + 1))
          → Holds (PassedAt pass i) (elim o [
            | none ↦ failed
            | some tv ↦ if pass tv then passed (i + 1) else until clock fuel pass readings (i + 1)
          ])
      at_reading none e later = tt
      at_reading (some tv) e later =
          if_holds (Holds (PassedAt pass i)) (pass tv) (passed (i + 1))
            (until clock fuel pass readings (i + 1))
            (λ h. record {
              at = i;
              tv = tv;
              behind = refl;
              not_before = omega arith;
              reading = e;
              passes = h;
            })
            (λ h.
              Holds-map (PassedAt pass (i + 1)) (PassedAt pass i)
                (until clock fuel pass readings (i + 1)) later
                (λ next p. record {
                  at = p.at;
                  tv = p.tv;
                  behind = p.behind;
                  not_before = omega (arith, p.not_before);
                  reading = p.reading;
                  passes = p.passes;
                }))

  -- What the loop over whole seconds leaves of the time from `start` on.
  record Rest (start : Time) (ms : ℕ) (left : Left) : Type 0 where
    whole : micro left.start + left.ms * 1000 ≡ micro start + ms * 1000
    usec_bound : left.start.usec < 1000000
    reached : Reached left.start 0 left.next

  Rest-one_more :
      (start : Time) (ms : ℕ) (left : Left)
      → ltb ms 1000 ≡ false
      → Rest (record start { sec = start.sec + 1 }) (ms - 1000) left
      → Rest start ms left
  Rest-one_more start ms left e r =
      let long : 1000 ≤ ms = ground (arith, e) in
      record {
        whole = omega (arith, long, r.whole);
        usec_bound = r.usec_bound;
        reached = r.reached;
      }

  PassedAt-Reached :
      (start : Time) (i next : ℕ)
      → start.usec < 1000000
      → PassedAt (second_passed start) i next
      → Reached (record start { sec = start.sec + 1 }) 0 next
  PassedAt-Reached start i next h p = record {
    last = p.at;
    time = p.tv;
    before = p.behind;
    read = p.reading;
    late = omega (arith, second_passed-micro start p.tv h p.passes);
  }

  whole_seconds-Rest :
      (rounds ms : ℕ) (start : Time) (i : ℕ)
      → start.usec < 1000000
      → Reached start 0 i
      → Holds (Rest start ms) (whole_seconds clock fuel rounds ms start i)
  unfolding whole_seconds
  whole_seconds-Rest zero ms start i h r = tt
  whole_seconds-Rest (suc rounds) ms start i h r =
      let start' : Time = record start { sec = start.sec + 1 } in
      let go_on : ℕ → Wait Left = λ next. whole_seconds clock fuel rounds (ms - 1000) start' next in
      if_holds (Holds (Rest start ms)) (ltb ms 1000)
        (passed (record { ms = ms; start = start; next = i }))
        (until clock fuel (second_passed start) fuel i >>= go_on)
        (λ e. record { whole = refl; usec_bound = h; reached = r })
        (λ e.
          >>=-Holds (PassedAt (second_passed start) i) (Rest start ms)
            (until clock fuel (second_passed start) fuel i) go_on
            (until-PassedAt (second_passed start) fuel i)
            (λ next p.
              Holds-map (Rest start' (ms - 1000)) (Rest start ms) (go_on next)
                (whole_seconds-Rest rounds (ms - 1000) start' next h
                  (PassedAt-Reached start i next h p))
                (λ left. Rest-one_more start ms left e)))

  last_part-Reached :
      (start : Time) (ms : ℕ) (left : Left)
      → Rest start ms left
      → Holds (Reached start (ms * 1000)) (last_part clock fuel left)
  unfolding last_part
  last_part-Reached start ms left r =
      if_holds (Holds (Reached start (ms * 1000))) (left.ms == 0) (passed left.next)
        (until clock fuel (rest_passed (left.ms * 1000) left.start) fuel left.next)
        (λ e. record {
          last = r.reached.last;
          time = r.reached.time;
          before = r.reached.before;
          read = r.reached.read;
          late = omega (arith, r.reached.late, r.whole, (==_iff left.ms 0).0 e);
        })
        (λ e.
          Holds-map (PassedAt (rest_passed (left.ms * 1000) left.start) left.next)
            (Reached start (ms * 1000))
            (until clock fuel (rest_passed (left.ms * 1000) left.start) fuel left.next)
            (until-PassedAt (rest_passed (left.ms * 1000) left.start) fuel left.next) all_over)
    where
      all_over :
          (next : ℕ)
          → PassedAt (rest_passed (left.ms * 1000) left.start) left.next next
          → Reached start (ms * 1000) next
      all_over next p =
          let order : micro r.reached.time ≤ micro p.tv =
            monotone r.reached.last p.at r.reached.time p.tv
              (omega (arith, r.reached.before, p.not_before)) r.reached.read p.reading in
          let late : micro left.start + left.ms * 1000 ≤ micro p.tv =
            rest_passed-micro (left.ms * 1000) left.start p.tv (in_range p.at p.tv p.reading)
              (omega (arith, order, r.reached.late)) p.passes in
          record {
            last = p.at;
            time = p.tv;
            before = p.behind;
            read = p.reading;
            late = omega (arith, late, r.whole);
          }

  -- Where the clock does not go back, and `delay` ends for a time that is not zero without a
  -- failure of the clock, it has read the clock at least once, and from its first to its last
  -- reading at least the time has passed.
  pub delay_long_enough :
      (ms n : ℕ)
      → 0 < ms
      → delay clock fuel ms ≡ passed n
      → (s t : Time) × (0 < n)
        × ((clock 0 ≡ some s) × ((clock (n - 1) ≡ some t) × (micro s + ms * 1000 ≤ micro t)))
  unfolding delay
  delay_long_enough ms n h e = subst (Holds Long) e whole
    where
      Long : ℕ → Type 0
      Long n =
          (s t : Time) × (0 < n)
          × ((clock 0 ≡ some s) × ((clock (n - 1) ≡ some t) × (micro s + ms * 1000 ≤ micro t)))

      end_of :
          (start : Time) (next : ℕ)
          → clock 0 ≡ some start
          → Reached start (ms * 1000) next
          → Long next
      end_of start next e q =
          let same : next - 1 ≡ q.last = omega (arith, q.before) in
          (start, q.time, omega (arith, q.before), (e, (ap clock same ∙ q.read, q.late)))

      started :
          (o : Option Time)
          → clock 0 ≡ o
          → Holds Long (elim o [
            | none ↦ failed
            | some start ↦
                whole_seconds clock fuel (ms / 1000 + 1) ms start 1 >>= last_part clock fuel
          ])
      started none e = tt
      started (some start) e =
          >>=-Holds (Rest start ms) Long (whole_seconds clock fuel (ms / 1000 + 1) ms start 1)
            (last_part clock fuel)
            (whole_seconds-Rest (ms / 1000 + 1) ms start 1 (in_range 0 start e)
              (record { last = 0; time = start; before = refl; read = e; late = omega arith }))
            (λ left r.
              Holds-map (Reached start (ms * 1000)) Long (last_part clock fuel left)
                (last_part-Reached start ms left r) (λ next. end_of start next e))

      whole : Holds Long (delay clock fuel ms)
      whole =
          if_holds (Holds Long) (ms == 0) (passed 0)
            (elim (clock 0) [
              | none ↦ failed
              | some start ↦
                  whole_seconds clock fuel (ms / 1000 + 1) ms start 1 >>= last_part clock fuel
            ])
            (λ e. absurd (omega (arith, h, (==_iff ms 0).0 e))) (λ e. started (clock 0) refl)
