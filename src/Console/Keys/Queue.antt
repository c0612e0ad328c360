-- ===== src/Console/Keys/Queue.antt =====
-- The key that is put back stands before what the console gives.
use libi.Base.{
  ℕ, ◌+◌, ◌%◌, ◌≡◌, refl, ap, ◌∙◌, Option, none, some, List, [], ◌∷◌, arith, ◌==◌, if◌then◌else◌,
  ltb,
}
use libi.Console.Keys.{Read, Key, key, eof, Keys, key_of, ungetch, getch, kbhit}

-- The key that was put back, if there is one, and how many keys the console has given.
pub record View : Type 0 where
  pub back : Option ℕ
  pub given : ℕ

pub data Op : Type 0 where
  get hit : Op
  unget : ℕ → Op

module _ (service_07 : ℕ → ℕ) (read : ℕ → Read) (status : ℕ → ℕ) where
  -- One call, with what it returns.
  abbrev pub call : Op → Keys → Key × Keys
  call get s = getch service_07 read status s
  call hit s = (key (kbhit service_07 read status s), s)
  call (unget c) s = ungetch c s

  abbrev pub calls : List Op → Keys → List Key × Keys
  calls [] s = ([], s)
  calls (op ∷ ops) s = let (k, s') = call op s in let rest = calls ops s' in (k ∷ rest.0, rest.1)

  -- The same on the view, for a console `next` and a status that is extended by its sign.
  abbrev pub answer : (ℕ → Key) → Op → Option ℕ → ℕ → Key × View
  answer next get none n = (next n, record { back = none; given = n + 1 })
  answer next get (some c) n = (key c, record { back = none; given = n })
  answer next hit none n = (
    key (if ltb (status n) 128 then status n else 0xff00 + status n),
    record { back = none; given = n },
  )
  answer next hit (some c) n = (key 0xffff, record { back = some c; given = n })
  answer next (unget d) none n = (key (d % 256), record { back = some (d % 256); given = n })
  answer next (unget d) (some c) n = (eof, record { back = some c; given = n })

  abbrev pub answers : (ℕ → Key) → List Op → View → List Key × View
  answers next [] v = ([], v)
  answers next (op ∷ ops) v =
      let r = answer next op v.back v.given in
      let rest = answers next ops r.1 in (r.0 ∷ rest.0, rest.1)

  abbrev pub view : Keys → View
  view s = record {
    back = (if s.ungetch_buf == 0 then none else some (s.ungetch_buf % 256));
    given = s.taken;
  }

  -- What the console gives next, by its handle.
  abbrev pub console : ℕ → ℕ → Key
  console fd n = if fd == 0 then key (service_07 n) else key_of (read n)

  call-answer :
      (op : Op) (s : Keys)
      → ((call op s).0 ≡ (answer (console s.con_in_fd) op (view s).back s.taken).0)
        × ((view (call op s).1 ≡ (answer (console s.con_in_fd) op (view s).back s.taken).1)
            × ((call op s).1.con_in_fd ≡ s.con_in_fd))
  unfolding getch ungetch kbhit
  call-answer get s = ground arith
  call-answer hit s = ground arith
  call-answer (unget c) s = ground arith

  -- Whatever is called in whatever order, `_getch`, `_kbhit` and `_ungetch` return what a queue of
  -- the key that was put back, one at most, and the keys that the console gives would return, and
  -- leave this queue.
  pub calls-answers :
      (ops : List Op) (s : Keys)
      → ((calls ops s).0 ≡ (answers (console s.con_in_fd) ops (view s)).0)
        × (view (calls ops s).1 ≡ (answers (console s.con_in_fd) ops (view s)).1)
  calls-answers [] s = (refl, refl)
  calls-answers (op ∷ ops) s =
      let step = call-answer op s in
      let s' = (call op s).1 in
      let ih = calls-answers ops s' in
      let whole : answers (console s'.con_in_fd) ops (view s')
          ≡ answers (console s.con_in_fd) ops
              (answer (console s.con_in_fd) op (view s).back s.taken).1 =
        λ i. answers (console (step.1.1 i)) ops (step.1.0 i) in
      ((λ i. step.0 i ∷ (ih.0 ∙ ap (λ r. r.0) whole) i), ih.1 ∙ ap (λ r. r.1) whole)
