-- ===== src/Process/Run/System.antt =====
-- What `system` runs.
use libi.Base.{append-nil, length, ◌≤◌, not}
use libi.Process.Shell.{is_unix_shell}
use libi.Base.{ℕ, ◌+◌, ◌^◌, ◌≡◌, ap, refl, ◌∙◌, sym, true, false, ◌&&◌, Option, none, some}
use libi.Base.{◌⊎◌, inl, inr, List, [], ◌∷◌, arith}
use libi.Process.Shell.{is_dos_shell, is_opt_c}
use libi.Process.Cmdline.{layout}
use libi.Process.Cmdline.Fit.{fits, fits_text, raw_text, layout-eq-fits}
use libi.Process.Find.{find_raw_base_name, find_spawner, by_ext, interpreted, direct}
use libi.Process.Spawn.{Dos, Errno, Launch, launched, has_bit, clear_bit}
use libi.Process.Spawn.{
  bit_interp, bit_opt_c_special, libi86_comspec, direct_spawn, command_line, is_command,
}
use libi.Process.Spawn.Direct.{launched-text}
use libi.Process.Run.{locate, run, run_parsed, run_located, or_environ, spawnve, system_run}

abbrev system_mode : ℕ
system_mode = 2 ^ bit_opt_c_special + 2 ^ bit_interp

interpreter_direct : (ext : List ℕ) → find_spawner ext false true ≡ direct
unfolding find_spawner by_ext interpreted
interpreter_direct ext = ground arith

module _ (dos : Dos) where
  located-run :
      (path : List ℕ) (args envp : List (List ℕ)) (l : Launch) (r : Errno ⊎ ℕ) (o : Option Errno)
      → run_located dos system_mode args envp (elim o [ none ↦ inl path | some e ↦ inr e ])
        ≡ launched l r
      → run_parsed dos system_mode path args envp (dos.parsfnm (find_raw_base_name path dos.dbcs))
        ≡ launched l r
  unfolding run_located
  located-run path args envp l r none h = h
  located-run path args envp l r (some e) h = absurd (ground (arith, h))

  run-interpreter :
      (path name ext a0 : List ℕ) (args envp : List (List ℕ)) (l : Launch) (r : Errno ⊎ ℕ)
      → dos.parsfnm (find_raw_base_name path dos.dbcs) ≡ some (name, ext)
      → spawnve dos system_mode (some path) (some (a0 ∷ args)) (some envp) ≡ launched l r
      → direct_spawn dos system_mode path name ext args envp ≡ launched l r
  unfolding spawnve locate run_parsed run or_environ clear_bit has_bit
  run-interpreter [] name ext a0 args envp l r hp h = absurd (ground (arith, h))
  run-interpreter (c ∷ path) name ext a0 args envp l r hp h =
      sym
        (ap (λ s. run dos s system_mode (c ∷ path) (name, ext) args envp) (interpreter_direct ext))
      ∙ (sym (ap (λ o. run_parsed dos system_mode (c ∷ path) args envp o) hp)
          ∙ located-run (c ∷ path) args envp l r (dos.getfileattr (c ∷ path)) h)

  opt_c : (arg : List ℕ) → is_command dos ((dos.swchr ∷ b'c' ∷ []) ∷ arg ∷ []) ≡ true
  unfolding is_command is_opt_c
  opt_c arg = ground arith

  special-line :
      (name ext command : List ℕ)
      → is_dos_shell name ext ≡ true
      → command_line dos system_mode name ext ((dos.swchr ∷ b'c' ∷ []) ∷ command ∷ [])
        ≡ fits (raw_text ((dos.swchr ∷ b'c' ∷ []) ∷ command ∷ []))
  unfolding command_line layout has_bit
  special-line name ext command h =
      rw (command_line, h, opt_c command)
        (layout-eq-fits dos.dbcs true true (not (is_dos_shell name ext) && is_unix_shell name ext)
          ((dos.swchr ∷ b'c' ∷ []) ∷ command ∷ []) (inl refl))

  raw_command :
      (command : List ℕ)
      → raw_text ((dos.swchr ∷ b'c' ∷ []) ∷ command ∷ []) ≡ b' ' ∷ dos.swchr ∷ b'c' ∷ b' ' ∷ command
  unfolding raw_text
  raw_command command = ap (λ t. b' ' ∷ dos.swchr ∷ b'c' ∷ b' ' ∷ t) (append-nil command)

  -- `system` with a command that gets as far as running the interpreter, a DOS shell by the name
  -- and extension that `_parsfnm` gives, runs it with the switch character, "c", and the command
  -- exactly as it was given, in 126 bytes at most.
  pub system_run-text :
      (command name ext : List ℕ) (l : Launch) (r : Errno ⊎ ℕ)
      → dos.parsfnm (find_raw_base_name (libi86_comspec dos dos.environ) dos.dbcs)
        ≡ some (name, ext)
      → is_dos_shell name ext ≡ true
      → system_run dos command ≡ launched l r
      → (l.path ≡ libi86_comspec dos dos.environ)
        × ((l.text ≡ b' ' ∷ dos.swchr ∷ b'c' ∷ b' ' ∷ command) × (length l.text ≤ 126))
  unfolding system_run
  system_run-text command name ext l r hp hs h =
      let args = (dos.swchr ∷ b'c' ∷ []) ∷ command ∷ [] in
      let spawned =
        launched-text dos system_mode _ name ext args dos.environ l r
          (run-interpreter (libi86_comspec dos dos.environ) name ext _ args dos.environ l r hp h) in
      let fitted =
        fits_text (raw_text args) l.text (sym (special-line name ext command hs) ∙ spawned.1) in
      (spawned.0, (fitted.0 ∙ raw_command command, fitted.1))
