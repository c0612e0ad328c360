-- ===== src/Process/Spawn/Direct.antt =====
-- What `direct_spawn` runs.
use libi.Base.{ℕ, ◌≤◌, ◌≡◌, ap, refl, ◌∙◌, sym, true, false}
use libi.Base.{◌⊎◌, Option, none, some, List, arith, inr}
use libi.Base.{length, All}
use libi.Process.Shell.{is_dos_shell, is_unix_shell}
use libi.Process.Cmdline.{layout}
use libi.Process.Cmdline.Fit.{fits_text, args_text, layout-eq-fits}
use libi.Process.Cmdline.Words.{Faithful, gap, decode, decode-layout}
use libi.Process.Env.{EnvBlock}
use libi.Process.Spawn.{Dos, Errno, Launch, launched}
use libi.Process.Spawn.{command_line, launch, start, load, direct_spawn}

module _ (dos : Dos) where
  start-text :
      (path text : List ℕ) (fcbs : Option (List ℕ × List ℕ)) (env : Option EnvBlock) (l : Launch)
      (r : Errno ⊎ ℕ)
      → start dos path text fcbs env ≡ launched l r
      → (l.path ≡ path) × (l.text ≡ text)
  unfolding start launch
  start-text path text none env l r h = absurd (ground (arith, h))
  start-text path text (some fcbs) none l r h = absurd (ground (arith, h))
  start-text path text (some fcbs) (some env) l r h = ground (arith, h)

  load-text :
      (path : List ℕ) (envp : List (List ℕ)) (text : Option (List ℕ)) (l : Launch) (r : Errno ⊎ ℕ)
      → load dos path envp text ≡ launched l r
      → (l.path ≡ path) × (text ≡ some l.text)
  unfolding load
  load-text path envp none l r h = absurd (ground (arith, h))
  load-text path envp (some text) l r h =
      let k = start-text path text _ _ l r h in (k.0, ap some (sym k.1))

  -- A program that is run gets the path and the command line that was laid out for it.
  pub launched-text :
      (mode : ℕ) (path name ext : List ℕ) (args envp : List (List ℕ)) (l : Launch) (r : Errno ⊎ ℕ)
      → direct_spawn dos mode path name ext args envp ≡ launched l r
      → (l.path ≡ path) × (command_line dos mode name ext args ≡ some l.text)
  unfolding direct_spawn
  launched-text mode path name ext args envp l r h = load-text path envp _ l r h

  plain-line :
      (mode : ℕ) (name ext : List ℕ) (args : List (List ℕ))
      → is_dos_shell name ext ≡ false
      → command_line dos mode name ext args
        ≡ layout dos.dbcs false false (is_unix_shell name ext) args
  unfolding command_line layout
  plain-line mode name ext args h = rw (command_line, h) refl

  -- A program that is no DOS shell gets the path, and the arguments in a command line of 126
  -- bytes at most, which leaves room in `argb` for the length and the carriage return.
  pub direct_spawn-text :
      (mode : ℕ) (path name ext : List ℕ) (args envp : List (List ℕ)) (l : Launch) (r : Errno ⊎ ℕ)
      → is_dos_shell name ext ≡ false
      → direct_spawn dos mode path name ext args envp ≡ launched l r
      → (l.path ≡ path)
        × ((l.text ≡ args_text dos.dbcs (is_unix_shell name ext) args) × (length l.text ≤ 126))
  direct_spawn-text mode path name ext args envp l r h k = (
    (launched-text mode path name ext args envp l r k).0,
    fits_text (args_text dos.dbcs (is_unix_shell name ext) args) l.text (
        sym (layout-eq-fits dos.dbcs false false (is_unix_shell name ext) args (inr refl))
        ∙ (sym (plain-line mode name ext args h)
            ∙ (launched-text mode path name ext args envp l r k).1)),
  )

  unix_line :
      (mode : ℕ) (path name ext : List ℕ) (args envp : List (List ℕ)) (l : Launch) (r : Errno ⊎ ℕ)
      → dos.dbcs ≡ none
      → is_dos_shell name ext ≡ false
      → is_unix_shell name ext ≡ true
      → direct_spawn dos mode path name ext args envp ≡ launched l r
      → layout none false false true args ≡ some l.text
  unix_line mode path name ext args envp l r hd h hu k =
      sym (ap (λ d. layout d false false true args) hd)
      ∙ (sym (ap (λ u. layout dos.dbcs false false u args) hu)
          ∙ (sym (plain-line mode name ext args h)
              ∙ (launched-text mode path name ext args envp l r k).1))

  -- Two runs of a Unix shell with the same command line were given the same arguments, without
  -- double-byte characters, where each argument has a blank or a tab or is empty, or else has no
  -- quotation mark and no backslash: quoting and escapes leave no two lists with the same text.
  pub direct_spawn_injective :
      (mode : ℕ) (path name ext : List ℕ) (args args' envp envp' : List (List ℕ)) (l l' : Launch)
      (r r' : Errno ⊎ ℕ)
      → dos.dbcs ≡ none
      → is_dos_shell name ext ≡ false
      → is_unix_shell name ext ≡ true
      → All Faithful args
      → All Faithful args'
      → direct_spawn dos mode path name ext args envp ≡ launched l r
      → direct_spawn dos mode path name ext args' envp' ≡ launched l' r'
      → l.text ≡ l'.text
      → args ≡ args'
  direct_spawn_injective mode path name ext args args' envp envp' l l' r r' hd h hu ha ha' k k' e =
      sym (decode-layout args l.text ha (unix_line mode path name ext args envp l r hd h hu k))
      ∙ (ap (decode gap) e
          ∙ decode-layout args' l'.text ha'
              (unix_line mode path name ext args' envp' l' r' hd h hu k'))
