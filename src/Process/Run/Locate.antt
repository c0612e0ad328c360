-- ===== src/Process/Run/Locate.antt =====
-- Which file `_spawnve` takes.
use libi.Base.{ℕ, ◌-◌, ◌≤◌, ◌≡◌, ap, refl, ◌∙◌, sym, Bool, true, false, ◌||◌}
use libi.Base.{◌⊎◌, none, some, List, [], ◌∷◌, ◌++◌, arith, inl, inr}
use libi.Base.{length, All, ltb_of_le, if◌then◌else◌}
use libi.Path.Chars.{max_path}
use libi.Process.Find.{find_raw_base_name, find_raw_ext, find_spawner, direct, comspec, error}
use libi.Process.Find.Table.{find_spawner-table, is_batch, is_binary}
use libi.Process.Spawn.{Dos, Errno, Launch, launched, enoent}
use libi.Process.Spawn.{has_bit, bit_interp, bit_restrict_ext}
use libi.Process.Run.{with_ext, extensions, locate, run, run_parsed, run_located}

module _ (dos : Dos) where
  with_ext-first :
      (path ext : List ℕ) (pre post : List (List ℕ)) (e : Errno)
      → All (λ x. (e' : Errno) × (dos.getfileattr (path ++ x) ≡ some e')) pre
      → dos.getfileattr (path ++ ext) ≡ none
      → with_ext dos path (pre ++ (ext ∷ post)) e ≡ inl (path ++ ext)
  unfolding with_ext
  with_ext-first path ext [] post e h k = rw k refl
  with_ext-first path ext (x ∷ pre) post e ((e', h), hs) k =
      rw h (with_ext-first path ext pre post e' hs k)

  with_ext-absent :
      (path last : List ℕ) (pre : List (List ℕ)) (e e' : Errno)
      → All (λ x. (e' : Errno) × (dos.getfileattr (path ++ x) ≡ some e')) pre
      → dos.getfileattr (path ++ last) ≡ some e'
      → with_ext dos path (pre ++ (last ∷ [])) e ≡ inr e'
  unfolding with_ext
  with_ext-absent path last [] e e' h k = rw k refl
  with_ext-absent path last (x ∷ pre) e e' ((e1, h), hs) k =
      rw h (with_ext-absent path last pre e1 e' hs k)

  -- What is put behind a path without an extension, in this order.
  abbrev pub tried : Bool → List (List ℕ)
  tried restricted =
      (b'.' ∷ b'C' ∷ b'O' ∷ b'M' ∷ [])
      ∷ (b'.' ∷ b'E' ∷ b'X' ∷ b'E' ∷ [])
      ∷ (b'.' ∷ b'B' ∷ b'A' ∷ b'T' ∷ [])
      ∷ (b'.' ∷ b'B' ∷ b'T' ∷ b'M' ∷ [])
      ∷ (if restricted then [] else [] ∷ [])

  extensions-tried : (b : Bool) → extensions dos b ≡ tried b
  unfolding extensions
  extensions-tried b = refl

  -- A path without an extension that is short enough, and not an interpreter's, stands for the
  -- first file that is there of those with .COM, .EXE, .BAT, .BTM and, unless the extensions are
  -- restricted, none.
  pub locate-first :
      (mode : ℕ) (path ext : List ℕ) (pre post : List (List ℕ))
      → has_bit bit_interp mode ≡ false
      → find_raw_ext (find_raw_base_name path dos.dbcs) dos.dbcs ≡ none
      → length path ≤ max_path - 5
      → tried (has_bit bit_restrict_ext mode) ≡ pre ++ (ext ∷ post)
      → All (λ x. (e : Errno) × (dos.getfileattr (path ++ x) ≡ some e)) pre
      → dos.getfileattr (path ++ ext) ≡ none
      → locate dos mode path ≡ inl (path ++ ext)
  unfolding locate
  locate-first mode path ext pre post hi he hl hx hp h =
      rw (locate, hi, he, ltb_of_le (max_path - 5) (length path) hl)
        (ap (λ exts. with_ext dos path exts enoent)
            (extensions-tried (has_bit bit_restrict_ext mode) ∙ hx)
          ∙ with_ext-first path ext pre post enoent hp h)

  run-table :
      (mode : ℕ) (args envp : List (List ℕ)) (path : List ℕ) (fcb : List ℕ × List ℕ) (l : Launch)
      (r : Errno ⊎ ℕ) (batch binary interp : Bool)
      → run dos
          (if batch then (if interp then direct else comspec) else if binary then direct else error)
          mode
          path
          fcb
          args
          envp
        ≡ launched l r
      → (batch || binary) ≡ true
  unfolding run
  run-table mode args envp path fcb l r true binary interp h = refl
  run-table mode args envp path fcb l r false true interp h = refl
  run-table mode args envp path fcb l r false false interp h = absurd (ground (arith, h))

  -- With `_P_RESTRICT_EXT` nothing is run but a .COM, .EXE, .BAT or .BTM file, as `_parsfnm`
  -- sees its extension.
  pub run_located-restricted :
      (mode : ℕ) (args envp : List (List ℕ)) (path name : List ℕ) (e0 e1 e2 : ℕ) (l : Launch)
      (r : Errno ⊎ ℕ)
      → has_bit bit_restrict_ext mode ≡ true
      → dos.parsfnm (find_raw_base_name path dos.dbcs) ≡ some (name, e0 ∷ e1 ∷ e2 ∷ [])
      → run_located dos mode args envp (inl path) ≡ launched l r
      → (is_batch (e0 ∷ e1 ∷ e2 ∷ []) || is_binary (e0 ∷ e1 ∷ e2 ∷ [])) ≡ true
  unfolding run_located run_parsed
  run_located-restricted mode args envp path name e0 e1 e2 l r hr hp h =
      run-table mode args envp path (name, e0 ∷ e1 ∷ e2 ∷ []) l r _ _ (has_bit bit_interp mode)
        (ap (λ s. run dos s mode path (name, e0 ∷ e1 ∷ e2 ∷ []) args envp)
            (sym (find_spawner-table e0 e1 e2 true (has_bit bit_interp mode))
              ∙ ap (λ b. find_spawner (e0 ∷ e1 ∷ e2 ∷ []) b (has_bit bit_interp mode)) (sym hr))
          ∙ (ap (λ o. run_parsed dos mode path args envp o) (sym hp) ∙ h))
