-- ===== src/Console/Handles/Restore.antt =====
-- The console is as it was when the program ends.
use libi.Base.{
  ℕ, ◌+◌, ◌*◌, ◌/◌, ◌%◌, ◌≡◌, refl, sym, ap, ◌∙◌, true, false, ◌&&◌, not, Option, none, some, arith,
  ◌==◌, if◌then◌else◌, if_holds, Bool-cases, inl, inr, ◌<◌,
}
use libi.Console.Handles.{
  Handles, Setter, is_device, is_raw, raw, is_input, make_raw, in_opened, in_fd_init, in_fd_fini,
}

-- DOS takes the low byte of a device information word, for this handle alone.
abbrev pub TakesLow : Setter → Type 0
TakesLow set_info =
    (fd w : ℕ) (info : ℕ → Option ℕ) (h dw : ℕ)
    → info h ≡ some dw
    → set_info fd w info h ≡ (if h == fd then some (dw / 256 * 256 + w % 256) else some dw)

-- The first state of the module.
abbrev pub fresh : (ℕ → Option ℕ) → Handles
fresh info = record { con_in_fd = 0; con_in_info_word = 0; con_out_fd = 1; info = info }

raw_lem : (dw : ℕ) → dw < 256 → (is_raw (raw dw) ≡ true) × (raw dw < 256)
unfolding raw
raw_lem dw h = ground (arith, h)

twice :
    (set_info : Setter) (takes : TakesLow set_info) (fd : ℕ) (info : ℕ → Option ℕ) (dw h word v : ℕ)
    → info fd ≡ some dw
    → info h ≡ some word
    → set_info fd (dw % 256) (set_info fd v info) h ≡ some word
twice set_info takes fd info dw h word v e k =
    let low = λ (w x : ℕ). w / 256 * 256 + x % 256 in
    elim (Bool-cases (h == fd)) [
      | inl b ↦
          let same_fd : h ≡ fd = ground (arith, b) in
          let same : some dw ≡ some word = sym e ∙ (ap info (sym same_fd) ∙ k) in
          let set_once : set_info fd v info h ≡ some (low word v) =
            takes fd v info h word k ∙ ap (λ c. if c then some (low word v) else some word) b in
          takes fd (dw % 256) (set_info fd v info) h (low word v) set_once
          ∙ (ap (λ c. if c then some (low (low word v) (dw % 256)) else some (low word v)) b
              ∙ ap some (ground (arith, same)))
      | inr b ↦
          let set_once : set_info fd v info h ≡ some word =
            takes fd v info h word k ∙ ap (λ c. if c then some (low word v) else some word) b in
          takes fd (dw % 256) (set_info fd v info) h word set_once
          ∙ ap (λ c. if c then some (low word (dw % 256)) else some word) b
    ]

module _ (set_info : Setter) (takes : TakesLow set_info) where
  -- What is left of a device information word behind `__libi86_con_in_fd_fini`.
  abbrev Kept : ℕ → ℕ → Handles → Type 0
  Kept h word s = (in_fd_fini set_info s).info h ≡ some word

  unset-Kept :
      (info : ℕ → Option ℕ) (fd h word : ℕ)
      → info h ≡ some word
      → Kept h word (record (fresh info) { con_in_fd = fd })
  unfolding in_fd_fini
  unset-Kept info fd h word k =
      if_holds (λ s. Handles.info s h ≡ some word) (not (fd == 0) && is_device 0) _ _
        (λ e. absurd (ground (arith, e))) (λ e. k)

  make_raw-Kept :
      (info : ℕ → Option ℕ) (fd h word : ℕ) (o : Option ℕ)
      → (fd == 0) ≡ false
      → info h ≡ some word
      → info fd ≡ o
      → Kept h word (make_raw set_info fd o (record (fresh info) { con_in_fd = fd }))
  unfolding make_raw
  make_raw-Kept info fd h word none nz k e = unset-Kept info fd h word k
  make_raw-Kept info fd h word (some dw) nz k e =
      if_holds (Kept h word) (is_device dw) _ _
        (λ b.
          unfold in_fd_fini in
          if_holds (λ s. Handles.info s h ≡ some word) (not (fd == 0) && is_device (dw % 256)) _ _
            (λ c. twice set_info takes fd info dw h word (raw (dw % 256)) e k)
            (λ c. absurd (ground (arith, b, c, nz))))
        (λ b. unset-Kept info fd h word k)

  in_opened-Kept :
      (info : ℕ → Option ℕ) (opened : Option ℕ) (h word : ℕ)
      → info h ≡ some word
      → Kept h word (in_opened set_info opened (fresh info))
  unfolding in_opened
  in_opened-Kept info none h word k = unset-Kept info 0 h word k
  in_opened-Kept info (some fd) h word k =
      if_holds (Kept h word) (fd == 0) _ _ (λ e. unset-Kept info fd h word k)
        (λ e. make_raw-Kept info fd h word (info fd) e k refl)

  in_opened-raw :
      (info : ℕ → Option ℕ) (fd dw : ℕ)
      → (fd == 0) ≡ false
      → info fd ≡ some dw
      → is_device dw ≡ true
      → (word : ℕ) × ((in_opened set_info (some fd) (fresh info)).info fd ≡ some word)
        × (is_raw word ≡ true)
  unfolding in_opened
  in_opened-raw info fd dw nz e b =
      let low = dw / 256 * 256 + raw (dw % 256) % 256 in
      let r = raw_lem (dw % 256) (omega arith) in
      let made = λ (o : Option ℕ).
        (make_raw set_info fd o (record (fresh info) { con_in_fd = fd })).info fd in
      let set_once = takes fd (raw (dw % 256)) info fd dw e in
      let same : (fd == fd) ≡ true = ground arith in
      (
        low,
        ap
              (λ c.
                (if c
                    then record (fresh info) { con_in_fd = fd }
                    else make_raw set_info fd (info fd)
                        (record (fresh info) { con_in_fd = fd })).info
                  fd)
              nz
            ∙ (ap made e
                ∙ (unfold make_raw in
                    (ap
                        (λ c.
                          (if c
                              then record (fresh info) {
                                con_in_fd = fd;
                                con_in_info_word = dw % 256;
                                info = set_info fd (raw (dw % 256)) info;
                              }
                              else record (fresh info) { con_in_fd = fd }).info
                            fd)
                        b
                      ∙ (set_once ∙ ap (λ c. if c then some low else some dw) same)))),
        ground (arith, r.0, r.1),
      )

  -- Where DOS takes the low byte of a device information word for the handle alone, every handle
  -- has behind the end of the program the device information word that it had before its start,
  -- whatever "open" gives.
  pub in_fd_fini-in_fd_init :
      (info : ℕ → Option ℕ) (opened : Option ℕ) (h word : ℕ)
      → info h ≡ some word
      → (in_fd_fini set_info (in_fd_init set_info opened (fresh info))).info h ≡ some word
  unfolding in_fd_init
  in_fd_fini-in_fd_init info opened h word k =
      if_holds (Kept h word) (is_input (info 0)) _ _ (λ e. unset-Kept info 0 h word k)
        (λ e. in_opened-Kept info opened h word k)

  -- Where the standard input is not the console, and the handle that "open" gives is a device and
  -- not the standard input, it is raw in between.
  pub in_fd_init-raw :
      (info : ℕ → Option ℕ) (fd dw : ℕ)
      → is_input (info 0) ≡ false
      → (fd == 0) ≡ false
      → info fd ≡ some dw
      → is_device dw ≡ true
      → (word : ℕ) × ((in_fd_init set_info (some fd) (fresh info)).info fd ≡ some word)
        × (is_raw word ≡ true)
  unfolding in_fd_init
  in_fd_init-raw info fd dw hi nz e b =
      let r = in_opened-raw info fd dw nz e b in
      (
        r.0,
        ap (λ c. (if c then fresh info else in_opened set_info (some fd) (fresh info)).info fd) hi
            ∙ r.1,
        r.2,
      )
