-- ===== src/Console/Handles.antt =====
-- The handles of the console: host-gcc/conio/libi86-con-in-fd.c and libi86-con-out-fd.c, for
-- MS-DOS. What DOS answers to "open" and how it takes a device information word are parameters.
pub mod Restore
use libi.Base.{ℕ, ◌+◌, ◌/◌, ◌%◌, ◌≡◌, Bool, true, false, ◌&&◌, not, Option, none, some}
use libi.Base.{◌==◌, if◌then◌else◌}

-- `__libi86_con_in_fd`, `__libi86_con_in_info_word`, `__libi86_con_out_fd`, and the device
-- information words that DOS has.
pub record Handles : Type 0 where
  pub con_in_fd : ℕ
  pub con_in_info_word : ℕ
  pub con_out_fd : ℕ
  pub info : ℕ → Option ℕ

-- Bits of a device information word: a device, with raw input, that is the console output, or the
-- console input.
unfoldable pub is_device : ℕ → Bool
is_device dw = dw / 128 % 2 == 1

unfoldable pub is_raw : ℕ → Bool
is_raw dw = dw / 32 % 2 == 1

unfoldable pub is_console_out : ℕ → Bool
is_console_out dw = dw / 2 % 2 == 1

unfoldable pub is_console_in : ℕ → Bool
is_console_in dw = dw % 2 == 1

-- `dw | 0x20`
unfoldable pub raw : ℕ → ℕ
unfolding is_raw
raw dw = if is_raw dw then dw else dw + 32

unfoldable pub is_input : Option ℕ → Bool
unfolding is_device is_console_in
is_input none = false
is_input (some dw) = is_device dw && is_console_in dw

unfoldable pub is_output : Option ℕ → Bool
unfolding is_device is_console_out
is_output none = false
is_output (some dw) = is_device dw && is_console_out dw

abbrev pub Setter : Type 0
Setter = ℕ → ℕ → (ℕ → Option ℕ) → ℕ → Option ℕ

-- Raw mode for an input handle that was opened.
unfoldable pub make_raw : Setter → ℕ → Option ℕ → Handles → Handles
unfolding is_device raw
make_raw set_info fd none s = s
make_raw set_info fd (some dw) s =
    if is_device dw
    then record s { con_in_info_word = dw % 256; info = set_info fd (raw (dw % 256)) s.info }
    else s

-- `__libi86_con_in_fd_init`, with what "open" returns for reading.
unfoldable pub in_opened : Setter → Option ℕ → Handles → Handles
unfolding make_raw
in_opened set_info none s = s
in_opened set_info (some fd) s =
    if fd == 0
    then record s { con_in_fd = fd }
    else make_raw set_info fd (s.info fd) (record s { con_in_fd = fd })

unfoldable pub in_fd_init : Setter → Option ℕ → Handles → Handles
unfolding is_input in_opened
in_fd_init set_info fd s = if is_input (s.info 0) then s else in_opened set_info fd s

-- `__libi86_con_in_fd_fini`
unfoldable pub in_fd_fini : Setter → Handles → Handles
unfolding is_device
in_fd_fini set_info s =
    if not (s.con_in_fd == 0) && is_device s.con_in_info_word
    then record s { info = set_info s.con_in_fd s.con_in_info_word s.info }
    else s

-- `__libi86_con_out_fd_init`, with what "open" returns for writing.
unfoldable pub out_opened : Option ℕ → Handles → Handles
out_opened none s = s
out_opened (some fd) s = record s { con_out_fd = fd }

unfoldable pub out_fd_init : Option ℕ → Handles → Handles
unfolding is_output out_opened
out_fd_init fd s = if is_output (s.info 1) then s else out_opened fd s
