-- ===== src/Process/Examples/Run.antt =====
-- Whole calls of `_spawnve`, `_spawnvpe` and `system` on the concrete machine.
use libi.Base.{ℕ, ◌≡◌, ◌≤◌, refl, true, inr, if◌then◌else◌}
use libi.Base.{Option, none, some, List, [], ◌∷◌, ◌++◌, length, str_eq}
use libi.Path.Chars.{dbcs_lead_p, path_sep_p}
use libi.Path.Search.Walk.{hit_rest}
use libi.Process.Shell.{is_dos_shell}
use libi.Process.Find.{find_raw_base_name}
use libi.Process.Spawn.{Launch, Outcome, launched, libi86_comspec}
use libi.Process.Run.{system_run, spawnve}
use libi.Process.Run.System.{system_run-text}
use libi.Process.Search.{spawnvpe, is_specific_path}
use libi.Process.Search.Order.{spawnvpe-first_hit, there, outcome}
use libi.Process.Examples.{p_name, command_com, com_ext, command_fcb, pc, no_env, two_args}

-- "DIR" and " /c DIR"
abbrev dir : List ℕ
dir = b'D' ∷ b'I' ∷ b'R' ∷ []

abbrev dir_text : List ℕ
dir_text = b' ' ∷ b'/' ∷ b'c' ∷ b' ' ∷ dir

abbrev interpreter : List ℕ
interpreter = b'C' ∷ b':' ∷ 0x5c ∷ command_com

abbrev dir_launch : Launch
dir_launch = record {
  path = interpreter;
  text = dir_text;
  env = no_env;
  fcb1 = dir_text ++ (13 ∷ []);
  fcb2 = dir_text ++ (13 ∷ []);
}

dir-run : system_run pc dir ≡ launched dir_launch (inr 0)
unfolding system_run dbcs_lead_p path_sep_p str_eq
dir-run = refl

interpreter-parsfnm :
    pc.parsfnm (find_raw_base_name (libi86_comspec pc []) none) ≡ some (command_fcb, com_ext)
unfolding libi86_comspec find_raw_base_name dbcs_lead_p path_sep_p str_eq
interpreter-parsfnm = refl

command-is_dos_shell : is_dos_shell command_fcb com_ext ≡ true
unfolding is_dos_shell str_eq
command-is_dos_shell = refl

system_run-text_example :
    (interpreter ≡ libi86_comspec pc []) × ((dir_text ≡ dir_text) × (length dir_text ≤ 126))
system_run-text_example =
    system_run-text pc dir command_fcb com_ext dir_launch (inr 0) interpreter-parsfnm
      command-is_dos_shell dir-run

abbrev no_var : List ℕ → Option (List ℕ)
no_var var = none

-- `_spawnve` for "P" with two arguments.
abbrev spawn_two : Option (List ℕ) → Outcome
spawn_two path = spawnve pc 0 path (some (p_name ∷ two_args)) (some [])

spawnvpe-first_hit_example :
    spawnvpe spawn_two no_var 84 none (some p_name) none
    ≡ some (
        if there spawn_two no_var 84 p_name
        then spawn_two (some p_name)
        else if is_specific_path p_name none
        then spawn_two (some p_name)
        else outcome spawn_two no_var 84 (hit_rest (there spawn_two no_var 84) p_name none))
spawnvpe-first_hit_example = spawnvpe-first_hit spawn_two no_var 84 b'P' [] none
