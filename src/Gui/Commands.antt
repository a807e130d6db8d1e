-- ===== src/Gui/Commands.antt =====
-- redog-gui/src-tauri/src/sysproxy.rs: the calls of the system's programs. A call is a step of the
-- system `W`, which is a parameter.
use redog.Common.{
  ℕ, Bool, true, false, ◌||◌, Text, codes, List, [], ◌∷◌, ◌++◌, Option, none, some, ◌==◌,
  if◌then◌else◌, contains, lines, trim, to_decimal, Parsed, parsed, failed,
}
use redog.Gui.Shell.{applescript, interface_in, service_of, or_wifi}

-- What a program that has ended leaves; its texts are those of `from_utf8_lossy`.
pub record Output : Type 0 where
  pub success : Bool
  pub code : Option ℕ
  pub stdout : Text
  pub stderr : Text

-- What a call leaves of the system, and its answer.
abbrev pub Call : Type 0 → Type 0 → Type 0
Call W A = W → W × Parsed A

abbrev pub after : {W A B : Type 0} → (A → Call W B) → W × Parsed A → W × Parsed B
after f (w, parsed a) = f a w
after f (w, failed e) = (w, failed e)

abbrev pub with_error : {W A : Type 0} → (Text → Text) → W × Parsed A → W × Parsed A
with_error f (w, parsed a) = (w, parsed a)
with_error f (w, failed e) = (w, failed (f e))

module _ {W : Type 0} (run : Text → List Text → Call W Output) where
  abbrev hardware_ports : Option Text → Call W Text
  unfolding service_of lines
  hardware_ports none w = (w, parsed (codes "Wi-Fi"))
  hardware_ports (some iface) w =
      after (λ out v. (v, parsed (or_wifi (service_of iface [] (lines out.stdout)))))
        (run (codes "networksetup") (codes "-listallhardwareports" ∷ []) w)

  unfoldable pub active_network_service : Call W Text
  unfolding hardware_ports interface_in lines
  active_network_service w =
      after (λ out. hardware_ports (interface_in (lines out.stdout)))
        (with_error (λ e. codes "route 命令失败: " ++ e)
          (run (codes "route") (codes "-n" ∷ codes "get" ∷ codes "default" ∷ []) w))

  -- Whether a command that failed wants the rights of an administrator.
  abbrev wants_admin : Output → Bool
  unfolding contains
  wants_admin out =
      contains out.stderr (codes "admin privileges")
      || elim out.code [ some c ↦ c == 14 | none ↦ false ]

  abbrev first_arg : List Text → Text
  first_arg [] = []
  first_arg (a ∷ _) = a

  abbrev code_text : Option ℕ → Text
  unfolding to_decimal
  code_text none = codes "-1"
  code_text (some c) = to_decimal c

  abbrev detail : Output → Text
  unfolding trim
  detail out = elim (trim out.stderr) [ [] ↦ trim out.stdout | c ∷ s ↦ c ∷ s ]

  abbrev batch_error : List Text → Output → Text
  batch_error args out =
      codes "networksetup "
      ++ (first_arg args
          ++ (codes " 失败 (exit " ++ (code_text out.code ++ (codes "): " ++ detail out))))

  -- The commands one after another: whether one wants the rights of an administrator, which ends
  -- the loop, as an error does.
  unfoldable pub try_commands : List (List Text) → Call W Bool
  unfolding wants_admin detail code_text
  try_commands [] w = (w, parsed false)
  try_commands (args ∷ commands) w =
      after
        (λ out v.
          if out.success
          then try_commands commands v
          else if wants_admin out
          then (v, parsed true)
          else (v, failed (batch_error args out)))
        (with_error (λ e. codes "networksetup 启动失败: " ++ e) (run (codes "networksetup") args w))

  abbrev elevated_answer : Output → Parsed (Unit {0})
  unfolding contains trim
  elevated_answer out =
      if out.success
      then parsed tt
      else if contains out.stderr (codes "User canceled") || contains out.stderr (codes "-128")
      then failed (codes "用户取消了授权")
      else failed (codes "提权执行失败: " ++ trim out.stderr)

  -- All the commands again, in one call with those rights.
  unfoldable pub run_elevated : List (List Text) → Call W (Unit {0})
  unfolding applescript elevated_answer
  run_elevated commands w =
      after (λ out v. (v, elevated_answer out))
        (with_error (λ e. codes "osascript 启动失败: " ++ e)
          (run (codes "osascript") (codes "-e" ∷ applescript commands ∷ []) w))

  unfoldable pub run_networksetup_batch : List (List Text) → Call W (Unit {0})
  unfolding try_commands run_elevated
  run_networksetup_batch commands w =
      after
        (λ needs_elevation v. if needs_elevation then run_elevated commands v else (v, parsed tt))
        (try_commands commands w)

  unfoldable pub run_reg : List Text → Call W (Unit {0})
  run_reg args w =
      after (λ out v. if out.success then (v, parsed tt) else (v, failed out.stderr))
        (run (codes "reg") args w)
