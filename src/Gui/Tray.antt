-- ===== src/Gui/Tray.antt =====
-- redog-gui/src-tauri/src/tray.rs: `handle_menu_click`, what a click on an item of the tray's menu
-- does. The calls of the window and of the system are effects in their order.
pub mod Menu
use redog.Common.{Bool, true, false, Text, codes, List, [], ◌∷◌, if◌then◌else◌, text_eq, ◌||◌}

pub data Effect : Type 0 where
  exit_process show_window focus_window : Effect
  emit : Text → Text → Effect
  emit_latency_test : Effect
  set_mode : Text → Effect
  toggle_proxy copy_command reload_config create_config_dir open_config_dir : Effect

-- The window comes to the front and goes to a page, if there is one.
unfoldable pub navigate : Bool → Text → List Effect
navigate false page = []
navigate true page = show_window ∷ focus_window ∷ emit (codes "navigate") page ∷ []

unfoldable pub latency_test : Bool → List Effect
latency_test false = []
latency_test true = emit_latency_test ∷ []

unfoldable pub handle_menu_click : Bool → Text → List Effect
unfolding text_eq navigate latency_test
handle_menu_click has_window id =
    if text_eq id (codes "quit")
    then exit_process ∷ []
    else if text_eq id (codes "dashboard")
        || text_eq id (codes "connections")
        || text_eq id (codes "logs")
    then navigate has_window id
    else if text_eq id (codes "mode_rule")
    then set_mode (codes "rule") ∷ []
    else if text_eq id (codes "mode_global")
    then set_mode (codes "global") ∷ []
    else if text_eq id (codes "mode_direct")
    then set_mode (codes "direct") ∷ []
    else if text_eq id (codes "sys_proxy")
    then toggle_proxy ∷ []
    else if text_eq id (codes "copy_cmd")
    then copy_command ∷ []
    else if text_eq id (codes "latency_test")
    then latency_test has_window
    else if text_eq id (codes "reload_config")
    then reload_config ∷ []
    else if text_eq id (codes "open_config_dir")
    then create_config_dir ∷ open_config_dir ∷ []
    else if text_eq id (codes "about")
    then navigate has_window (codes "about")
    else []
