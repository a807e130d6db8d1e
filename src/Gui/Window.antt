-- ===== src/Gui/Window.antt =====
-- redog-gui/src-tauri/src/main.rs: what the application does at its start, the commands that its page
-- can call, and what a window's wish to close leads to. The calls of Tauri are effects in their order.
use redog.Common.{
  Bool, Text, codes, List, [], ◌∷◌, ◌++◌, map, Parsed, parsed, failed, if◌then◌else◌,
}
use redog.Gui.SysProxy.{Platform, mac_os, windows, other_platform}
use redog.Gui.Tray
use redog.Gui.Tray.{handle_menu_click}

pub data WindowEffect : Type 0 where
  attach_tray accessory_policy hide_window prevent_close : WindowEffect
  clicked : Tray.Effect → WindowEffect

abbrev dock_icon : Platform → List WindowEffect
dock_icon mac_os = accessory_policy ∷ []
dock_icon windows = []
dock_icon other_platform = []

-- The closure of `setup`, given whether the tray can be built and the main window exists.
unfoldable pub setup : {E : Type 0} → Platform → Parsed E → Bool → Parsed (List WindowEffect)
setup platform (failed e) has_window = failed e
setup platform (parsed tray) has_window =
    parsed (attach_tray ∷ (dock_icon platform ++ (if has_window then hide_window ∷ [] else [])))

-- The closure of `on_menu_event`.
unfoldable pub on_menu_event : Bool → Text → List WindowEffect
unfolding handle_menu_click
on_menu_event has_window id = map clicked (handle_menu_click has_window id)

pub data WindowEvent : Type 0 where
  close_requested other_event : WindowEvent

-- The closure of `on_window_event`: the window is hidden and stays.
unfoldable pub on_window_event : WindowEvent → List WindowEffect
on_window_event close_requested = hide_window ∷ prevent_close ∷ []
on_window_event other_event = []

-- `generate_handler!`
unfoldable pub commands : List Text
commands =
    codes "get_proxies"
    ∷ codes "get_rules"
    ∷ codes "get_connections"
    ∷ codes "get_traffic"
    ∷ codes "get_version"
    ∷ codes "get_configs"
    ∷ codes "patch_configs"
    ∷ codes "select_proxy"
    ∷ codes "test_latency"
    ∷ codes "fetch_subscription"
    ∷ codes "set_api_config"
    ∷ codes "get_api_config"
    ∷ codes "set_system_proxy"
    ∷ codes "get_system_proxy"
    ∷ codes "copy_terminal_command"
    ∷ []
