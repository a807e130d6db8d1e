-- ===== src/Gui.antt =====
-- redog-gui/src-tauri: the calls of the API and the subscriptions of the desktop application.
pub mod Libs
pub mod Client
pub mod Share
pub mod Subscription
pub mod Links
pub mod Feed
pub mod Tray
pub mod Shell
pub mod Commands
pub mod SysProxy
pub mod Clipboard
pub mod Window
mod Tests
