-- ===== src/Gui/Clipboard.antt =====
-- redog-gui/src-tauri/src/sysproxy.rs: `copy_terminal_command`. The start of a program with a pipe to
-- it, the write to the pipe and the wait for the program's end are steps of the system.
use redog.Common.{Text, codes, ◌++◌, to_decimal, parsed}
use redog.Gui.Commands.{Call, after}
use redog.Gui.SysProxy.{Platform, mac_os, windows, other_platform, proxy_host, proxy_port}

-- `cmd`
unfoldable pub terminal_command : Text
unfolding to_decimal
terminal_command =
    let address = proxy_host ++ (codes ":" ++ to_decimal proxy_port) in
    codes "export https_proxy=http://"
    ++ (address
        ++ (codes " http_proxy=http://" ++ (address ++ (codes " all_proxy=socks5://" ++ address))))

module _ {W P : Type 0} (spawn : Text → Call W P) (write_all : Text → P → Call W P)
    (wait : P → W → W) where
  -- The text goes to a program, whose end is waited for.
  unfoldable pub pipe_to : Text → Text → Call W Text
  pipe_to program cmd w =
      after (λ p v. (wait p v, parsed cmd)) (after (write_all cmd) (spawn program w))

  unfoldable pub copy_terminal_command_sync : Platform → Call W Text
  unfolding pipe_to terminal_command
  copy_terminal_command_sync mac_os w = pipe_to (codes "pbcopy") terminal_command w
  copy_terminal_command_sync windows w = pipe_to (codes "clip") terminal_command w
  copy_terminal_command_sync other_platform w = (w, parsed terminal_command)

  unfoldable pub copy_terminal_command : Platform → Call W Text
  unfolding copy_terminal_command_sync
  copy_terminal_command platform w = copy_terminal_command_sync platform w
