-- ===== src/Gui/SysProxy.antt =====
-- redog-gui/src-tauri/src/sysproxy.rs: the proxy settings of the operating system, and the flag that
-- says whether they are on.
use redog.Common.{
  ℕ, Bool, true, false, not, Text, codes, List, [], ◌∷◌, ◌++◌, to_decimal, Parsed, parsed, failed,
  ◌≡◌, refl, inl, inr, ◌⊎◌,
}
use redog.Gui.Commands.{
  Output, Call, after, active_network_service, run_networksetup_batch, run_reg,
}

pub data Platform : Type 0 where
  mac_os windows other_platform : Platform

abbrev pub proxy_host : Text
proxy_host = codes "127.0.0.1"

abbrev pub proxy_port : ℕ
proxy_port = 7890

-- The flag `SYS_PROXY_ENABLED` is stored where the call succeeds.
abbrev pub stored :
    {W : Type 0} → Bool → Bool → W × Parsed (Unit {0}) → (W × Bool) × Parsed (Unit {0})
stored enable flag (w, parsed _) = ((w, enable), parsed tt)
stored enable flag (w, failed e) = ((w, flag), failed e)

module _ {W : Type 0} (run : Text → List Text → Call W Output) where
  -- The settings are read again; the answer is not looked at.
  abbrev refresh : Call W (Unit {0})
  refresh w =
      let (v, _) =
        run (codes "RUNDLL32.EXE")
          (codes "wininet.dll,InternetSetOption"
            ∷ codes "0"
            ∷ codes "0"
            ∷ codes "0"
            ∷ codes "0"
            ∷ [])
          w in
      (v, parsed tt)

  abbrev registry_key : Text
  registry_key = codes "HKCU\\Software\\Microsoft\\Windows\\CurrentVersion\\Internet Settings"

  abbrev reg_value : Text → Text → Text → List Text
  reg_value name kind value =
      codes "add"
      ∷ registry_key
      ∷ codes "/v"
      ∷ name
      ∷ codes "/t"
      ∷ kind
      ∷ codes "/d"
      ∷ value
      ∷ codes "/f"
      ∷ []

  unfoldable pub enable_mac_os : Call W (Unit {0})
  unfolding active_network_service run_networksetup_batch to_decimal
  enable_mac_os w =
      let port = to_decimal proxy_port in
      after
        (λ service. run_networksetup_batch run (
          (codes "-setwebproxy" ∷ service ∷ proxy_host ∷ port ∷ [])
          ∷ (codes "-setsecurewebproxy" ∷ service ∷ proxy_host ∷ port ∷ [])
          ∷ (codes "-setsocksfirewallproxy" ∷ service ∷ proxy_host ∷ port ∷ [])
          ∷ (codes "-setwebproxystate" ∷ service ∷ codes "on" ∷ [])
          ∷ (codes "-setsecurewebproxystate" ∷ service ∷ codes "on" ∷ [])
          ∷ (codes "-setsocksfirewallproxystate" ∷ service ∷ codes "on" ∷ [])
          ∷ []))
        (active_network_service run w)

  unfoldable pub enable_windows : Call W (Unit {0})
  unfolding run_reg to_decimal
  enable_windows w =
      after
        (λ _ v.
          after (λ _. refresh)
            (run_reg run
              (reg_value (codes "ProxyServer") (codes "REG_SZ")
                (proxy_host ++ (codes ":" ++ to_decimal proxy_port)))
              v))
        (run_reg run (reg_value (codes "ProxyEnable") (codes "REG_DWORD") (codes "1")) w)

  unfoldable pub enable_proxy : Platform → Call W (Unit {0})
  unfolding enable_mac_os enable_windows
  enable_proxy mac_os w = enable_mac_os w
  enable_proxy windows w = enable_windows w
  enable_proxy other_platform w = (w, failed (codes "unsupported platform"))

  unfoldable pub disable_mac_os : Call W (Unit {0})
  unfolding active_network_service run_networksetup_batch
  disable_mac_os w =
      after
        (λ service. run_networksetup_batch run (
          (codes "-setwebproxystate" ∷ service ∷ codes "off" ∷ [])
          ∷ (codes "-setsecurewebproxystate" ∷ service ∷ codes "off" ∷ [])
          ∷ (codes "-setsocksfirewallproxystate" ∷ service ∷ codes "off" ∷ [])
          ∷ []))
        (active_network_service run w)

  unfoldable pub disable_windows : Call W (Unit {0})
  unfolding run_reg
  disable_windows w =
      after (λ _. refresh)
        (run_reg run (reg_value (codes "ProxyEnable") (codes "REG_DWORD") (codes "0")) w)

  unfoldable pub disable_proxy : Platform → Call W (Unit {0})
  unfolding disable_mac_os disable_windows
  disable_proxy mac_os w = disable_mac_os w
  disable_proxy windows w = disable_windows w
  disable_proxy other_platform w = (w, failed (codes "unsupported platform"))

  unfoldable pub set_system_proxy : Platform → Bool → Call (W × Bool) (Unit {0})
  unfolding enable_proxy disable_proxy
  set_system_proxy platform true (w, flag) = stored true flag (enable_proxy platform w)
  set_system_proxy platform false (w, flag) = stored false flag (disable_proxy platform w)

  unfoldable pub toggle_system_proxy : Platform → Call (W × Bool) (Unit {0})
  unfolding set_system_proxy
  toggle_system_proxy platform (w, flag) = set_system_proxy platform (not flag) (w, flag)

unfoldable pub get_system_proxy : Bool → Bool
get_system_proxy flag = flag

-- The flag is what was asked for where the call succeeds, and is kept where it fails.
abbrev pub FlagIs : {W : Type 0} → Bool → Bool → (W × Bool) × Parsed (Unit {0}) → Type 0
FlagIs enable flag ((w, flag'), r) =
    ((r ≡ parsed tt) × (flag' ≡ enable)) ⊎ ((e : Text) × (r ≡ failed e) × (flag' ≡ flag))

stored-FlagIs :
    {W : Type 0} (enable flag : Bool) (p : W × Parsed (Unit {0}))
    → FlagIs enable flag (stored enable flag p)
stored-FlagIs enable flag (w, parsed _) = inl (refl, refl)
stored-FlagIs enable flag (w, failed e) = inr (e, refl, refl)

-- On every platform and whatever the programs answer: a change of the setting that succeeds leaves
-- the flag as asked for, and one that fails leaves it as it was.
pub set_system_proxy-FlagIs :
    {W : Type 0} (run : Text → List Text → Call W Output) (platform : Platform) (enable : Bool)
    (w : W) (flag : Bool)
    → FlagIs enable flag (set_system_proxy run platform enable (w, flag))
unfolding set_system_proxy
set_system_proxy-FlagIs run platform true w flag =
    stored-FlagIs true flag (enable_proxy run platform w)
set_system_proxy-FlagIs run platform false w flag =
    stored-FlagIs false flag (disable_proxy run platform w)
