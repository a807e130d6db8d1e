-- ===== src/Gui/Shell.antt =====
-- redog-gui/src-tauri/src/sysproxy.rs: the texts that are given to the shell of macOS, and what is
-- read from the answers of its programs.
use redog.Common.{
  ℕ, Bool, false, Text, codes, List, [], ◌∷◌, ◌++◌, map, Option, none, some, ◌==◌, if◌then◌else◌,
  contains, split, strip_prefix, trim, text_eq,
}

-- `replace` of one character by a text.
unfoldable pub replace : ℕ → Text → Text → Text
replace c by [] = []
replace c by (d ∷ s) = let rest = replace c by s in if d == c then by ++ rest else d ∷ rest

unfoldable pub join : Text → List Text → Text
join separator [] = []
join separator (t ∷ []) = t
join separator (t ∷ u ∷ ts) = t ++ (separator ++ join separator (u ∷ ts))

-- One command as a line of the shell.
unfoldable pub shell_line : List Text → Text
unfolding replace join
shell_line args =
    codes "networksetup "
    ++ join (codes " ")
        (map (λ a. codes "'" ++ (replace b'\'' (codes "'\\''") a ++ codes "'")) args)

unfoldable pub applescript : List (List Text) → Text
unfolding replace join shell_line
applescript commands =
    let shell_script = join (codes " && ") (map shell_line commands) in
    codes "do shell script \""
    ++ (replace b'"' (codes "\\\"") (replace b'\\' (codes "\\\\") shell_script)
        ++ codes "\" with administrator privileges")

-- The line that names the interface, and what it names.
unfoldable pub interface_in : List Text → Option Text
unfolding contains split trim
interface_in [] = none
interface_in (l ∷ ls) =
    let rest = interface_in ls in
    if contains l (codes "interface:")
    then elim (split b':' l) [
      | [] ↦ none
      | _ ∷ parts ↦ elim parts [ [] ↦ none | s ∷ _ ↦ some (trim s) ]
    ]
    else rest

abbrev pub port_name : Text → Text → Text
unfolding strip_prefix
port_name current line = elim (strip_prefix (codes "Hardware Port: ") line) [
  | some name ↦ name
  | none ↦ current
]

abbrev pub is_device : Text → Text → Bool
unfolding strip_prefix trim text_eq
is_device iface line = elim (strip_prefix (codes "Device: ") line) [
  | some dev ↦ text_eq (trim dev) iface
  | none ↦ false
]

-- The loop over the hardware ports, with the name of the port that it stands in.
unfoldable pub service_of : Text → Text → List Text → Option Text
unfolding port_name is_device
service_of iface current [] = none
service_of iface current (line ∷ others) =
    let name = port_name current line in
    let rest = service_of iface name others in if is_device iface line then some name else rest

abbrev pub or_wifi : Option Text → Text
or_wifi none = codes "Wi-Fi"
or_wifi (some s) = s
