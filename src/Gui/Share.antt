-- ===== src/Gui/Share.antt =====
-- redog-gui/src-tauri/src/api.rs: `base64_decode` and `parse_share_uri`. A JSON value that the code
-- builds is the record of its fields.
use redog.Common.{
  ℕ, Bool, true, false, Text, codes, List, [], ◌∷◌, Option, none, some, if◌then◌else◌, strip_prefix,
  split_once, rsplit_once, split, splitn, is_whitespace, trim, text_eq, parse_uint, parsed, failed,
}
use redog.Common.Utf8.{from_utf8}
use redog.Gui.Libs.{Values, Codecs}

pub record Node : Type 0 where
  pub name : Text
  pub node_type : Text
  pub server : Text
  pub port : ℕ
  pub password : Text
  pub cipher : Text
  pub tls : Bool

abbrev pub or_text : Text → Option Text → Text
or_text d none = d
or_text d (some t) = t

abbrev pub or_number : ℕ → Option ℕ → ℕ
or_number d none = d
or_number d (some n) = n

abbrev pub or_try {ℓ} : {A : Type ℓ} → Option A → Option A → Option A
or_try none b = b
or_try (some a) b = some a

abbrev pub bind_option {ℓ κ} : {A : Type ℓ} {B : Type κ} → Option A → (A → Option B) → Option B
bind_option none f = none
bind_option (some a) f = f a

abbrev pub u64_max : ℕ
u64_max = 18446744073709551615

-- `s.parse::<u64>().ok()`
unfoldable pub parse_u64 : Text → Option ℕ
unfolding parse_uint
parse_u64 s = elim (parse_uint u64_max s) [ parsed n ↦ some n | failed _ ↦ none ]

unfoldable pub without_blanks : Text → Text
unfolding is_whitespace
without_blanks [] = []
without_blanks (c ∷ s) = let rest = without_blanks s in if is_whitespace c then rest else c ∷ rest

module _ (lib : Codecs) where
  unfoldable pub base64_decode : Text → Option Text
  unfolding trim without_blanks from_utf8
  base64_decode input =
      let cleaned = without_blanks (trim input) in
      bind_option (or_try (lib.standard cleaned) (lib.standard_no_pad cleaned)) from_utf8

  -- What stands before the first `#`, and the name after it.
  unfoldable pub cut_name : Text → Text → Text × Text
  unfolding split_once
  cut_name default_name rest = elim (split_once b'#' rest) [
    | some (main, name) ↦ (main, or_text [] (lib.url_decode name))
    | none ↦ (rest, default_name)
  ]

-- The parts of a host and a port: the server, and the port or the default.
unfoldable pub host_port_parts : ℕ → List Text → Text × ℕ
unfolding parse_u64
host_port_parts default_port [] = ([], default_port)
host_port_parts default_port (server ∷ []) = (server, default_port)
host_port_parts default_port (server ∷ port ∷ _) = (server, or_number default_port (parse_u64 port))

-- The cipher and the password.
unfoldable pub user_parts : Text → Text × Text
unfolding split_once
user_parts user_info = elim (split_once b':' user_info) [
  | some (cipher, password) ↦ (cipher, password)
  | none ↦ (codes "aes-256-gcm", user_info)
]

abbrev pub ss_node : Text → Text × Text → Text × ℕ → Node
ss_node name (cipher, password) (server, port) = record {
  name = name;
  node_type = codes "ss";
  server = server;
  port = port;
  password = password;
  cipher = cipher;
  tls = false;
}

abbrev pub trojan_node : Text → Text → Text × ℕ → Node
trojan_node name password (server, port) = record {
  name = name;
  node_type = codes "trojan";
  server = server;
  port = port;
  password = password;
  cipher = [];
  tls = true;
}

-- `split('?').next().unwrap_or(host_port)`
unfoldable pub before_query : Text → Text
unfolding split
before_query host_port = elim (split b'?' host_port) [ [] ↦ host_port | hp ∷ _ ↦ hp ]

module _ (lib : Codecs) where
  unfoldable pub ss_of_main : Text → Text → Option Node
  unfolding base64_decode rsplit_once user_parts host_port_parts splitn
  ss_of_main main name =
      let decoded = or_text main (base64_decode lib main) in
      elim (rsplit_once b'@' decoded) [
        | none ↦ none
        | some (user_info, host_port) ↦
            some (ss_node name (user_parts user_info) (host_port_parts 0 (splitn 2 b':' host_port)))
      ]

  unfoldable pub parse_ss : Text → Option Node
  unfolding cut_name ss_of_main
  parse_ss rest = let (main, name) = cut_name lib (codes "SS Node") rest in ss_of_main main name

  unfoldable pub parse_trojan : Text → Option Node
  unfolding cut_name split_once before_query host_port_parts splitn
  parse_trojan without = elim (split_once b'@' without) [
    | none ↦ none
    | some (password, rest) ↦
        let (host_port, name) = cut_name lib (codes "Trojan") rest in
        some
          (trojan_node name password (host_port_parts 443 (splitn 2 b':' (before_query host_port))))
  ]

module _ {J : Type 0} (lib : Codecs) (json : Values J) where
  -- The text under a key, or the default.
  unfoldable pub text_under : Text → Text → J → Text
  text_under key default obj = or_text default (bind_option (json.get key obj) json.as_str)

  -- A port is a number, or a text that is one.
  unfoldable pub port_value : J → Option ℕ
  unfolding parse_u64
  port_value v = or_try (bind_option (json.as_str v) parse_u64) (json.as_u64 v)

  unfoldable pub vmess_node : J → Node
  unfolding text_under port_value text_eq
  vmess_node obj = record {
    name = or_text (codes "VMess") (
        bind_option (or_try (json.get (codes "ps") obj) (json.get (codes "remark") obj))
          json.as_str);
    node_type = codes "vmess";
    server = text_under (codes "add") [] obj;
    port = or_number 0 (bind_option (json.get (codes "port") obj) port_value);
    password = text_under (codes "id") [] obj;
    cipher = text_under (codes "scy") (codes "auto") obj;
    tls = elim (bind_option (json.get (codes "tls") obj) json.as_str) [
      | some t ↦ text_eq t (codes "tls")
      | none ↦ false
    ];
  }

  unfoldable pub parse_vmess : Text → Option Node
  unfolding base64_decode vmess_node
  parse_vmess rest =
      bind_option (base64_decode lib rest)
        (λ json_str. bind_option (json.from_str json_str) (λ obj. some (vmess_node obj)))

  unfoldable pub parse_share_uri : Text → Option Node
  unfolding strip_prefix parse_ss parse_vmess parse_trojan
  parse_share_uri uri = elim (strip_prefix (codes "ss://") uri) [
    | some rest ↦ parse_ss lib rest
    | none ↦ elim (strip_prefix (codes "vmess://") uri) [
      | some rest ↦ parse_vmess rest
      | none ↦ elim (strip_prefix (codes "trojan://") uri) [
        | some without ↦ parse_trojan lib without
        | none ↦ none
      ]
    ]
  ]
