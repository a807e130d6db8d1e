-- ===== src/Gui/Links.antt =====
-- The links of a subscription in their written forms, and the nodes that are read from them.
use redog.Common.{
  ℕ, ◌≤◌, false, ◌==◌, Text, codes, [], ◌∷◌, ◌++◌, Option, none, some, split_once_append,
  split_once-none, rsplit_once_append, split, splitn, Without, Without-append, Without-to_decimal,
  to_decimal, parse_uint-to_decimal, IsDigit, ◌≡◌, ◌≢◌, refl, arith,
}
use mathlib.Core.List.{append-nil}
use redog.Gui.Libs.{Codecs}
use redog.Gui.Share.{
  Node, or_text, parse_u64, u64_max, base64_decode, cut_name, host_port_parts, user_parts, ss_node,
  trojan_node, before_query, ss_of_main, parse_ss, parse_trojan,
}

-- The cipher and the password of a link, or one text without a colon.
pub data UserInfo : Type 0 where
  with_cipher : Text → Text → UserInfo
  bare : Text → UserInfo

abbrev pub user_text : UserInfo → Text
user_text (with_cipher c p) = c ++ (b':' ∷ p)
user_text (bare t) = t

abbrev pub user_of : UserInfo → Text × Text
user_of (with_cipher c p) = (c, p)
user_of (bare t) = (codes "aes-256-gcm", t)

abbrev pub UserFits : UserInfo → Type 0
UserFits (with_cipher c p) = Without b':' c
UserFits (bare t) = Without b':' t

abbrev pub authority_text : Text → ℕ → Text
authority_text host port = host ++ (b':' ∷ to_decimal port)

-- The name of a node as it is written and as it is read.
abbrev pub tag_text : Option (Text × Text) → Text
tag_text none = []
tag_text (some (written, name)) = b'#' ∷ written

abbrev pub name_or : Text → Option (Text × Text) → Text
name_or d none = d
name_or d (some (written, name)) = name

abbrev pub query_text : Option Text → Text
query_text none = []
query_text (some q) = b'?' ∷ q

-- A link of Shadowsocks, with what stands before the name as it is written, and one of Trojan.
pub data Link : Type 0 where
  ss_link : Text → UserInfo → Text → ℕ → Option (Text × Text) → Link
  trojan_link : Text → Text → ℕ → Option Text → Option (Text × Text) → Link

abbrev pub link_text : Link → Text
link_text (ss_link main u host port tag) = codes "ss://" ++ (main ++ tag_text tag)
link_text (trojan_link password host port query tag) =
    codes "trojan://"
    ++ (password ++ (b'@' ∷ ((authority_text host port ++ query_text query) ++ tag_text tag)))

abbrev pub node_of : Link → Node
node_of (ss_link main u host port tag) =
    ss_node (name_or (codes "SS Node") tag) (user_of u) (host, port)
node_of (trojan_link password host port query tag) =
    trojan_node (name_or (codes "Trojan") tag) password (host, port)

parse_u64-to_decimal : (n : ℕ) → n ≤ u64_max → parse_u64 (to_decimal n) ≡ some n
unfolding parse_u64
parse_u64-to_decimal n h = rw (parse_uint-to_decimal u64_max n h, parse_u64) refl

host_port_lem :
    (d : ℕ) (host : Text) (port : ℕ)
    → Without b':' host
    → port ≤ u64_max
    → host_port_parts d (splitn 2 b':' (authority_text host port)) ≡ (host, port)
unfolding host_port_parts splitn
host_port_lem d host port w h =
    rw (split_once_append b':' host (to_decimal port) w, splitn)
      (rw (parse_u64-to_decimal port h, host_port_parts) refl)

user_parts_lem : (u : UserInfo) → UserFits u → user_parts (user_text u) ≡ user_of u
unfolding user_parts
user_parts_lem (with_cipher c p) w = rw (split_once_append b':' c p w, user_parts) refl
user_parts_lem (bare t) w = rw (split_once-none b':' t w, user_parts) refl

split-first : (d : ℕ) (x rest : Text) → Without d x → split d (x ++ (d ∷ rest)) ≡ x ∷ split d rest
unfolding split
split-first d [] rest w = ground arith
split-first d (c ∷ x) rest (n, w) =
    let other : (c == d) ≡ false = ground (arith, n) in
    rw other (rw (split-first d x rest w, split) refl)

split-whole : (d : ℕ) (x : Text) → Without d x → split d x ≡ x ∷ []
unfolding split
split-whole d [] w = refl
split-whole d (c ∷ x) (n, w) =
    let other : (c == d) ≡ false = ground (arith, n) in
    rw other (rw (split-whole d x w, split) refl)

before_query_lem :
    (x : Text) (query : Option Text) → Without b'?' x → before_query (x ++ query_text query) ≡ x
unfolding before_query
before_query_lem x none w = rw (append-nil x) (rw (split-whole b'?' x w, before_query) refl)
before_query_lem x (some q) w = rw (split-first b'?' x q w, before_query) refl

module _ (lib : Codecs) where
  abbrev pub TagFits : Option (Text × Text) → Type 0
  TagFits none = Unit
  TagFits (some (written, name)) = lib.url_decode written ≡ some name

  -- The text before the name of a Shadowsocks link is, or decodes to, the user's and the server's.
  abbrev pub Fits : Link → Type 0
  Fits (ss_link main u host port tag) =
      Without b'#' main
      × (or_text main (base64_decode lib main) ≡ user_text u ++ (b'@' ∷ authority_text host port))
      × UserFits u
      × Without b':' host
      × Without b'@' host
      × (port ≤ u64_max)
      × TagFits tag
  Fits (trojan_link password host port query tag) =
      Without b'@' password
      × Without b'#' (authority_text host port ++ query_text query)
      × Without b':' host
      × Without b'?' host
      × (port ≤ u64_max)
      × TagFits tag

  cut_name_lem :
      (d main : Text) (tag : Option (Text × Text))
      → Without b'#' main
      → TagFits tag
      → cut_name lib d (main ++ tag_text tag) ≡ (main, name_or d tag)
  unfolding cut_name
  cut_name_lem d main none w t =
      rw (append-nil main) (rw (split_once-none b'#' main w, cut_name) refl)
  cut_name_lem d main (some (written, name)) w t =
      rw (split_once_append b'#' main written w, cut_name) (rw (t, cut_name) refl)

  authority-Without :
      (d : ℕ) (host : Text) (port : ℕ)
      → b':' ≢ d
      → ((c : ℕ) → IsDigit c → c ≢ d)
      → Without d host
      → Without d (authority_text host port)
  authority-Without d host port n f w =
      Without-append d host (b':' ∷ to_decimal port) w (n, Without-to_decimal d port f)

  pub ss_lem :
      (main : Text) (u : UserInfo) (host : Text) (port : ℕ) (tag : Option (Text × Text))
      → Fits (ss_link main u host port tag)
      → parse_ss lib (main ++ tag_text tag) ≡ some (node_of (ss_link main u host port tag))
  unfolding parse_ss ss_of_main
  ss_lem main u host port tag (w, decoded, uf, colon, at, p, t) =
      let hp = authority_text host port in
      let no_at = authority-Without b'@' host port (λ e. ground arith) (λ x y. omega arith) at in
      rw (cut_name_lem (codes "SS Node") main tag w t) (
        rw (decoded, ss_of_main)
          (rw (rsplit_once_append b'@' (user_text u) hp no_at, ss_of_main)
            (rw (user_parts_lem u uf, host_port_lem 0 host port colon p) refl)))

  pub trojan_lem :
      (password host : Text) (port : ℕ) (query : Option Text) (tag : Option (Text × Text))
      → Fits (trojan_link password host port query tag)
      → parse_trojan lib
          (password ++ (b'@' ∷ ((authority_text host port ++ query_text query) ++ tag_text tag)))
        ≡ some (node_of (trojan_link password host port query tag))
  unfolding parse_trojan
  trojan_lem password host port query tag (w, hash, colon, mark, p, t) =
      let hp = authority_text host port in
      let whole = hp ++ query_text query in
      let no_mark =
        authority-Without b'?' host port (λ e. ground arith) (λ x y. omega arith) mark in
      rw (split_once_append b'@' password (whole ++ tag_text tag) w, parse_trojan)
        (rw (cut_name_lem (codes "Trojan") whole tag hash t)
          (rw (before_query_lem hp query no_mark) (rw (host_port_lem 443 host port colon p) refl)))
