-- ===== src/Gui/Subscription.antt =====
-- redog-gui/src-tauri/src/api.rs: `fetch_subscription`. The list of nodes stands for the JSON value
-- with the nodes and their count.
use redog.Common.{
  ℕ, Bool, false, not, ◌&&◌, Text, codes, List, [], ◌∷◌, ◌++◌, map, Option, none, some,
  if◌then◌else◌, is_prefix, lines, trim, Parsed, parsed, failed, leb, ltb,
}
use redog.Gui.Libs.{Values, Codecs}
use redog.Gui.Share.{Node, or_text, or_number, or_try, bind_option, base64_decode, parse_share_uri}

-- What the server of a subscription answers: the status and how it is printed, and the text.
pub record Page : Type 0 where
  pub status : ℕ
  pub status_text : Text
  pub text : Parsed Text

module _ {J Y : Type 0} (lib : Codecs) (json : Values J) (yaml : Values Y) where
  abbrev pub add_node : Option Node → List Node → List Node
  add_node none nodes = nodes
  add_node (some n) nodes = n ∷ nodes

  -- The nodes of the lines, blank ones and those that are no link passed over.
  unfoldable pub nodes_of : List Text → List Node
  unfolding trim parse_share_uri
  nodes_of [] = []
  nodes_of (line ∷ others) =
      let rest = nodes_of others in
      elim (trim line) [ [] ↦ rest | c ∷ s ↦ add_node (parse_share_uri lib json (c ∷ s)) rest ]

  unfoldable pub yaml_text : Text → Text → Y → Text
  yaml_text key default p = or_text default (bind_option (yaml.get key p) yaml.as_str)

  abbrev or_false : Option Bool → Bool
  or_false none = false
  or_false (some b) = b

  unfoldable pub yaml_node : Y → Node
  unfolding yaml_text
  yaml_node p = record {
    name = yaml_text (codes "name") (codes "unnamed") p;
    node_type = yaml_text (codes "type") (codes "ss") p;
    server = yaml_text (codes "server") [] p;
    port = or_number 0 (bind_option (yaml.get (codes "port") p) yaml.as_u64);
    password = or_text [] (
        bind_option (or_try (yaml.get (codes "password") p) (yaml.get (codes "uuid") p))
          yaml.as_str);
    cipher = yaml_text (codes "cipher") [] p;
    tls = or_false (bind_option (yaml.get (codes "tls") p) yaml.as_bool);
  }

  abbrev or_no_nodes : Option (List Y) → List Node
  unfolding yaml_node
  or_no_nodes none = []
  or_no_nodes (some proxies) = map yaml_node proxies

  -- The proxies of a configuration in YAML.
  unfoldable pub yaml_nodes : Text → List Node
  unfolding or_no_nodes
  yaml_nodes text = or_no_nodes (
      bind_option (yaml.from_str text)
        (λ v. bind_option (yaml.get (codes "proxies") v) yaml.as_sequence))

  -- The nodes of a text: those of its links, in base64 or not, or else those of its YAML.
  unfoldable pub text_nodes : Text → List Node
  unfolding base64_decode nodes_of lines yaml_nodes
  text_nodes text = elim (nodes_of (lines (or_text text (base64_decode lib text)))) [
    | [] ↦ yaml_nodes text
    | n ∷ ns ↦ n ∷ ns
  ]

  abbrev pub nodes_in : Parsed Text → Parsed (List Node)
  unfolding text_nodes
  nodes_in (failed e) = failed e
  nodes_in (parsed text) = parsed (text_nodes text)

  -- `fetch` is the client's request for a URL.
  unfoldable pub fetch_subscription : (Text → Parsed Page) → Text → Parsed (List Node)
  unfolding is_prefix nodes_in
  fetch_subscription fetch url =
      if not (is_prefix (codes "http://") url) && not (is_prefix (codes "https://") url)
      then failed (codes "Only HTTP/HTTPS URLs allowed")
      else elim (fetch url) [
        | failed e ↦ failed (codes "请求失败: " ++ e)
        | parsed page ↦
            if leb 200 page.status && ltb page.status 300
            then nodes_in page.text
            else failed (codes "HTTP " ++ page.status_text)
      ]
