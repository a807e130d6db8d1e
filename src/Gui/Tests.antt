-- ===== src/Gui/Tests.antt =====
-- The theorem on subscriptions at a page with two links, and the form of a link that is misread.
use redog.Common.{
  true, ◌≢◌, ◌↔◌, ℕ, false, Text, codes, [], ◌∷◌, Option, none, some, if◌then◌else◌, text_eq,
  parsed, to_decimal, ◌≡◌, refl,
}
use redog.Common.Utf8.{Bytes}
use redog.Gui.Feed.{links_text}
use redog.Gui.Libs.{Values, Codecs}
use redog.Gui.Links.{Link, ss_link, trojan_link, with_cipher}
use redog.Gui.Share.{parse_share_uri}
use redog.Gui.Clipboard.{terminal_command}
use redog.Gui.Tray.{handle_menu_click}
use redog.Gui.Tray.Menu.{build_tray, enabled_ids, Listed, idle, handle_menu_click_iff}
use redog.Gui.Subscription.{Page}

-- One text is known, with its bytes.
abbrev table : Text → Option Bytes
table t = if text_eq t (codes "YTpiQGguaTo4MQ==") then some (codes "a:b@h.i:81") else none

abbrev codecs : Codecs
codecs = record {
  url_encode = λ t. t;
  url_decode = λ t. some t;
  standard = table;
  standard_no_pad = λ _. none;
}

abbrev no_values : Values ℕ
no_values = record {
  from_str = λ _. none;
  get = λ _ _. none;
  as_str = λ _. none;
  as_u64 = λ _. none;
  as_bool = λ _. none;
  as_sequence = λ _. none;
}

abbrev shadow : Link
shadow =
    ss_link (codes "YTpiQGguaTo4MQ==") (with_cipher (codes "a") (codes "b")) (codes "h.i") 81
      (some (codes "N", codes "N"))

abbrev trojan : Link
trojan = trojan_link (codes "p") (codes "h") 443 (some (codes "x=1")) none

abbrev page : Page
page = record {
  status = 200;
  status_text = codes "200 OK";
  text = parsed (links_text (shadow ∷ trojan ∷ []));
}

-- A link with only the user in base64, "YTpi" for "a:b": the server is read, and the base64 text is
-- taken for the password.
sip002 :
    parse_share_uri codecs no_values (codes "ss://YTpi@h:1")
    ≡ some (record {
      name = codes "SS Node";
      node_type = codes "ss";
      server = codes "h";
      port = 1;
      password = codes "YTpi";
      cipher = codes "aes-256-gcm";
      tls = false;
    })
unfolding parse_share_uri text_eq
sip002 = refl

handle_menu_click_iff_example :
    (handle_menu_click true (codes "allow_lan") ≢ [])
    ↔ (Listed (codes "allow_lan") (enabled_ids build_tray) × (Listed (codes "allow_lan") idle → ⊥))
handle_menu_click_iff_example = handle_menu_click_iff (codes "allow_lan")

-- The command that is copied.
the_command :
    terminal_command
    ≡ codes
        "export https_proxy=http://127.0.0.1:7890 http_proxy=http://127.0.0.1:7890 all_proxy=socks5://127.0.0.1:7890"
unfolding terminal_command to_decimal
the_command = refl
