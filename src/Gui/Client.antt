-- ===== src/Gui/Client.antt =====
-- redog-gui/src-tauri/src/api.rs: the configuration of the client and its calls of the API. The
-- HTTP client and the values of serde_json are parameters.
use redog.Common.{
  ℕ, Bool, true, ◌&&◌, Text, codes, List, [], ◌∷◌, ◌++◌, Option, none, some, false, if◌then◌else◌,
  leb, ltb, trim, Parsed, parsed, failed,
}
use redog.Gui.Libs.{Codecs}

pub record ApiConfig : Type 0 where
  pub base_url : Text
  pub secret : Text

-- The text, if it is there and not empty.
abbrev filled : Text → Option Text
filled [] = none
filled (c ∷ s) = some (c ∷ s)

-- What `defaults read` prints on success, as a text.
abbrev secret_in : Option Text → Option Text
unfolding trim
secret_in none = none
secret_in (some out) = filled (trim out)

-- `detect_clashx_secret`: each call fails to start, or has its output if it succeeds.
unfoldable pub detect_clashx_secret : Option (Option Text) → Option (Option Text) → Option Text
unfolding secret_in
detect_clashx_secret none second = none
detect_clashx_secret (some out) second = elim (secret_in out) [
  | some s ↦ some s
  | none ↦ elim second [ none ↦ none | some out2 ↦ secret_in out2 ]
]

abbrev or_else : Text → Option Text → Text
or_else d none = d
or_else d (some t) = t

-- `ApiConfig::detect`: the two variables of the environment, and the secret found on macOS.
unfoldable pub detect : Option Text → Option Text → Option Text → ApiConfig
detect url secret found = record {
  base_url = or_else (codes "http://127.0.0.1:9090") url;
  secret = or_else (or_else [] found) secret;
}

unfoldable pub api_url : Text → ApiConfig → Text
api_url path cfg = cfg.base_url ++ path

unfoldable pub auth_header : ApiConfig → Option Text
auth_header cfg = elim cfg.secret [ [] ↦ none | c ∷ s ↦ some (codes "Bearer " ++ (c ∷ s)) ]

-- An empty base URL keeps the one that is set.
unfoldable pub set_api_config : Text → Text → ApiConfig → ApiConfig
set_api_config [] secret cfg = record cfg { secret = secret }
set_api_config (c ∷ url) secret cfg = record { base_url = c ∷ url; secret = secret }

-- The base URL, and whether there is a secret.
unfoldable pub get_api_config : ApiConfig → Text × Bool
get_api_config cfg = (cfg.base_url, elim cfg.secret [ [] ↦ false | _ ∷ _ ↦ true ])

pub data Verb : Type 0 where
  get_verb patch_verb put_verb : Verb

pub record Sent (J : Type 0) : Type 0 where
  pub verb : Verb
  pub url : Text
  pub authorization : Option Text
  pub json : Option J

-- An answer: its status and how it is printed, its text, and its text as a JSON value.
pub record Reply (J : Type 0) : Type 0 where
  pub status : ℕ
  pub status_text : Text
  pub text : Option Text
  pub value : Parsed J

abbrev pub is_success : {J : Type 0} → Reply J → Bool
is_success r = leb 200 r.status && ltb r.status 300

-- How the values that the client sends are made.
pub record Making (J : Type 0) : Type 0 where
  pub null : J
  pub text : Text → J
  pub object : List (Text × J) → J

module _ {J : Type 0} (send : Sent J → Parsed (Reply J)) (make : Making J) (lib : Codecs) where
  abbrev refused : Reply J → Parsed J
  refused r = failed (codes "HTTP " ++ (r.status_text ++ (codes " - " ++ or_else [] r.text)))

  abbrev or_null : Parsed J → Parsed J
  or_null (parsed v) = parsed v
  or_null (failed _) = parsed make.null

  -- The answer of a `get`: its value.
  abbrev value_of : Parsed (Reply J) → Parsed J
  value_of (failed e) = failed e
  value_of (parsed r) = if is_success r then r.value else refused r

  -- The answer of a change: its value, or null.
  abbrev value_or_null : Parsed (Reply J) → Parsed J
  value_or_null (failed e) = failed e
  value_or_null (parsed r) = if is_success r then or_null r.value else refused r

  unfoldable pub get : Text → ApiConfig → Parsed J
  unfolding api_url auth_header
  get path cfg = value_of (
      send (record {
        verb = get_verb;
        url = api_url path cfg;
        authorization = auth_header cfg;
        json = none;
      }))

  unfoldable pub patch_json : Text → J → ApiConfig → Parsed J
  unfolding api_url auth_header
  patch_json path body cfg = value_or_null (
      send (record {
        verb = patch_verb;
        url = api_url path cfg;
        authorization = auth_header cfg;
        json = some body;
      }))

  unfoldable pub put_json : Text → J → ApiConfig → Parsed J
  unfolding api_url auth_header
  put_json path body cfg = value_or_null (
      send (record {
        verb = put_verb;
        url = api_url path cfg;
        authorization = auth_header cfg;
        json = some body;
      }))

  unfoldable pub get_proxies : ApiConfig → Parsed J
  unfolding get
  get_proxies = get (codes "/proxies")

  unfoldable pub get_rules : ApiConfig → Parsed J
  unfolding get
  get_rules = get (codes "/rules")

  unfoldable pub get_connections : ApiConfig → Parsed J
  unfolding get
  get_connections = get (codes "/connections")

  unfoldable pub get_traffic : ApiConfig → Parsed J
  unfolding get
  get_traffic = get (codes "/traffic")

  unfoldable pub get_version : ApiConfig → Parsed J
  unfolding get
  get_version = get (codes "/version")

  unfoldable pub get_configs : ApiConfig → Parsed J
  unfolding get
  get_configs = get (codes "/configs")

  unfoldable pub patch_configs : J → ApiConfig → Parsed J
  unfolding patch_json
  patch_configs body = patch_json (codes "/configs") body

  unfoldable pub select_proxy : Text → Text → ApiConfig → Parsed J
  unfolding put_json
  select_proxy group name =
      put_json (codes "/proxies/" ++ lib.url_encode group)
        (make.object ((codes "name", make.text name) ∷ []))

  unfoldable pub test_latency : Text → ApiConfig → Parsed J
  unfolding get
  test_latency name = get (
      codes "/proxies/"
      ++ (lib.url_encode name
          ++ codes "/delay?url=http://www.gstatic.com/generate_204&timeout=5000"))

  -- The calls that the threads of the tray make; their answers are only logged.
  unfoldable pub set_mode_blocking : Text → ApiConfig → Parsed J
  unfolding patch_json
  set_mode_blocking mode =
      patch_json (codes "/configs") (make.object ((codes "mode", make.text mode) ∷ []))

  unfoldable pub reload_config_blocking : ApiConfig → Parsed J
  unfolding put_json
  reload_config_blocking =
      put_json (codes "/configs") (make.object ((codes "path", make.text []) ∷ []))
