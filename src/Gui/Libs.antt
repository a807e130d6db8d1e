-- ===== src/Gui/Libs.antt =====
-- What the desktop application calls of other crates, as parameters: serde_json and serde_yaml,
-- urlencoding, base64, and the HTTP client reqwest.
use redog.Common.{ℕ, Bool, Text, List, Option}
use redog.Common.Utf8.{Bytes}

-- A library of values of a type `V`: its parser, and what its values hold.
pub record Values (V : Type 0) : Type 0 where
  pub from_str : Text → Option V
  pub get : Text → V → Option V
  pub as_str : V → Option Text
  pub as_u64 : V → Option ℕ
  pub as_bool : V → Option Bool
  pub as_sequence : V → Option (List V)

pub record Codecs : Type 0 where
  -- `urlencoding::encode`, and `decode`, which fails on bytes that are no text
  pub url_encode : Text → Text
  pub url_decode : Text → Option Text
  -- base64 with padding, and without
  pub standard : Text → Option Bytes
  pub standard_no_pad : Text → Option Bytes
