-- ===== src/Js.antt =====
-- The parts of the JavaScript runtime that the program calls and that are not modelled: the Unicode
-- tables behind case mapping and the regular expressions' classes, and JSON.parse. The model takes
-- them as one record, so that a theorem holds whatever the tables say.
use chirindo.Prelude.{ℕ, Bool, Option, Text}
use chirindo.Json.{Json}

pub record Js : Type 0 where
  -- String.prototype.toUpperCase, String.prototype.toLowerCase
  pub to_upper : Text → Text
  pub to_lower : Text → Text
  -- [\s\p{White_Space}] and [\p{Cc}\p{Cf}], of a code point
  pub white_space : ℕ → Bool
  pub control_or_format : ℕ → Bool
  -- the characters that String.prototype.trim takes off
  pub trimmed : ℕ → Bool
  -- String(v), of the numbers and texts that the program gives it
  pub to_string : Json → Text
  -- `${v}`; `none` is the TypeError of an object whose own members keep it from becoming a string
  pub template : Json → Option Text
  -- JSON.parse; `none` is a SyntaxError
  pub parse : Text → Option Json
