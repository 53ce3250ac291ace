-- ===== src/Platform.antt =====
-- The packages that the program calls: their functions are parameters of the model.
use aleth_os_tool_passport.Prelude.{ℕ, Option, List, Text}
use aleth_os_tool_passport.Domain.RunEvent.{Value}
use aleth_os_tool_passport.Domain.Board.{Float}

pub record Platform : Type 0 where
  -- `Uuid::to_string` and `Uuid::parse_str`
  pub uuid_text : ℕ → Text
  pub parse_uuid : Text → Option ℕ
  -- `to_rfc3339_opts(Micros)`
  pub format_timestamp : ℕ → Text
  -- `serde_json_canonicalizer::to_string`, `Sha256` and `hex::encode`
  pub canonicalize : Value → Text
  pub sha256 : Text → List ℕ
  pub hex_encode : List ℕ → Text
  -- `serde_json::to_vec`, and `Sha256` of bytes
  pub to_vec : Value → List ℕ
  pub sha256_bytes : List ℕ → List ℕ
  -- how serde writes a `DateTime` and an `f64` into a Value
  pub time_value : ℕ → Value
  pub float_value : Float → Value
