-- ===== src/Model/Platforms.antt =====
-- What the program takes from hashing, JSON encoding and parsing: functions of their input alone.
use envy.Common.{ℕ, String, Bool, Option}
use envy.Model.Catalog.{Component, VerificationContract}

pub record Platform : Type 0 where
  -- the first bytes of a text's SHA-256, in hexadecimal
  pub digest : ℕ → String → String
  -- `json.Marshal` of a component and an image, and of a verification contract
  pub encode_execution : Component → String → String
  pub encode_contract : VerificationContract → String
  -- `url.Parse` and `Hostname`: nothing on an error, the empty text for a URL without a host
  pub hostname : String → Option String
  -- `time.ParseDuration` in nanoseconds: nothing on an error, 0 for a negative duration
  pub parse_duration : String → Option ℕ
  -- `%q`
  pub quote : String → String

-- A URL as `url.Parse` returns it.
pub record Url : Type 0 where
  pub scheme : String
  pub hostname : String
  pub host : String
  pub port : String
  pub has_user : Bool
  pub path : String
  pub raw_query : String
  pub fragment : String
