-- ===== src/Crypto.antt =====
-- What src/vendor/recorder takes from Node and from the `canonicalize` package, as one record: keys
-- are texts, and a canonical JSON text stands for its UTF-8 bytes. The record has no laws; a theorem
-- that needs one names it as a hypothesis.
use chirindo.Prelude.{ℕ, Bool, Option, Text}
use chirindo.Json.{Json}

-- new URL(u)
pub record Url : Type 0 where
  pub protocol : Text
  pub origin : Text

pub record Crypto : Type 0 where
  -- RFC 8785 of a value; `none` is a throw, or undefined
  pub canonicalize : Json → Option Text
  -- createHash("sha256") of the bytes, in lowercase hex and in base64url with no padding
  pub sha256_hex : Text → Text
  pub sha256_base64url : Text → Text
  -- Ed25519 with the signature in base64url
  pub sign : (private_key : Text) → (message : Text) → Text
  pub verify : (public_key : Text) → (message : Text) → (signature : Text) → Bool
  -- the public key of a private key, its raw bytes, and those in base64url
  pub public_of : Text → Text
  pub raw_key : Text → Text
  pub key_x : Text → Text
  -- `none` where new URL throws
  pub url : Text → Option Url
  -- Date.parse in milliseconds from the earliest time a Date holds; `none` is NaN
  pub date_ms : Text → Option ℕ
