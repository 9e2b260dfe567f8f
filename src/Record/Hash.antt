-- ===== src/Record/Hash.antt =====
-- The hashes of src/vendor/recorder/hash.ts and request.ts, and the key names of identity.ts. `none`
-- is a throw of the canonicalizer.
use mathlib.Core.Option
use chirindo.Prelude.{
  ℕ, ◌==◌, Bool, ◌&&◌, ◌||◌, leb, Option, none, some, ◌++◌, Text, codes, text_eq, take, drop,
  length, all,
}
use chirindo.Json.{Json, str, obj, end, member}
use chirindo.Crypto.{Crypto, Url}
use chirindo.Record.{RecordEvent}
use chirindo.Record.Canon.{request_descriptor}

abbrev is_hex : ℕ → Bool
is_hex c = (leb b'0' c && leb c b'9') || (leb b'a' c && leb c b'f')

-- /^sha256:[0-9a-f]{64}$/, isPaymentRefFormat of payment-ref.ts
unfoldable pub is_payment_ref_format : Text → Bool
is_payment_ref_format value =
    text_eq (take 7 value) (codes "sha256:")
    && length (drop 7 value) == 64
    && all is_hex (drop 7 value)

module _ (crypto : Crypto) where
  open crypto use {canonicalize, sha256_hex, sha256_base64url, raw_key, key_x, url}

  -- "sha256:" + sha256Hex(bytes), entryHashOfCanonical
  unfoldable pub entry_hash_of_canonical : Text → Text
  entry_hash_of_canonical bytes = codes "sha256:" ++ sha256_hex bytes

  hash_json : Json → Option Text
  unfolding entry_hash_of_canonical
  hash_json value = Option.map entry_hash_of_canonical (canonicalize value)

  -- argsHash, resultHash and paymentRef are one function.
  unfoldable pub args_hash : Json → Option Text
  unfolding hash_json
  args_hash args = hash_json args

  unfoldable pub result_hash : Json → Option Text
  unfolding hash_json
  result_hash result = hash_json result

  unfoldable pub request_commitment : RecordEvent → Option Text
  unfolding hash_json
  request_commitment event = hash_json (request_descriptor event)

  unfoldable pub genesis_prev_hash : (session_id : Text) → (version : Text) → Option Text
  unfolding hash_json
  genesis_prev_hash session_id version = hash_json (
      obj (
        member (codes "v") (str version) (
          member (codes "session_id") (str session_id)
            (member (codes "marker") (str (codes "genesis")) end))))

  unfoldable pub legacy_kid : Text → Text
  legacy_kid public_key = codes "ed25519/" ++ take 12 (sha256_base64url (raw_key public_key))

  unfoldable pub rfc7638_thumbprint : Text → Option Text
  rfc7638_thumbprint public_key = Option.map sha256_base64url (
      canonicalize (
        obj (
          member (codes "crv") (str (codes "Ed25519")) (
            member (codes "kty") (str (codes "OKP"))
              (member (codes "x") (str (key_x public_key)) end)))))

  -- kid === rfc7638Thumbprint(publicKey) || kid === legacyKid(publicKey)
  unfoldable pub kid_matches_key : (thumbprint : Text) → (public_key : Text) → (kid : Text) → Bool
  kid_matches_key thumbprint public_key kid =
      text_eq kid thumbprint || text_eq kid (legacy_kid public_key)

  origin_or : Option Url → Text → Text
  origin_or (some u) thumbprint = u.origin
  origin_or none thumbprint = codes "urn:chirindo:key:" ++ thumbprint

  unfoldable pub default_issuer : (thumbprint : Text) → (jwks_uri : Option Text) → Text
  unfolding origin_or
  default_issuer thumbprint none = origin_or none thumbprint
  default_issuer thumbprint (some uri) = origin_or (url uri) thumbprint
