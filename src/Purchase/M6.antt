-- ===== src/Purchase/M6.antt =====
-- src/purchase/m6.ts: m6Check, over the value that the strict reader returns.
use chirindo.Prelude.{
  ℕ, ◌==◌, leb, Bool, true, not, ◌&&◌, ◌||◌, if◌then◌else◌, Option, none, some, List, [], ◌∷◌, ◌++◌,
  Text, codes, text_eq, length, all,
}
use chirindo.Json.{Json, str, obj, Members, get, has_own}
use chirindo.Js.{Js}
use chirindo.Crypto.{Crypto}
use chirindo.Purchase.Time.{Dates, time_re, ts_ms}
use chirindo.Purchase.Jcs.{jcs, jcs_sha256}
use chirindo.Trial.Pointer.{key, key_char, is_str, safe_from}
use chirindo.Purchase.Card.{
  Checked, Done, Node, bad, check_card, demand, exactly, good, named, str_list, str_of,
  thumbprint_re, unsupported_limits, without_member,
}

infixl 10 ◌>>=◌
abbrev ◌>>=◌ {ℓ κ} : {A : Type ℓ} {B : Type κ} → Checked A → (A → Checked B) → Checked B
bad code >>= f = bad code
good a >>= f = f a

infixl 10 ◌>>◌
abbrev ◌>>◌ {ℓ κ} : {A : Type ℓ} {B : Type κ} → Checked A → Checked B → Checked B
bad code >> next = bad code
good a >> next = next

module _ (js : Js) (quote : Text → Text) (crypto : Crypto) (dates : Dates) (node : Node) where
  -- b64urlCanonical
  unfoldable pub b64url_canonical : Option Json → ℕ → Option (List ℕ)
  unfolding key_char
  b64url_canonical (some (str s)) n =
      if leb 1 (length s)
        && all key_char s
        && length (node.decode s) == n
        && text_eq (node.encode (node.decode s)) s
      then some (node.decode s)
      else none
  b64url_canonical _ n = none

  -- okpThumbprint
  unfoldable pub okp_thumbprint : Text → Text
  okp_thumbprint x =
      crypto.sha256_base64url
        (codes "{\"crv\":\"Ed25519\",\"kty\":\"OKP\",\"x\":\"" ++ x ++ codes "\"}")

  abbrev pub or_bad {ℓ} : {A : Type ℓ} → Option A → Text → Checked A
  or_bad (some a) code = good a
  or_bad none code = bad code

  -- ed25519Verify, after jcs of what is signed
  abbrev pub signature_ok : List ℕ → Option Text → List ℕ → Checked Done
  signature_ok pub_key none sig = bad (codes "not-canonical")
  signature_ok pub_key (some bytes) sig =
      demand (node.ed25519_verify pub_key bytes sig) (codes "bad-signature")

  -- principal: its public key
  unfoldable pub check_principal : Option Json → Checked (List ℕ)
  unfolding exactly b64url_canonical okp_thumbprint
  check_principal v = do
    principal ←
        exactly js quote crypto dates node v (codes "kid" ∷ codes "public_key_jwk" ∷ []) []
          (key (codes "principal") ∷ [])
    jwk ←
        exactly js quote crypto dates node (get (codes "public_key_jwk") principal)
          (codes "kty" ∷ codes "crv" ∷ codes "x" ∷ []) []
          (key (codes "principal") ∷ key (codes "public_key_jwk") ∷ [])
    demand
        (is_str (text_eq (codes "OKP")) (get (codes "kty") jwk)
          && is_str (text_eq (codes "Ed25519")) (get (codes "crv") jwk))
        (codes "bad-value:/principal/public_key_jwk")
    pub_key ←
        or_bad (b64url_canonical (get (codes "x") jwk) 32)
          (codes "bad-value:/principal/public_key_jwk/x")
    demand
        (is_str (text_eq (okp_thumbprint (str_of (get (codes "x") jwk))))
          (get (codes "kid") principal))
        (codes "kid-not-thumbprint")
    good pub_key

  -- A time of the validity window, in milliseconds.
  abbrev pub z_time : Option Json → Bool
  unfolding time_re
  z_time v = is_str time_re v

  abbrev pub ms_of : Option Json → Option ℕ
  unfolding ts_ms
  ms_of (some (str t)) = ts_ms dates t
  ms_of _ = none

  -- The times of the constraints, and iat.
  unfoldable pub check_times : Members → Option Json → Checked Done
  unfolding z_time ms_of
  check_times c iat = do
    demand (z_time (get (codes "valid_from") c) && z_time (get (codes "valid_until") c))
        (codes "time-not-z")
    vf ← or_bad (ms_of (get (codes "valid_from") c)) (codes "time-not-calendar")
    vu ← or_bad (ms_of (get (codes "valid_until") c)) (codes "time-not-calendar")
    demand (leb vf vu) (codes "window-reversed")
    demand (z_time iat) (codes "time-not-z")
    ms ← or_bad (ms_of iat) (codes "time-not-calendar")
    good tt

  unfoldable pub check_constraints : Option Json → Checked Members
  unfolding exactly check_card
  check_constraints v = do
    c ←
        exactly js quote crypto dates node v (codes "valid_from" ∷ codes "valid_until" ∷ [])
          (codes "max_uses" ∷ codes "card" ∷ unsupported_limits) (key (codes "constraints") ∷ [])
    demand (has_own (codes "card") c) (codes "card-missing")
    demand (not (has_own (codes "max_uses") c) || safe_from 1 (get (codes "max_uses") c))
        (codes "bad-value:/constraints/max_uses")
    check_card js quote crypto dates node (get (codes "card") c)
    good c

  abbrev pub instruction_members : List Text
  instruction_members =
      codes "v"
      ∷ codes "principal"
      ∷ codes "agent_kid"
      ∷ codes "text"
      ∷ codes "constraints"
      ∷ codes "iat"
      ∷ codes "sig"
      ∷ []

  -- m6Check: the digest, and the members that step 2 denies.
  unfoldable pub m6_check : Json → Checked (Text × List Text)
  unfolding exactly check_principal check_constraints check_times b64url_canonical jcs_sha256
      thumbprint_re
  m6_check v = do
    ins ← exactly js quote crypto dates node (some v) instruction_members [] []
    demand (is_str (text_eq (codes "signed-instruction-ed25519/0.3")) (get (codes "v") ins))
        (codes "wrong-profile")
    pub_key ← check_principal (get (codes "principal") ins)
    demand (str_list thumbprint_re (get (codes "agent_kid") ins)) (codes "bad-value:/agent_kid")
    demand (is_str (λ t. true) (get (codes "text") ins)) (codes "bad-value:/text")
    c ← check_constraints (get (codes "constraints") ins)
    check_times c (get (codes "iat") ins)
    sig ← or_bad (b64url_canonical (get (codes "sig") ins) 64) (codes "bad-value:/sig")
    signature_ok pub_key (jcs js quote (obj (without_member (codes "sig") ins))) sig
    digest ← or_bad (jcs_sha256 js quote crypto v) (codes "not-canonical")
    good (digest, named unsupported_limits c)
