-- ===== src/Trial/Format.antt =====
-- src/trial/rules.ts: formatFailure, the formats outside the order.
use chirindo.Prelude.{Bool, ◌&&◌, Option, none, some, List, [], ◌∷◌, Text, codes, includes}
use chirindo.Json.{Json, obj, Members, get}
use chirindo.Js.{Js}
use chirindo.Purchase.Time.{Dates, iso_utc, gives_back}
use chirindo.Trial.Pointer.{
  key, pointer, unless, ◌<|>◌, first_some, each_key, is_str, str_max, printable_256, amount,
  currency, safe_from,
}
use chirindo.Trial.Order.{absent_or}

abbrev pub channels : List Text
channels =
    codes "acp"
    ∷ codes "ucp"
    ∷ codes "ap2"
    ∷ codes "mcp"
    ∷ codes "stripe-approval-hook"
    ∷ codes "other"
    ∷ []

abbrev pub mandate_formats : List Text
mandate_formats = codes "ap2" ∷ codes "vi" ∷ codes "other" ∷ []

module _ (js : Js) (dates : Dates) where
  -- timeOk of a string
  unfoldable pub time_ok : Text → Bool
  unfolding iso_utc
  time_ok t = iso_utc t && gives_back dates 19 (dates.parse t) t

  abbrev pub at : Text → Text
  at k = pointer js (key (codes "agent_context") ∷ key k ∷ [])

  abbrev pub at_inner : Text → Text → Text
  at_inner k l = pointer js (key (codes "agent_context") ∷ key k ∷ key l ∷ [])

  unfoldable pub signature_failure : Option Json → Option Text
  signature_failure none = none
  signature_failure (some (obj ps)) =
      each_key (λ k. is_str (str_max 4096 0) (get k ps)) (at_inner (codes "platform_signature"))
        (codes "header_name" ∷ codes "value" ∷ [])
      <|> each_key (absent_or (is_str (str_max 4096 0)) ps) (at_inner (codes "platform_signature"))
          (codes "key_id" ∷ codes "alg" ∷ [])
  signature_failure (some _) = some (at (codes "platform_signature"))

  unfoldable pub limits_failure : Option Json → Option Text
  unfolding time_ok
  limits_failure none = none
  limits_failure (some (obj pl)) =
      let within = at_inner (codes "payment_token_limits") in
      unless (is_str currency (get (codes "currency") pl)) (within (codes "currency"))
      <|> unless (is_str amount (get (codes "max_amount_minor") pl))
          (within (codes "max_amount_minor"))
      <|> unless (absent_or (is_str time_ok) pl (codes "expires_at")) (within (codes "expires_at"))
  limits_failure (some _) = some (at (codes "payment_token_limits"))

  unfoldable pub mandate_failure : Option Json → Option Text
  mandate_failure none = none
  mandate_failure (some (obj md)) =
      unless (is_str (includes mandate_formats) (get (codes "format") md))
        (at_inner (codes "mandate") (codes "format"))
      <|> unless (is_str (str_max 65536 0) (get (codes "value") md))
          (at_inner (codes "mandate") (codes "value"))
  mandate_failure (some _) = some (at (codes "mandate"))

  unfoldable pub context_failure : Option Json → Option Text
  unfolding signature_failure limits_failure mandate_failure
  context_failure none = none
  context_failure (some (obj ac)) =
      unless (absent_or (is_str (includes channels)) ac (codes "channel")) (at (codes "channel"))
      <|> signature_failure (get (codes "platform_signature") ac)
      <|> limits_failure (get (codes "payment_token_limits") ac)
      <|> unless (absent_or (is_str (str_max 256 1)) ac (codes "agent_name"))
          (at (codes "agent_name"))
      <|> mandate_failure (get (codes "mandate") ac)
  context_failure (some _) = some (codes "/agent_context")

  abbrev pub format_checks : Members → List (Option Text)
  unfolding context_failure
  format_checks input =
      unless (is_str printable_256 (get (codes "order_ref") input)) (codes "/order_ref")
      ∷ unless (absent_or (safe_from 0) input (codes "call_seq")) (codes "/call_seq")
      ∷ context_failure (get (codes "agent_context") input)
      ∷ []

  -- formatFailure
  unfoldable pub format_failure : Members → Option Text
  unfolding context_failure
  format_failure input = first_some (format_checks input)
