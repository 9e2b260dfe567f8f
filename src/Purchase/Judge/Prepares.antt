-- ===== src/Purchase/Judge/Prepares.antt =====
-- What judgeInput of src/purchase/limits.ts hands to the limits.
use chirindo.Prelude.{
  ◌≡◌, refl, sym, ap, ◌∙◌, Bool, true, false, Option, none, some, List, [], ◌∷◌, ◌++◌, Text, map,
  if◌then◌else◌, arith, Option-cases, inl, inr,
}
use chirindo.Json.{Json, null, bool, num, str, arr, obj, Members}
use chirindo.Js.{Js}
use chirindo.Crypto.{Crypto}
use chirindo.Purchase.Time.{Dates}
use chirindo.Purchase.Jcs.{jcs_sha256}
use chirindo.Purchase.Card.{Node, Checked, bad, good}
use chirindo.Purchase.M6.{m6_check}
use chirindo.Purchase.Rows.{obj_of}
use chirindo.Purchase.Limits.{Reason, unsupported_limit, Prepared}
use chirindo.Purchase.Judge.{
  Read, problem, value, OrderRead, faulty, sound, prepared, snapshot_order, screen_failures,
  on_screen, on_failure, on_snapshot, read_order, calendar, step_2, on_step_2, on_m6, on_read,
  judge_input,
}
use chirindo.Trial.Order.{order_failure}
use chirindo.Trial.Order.Accepted.{IsOrder, order_failure-IsOrder}
use chirindo.Trial.Screen.{Classes}

module _ (js : Js) (dates : Dates) (classes : Classes) where
  -- An order that step 1 finds no fault with.
  abbrev pub IsSound : Option Json → Members → Type 0
  IsSound v o =
      (v ≡ some (obj o))
      × (snapshot_order js (obj o) ≡ [])
      × IsOrder dates o
      × (screen_failures js dates classes o ≡ [])

  on_screen-sound :
      (o p : Members) (ps : List Text)
      → on_screen js dates classes o ps ≡ sound p
      → (ps ≡ []) × (o ≡ p)
  on_screen-sound o p [] h = (refl, cc)
  on_screen-sound o p (q ∷ qs) h = cc

  on_failure-sound :
      (v : Json) (p : Members) (f : Option Text)
      → on_failure js dates classes v f ≡ sound p
      → (f ≡ none)
        × (screen_failures js dates classes (obj_of (some v)) ≡ [])
        × (obj_of (some v) ≡ p)
  unfolding on_failure
  on_failure-sound v p none h =
      let (clear, same) =
        on_screen-sound (obj_of (some v)) p (screen_failures js dates classes (obj_of (some v)))
          h in
      (refl, clear, same)
  on_failure-sound v p (some q) h = cc

  on_snapshot-sound :
      (v : Json) (p : Members) (ps : List Text)
      → on_snapshot js dates classes v ps ≡ sound p
      → (ps ≡ []) × (on_failure js dates classes v (order_failure js dates v) ≡ sound p)
  unfolding on_snapshot
  on_snapshot-sound v p [] h = (refl, h)
  on_snapshot-sound v p (q ∷ qs) h = cc

  order-IsObject : (v : Json) → order_failure js dates v ≡ none → v ≡ obj (obj_of (some v))
  unfolding order_failure
  order-IsObject (obj o) h = refl
  order-IsObject null h = cc
  order-IsObject (bool b) h = cc
  order-IsObject (num n) h = cc
  order-IsObject (str t) h = cc
  order-IsObject (arr vs) h = cc

  read_order-IsSound :
      (v : Option Json) (p : Members) → read_order js dates classes v ≡ sound p → IsSound v p
  unfolding read_order
  read_order-IsSound none p h = cc
  read_order-IsSound (some v) p h =
      let (taken, h1) = on_snapshot-sound v p (snapshot_order js v) h in
      let (fine, clear, made) = on_failure-sound v p (order_failure js dates v) h1 in
      let object = order-IsObject v fine ∙ ap obj made in
      (
        ap some object,
        ap (snapshot_order js) (sym object) ∙ taken,
        order_failure-IsOrder js dates p (ap (order_failure js dates) (sym object) ∙ fine),
        ap (screen_failures js dates classes) (sym made) ∙ clear,
      )

  module _ (quote : Text → Text) (crypto : Crypto) (node : Node) where
    on_step_2-prepared :
        (ins o : Members) (digest m6_digest : Text) (rs : List Reason) (p : Prepared)
        → on_step_2 js dates classes quote crypto node ins digest m6_digest o rs ≡ prepared p
        → (rs ≡ []) × (p.instruction ≡ ins) × (p.digest ≡ m6_digest) × (p.order ≡ o)
    on_step_2-prepared ins o digest m6_digest [] p h = (refl, cc, cc, cc)
    on_step_2-prepared ins o digest m6_digest (r ∷ rs) p h = cc

    none_unsupported :
        (ks : List Text) (rs : List Reason)
        → map unsupported_limit ks ++ rs ≡ []
        → (ks ≡ []) × (rs ≡ [])
    none_unsupported [] rs h = (refl, h)
    none_unsupported (k ∷ ks) rs h = cc

    no_reason : (b : Bool) (r : Reason) → (if b then [] else r ∷ []) ≡ [] → b ≡ true
    no_reason true r h = refl
    no_reason false r h = cc

    -- An instruction that steps 1 and 2 find no fault with.
    abbrev pub IsTaken : Json → Prepared → Type 0
    IsTaken v p =
        (m6_check js quote crypto dates node v ≡ good (p.digest, []))
        × (calendar js dates classes quote crypto node p.instruction ≡ true)
        × (p.instruction ≡ obj_of (some v))

    on_m6-IsTaken :
        (v : Json) (digest : Text) (o : Members) (m : Checked (Text × List Text)) (p : Prepared)
        → m6_check js quote crypto dates node v ≡ m
        → on_m6 js dates classes quote crypto node v digest o m ≡ prepared p
        → IsTaken v p × (p.order ≡ o)
    unfolding on_m6 step_2
    on_m6-IsTaken v digest o (bad code) p e h = cc
    on_m6-IsTaken v digest o (good (m6_digest, unsupported)) p e h =
        let ins = obj_of (some v) in
        let (empty, same_ins, same_digest, same_order) =
          on_step_2-prepared ins o digest m6_digest
            (step_2 js dates classes quote crypto node ins unsupported) p h in
        let (supported, timed) = none_unsupported unsupported _ empty in
        let at = no_reason (calendar js dates classes quote crypto node ins) _ timed in
        (
          (
            rw (e, supported, same_digest) refl,
            ap (calendar js dates classes quote crypto node) same_ins ∙ at,
            same_ins,
          ),
          same_order,
        )

    on_read-prepared :
        (r : Read) (o : OrderRead) (p : Prepared)
        → on_read js dates classes quote crypto node r o ≡ some (prepared p)
        → (v : Json) × (r ≡ value v) × (o ≡ sound p.order) × IsTaken v p
    unfolding on_read
    on_read-prepared (value v) (sound o) p h = elim (Option-cases (jcs_sha256 js quote crypto v)) [
      | inl e ↦ ground (arith, h, e)
      | inr (digest, e) ↦
          let m = m6_check js quote crypto dates node v in
          let (taken, same) = on_m6-IsTaken v digest o m p refl (ground (arith, h, e)) in
          (v, refl, ap sound (sym same), taken)
    ]
    on_read-prepared (problem q) (faulty ps) p h = cc
    on_read-prepared (problem q) (sound o) p h = cc
    on_read-prepared (value v) (faulty ps) p h = cc

-- What judgeInput hands on to the limits, it has read from a strict JSON value and from an order. The
-- order is the one given: its snapshot has no fault, it is an order by its members, and no item has
-- a card number or an address in its free text. The value passes M6 with the digest handed on and
-- names no unsupported limit, and its three times are calendar instants.
pub judge_input-IsSound :
    (js : Js) (dates : Dates) (classes : Classes) (quote : Text → Text) (crypto : Crypto)
    (node : Node)
    → (read : Read) (order : Option Json) (p : Prepared)
    → judge_input js dates classes quote crypto node read order ≡ some (prepared p)
    → (v : Json) × (read ≡ value v)
      × IsSound js dates classes order p.order
      × IsTaken js dates classes quote crypto node v p
unfolding judge_input
judge_input-IsSound js dates classes quote crypto node read order p h =
    let (v, e, o, taken) =
      on_read-prepared js dates classes quote crypto node read (read_order js dates classes order) p
        h in
    (v, e, read_order-IsSound js dates classes order p.order o, taken)
