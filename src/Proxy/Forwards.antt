-- ===== src/Proxy/Forwards.antt =====
-- Messages of the client that src/proxy.ts sends on as they came.

use chirindo.Prelude.{◌≡◌, refl, true, false, none, some, Text, arith, includes, codes}
use chirindo.Json.{Json, null, bool, num, str, arr, obj, Members, get, has_own, keys}
use chirindo.Names.Fold.{
  chars, envelope_members, tools_call_params_members, case_variant, fold_collision,
}
use chirindo.Strict.{find_duplicate_member}
use chirindo.Names.Method.{first_control_or_format, method_names_tools_call}
use chirindo.Names.Readers.{get_folded, get_last_folded, readers_agree}
use chirindo.Rpc.{is_tools_call}
use chirindo.Proxy.State.{Deps}
use chirindo.Proxy.Client.{
  case_problem, params_case_problem, params_proto_problem, method_value_problem, method_problem,
  proto_problem, message_problem,
}

-- A message that no reader takes for a tools/call: one that ignores case finds each envelope member
-- where the gate does, the method does not name tools/call after dropping invisible characters,
-- trimming and folding, and there is no member to make a prototype of.
pub record IsNoCall (deps : Deps) (ms : Members) : Type 0 where
  pub first_reader :
      (n : Text) → includes envelope_members n ≡ true → get_folded deps.js n ms ≡ get n ms
  pub last_reader :
      (n : Text) → includes envelope_members n ≡ true → get_last_folded deps.js n ms ≡ get n ms
  pub method :
      (v : Json)
      → get (codes "method") ms ≡ some v
      → (m : Text) × (v ≡ str m) × (method_names_tools_call deps.js m ≡ false)
  pub no_proto : has_own (codes "__proto__") ms ≡ false

-- A message whose text has no member twice and whose members no reader takes for others: none is a
-- variant in case of an envelope member or of another, nor __proto__, at the top and in params; its
-- method, if there is one, is a text with no invisible character.
pub record IsPlain (deps : Deps) (text : Text) (ms : Members) : Type 0 where
  pub no_duplicate : find_duplicate_member text ≡ none
  pub envelope : case_variant deps.js (keys ms) envelope_members ≡ none
  pub apart : fold_collision deps.js (keys ms) ≡ none
  pub no_proto : has_own (codes "__proto__") ms ≡ false
  pub params :
      (ps : Members)
      → get (codes "params") ms ≡ some (obj ps)
      → (fold_collision deps.js (keys ps) ≡ none)
        × (has_own (codes "__proto__") ps ≡ false)
        × (is_tools_call ms ≡ true
            → case_variant deps.js (keys ps) tools_call_params_members ≡ none)
  pub visible :
      (v : Json)
      → get (codes "method") ms ≡ some v
      → (m : Text) × (v ≡ str m) × (first_control_or_format deps.js (chars m) ≡ none)

module _ (deps : Deps) where
  open deps use {js}

  case_problem-false :
      (ms : Members)
      → case_problem deps ms ≡ false
      → (case_variant js (keys ms) envelope_members ≡ none) × (fold_collision js (keys ms) ≡ none)
  unfolding case_problem
  case_problem-false ms h = ground arith

  method_problem-none :
      (ms : Members) (v : Json)
      → method_problem deps ms ≡ none
      → is_tools_call ms ≡ false
      → get (codes "method") ms ≡ some v
      → (m : Text) × (v ≡ str m) × (method_names_tools_call js m ≡ false)
  unfolding method_problem is_tools_call
  method_problem-none ms null p c e = ground arith
  method_problem-none ms (bool b) p c e = ground arith
  method_problem-none ms (num n) p c e = ground arith
  method_problem-none ms (arr vs) p c e = ground arith
  method_problem-none ms (obj os) p c e = ground arith
  method_problem-none ms (str m) p c e = (m, refl, ground arith)

  pub message_problem-none :
      (text : Text) (ms : Members)
      → message_problem deps text ms ≡ none
      → is_tools_call ms ≡ false
      → IsNoCall deps ms
  unfolding message_problem proto_problem
  message_problem-none text ms p c =
      let clean : case_problem deps ms ≡ false = ground arith in
      let (free, apart) = case_problem-false ms clean in
      record {
        first_reader = λ n i. (readers_agree js ms n i free apart).0;
        last_reader = λ n i. (readers_agree js ms n i free apart).1;
        method = λ v e. method_problem-none ms v (ground arith) c e;
        no_proto = ground arith;
      }

  params_case-none :
      (ms ps : Members)
      → case_problem deps ms ≡ false
      → get (codes "params") ms ≡ some (obj ps)
      → (fold_collision js (keys ps) ≡ none)
        × (is_tools_call ms ≡ true → case_variant js (keys ps) tools_call_params_members ≡ none)
  unfolding case_problem params_case_problem
  params_case-none ms ps h e = (ground arith, λ c. ground arith)

  params_proto-none :
      (ms ps : Members)
      → proto_problem deps ms ≡ false
      → get (codes "params") ms ≡ some (obj ps)
      → has_own (codes "__proto__") ps ≡ false
  unfolding proto_problem params_proto_problem
  params_proto-none ms ps h e = ground arith

  method_visible :
      (ms : Members) (v : Json)
      → method_problem deps ms ≡ none
      → get (codes "method") ms ≡ some v
      → (m : Text) × (v ≡ str m) × (first_control_or_format js (chars m) ≡ none)
  unfolding method_problem method_value_problem
  method_visible ms null p e = ground arith
  method_visible ms (bool b) p e = ground arith
  method_visible ms (num n) p e = ground arith
  method_visible ms (arr vs) p e = ground arith
  method_visible ms (obj os) p e = ground arith
  method_visible ms (str m) p e = (m, refl, ground arith)

  pub message_problem-IsPlain :
      (text : Text) (ms : Members) → message_problem deps text ms ≡ none → IsPlain deps text ms
  unfolding message_problem
  message_problem-IsPlain text ms p =
      let clean : case_problem deps ms ≡ false = ground arith in
      let safe : proto_problem deps ms ≡ false = ground arith in
      let usual : method_problem deps ms ≡ none = ground arith in
      let (free, apart) = case_problem-false ms clean in
      record {
        no_duplicate = ground arith;
        envelope = free;
        apart = apart;
        no_proto = unfold proto_problem in ground arith;
        params = λ ps e.
            let (fold, variant) = params_case-none ms ps clean e in
            (fold, params_proto-none ms ps safe e, variant);
        visible = λ v e. method_visible ms v usual e;
      }
