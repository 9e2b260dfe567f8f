-- ===== src/Samples/Purchases.antt =====
-- The theorems on the purchase check at one instruction, one order and one open check.
use chirindo.Prelude.{not_after}
use chirindo.Record.Hash.{rfc7638_thumbprint, request_commitment, is_payment_ref_format, args_hash}
use chirindo.Trial.Pointer.{currency, printable_256, amount}
use chirindo.Prelude.{includes}
use chirindo.Json.{is_safe_integer}
use chirindo.Purchase.Judge.{judge_input}
use chirindo.Prelude.{
  ◌≡◌, refl, true, false, Option, none, some, [], ◌∷◌, ◌++◌, Text, codes, text_eq,
}
use chirindo.Json.{Json, str, arr, obj, nil, cons, Members, end, member, get, has_own}
use chirindo.Crypto.{Crypto}
use chirindo.Record.{SignedRecord}
use chirindo.Receipt.{deny, Identity, append_receipt}
use chirindo.Purchase.Judge.{check_options}
use chirindo.Purchase.Open.{map_get}
use chirindo.Purchase.Limits.{judge_limits}
use chirindo.Record.Hash.{args_hash, is_payment_ref_format, request_commitment, rfc7638_thumbprint}
use chirindo.Record.Canon.{content_json}
use chirindo.Samples
use chirindo.Samples.{js, agent}
use chirindo.Samples.Orders.{dates, classes, time, order, kid, constraints, judged}
use chirindo.Purchase.Card.{Node}
use chirindo.Purchase.Limits.{Prepared}
use chirindo.Purchase.Judge.{Read, value}
use chirindo.Purchase.Judge.Prepares.{IsSound, IsTaken, judge_input-IsSound}
use chirindo.Purchase.Open.{Setup, Outside, Gate, Allowed}
use chirindo.Purchase.Write.{quote, inputs_of}
use chirindo.Purchase.Gate.{check, decided_by}
use chirindo.Purchase.Gate.Writes.{IsKept}
use chirindo.Purchase.Gate.Bounds.{
  IsNewAllow, IsRepeat, check-IsNewAllow, check-IsKept, check-IsRepeat,
}
use chirindo.Purchase.Gate.Rebuilt.{after_calls, IsRebuilt, after_calls-IsRebuilt}
use chirindo.Purchase.Gate.Served.{IsServed, check-answered}

-- A thumbprint that is one kid, and a hash that forgets all.
abbrev crypto : Crypto
crypto = record Samples.crypto { sha256_base64url = λ t. kid; sha256_hex = λ t. [] }

abbrev node : Node
node = record { decode = λ t. t; encode = λ t. t; ed25519_verify = λ k m s. true }

abbrev x : Text
x = codes "aaaaaaaaaaaaaaaaaaaaaaaaaaaaaaaa"

abbrev instruction : Members
instruction = member (codes "v") (str (codes "signed-instruction-ed25519/0.3")) (
    member (codes "principal")
      (obj (
        member (codes "kid") (str kid) (
          member (codes "public_key_jwk")
            (obj (
              member (codes "kty") (str (codes "OKP"))
                (member (codes "crv") (str (codes "Ed25519")) (member (codes "x") (str x) end))))
            end)))
      (member (codes "agent_kid") (arr (cons (str kid) nil)) (
        member (codes "text") (str (codes "buy")) (
          member (codes "constraints") (obj constraints)
            (member (codes "iat") (str time) (member (codes "sig") (str (x ++ x)) end))))))

abbrev identity : Identity
identity = record { kid = kid; public_key = []; private_key = [] }

abbrev setup : Setup
setup = record {
  js = js;
  dates = dates;
  classes = classes;
  stringify = λ v. [];
  crypto = crypto;
  node = node;
  identity = identity;
  agent = agent;
  session_id = codes "s";
  server_label = codes "shop";
  jwks_uri = none;
}

abbrev well : Outside
well = record {
  now = some time;
  args_written = true;
  file_ready = true;
  appended = true;
  cut_back = true;
}

abbrev no_clock : Outside
no_clock = record well { now = none }

abbrev opened : Gate
opened = record {
  head = record {
    seq = 0;
    prev_hash = codes "sha256:0000000000000000000000000000000000000000000000000000000000000000";
  };
  chain = [];
  torn = false;
  chain_created = false;
  chain_broken = false;
  last_ts_ms = none;
  uses = [];
  allowed = [];
  closing = false;
  closed = false;
}

abbrev prior : Allowed
prior = record { order_sha256 = codes "sha256:"; seq = 3; entry_hash = codes "h"; at = time }

-- After an earlier allow of the same order.
abbrev used : Gate
used = record opened { allowed = ([], prior) ∷ [] }

abbrev prepared : Prepared
prepared = record { instruction = instruction; digest = codes "sha256:"; order = order }

judge_input-IsSound_example :
    (v : Json) × (value (obj instruction) ≡ value v)
    × IsSound js dates classes (some (obj order)) order
    × IsTaken js dates classes (quote setup) crypto node v prepared
unfolding judge_input is_safe_integer includes text_eq get has_own printable_256 currency amount
judge_input-IsSound_example =
    judge_input-IsSound js dates classes (quote setup) crypto node (value (obj instruction))
      (some (obj order)) prepared refl

abbrev asked : Read
asked = value (obj instruction)

check-IsNewAllow_example :
    IsNewAllow setup well opened asked
      (some (obj order))
      (check setup well opened asked (some (obj order))).0
      (check setup well opened asked (some (obj order))).1
unfolding check text_eq is_safe_integer includes get has_own printable_256 currency amount args_hash
    append_receipt is_payment_ref_format request_commitment rfc7638_thumbprint
check-IsNewAllow_example = check-IsNewAllow setup well opened asked (some (obj order)) refl refl

check-IsKept_example :
    ((check setup no_clock opened asked (some (obj order))).0.decision ≡ deny)
    × ((check setup no_clock opened asked (some (obj order))).0.repeat ≡ false)
    × IsKept opened (check setup no_clock opened asked (some (obj order))).1
unfolding check
check-IsKept_example = check-IsKept setup no_clock opened asked (some (obj order)) refl

check-IsRepeat_example :
    IsRepeat setup well used asked
      (some (obj order))
      (check setup well used asked (some (obj order))).0
      (check setup well used asked (some (obj order))).1
unfolding check text_eq is_safe_integer includes get has_own printable_256 currency amount not_after
check-IsRepeat_example = check-IsRepeat setup well used asked (some (obj order)) refl

after_calls-IsRebuilt_example :
    IsRebuilt setup
      ([], [])
      (after_calls setup
        (record { outside = well; read = asked; order = some (obj order) } ∷ [])
        opened)
after_calls-IsRebuilt_example =
    after_calls-IsRebuilt setup
      (record { outside = well; read = asked; order = some (obj order) } ∷ []) opened refl refl

abbrev or_else : Option SignedRecord → SignedRecord
or_else (some r) = r
or_else none = Samples.receipt

abbrev receipt : SignedRecord
receipt = or_else (
    append_receipt crypto
      (inputs_of setup opened (decided_by setup prepared time (judged prepared)) (codes "sha256:"))
      [])

check-answered_example :
    IsServed setup opened
      (check setup well opened asked (some (obj order))).1
      (check setup well opened asked (some (obj order))).0
      prepared
      (judged prepared)
      time
      (codes "sha256:")
      receipt
unfolding check_options text_eq judge_input is_safe_integer includes get has_own printable_256
    currency amount map_get judge_limits args_hash append_receipt inputs_of is_payment_ref_format
    request_commitment rfc7638_thumbprint content_json
check-answered_example =
    check-answered setup well opened asked (some (obj order)) prepared (judged prepared) time []
      (codes "sha256:") receipt (record { clock = refl; args = refl; file = refl; append = refl })
      (record {
        running = refl;
        not_closing = refl;
        unbroken = refl;
        options = refl;
        forward = refl;
      })
      refl refl refl refl refl refl
