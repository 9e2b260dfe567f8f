-- ===== src/Strict/Ends.antt =====
-- How long the scan of src/vendor/recorder/strict-json.ts takes: what each round leaves of the text.
use chirindo.Prelude.{
  ℕ, zero, suc, ◌≤◌, ◌<◌, ◌≡◌, refl, Bool, true, false, ◌&&◌, if◌then◌else◌, Option, none, some,
  List, [], ◌∷◌, Text, arith, length, Bool-cases, inl, inr, ◌⊎◌, includes,
}
use chirindo.Strict.{
  Strict, Frame, object, array, Scan, Round, token_rest, is_unsafe_integer_token, stop, go_on,
  drop4, unescape, read_string, number_token, at_key, at_string, at_number, at_other, scan_round,
  scan_loop,
}

length-drop4 : (t : Text) → length (drop4 t) ≤ length t
unfolding drop4
length-drop4 [] = omega arith
length-drop4 (a ∷ []) = omega arith
length-drop4 (a ∷ b ∷ []) = omega arith
length-drop4 (a ∷ b ∷ c ∷ []) = omega arith
length-drop4 (a ∷ b ∷ c ∷ d ∷ t) = omega arith

length-unescape : (e : ℕ) (t : Text) → length (unescape e t).1 ≤ length t
unfolding unescape
length-unescape e t = ground (arith, length-drop4 t)

-- The text behind a string is no longer than the text it starts in.
length-read_string : (fuel : ℕ) (t : Text) → length (read_string fuel t).1 ≤ length t
unfolding read_string
length-read_string zero t = omega arith
length-read_string (suc fuel) [] = omega arith
length-read_string (suc fuel) (c ∷ []) = ground arith
length-read_string (suc fuel) (c ∷ e ∷ t) = ground (
  arith,
  length-read_string fuel (e ∷ t),
  length-read_string fuel (unescape e t).1,
  length-unescape e t,
)

length-token_rest : (t : Text) → length (token_rest t).1 ≤ length t
unfolding token_rest
length-token_rest [] = omega arith
length-token_rest (c ∷ t) = ground (arith, length-token_rest t)

length-number_token :
    (c : ℕ) (t token rest : Text) → number_token c t ≡ some (token, rest) → length rest ≤ length t
unfolding number_token
length-number_token c [] token rest h = ground arith
length-number_token c (d ∷ t) token rest h = ground (arith, length-token_rest (d ∷ t))

Round-cases :
    (r : Round) → ((e : Strict) × (r ≡ stop e)) ⊎ ((s : Scan) × (rest : Text) × (r ≡ go_on s rest))
Round-cases (stop e) = inl (e, refl)
Round-cases (go_on s rest) = inr (s, rest, refl)

-- The text that a round leaves is no longer than the one behind its character.
Shrinks : Text → Round → Type 0
Shrinks t (stop e) = Unit
Shrinks t (go_on s rest) = length rest ≤ length t

at_key-Shrinks :
    (m : Bool) (value next t : Text) (stack : List Frame)
    → length next ≤ length t
    → Shrinks t (at_key m value next stack)
unfolding at_key Shrinks
at_key-Shrinks m value next t [] h = h
at_key-Shrinks m value next t (array ∷ stack) h = h
at_key-Shrinks m value next t (object keys ∷ stack) h =
    elim (Bool-cases (m && includes keys value)) [
      | inl repeated ↦ rw repeated tt
      | inr fresh ↦ rw fresh h
    ]

at_string-Shrinks : (m : Bool) (s : Scan) (t : Text) → Shrinks t (at_string m s t)
unfolding at_string Shrinks
at_string-Shrinks m s t =
    let h = length-read_string (suc (length t)) t in
    elim (Bool-cases s.expect_key) [
      | inl key ↦ rw key (at_key-Shrinks m _ _ t s.stack h)
      | inr plain ↦ rw plain h
    ]

at_number-Shrinks :
    (u : Bool) (s : Scan) (t : Text) (o : Option (Text × Text))
    → ((token rest : Text) → o ≡ some (token, rest) → length rest ≤ length t)
    → Shrinks t (at_number u s t o)
unfolding at_number Shrinks
at_number-Shrinks u s t none h = omega arith
at_number-Shrinks u s t (some (token, rest)) h =
    elim (Bool-cases (u && is_unsafe_integer_token token)) [
      | inl unsafe ↦ rw unsafe tt
      | inr safe ↦ rw safe (h token rest refl)
    ]

at_other-Shrinks : (u : Bool) (s : Scan) (c : ℕ) (t : Text) → Shrinks t (at_other u s c t)
unfolding at_other
at_other-Shrinks u s c t = at_number-Shrinks u s t (number_token c t) (length-number_token c t)

if-Shrinks :
    (t : Text) (b : Bool) (m n : Round) → Shrinks t m → Shrinks t n → Shrinks t (if b then m else n)
if-Shrinks t true m n p q = p
if-Shrinks t false m n p q = q

stays : (t : Text) (s : Scan) → Shrinks t (go_on s t)
unfolding Shrinks
stays t s = omega arith

scan_round-Shrinks : (u m : Bool) (s : Scan) (c : ℕ) (t : Text) → Shrinks t (scan_round u m s c t)
unfolding scan_round
scan_round-Shrinks u m s c t =
    search (if-Shrinks, stays, at_string-Shrinks, at_other-Shrinks) depth 12

Shrinks-go_on :
    (t : Text) (s : Scan) (rest : Text) (r : Round)
    → r ≡ go_on s rest
    → Shrinks t r
    → length rest ≤ length t
unfolding Shrinks
Shrinks-go_on t s rest (stop e) h k = cc
Shrinks-go_on t s rest (go_on s' q) h k = let same : q ≡ rest = ground (arith, h) in rw (← same) k

-- With any fuel beyond the length of the text the loop of validate ends, with what it found or with
-- nothing, whatever the flags and wherever the scan stands.
pub scan_loop-ends :
    (u m : Bool) (fuel : ℕ) (s : Scan) (t : Text)
    → length t < fuel
    → (r : Option Strict) × (scan_loop u m fuel s t ≡ some r)
unfolding scan_loop
scan_loop-ends u m zero s t h = absurd (omega (arith, h))
scan_loop-ends u m (suc fuel) s [] h = (none, refl)
scan_loop-ends u m (suc fuel) s (c ∷ t) h = elim (Round-cases (scan_round u m s c t)) [
  | inl (e, stopped) ↦ (some e, rw (stopped, scan_loop) refl)
  | inr (s', rest, gone) ↦
      let fewer =
        Shrinks-go_on t s' rest (scan_round u m s c t) gone (scan_round-Shrinks u m s c t) in
      let (r, found) = scan_loop-ends u m fuel s' rest (omega (arith, h, fewer)) in
      (r, rw (gone, scan_loop) found)
]
