-- ===== src/Purchase/Time.antt =====
-- src/purchase/time.ts: the times of the purchase check.
pub mod Fractions
pub mod Order
use chirindo.Prelude.{
  ℕ, suc, zero, ◌-◌, max, Bool, true, false, ◌&&◌, ◌==◌, leb, ltb, if◌then◌else◌, Option, none,
  some, [], ◌∷◌, ◌++◌, Text, codes, text_eq, text_order, Sign, before, same, after, length, take,
  drop,
}

-- What the program takes from Date: Date.parse in milliseconds from the earliest time a Date holds
-- (`none` is NaN), and the toISOString of such a time.
pub record Dates : Type 0 where
  pub parse : Text → Option ℕ
  pub to_iso_string : ℕ → Text

abbrev pub is_digit : ℕ → Bool
is_digit c = leb b'0' c && leb c b'9'

-- What is left of a text after a prefix of the given shape, in which d is any digit.
unfoldable pub shaped : (shape : Text) → Text → Option Text
shaped [] t = some t
shaped (p ∷ shape) [] = none
shaped (p ∷ shape) (c ∷ t) =
    let rest = shaped shape t in if (if p == b'd' then is_digit c else c == p) then rest else none

-- The number of leading digits.
unfoldable pub digit_run : Text → ℕ
digit_run [] = 0
digit_run (c ∷ t) = let rest = digit_run t in if is_digit c then suc rest else 0

-- (\.\d+)?Z$ with the given bound on the number of digits
unfoldable pub zulu_end : (ℕ → Bool) → Text → Bool
unfolding digit_run
zulu_end bound [] = false
zulu_end bound (c ∷ t) =
    if c == b'.'
    then (let n = digit_run t in ltb 0 n && bound n && text_eq (drop n t) (codes "Z"))
    else text_eq (c ∷ t) (codes "Z")

abbrev pub ends_in_zulu : (ℕ → Bool) → Option Text → Bool
unfolding zulu_end
ends_in_zulu bound none = false
ends_in_zulu bound (some t) = zulu_end bound t

abbrev pub date_time : Text
date_time = codes "dddd-dd-ddTdd:dd:dd"

-- TIME_RE.test(t)
unfoldable pub time_re : Text → Bool
unfolding shaped zulu_end
time_re t = ends_in_zulu (λ n. true) (shaped date_time t)

-- ISO_UTC.test(t)
unfoldable pub iso_utc : Text → Bool
unfolding shaped zulu_end
iso_utc t = ends_in_zulu (λ n. leb n 9) (shaped date_time t)

-- t.slice(0, -1)
abbrev pub drop_last : Text → Text
drop_last [] = []
drop_last (c ∷ []) = []
drop_last (c ∷ d ∷ t) = c ∷ drop_last (d ∷ t)

-- The first part of t.split("."), and the text after the first dot.
unfoldable pub until_dot : Text → Text
until_dot [] = []
until_dot (c ∷ t) = let rest = until_dot t in if c == b'.' then [] else c ∷ rest

unfoldable pub after_dot : Text → Text
after_dot [] = []
after_dot (c ∷ t) = let rest = after_dot t in if c == b'.' then t else rest

-- split: the whole part and the fraction.
unfoldable pub whole : Text → Text
unfolding until_dot
whole t = until_dot (drop_last t)

unfoldable pub fraction : Text → Text
unfolding until_dot after_dot
fraction t = until_dot (after_dot (drop_last t))

abbrev pub zeros : ℕ → Text
zeros zero = []
zeros (suc n) = b'0' ∷ zeros n

-- t.padEnd(n, "0")
abbrev pub pad_end : Text → ℕ → Text
pad_end t n = t ++ zeros (n - length t)

unfoldable pub fraction_order : Text → Text → Sign
unfolding text_order
fraction_order f g = let n = max (length f) (length g) in text_order (pad_end f n) (pad_end g n)

-- The sign of two wholes that differ, else that of the fractions.
abbrev pub then_by : Sign → Sign → Sign
then_by same next = next
then_by before next = before
then_by after next = after

-- compareInstants; `none` is a throw.
unfoldable pub compare_instants : Text → Text → Option Sign
unfolding time_re whole fraction fraction_order text_order
compare_instants a b =
    if time_re a && time_re b
    then some (then_by (text_order (whole a) (whole b)) (fraction_order (fraction a) (fraction b)))
    else none

module _ (dates : Dates) where
  open dates use {parse, to_iso_string}

  -- tsMs of a string
  unfoldable pub ts_ms : Text → Option ℕ
  unfolding time_re
  ts_ms s = if time_re s then parse s else none

  -- Number.isFinite(d.getTime()) && d.toISOString().slice(0, n) === t.slice(0, n)
  abbrev pub gives_back : ℕ → Option ℕ → Text → Bool
  gives_back n none t = false
  gives_back n (some ms) t = text_eq (take n (to_iso_string ms)) (take n t)

  -- isCalendarInstant of a string
  unfoldable pub is_calendar_instant : Text → Bool
  unfolding time_re
  is_calendar_instant s = time_re s && gives_back 19 (parse s) s

  abbrev pub ends_here : Option Text → Bool
  ends_here (some []) = true
  ends_here _ = false

  -- dateOk of a string
  unfoldable pub date_ok : Text → Bool
  unfolding shaped
  date_ok s =
      ends_here (shaped (codes "dddd-dd-dd") s) && gives_back 10 (parse (s ++ codes "T00:00:00Z")) s
