-- ===== src/Strings/Duration/Laws.antt =====
-- parse8601 of src/lib/common/globals.cpp on durations that are spelled out.
use fiware_orion.Base.{
  ℕ, ◌+◌, ◌*◌, ◌^◌, ◌-◌, ◌≤◌, ◌<◌, Str, ◌≡◌, ◌≢◌, refl, ap, ◌∙◌, nat_eq, Bool, true, false, Option,
  none, some, List, [], ◌∷◌, ◌++◌, any, arith, All, All-append, append_assoc, append-nil,
}
use fiware_orion.Strings.Bytes.{c_str, Lacks, c_str-eq_self, is_digit}
use fiware_orion.Strings.Url.{leading_digits}
use fiware_orion.Strings.Duration.{
  seconds, to_seconds, digit, unit, kind_of, is_zero_digits, State, added, add_unit, parse_loop,
  start_state, parse_after_p, parse8601,
}

-- A number and its unit: the number is a digit and more digits.
pub record Item : Type 0 where
  pub first : ℕ
  pub more : Str
  pub what : ℕ

abbrev pub number : Item → ℕ
number it = leading_digits 0 (it.first ∷ it.more)

-- Fit for the day part, or for the time part, with a number that an `int` holds.
pub record IsItem (day_part : Bool) (it : Item) : Type 0 where
  pub digits : All (λ c. is_digit c ≡ true) (it.first ∷ it.more)
  pub unit : kind_of day_part it.what ≡ unit
  pub fits : number it < 2 ^ 31

abbrev pub spell_items : List Item → Str → Str
spell_items [] rest = rest
spell_items (it ∷ items) rest = it.first ∷ (it.more ++ (it.what ∷ spell_items items rest))

abbrev pub total : Bool → List Item → ℕ
total day_part [] = 0
total day_part (it ∷ items) = to_seconds (number it) it.what day_part + total day_part items

kind-digit : (day_part : Bool) (c : ℕ) → is_digit c ≡ true → kind_of day_part c ≡ digit
unfolding kind_of
kind-digit day_part c h = rw h refl

abbrev state : Bool → Str → Bool → ℕ → State
state day_part start pending acc = record {
  day_part = day_part;
  start = start;
  digits_pending = pending;
  accumulated = acc;
}

parse-digit :
    (day_part pending : Bool) (start : Str) (acc c : ℕ) (s : Str)
    → is_digit c ≡ true
    → parse_loop (state day_part start pending acc) (c ∷ s)
      ≡ parse_loop (state day_part (start ++ c ∷ []) true acc) s
unfolding parse_loop
parse-digit day_part pending start acc c s h = ground (arith, kind-digit day_part c h)

parse-digits :
    (day_part : Bool) (start : Str) (acc : ℕ) (ds s : Str)
    → All (λ c. is_digit c ≡ true) ds
    → parse_loop (state day_part start true acc) (ds ++ s)
      ≡ parse_loop (state day_part (start ++ ds) true acc) s
parse-digits day_part start acc [] s h = rw (append-nil start) refl
parse-digits day_part start acc (c ∷ ds) s h =
    parse-digit day_part true start acc c (ds ++ s) h.0
    ∙ (parse-digits day_part (start ++ c ∷ []) acc ds s h.1
        ∙ ap (λ x. parse_loop (state day_part x true acc) s) (append_assoc start (c ∷ []) ds))

leading-le : (n : ℕ) (s : Str) → n ≤ leading_digits n s
unfolding leading_digits
leading-le n [] = omega arith
leading-le n (c ∷ s) = ground (arith, leading-le (n * 10 + (c - b'0')) s)

zero_number :
    (c : ℕ) (s : Str)
    → is_digit c ≡ true
    → leading_digits 0 (c ∷ s) ≡ 0
    → is_zero_digits (c ∷ s) ≡ true
unfolding is_digit leading_digits is_zero_digits
zero_number c s h e = ground (arith, leading-le (0 * 10 + (c - b'0')) s)

add-item :
    (day_part : Bool) (it : Item) (acc : ℕ)
    → IsItem day_part it
    → acc + to_seconds (number it) it.what day_part < 2 ^ 63
    → add_unit it.what (state day_part (it.first ∷ it.more) true acc)
      ≡ added (state day_part [] false (acc + to_seconds (number it) it.what day_part))
unfolding add_unit
add-item day_part it acc h small =
    ground (arith, h.fits, small, zero_number it.first it.more h.digits.0)

parse-unit :
    (day_part : Bool) (it : Item) (acc : ℕ) (s : Str)
    → IsItem day_part it
    → acc + to_seconds (number it) it.what day_part < 2 ^ 63
    → parse_loop (state day_part (it.first ∷ it.more) true acc) (it.what ∷ s)
      ≡ parse_loop (state day_part [] false (acc + to_seconds (number it) it.what day_part)) s
unfolding parse_loop
parse-unit day_part it acc s h small = ground (arith, h.unit, add-item day_part it acc h small)

parse-items :
    (day_part : Bool) (items : List Item) (acc : ℕ) (s : Str)
    → All (IsItem day_part) items
    → acc + total day_part items < 2 ^ 63
    → parse_loop (state day_part [] false acc) (spell_items items s)
      ≡ parse_loop (state day_part [] false (acc + total day_part items)) s
parse-items day_part [] acc s h small =
    ap (λ x. parse_loop (state day_part [] false x) s) (omega arith)
parse-items day_part (it ∷ items) acc s h small =
    let here = to_seconds (number it) it.what day_part in
    parse-digit day_part false [] acc it.first (it.more ++ (it.what ∷ spell_items items s))
      h.0.digits.0
    ∙ (parse-digits day_part (it.first ∷ []) acc it.more (it.what ∷ spell_items items s)
          h.0.digits.1
        ∙ (parse-unit day_part it acc (spell_items items s) h.0 (omega (arith, small))
            ∙ (parse-items day_part items (acc + here) s h.1 (omega (arith, small))
                ∙ ap (λ x. parse_loop (state day_part [] false x) s) (omega arith))))

digits-Lacks : (ds : Str) → All (λ c. is_digit c ≡ true) ds → Lacks 0 ds
unfolding is_digit
digits-Lacks [] h = tt
digits-Lacks (c ∷ ds) h = (ground (arith, h.0), digits-Lacks ds h.1)

unit-nonzero : (day_part : Bool) (c : ℕ) → kind_of day_part c ≡ unit → c ≢ 0
unfolding kind_of is_digit any
unit-nonzero day_part c h = ground (arith, h)

items-Lacks :
    (day_part : Bool) (items : List Item) (rest : Str)
    → All (IsItem day_part) items
    → Lacks 0 rest
    → Lacks 0 (spell_items items rest)
items-Lacks day_part [] rest h l = l
items-Lacks day_part (it ∷ items) rest h l =
    let ds = digits-Lacks (it.first ∷ it.more) h.0.digits in
    (
      ds.0,
      All-append (λ c. c ≢ 0) it.more (it.what ∷ spell_items items rest) ds.1
          (unit-nonzero day_part it.what h.0.unit, items-Lacks day_part items rest h.1 l),
    )

-- The time part, behind a T, if there is one.
abbrev pub time_text : Option (List Item) → Str
time_text none = []
time_text (some items) = b'T' ∷ spell_items items []

abbrev pub time_total : Option (List Item) → ℕ
time_total none = 0
time_total (some items) = total false items

abbrev pub IsTime : Option (List Item) → Type 0
IsTime none = Unit
IsTime (some items) = All (IsItem false) items

time-Lacks : (times : Option (List Item)) → IsTime times → Lacks 0 (time_text times)
time-Lacks none h = tt
time-Lacks (some items) h = (omega arith, items-Lacks false items [] h tt)

parse-time :
    (times : Option (List Item)) (acc : ℕ)
    → IsTime times
    → acc + time_total times < 2 ^ 63
    → parse_loop (state true [] false acc) (time_text times) ≡ seconds (acc + time_total times)
unfolding parse_loop kind_of is_digit any
parse-time none acc h small = ap seconds (omega arith)
parse-time (some items) acc h small = parse-items false items acc [] h small

parse_after_p-some : (s : Str) → s ≢ [] → parse_after_p s ≡ parse_loop start_state s
unfolding parse_after_p
parse_after_p-some [] ne = elim (ne refl) [ ]
parse_after_p-some (c ∷ s) ne = refl

parse8601-p : (s : Str) → Lacks 0 s → parse8601 (b'P' ∷ s) ≡ parse_after_p s
unfolding parse8601 c_str
parse8601-p s l = ground (arith, c_str-eq_self s l)

-- A P, numbers with the units Y, M, W and D, and if there is a time part a T and numbers with the
-- units H, M and S, are parsed into the sum of their seconds: if there is anything behind the P, each
-- number fits a 32-bit int and the sum a 64-bit one.
pub parse8601_lem :
    (days : List Item) (times : Option (List Item))
    → All (IsItem true) days
    → IsTime times
    → spell_items days (time_text times) ≢ []
    → total true days + time_total times < 2 ^ 63
    → parse8601 (b'P' ∷ spell_items days (time_text times))
      ≡ seconds (total true days + time_total times)
parse8601_lem days times h k ne small =
    parse8601-p (spell_items days (time_text times))
      (items-Lacks true days (time_text times) h (time-Lacks times k))
    ∙ (parse_after_p-some (spell_items days (time_text times)) ne
        ∙ (parse-items true days 0 (time_text times) h (omega (arith, small))
            ∙ (ap (λ x. parse_loop (state true [] false x) (time_text times)) (omega arith)
                ∙ parse-time times (total true days) k small)))
