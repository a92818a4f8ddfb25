-- ===== src/Strings/Duration.antt =====
-- toSeconds and parse8601 of src/lib/common/globals.cpp: the duration of a subscription or of a
-- registration.
pub mod Laws
use fiware_orion.Base.{
  ℕ, zero, suc, ◌+◌, ◌*◌, ◌^◌, Str, ◌==◌, nat_eq, ◌&&◌, ◌||◌, not, Bool, true, false, List, [], ◌∷◌,
  ◌++◌, codes, ltb, any, if◌then◌else◌,
}
use fiware_orion.Strings.Bytes.{c_str, is_digit}
use fiware_orion.Strings.Url.{leading_digits}

-- -1, or a number of seconds. atoi of a number that no `int` can hold, and a sum that no int64_t can
-- hold, are undefined behaviour.
pub data Parsed : Type 0 where
  error : Parsed
  undefined : Parsed
  seconds : ℕ → Parsed

-- toSeconds, of the units that parse8601 calls it with
unfoldable pub day_unit : ℕ → ℕ
day_unit c =
    if c == b'Y'
    then 365 * 24 * 3600
    else if c == b'M'
    then 30 * 24 * 3600
    else if c == b'W'
    then 7 * 24 * 3600
    else 24 * 3600

unfoldable pub time_unit : ℕ → ℕ
time_unit c = if c == b'H' then 3600 else if c == b'M' then 60 else 1

unfoldable pub to_seconds : ℕ → ℕ → Bool → ℕ
to_seconds value what day_part = (if day_part then day_unit what else time_unit what) * value

-- What the loop does at a byte.
pub data Kind : Type 0 where
  digit unit time_part bad : Kind

abbrev is_one_of : ℕ → Str → Bool
is_one_of c s = any (λ d. c == d) s

unfoldable pub kind_of : Bool → ℕ → Kind
kind_of day_part c =
    if is_digit c
    then digit
    else if day_part && is_one_of c (codes "YMDW")
    then unit
    else if day_part && c == b'T'
    then time_part
    else if not day_part && is_one_of c (codes "HMS")
    then unit
    else bad

unfoldable pub is_zero_digits : Str → Bool
is_zero_digits [] = false
is_zero_digits (c ∷ s) = c == b'0'

-- The local variables of parse8601: `dayPart`, the text from `start` on, `digitsPending` and
-- `accumulated`.
pub record State : Type 0 where
  pub day_part : Bool
  pub start : Str
  pub digits_pending : Bool
  pub accumulated : ℕ

-- A unit adds its value: the day part wants digits before it.
pub data UnitResult : Type 0 where
  refused overflow : UnitResult
  added : State → UnitResult

unfoldable pub add_unit : ℕ → State → UnitResult
add_unit what st =
    let value = leading_digits 0 st.start in
    let total = st.accumulated + to_seconds value what st.day_part in
    if not (ltb value (2 ^ 31))
    then overflow
    else if st.day_part && (value == 0 && not (is_zero_digits st.start))
    then refused
    else if not (ltb total (2 ^ 63))
    then overflow
    else added
        (record { day_part = st.day_part; start = []; digits_pending = false; accumulated = total })

unfoldable pub parse_loop : State → Str → Parsed
parse_loop st [] = if st.digits_pending then error else seconds st.accumulated
parse_loop st (c ∷ s) = elim (kind_of st.day_part c) [
  | digit ↦ parse_loop (record st { start = st.start ++ c ∷ []; digits_pending = true }) s
  | time_part ↦ parse_loop (record st { day_part = false; start = []; digits_pending = false }) s
  | unit ↦ elim (add_unit c st) [
    | refused ↦ error
    | overflow ↦ undefined
    | added st' ↦ parse_loop st' s
  ]
  | bad ↦ error
]

abbrev pub start_state : State
start_state = record { day_part = true; start = []; digits_pending = false; accumulated = 0 }

unfoldable pub parse_after_p : Str → Parsed
parse_after_p [] = error
parse_after_p (c ∷ s) = parse_loop start_state (c ∷ s)

unfoldable pub parse8601 : Str → Parsed
parse8601 s = elim (c_str s) [ [] ↦ error | c ∷ r ↦ if c == b'P' then parse_after_p r else error ]
