-- ===== src/Strings/Samples.antt =====
-- Runs of the string helpers, and their theorems at concrete inputs.
use fiware_orion.Base.{
  Option, true, any, all, str_beq, ◌+◌, ◌<◌, ◌^◌, some, List, ◌≡◌, refl, [], ◌∷◌, codes, All, arith,
}
use fiware_orion.Strings.Url.{atoi}
use fiware_orion.Strings.Url.{atoi, parsed, url_path, min_path, parse_url}
use fiware_orion.Strings.Url.Laws.{parse_url_lem}
use fiware_orion.Strings.Duration.{seconds, to_seconds, day_unit, time_unit, kind_of, parse8601}
use fiware_orion.Strings.Url.{leading_digits}
use fiware_orion.Strings.Duration.Laws.{
  Item, IsItem, spell_items, total, time_text, time_total, IsTime, parse8601_lem,
}
use fiware_orion.Strings.Bytes.{is_digit, c_str}
use fiware_orion.Strings.Strip.{ws_strip, skip_ws, strip_end, is_ws, is_empty}
use fiware_orion.Strings.Coords.{
  Coords, string2coords, split_comma, a_to_f, check_a_to_f, check_number, starts_number,
  is_digit_or_dot, is_sign, count_dots, in_range,
}
use fiware_orion.Update.Samples.{plain}
use fiware_orion.Strings.Split.{string_split}
use fiware_orion.Strings.Split.Laws.{join}

split_path :
    string_split (codes "/a/bc//d") b'/' [] ≡ (4, codes "a" ∷ codes "bc" ∷ [] ∷ codes "d" ∷ [])
unfolding string_split
split_path = refl

parse_url_lem_example :
    parse_url
      (join b'/' (codes "http:" ∷ ([] ∷ (codes "host:8080" ∷ (codes "a" ∷ codes "b" ∷ [])))))
    ≡ parsed (record {
      host = codes "host";
      port = atoi (codes "8080");
      path = min_path (url_path (codes "a" ∷ codes "b" ∷ []));
      protocol = codes "http:";
    })
parse_url_lem_example =
    parse_url_lem b'h' (codes "ttp:") b'h' (codes "ost") (some (codes "8080"))
      (codes "a" ∷ codes "b" ∷ []) (ground arith) (ground arith) (ground arith) (ground arith)

-- P1M12DT5S
abbrev month_and_days : List Item
month_and_days =
    record { first = b'1'; more = []; what = b'M' }
    ∷ record { first = b'1'; more = codes "2"; what = b'D' }
    ∷ []

abbrev five_seconds : Option (List Item)
five_seconds = some (record { first = b'5'; more = []; what = b'S' } ∷ [])

month_and_days-IsItem : All (IsItem true) month_and_days
unfolding kind_of is_digit any leading_digits
month_and_days-IsItem = (
  record { digits = (refl, tt); unit = refl; fits = omega arith },
  (record { digits = (refl, (refl, tt)); unit = refl; fits = omega arith }, tt),
)

five_seconds-IsTime : IsTime five_seconds
unfolding kind_of is_digit any leading_digits
five_seconds-IsTime = (record { digits = (refl, tt); unit = refl; fits = omega arith }, tt)

small_total : total true month_and_days + time_total five_seconds < 2 ^ 63
unfolding to_seconds day_unit time_unit leading_digits is_digit
small_total = omega arith

parse8601_lem_example :
    parse8601 (b'P' ∷ spell_items month_and_days (time_text five_seconds))
    ≡ seconds (total true month_and_days + time_total five_seconds)
parse8601_lem_example =
    parse8601_lem month_and_days five_seconds month_and_days-IsItem five_seconds-IsTime (λ e. cc)
      small_total

abbrev nowhere : Coords plain
nowhere = record { latitude = 0; longitude = 0 }

in_madrid : (string2coords plain (codes " 40, 3") nowhere).0 ≡ true
unfolding string2coords split_comma c_str ws_strip skip_ws strip_end is_ws a_to_f check_a_to_f
    check_number starts_number is_digit_or_dot is_digit is_sign count_dots in_range is_empty all
    str_beq
in_madrid = refl
