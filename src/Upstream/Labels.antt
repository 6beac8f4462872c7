-- ===== src/Upstream/Labels.antt =====
-- upstream.go, the labels of messages to a server: SendMessageLabeled writes the downstream
-- connection's id and its own label into one, and parseLabel reads them back.
pub mod RoundTrip
use soju_bouncer.Prelude.{
  ℕ, zero, suc, ◌+◌, ◌-◌, ◌*◌, ◌/◌, ◌%◌, ◌^◌, Bool, true, false, Option, none, some, List, [], ◌∷◌,
  ◌++◌, ltb, nat_eq, if◌then◌else◌, ◌==◌, nat_Eq, Str, str_Eq, codes,
}
use soju_bouncer.Prelude.Text.{split_once, is_digit}

-- `%d` of a number that is not negative: its digits before those that are there already, on fuel.
unfoldable pub digits_from : ℕ → ℕ → Str → Str
digits_from zero n acc = acc
digits_from (suc fuel) n acc = elim (ltb n 10) [
  | true ↦ (b'0' + n) ∷ acc
  | false ↦ digits_from fuel (n / 10) ((b'0' + n % 10) ∷ acc)
]

unfoldable pub format_uint : ℕ → Str
unfolding digits_from
format_uint n = digits_from (n + 1) n []

-- `strconv.ParseUint(s, 10, 64)`, without its error: a digit after those that were read.
unfoldable pub read_digits : ℕ → Str → Option ℕ
read_digits n [] = some n
read_digits n (c ∷ s) = elim (is_digit c) [
  | false ↦ none
  | true ↦ elim (ltb (n * 10 + (c - b'0')) (2 ^ 64)) [
    | false ↦ none
    | true ↦ read_digits (n * 10 + (c - b'0')) s
  ]
]

unfoldable pub parse_uint : Str → Option ℕ
unfolding read_digits
parse_uint [] = none
parse_uint (c ∷ s) = read_digits 0 (c ∷ s)

abbrev in_range : Bool → ℕ → Option ℕ → Option (Bool × ℕ)
in_range negative limit none = none
in_range negative limit (some n) = if ltb n limit then some (negative, n) else none

-- `strconv.ParseInt(s, 10, 64)`, without its error: whether the number is negative, and its size.
unfoldable pub parse_int : Str → Option (Bool × ℕ)
unfolding parse_uint
parse_int [] = none
parse_int (c ∷ s) =
    if nat_eq c b'-'
    then in_range true (2 ^ 63 + 1) (parse_uint s)
    else if nat_eq c b'+'
    then in_range false (2 ^ 63) (parse_uint s)
    else in_range false (2 ^ 63) (parse_uint (c ∷ s))

-- `strings.SplitN` for a one-byte separator, with the number of cuts.
unfoldable pub split_n : ℕ → ℕ → Str → List Str
split_n zero sep s = s ∷ []
split_n (suc cuts) sep s = elim (split_once sep s) [
  | none ↦ s ∷ []
  | some (part, rest) ↦ part ∷ split_n cuts sep rest
]

unfoldable pub format_label : ℕ → ℕ → Str → Str
unfolding format_uint
format_label downstream_id next_label_id label =
    codes "sd-"
    ++ (format_uint downstream_id ++ (b'-' ∷ (format_uint next_label_id ++ (b'-' ∷ label))))

-- The tag that SendMessageLabeled sets, and the connection's next label id.
unfoldable pub label_tag : Bool → ℕ → ℕ → Str → Option Str × ℕ
unfolding format_label
label_tag enabled downstream_id next_label_id label =
    if enabled
    then (some (format_label downstream_id next_label_id label), (next_label_id + 1) % 2 ^ 64)
    else (none, next_label_id)

abbrev pub with_id : Option ℕ → Str → Option (ℕ × Str)
with_id none label = none
with_id (some downstream_id) label = some (downstream_id, label)

abbrev pub read_parts : List Str → Option (ℕ × Str)
read_parts (sd ∷ id ∷ next ∷ label ∷ _) =
    if sd == codes "sd" then with_id (parse_uint id) label else none
read_parts _ = none

-- `none` is the error.
unfoldable pub parse_label : Str → Option (ℕ × Str)
unfolding parse_uint split_n
parse_label [] = some (0, [])
parse_label (c ∷ s) = read_parts (split_n 3 b'-' (c ∷ s))
