-- ===== src/Prelude/Text.antt =====
-- The functions of Go's package strings that the program uses, over the bytes of a string. Case
-- conversion and white space are those of ASCII; other bytes are left as they are.
pub mod Joins
use Prim.Native.Nat.{ℕ, ◌+◌, ◌-◌}
use mathlib.Core.Path.{◌≡◌, refl}
use mathlib.Core.Bool.{Bool, true, false, ◌&&◌, ◌||◌}
use mathlib.Core.List.{List, [], ◌∷◌, ◌++◌, map}
use mathlib.Core.Option.{Option, none, some}
use native.Mathlib.Omega.{arith}
use soju_bouncer.Prelude.Tests.{Str, nat_eq, leb, if◌then◌else◌, list_eq, nat_Eq}

-- `strings.SplitN(s, sep, 2)` for a one-byte separator: `none` where it does not occur.
unfoldable pub split_once : ℕ → Str → Option (Str × Str)
split_once sep [] = none
split_once sep (c ∷ s) =
    if nat_eq c sep
    then some ([], s)
    else elim (split_once sep s) [ none ↦ none | some (a, b) ↦ some (c ∷ a, b) ]

abbrev cons_first : ℕ → List Str → List Str
cons_first c [] = (c ∷ []) ∷ []
cons_first c (w ∷ ws) = (c ∷ w) ∷ ws

-- `strings.Split(s, sep)` for a one-byte separator.
unfoldable pub split : ℕ → Str → List Str
split sep [] = [] ∷ []
split sep (c ∷ s) = let rest = split sep s in if nat_eq c sep then [] ∷ rest else cons_first c rest

-- `strings.Join(l, sep)` for a one-byte separator.
unfoldable pub join : ℕ → List Str → Str
join sep [] = []
join sep (s ∷ []) = s
join sep (s ∷ s' ∷ l) = s ++ sep ∷ join sep (s' ∷ l)

unfoldable pub has_prefix : Str → Str → Bool
has_prefix s [] = true
has_prefix [] (p ∷ ps) = false
has_prefix (c ∷ s) (p ∷ ps) = nat_eq c p && has_prefix s ps

abbrev pub is_digit : ℕ → Bool
is_digit c = leb b'0' c && leb c b'9'

unfoldable pub lower_byte : ℕ → ℕ
lower_byte c = if leb b'A' c && leb c b'Z' then c + 32 else c

unfoldable pub upper_byte : ℕ → ℕ
upper_byte c = if leb b'a' c && leb c b'z' then c - 32 else c

-- `strings.ToLower` and `strings.ToUpper`.
unfoldable pub to_lower : Str → Str
unfolding lower_byte
to_lower s = map lower_byte s

unfoldable pub to_upper : Str → Str
unfolding upper_byte
to_upper s = map upper_byte s

-- `strings.EqualFold`.
unfoldable pub equal_fold : Str → Str → Bool
unfolding to_lower
equal_fold a b = list_eq (to_lower a) (to_lower b)

-- White space of ASCII: tab, line feed, vertical tab, form feed, carriage return, space.
abbrev pub is_space : ℕ → Bool
is_space c = (leb 9 c && leb c 13) || nat_eq c b' '

-- `strings.FieldsFunc`, with the word being read.
unfoldable pub fields_from : (ℕ → Bool) → Str → Str → List Str
fields_from p [] [] = []
fields_from p (w ∷ word) [] = (w ∷ word) ∷ []
fields_from p [] (c ∷ s) = fields_from p (if p c then [] else c ∷ []) s
fields_from p (w ∷ word) (c ∷ s) = elim (p c) [
  | true ↦ (w ∷ word) ∷ fields_from p [] s
  | false ↦ fields_from p ((w ∷ word) ++ c ∷ []) s
]

-- `strings.Fields`.
unfoldable pub fields : Str → List Str
unfolding fields_from
fields s = fields_from is_space [] s

pub map-lower_byte_idem : (s : Str) → to_lower (to_lower s) ≡ to_lower s
unfolding to_lower
map-lower_byte_idem [] = refl
map-lower_byte_idem (c ∷ s) = ground (arith, map-lower_byte_idem s)
