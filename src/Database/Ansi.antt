-- ===== src/Database/Ansi.antt =====
-- database/utils.go: formatting codes are stripped from a text, byte by byte.
use soju_bouncer.Prelude.{
  ℕ, zero, suc, ◌+◌, ◌≡◌, refl, sym, ap, ◌∙◌, inl, inr, Bool, true, false, ◌&&◌, ◌||◌, not, none,
  some, [], ◌∷◌, ◌++◌, arith, ltb, leb, nat_eq, if◌then◌else◌, Bool-cases, nat_Eq, Str, str_Eq,
  pair_Eq, length, get_elem?, take, drop,
}
use soju_bouncer.Prelude.Text.{is_digit}

abbrev pub is_hex : ℕ → Bool
is_hex c = is_digit c || (leb b'a' c && leb c b'f') || (leb b'A' c && leb c b'F')

abbrev pub all_hex : Str → Bool
all_hex [] = true
all_hex (c ∷ s) = is_hex c && all_hex s

unfoldable pub starts_hex_color : Str → Bool
starts_hex_color s = if ltb (length s) 6 then false else all_hex (take 6 s)

-- A code without parameters.
abbrev pub is_plain_code : ℕ → Bool
is_plain_code b =
    nat_eq b 0x02
    || nat_eq b 0x1d
    || nat_eq b 0x1f
    || nat_eq b 0x1e
    || nat_eq b 0x11
    || nat_eq b 0x16
    || nat_eq b 0x0f

abbrev pub is_code : ℕ → Bool
is_code b = is_plain_code b || nat_eq b 0x03 || nat_eq b 0x04

abbrev pub contains_code : Str → Bool
contains_code [] = false
contains_code (b ∷ s) = is_code b || contains_code s

-- Whether there is a digit at an index.
abbrev pub digit_at : Str → ℕ → Bool
digit_at s i = elim (get_elem? s i) [ none ↦ false | some c ↦ is_digit c ]

abbrev pub comma_at : Str → ℕ → Bool
comma_at s i = elim (get_elem? s i) [ none ↦ false | some c ↦ nat_eq c b',' ]

-- The bytes of the colours behind a colour code: one or two digits, and as many behind a comma.
abbrev pub background_end : Str → ℕ → ℕ
background_end s a =
    if comma_at s a && digit_at s (a + 1) then (if digit_at s (a + 2) then a + 3 else a + 2) else a

unfoldable pub color_length : Str → ℕ
color_length s = if digit_at s 0 then background_end s (if digit_at s 1 then 2 else 1) else 0

unfoldable pub hex_color_length : Str → ℕ
unfolding starts_hex_color
hex_color_length s =
    if starts_hex_color s
    then (if comma_at s 6 && starts_hex_color (drop 7 s) then 13 else 6)
    else 0

-- How far the index moves past a byte, beside the step of the loop.
abbrev pub skip_length : ℕ → Str → ℕ
skip_length b s =
    if is_plain_code b
    then 0
    else if nat_eq b 0x03
    then color_length s
    else if nat_eq b 0x04
    then hex_color_length s
    else 0

-- The loop, with the number of bytes that are still to be skipped.
unfoldable pub strip_from : ℕ → Str → Str
strip_from n [] = []
strip_from (suc n) (b ∷ s) = strip_from n s
strip_from zero (b ∷ s) = elim (is_code b) [
  | true ↦ strip_from (skip_length b s) s
  | false ↦ b ∷ strip_from 0 s
]

unfoldable pub strip_ansi : Str → Str
unfolding strip_from
strip_ansi s = if not (contains_code s) then s else strip_from 0 s

strip_from-clean : (n : ℕ) (s : Str) → contains_code (strip_from n s) ≡ false
unfolding strip_from
strip_from-clean n [] = refl
strip_from-clean (suc n) (b ∷ s) = strip_from-clean n s
strip_from-clean zero (b ∷ s) = elim (Bool-cases (is_code b)) [
  | inl code ↦ rw (code, strip_from) (strip_from-clean (skip_length b s) s)
  | inr text ↦ rw (text, strip_from) (rw (text, strip_from-clean 0 s) refl)
]

strip_ansi-text : (s : Str) → contains_code s ≡ false → strip_ansi s ≡ s
unfolding strip_ansi
strip_ansi-text s h = rw (h, strip_ansi) refl

strip_ansi-free : (s : Str) → contains_code (strip_ansi s) ≡ false
unfolding strip_ansi
strip_ansi-free s = elim (Bool-cases (contains_code s)) [
  | inl some_code ↦ rw (some_code, strip_ansi) (strip_from-clean 0 s)
  | inr text ↦ rw (text, strip_ansi) text
]

strip_from-text : (s : Str) → contains_code s ≡ false → strip_from 0 s ≡ s
unfolding strip_from
strip_from-text [] h = refl
strip_from-text (b ∷ s) h = ground (arith, h, strip_from-text s)

strip_from-append :
    (t s : Str) → contains_code t ≡ false → strip_from 0 (t ++ s) ≡ t ++ strip_from 0 s
unfolding strip_from
strip_from-append [] s h = refl
strip_from-append (b ∷ t) s h = ground (arith, h, strip_from-append t s)

strip_ansi-from : (s : Str) → strip_ansi s ≡ strip_from 0 s
unfolding strip_ansi
strip_ansi-from s = elim (Bool-cases (contains_code s)) [
  | inl some_code ↦ rw (some_code, strip_ansi) refl
  | inr text ↦ strip_ansi-text s text ∙ sym (strip_from-text s text)
]

-- A stripped text holds no formatting code, and stripping it again leaves it as it is; a text without
-- codes that stands in front is kept whole.
pub strip_ansi-clean :
    (t s : Str)
    → contains_code t ≡ false
    → (contains_code (strip_ansi s) ≡ false)
      × (strip_ansi (strip_ansi s) ≡ strip_ansi s)
      × (strip_ansi (t ++ s) ≡ t ++ strip_ansi s)
strip_ansi-clean t s h = (
  strip_ansi-free s,
  strip_ansi-text (strip_ansi s) (strip_ansi-free s),
  strip_ansi-from (t ++ s) ∙ strip_from-append t s h ∙ ap (◌++◌ t) (sym (strip_ansi-from s)),
)
