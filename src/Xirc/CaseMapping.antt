-- ===== src/Xirc/CaseMapping.antt =====
-- xirc/casemapping.go, the case mappings: canonical forms of names, byte by byte.
pub mod Laws
use soju_bouncer.Prelude.{
  ℕ, ◌+◌, ◌-◌, ◌%◌, Bool, ◌&&◌, Option, none, some, map, Str, leb, nat_eq, if◌then◌else◌, ◌==◌,
  codes, str_Eq,
}

-- The test `'A' <= r && r <= 'Z'`.
abbrev pub is_upper : ℕ → Bool
is_upper r = leb b'A' r && leb r b'Z'

-- `r + 'a' - 'A'` on a byte.
abbrev pub to_lower_byte : ℕ → ℕ
to_lower_byte r = (r + b'a' - b'A') % 256

unfoldable pub ascii_byte : ℕ → ℕ
ascii_byte r = if is_upper r then to_lower_byte r else r

unfoldable pub rfc1459_byte : ℕ → ℕ
rfc1459_byte r =
    if is_upper r
    then to_lower_byte r
    else if nat_eq r b'{'
    then b'['
    else if nat_eq r b'}'
    then b']'
    else if nat_eq r 0x5c
    then b'|'
    else if nat_eq r b'~'
    then b'^'
    else r

unfoldable pub rfc1459_strict_byte : ℕ → ℕ
rfc1459_strict_byte r =
    if is_upper r
    then to_lower_byte r
    else if nat_eq r b'{'
    then b'['
    else if nat_eq r b'}'
    then b']'
    else if nat_eq r 0x5c
    then b'|'
    else r

-- `type CaseMapping func(string) string`.
abbrev pub CaseMapping : Type 0
CaseMapping = Str → Str

unfoldable pub casemap_ascii : CaseMapping
unfolding ascii_byte
casemap_ascii name = map ascii_byte name

unfoldable pub casemap_rfc1459 : CaseMapping
unfolding rfc1459_byte
casemap_rfc1459 name = map rfc1459_byte name

unfoldable pub casemap_rfc1459_strict : CaseMapping
unfolding rfc1459_strict_byte
casemap_rfc1459_strict name = map rfc1459_strict_byte name

-- `none` is the nil function, for an unknown name.
unfoldable pub parse_case_mapping : Str → Option CaseMapping
parse_case_mapping s =
    if s == codes "ascii"
    then some casemap_ascii
    else if s == codes "rfc1459"
    then some casemap_rfc1459
    else if s == codes "rfc1459-strict"
    then some casemap_rfc1459_strict
    else none
