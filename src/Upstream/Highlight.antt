-- ===== src/Upstream/Highlight.antt =====
-- irc.go, isHighlight: whether a text names a nickname. Texts are lists of code points here, and the
-- classes of package unicode are parameters.
pub mod Search
use soju_bouncer.Prelude.{
  ℕ, zero, suc, ◌+◌, Bool, true, false, ◌&&◌, ◌||◌, not, Option, none, some, [], ◌∷◌, if◌then◌else◌,
  nat_eq, leb, Str, codes, length, take, drop,
}
use soju_bouncer.Prelude.Text.{has_prefix}

pub record Unicode : Type 0 where
  pub is_letter : ℕ → Bool
  pub is_number : ℕ → Bool
  pub is_space : ℕ → Bool

-- `strings.Index`.
unfoldable pub index : Str → Str → Option ℕ
unfolding has_prefix
index [] nick = elim (has_prefix [] nick) [ true ↦ some 0 | false ↦ none ]
index (c ∷ s) nick = elim (has_prefix (c ∷ s) nick) [
  | true ↦ some 0
  | false ↦ elim (index s nick) [ none ↦ none | some i ↦ some (suc i) ]
]

-- `utf8.RuneError`, which stands for the missing rune of an empty text.
abbrev pub rune_error : ℕ
rune_error = 0xfffd

unfoldable pub first_rune : Str → ℕ
first_rune [] = rune_error
first_rune (c ∷ s) = c

unfoldable pub last_rune : Str → ℕ
last_rune [] = rune_error
last_rune (c ∷ []) = c
last_rune (c ∷ d ∷ s) = last_rune (d ∷ s)

module _ (u : Unicode) where
  unfoldable pub is_word_boundary : ℕ → Bool
  is_word_boundary r =
      if nat_eq r b'-' || (nat_eq r b'_' || nat_eq r b'|')
      then false
      else not (u.is_letter r) && not (u.is_number r)

  -- The text from its last white space on; `word` is what was found so far.
  unfoldable pub last_word_from : Str → Str → Str
  last_word_from word [] = word
  last_word_from word (c ∷ s) = last_word_from (if u.is_space c then c ∷ s else word) s

  abbrev pub is_scheme_rune : ℕ → Bool
  is_scheme_rune r =
      (nat_eq r b'+' || (nat_eq r b'-' || nat_eq r b'.'))
      || ((leb b'0' r && leb r b'9') || ((leb b'a' r && leb r b'z') || (leb b'A' r && leb r b'Z')))

  abbrev pub ends_scheme : Str → Option ℕ → Bool
  ends_scheme text none = false
  ends_scheme text (some i) = is_scheme_rune (last_rune (take i text))

  unfoldable pub is_uri_prefix : Str → Bool
  unfolding last_word_from last_rune index
  is_uri_prefix text =
      let word = last_word_from text text in ends_scheme word (index word (codes "://"))

  -- Whether the nickname, found at an index, stands for itself.
  unfoldable pub stands_alone : Str → Str → ℕ → Bool
  unfolding is_word_boundary is_uri_prefix first_rune last_rune
  stands_alone text nick i =
      is_word_boundary (last_rune (take i text))
      && (is_word_boundary (first_rune (drop (i + length nick) text))
          && not (is_uri_prefix (take i text)))

  -- The loop, on fuel: what follows a place that does not count is searched in turn. `none` is a
  -- search that has not ended.
  unfoldable pub highlight_from : ℕ → Str → Str → Option Bool
  unfolding stands_alone index
  highlight_from zero text nick = none
  highlight_from (suc fuel) text nick = elim (index text nick) [
    | none ↦ some false
    | some i ↦ elim (stands_alone text nick i) [
      | true ↦ some true
      | false ↦ highlight_from fuel (drop (i + length nick) text) nick
    ]
  ]

  -- `none` is the panic on an empty nickname.
  unfoldable pub is_highlight : Str → Str → Option Bool
  unfolding highlight_from
  is_highlight text [] = none
  is_highlight text (c ∷ nick) = highlight_from (length text + 1) text (c ∷ nick)
