-- ===== src/Service/Words.antt =====
-- service.go, `splitWords`: a command line is cut into words, with quotes and backslashes. A string
-- is the list of its runes here.
pub mod Quoted
use soju_bouncer.Prelude.{
  ℕ, Bool, true, false, ◌&&◌, ◌||◌, not, List, [], ◌∷◌, ◌++◌, leb, nat_eq, if◌then◌else◌, nat_Eq,
  Str, str_Eq, pair_Eq,
}

pub record State : Type 0 where
  pub words : List Str
  pub last_word : Str
  pub escape : Bool
  pub prev : ℕ
  pub word_delim : ℕ

pub data WordsError : Type 0 where
  unterminated_quote unterminated_backslash : WordsError

pub data WordsResult : Type 0 where
  split_ok : List Str → WordsResult
  split_err : WordsError → WordsResult

-- `unicode.IsSpace`.
unfoldable pub is_unicode_space : ℕ → Bool
is_unicode_space r =
    (leb 9 r && leb r 13)
    || nat_eq r b' '
    || nat_eq r 133
    || nat_eq r 160
    || nat_eq r 5760
    || (leb 8192 r && leb r 8202)
    || nat_eq r 8232
    || nat_eq r 8233
    || nat_eq r 8239
    || nat_eq r 8287
    || nat_eq r 12288

abbrev pub write : State → ℕ → State
write st r = record st { last_word = st.last_word ++ r ∷ [] }

abbrev pub end_word : State → State
end_word st = record st { words = st.words ++ st.last_word ∷ []; last_word = [] }

-- The tests of the loop's body, in their order.
abbrev pub read_rune : State → ℕ → State
read_rune st r =
    if st.escape
    then record (write st r) { escape = false }
    else if nat_eq r b'\\'
    then record st { escape = true }
    else if nat_eq st.word_delim b' ' && is_unicode_space r
    then (if is_unicode_space st.prev then st else end_word st)
    else if nat_eq r st.word_delim
    then record st { word_delim = b' ' }
    else if nat_eq r b'"' || nat_eq r b'\''
    then (if nat_eq st.word_delim b' ' then record st { word_delim = r } else write st r)
    else write st r

unfoldable pub step : State → ℕ → State
step st r = record (read_rune st r) { prev = r }

unfoldable pub read_all : State → Str → State
unfolding step
read_all st [] = st
read_all st (r ∷ s) = read_all (step st r) s

abbrev pub finish : State → WordsResult
finish st =
    let words = if is_unicode_space st.prev then st.words else st.words ++ st.last_word ∷ [] in
    if not (nat_eq st.word_delim b' ')
    then split_err unterminated_quote
    else if st.escape
    then split_err unterminated_backslash
    else split_ok words

abbrev pub start : State
start = record { words = []; last_word = []; escape = false; prev = b' '; word_delim = b' ' }

unfoldable pub split_words : Str → WordsResult
unfolding read_all is_unicode_space
split_words s = finish (read_all start s)
