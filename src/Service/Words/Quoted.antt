-- ===== src/Service/Words/Quoted.antt =====
-- `splitWords` of service.go on quoted words, and on a word that ends in an escaped space.
use mathlib.Core.List.{append-nil, append_assoc}
use soju_bouncer.Prelude.{
  ℕ, ◌≡◌, refl, sym, ap, ◌∙◌, false, ◌||◌, List, [], ◌∷◌, ◌++◌, map, arith, nat_eq, nat_Eq, Str,
  str_Eq, pair_Eq, All,
}
use soju_bouncer.Prelude.Text.{join}
use soju_bouncer.Service.Words.{
  start, split_ok, is_unicode_space, step, read_all, finish, split_words, State,
}

-- Each rune of a word after a backslash.
abbrev pub escaped : Str → Str
escaped [] = []
escaped (c ∷ w) = b'\\' ∷ c ∷ escaped w

-- A word between double quotes, its runes escaped.
abbrev pub quoted : Str → Str
quoted w = b'"' ∷ (escaped w ++ b'"' ∷ [])

abbrev opened : List Str → Str → ℕ → State
opened ws lw p = record { words = ws; last_word = lw; escape = false; prev = p; word_delim = b'"' }

abbrev closed : List Str → Str → ℕ → State
closed ws lw p = record { words = ws; last_word = lw; escape = false; prev = p; word_delim = b' ' }

read_all-escaped :
    (ws : List Str) (w lw rest : Str) (p : ℕ)
    → read_all (opened ws lw p) (escaped w ++ b'"' ∷ rest)
      ≡ read_all (closed ws (lw ++ w) b'"') rest
unfolding read_all step
read_all-escaped ws [] lw rest p = rw (append-nil lw) refl
read_all-escaped ws (c ∷ w) lw rest p =
    rw (append_assoc lw (c ∷ []) w) at (read_all-escaped ws w (lw ++ c ∷ []) rest c)

read_all-quoted :
    (ws : List Str) (w rest : Str)
    → read_all (closed ws [] b' ') (quoted w ++ rest) ≡ read_all (closed ws w b'"') rest
unfolding read_all step is_unicode_space
read_all-quoted ws w rest =
    rw (append_assoc (escaped w) (b'"' ∷ []) rest) (read_all-escaped ws w [] rest b'"')

-- Further words, each after a space.
abbrev more : List Str → Str
more [] = []
more (w ∷ l) = b' ' ∷ (quoted w ++ more l)

step-space :
    (ws : List Str) (w : Str) → step (closed ws w b'"') b' ' ≡ closed (ws ++ w ∷ []) [] b' '
unfolding step is_unicode_space
step-space ws w = refl

finish-more :
    (l ws : List Str) (w : Str)
    → finish (read_all (closed ws w b'"') (more l)) ≡ split_ok (ws ++ w ∷ l)
unfolding read_all step
finish-more [] ws w = unfold is_unicode_space in refl
finish-more (v ∷ l) ws w =
    ap (λ st. finish (read_all st (quoted v ++ more l))) (step-space ws w)
    ∙ ap finish (read_all-quoted (ws ++ w ∷ []) v (more l))
    ∙ (rw (append_assoc ws (w ∷ []) (v ∷ l)) at (finish-more l (ws ++ w ∷ []) v))

join-quoted : (w : Str) (l : List Str) → join b' ' (map quoted (w ∷ l)) ≡ quoted w ++ more l
unfolding join
join-quoted w [] = sym (append-nil (quoted w))
join-quoted w (v ∷ l) = ap (λ (t : Str). quoted w ++ b' ' ∷ t) (join-quoted v l)

-- Words that are quoted, with their runes escaped, and put together with single spaces are split
-- into the same words, whatever runes they hold and also where they are empty.
pub split_words-quoted : (ws : List Str) → split_words (join b' ' (map quoted ws)) ≡ split_ok ws
unfolding split_words
split_words-quoted [] = unfold join read_all in refl
split_words-quoted (w ∷ l) =
    ap (λ s. finish (read_all start s)) (join-quoted w l)
    ∙ ap finish (read_all-quoted [] w (more l))
    ∙ finish-more l [] w

-- A rune that the splitting takes as it is.
abbrev pub IsPlain : ℕ → Type 0
IsPlain c =
    ((nat_eq c b'\\' || nat_eq c b'"' || nat_eq c b'\'') ≡ false) × (is_unicode_space c ≡ false)

step-plain :
    (c : ℕ) (lw : Str) (p : ℕ) → IsPlain c → step (closed [] lw p) c ≡ closed [] (lw ++ c ∷ []) c
unfolding step is_unicode_space
step-plain c lw p h = ground (arith, h)

finish-lost :
    (w lw : Str) (p : ℕ)
    → All IsPlain w
    → finish (read_all (closed [] lw p) (w ++ b'\\' ∷ b' ' ∷ [])) ≡ split_ok []
unfolding read_all step
finish-lost [] lw p h = unfold is_unicode_space step in refl
finish-lost (c ∷ w) lw p h =
    ap (λ st. finish (read_all st (w ++ b'\\' ∷ b' ' ∷ []))) (step-plain c lw p h.0)
    ∙ finish-lost w (lw ++ c ∷ []) c h.1

-- A word of plain runes that ends in an escaped space is lost: the command line has no word.
pub split_words-lost :
    (w : Str) → All IsPlain w → split_words (w ++ b'\\' ∷ b' ' ∷ []) ≡ split_ok []
unfolding split_words
split_words-lost w h = finish-lost w [] b' ' h
