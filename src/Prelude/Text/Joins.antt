-- ===== src/Prelude/Text/Joins.antt =====
-- Texts that are built by joining strings with a separator.
use soju_bouncer.Prelude.{
  ℕ, ◌+◌, ◌≡◌, refl, sym, ◌∙◌, false, List, [], ◌∷◌, ◌++◌, arith, if◌then◌else◌, nat_Eq, Str,
  str_Eq, pair_Eq, length, is_empty, length-append, All,
}
use mathlib.Core.List.{append_assoc}
use soju_bouncer.Prelude.Text.{join}

-- A separator, where the buffer holds something, and a string.
abbrev pub write_sep : ℕ → Str → Str → Str
write_sep sep [] s = s
write_sep sep (c ∷ buf) s = (c ∷ buf) ++ sep ∷ s

abbrev pub IsFilled : Str → Type 0
IsFilled s = is_empty s ≡ false

join-snoc_cons :
    (sep : ℕ) (x : Str) (g : List Str) (s : Str)
    → join sep ((x ∷ g) ++ s ∷ []) ≡ join sep (x ∷ g) ++ sep ∷ s
unfolding join
join-snoc_cons sep x [] s = refl
join-snoc_cons sep x (y ∷ g) s =
    ground (arith, join-snoc_cons sep y g s, append_assoc x (sep ∷ join sep (y ∷ g)) (sep ∷ s))

join_filled : (sep : ℕ) (x : Str) (g : List Str) → IsFilled x → IsFilled (join sep (x ∷ g))
unfolding join
join_filled sep (c ∷ x) [] h = refl
join_filled sep (c ∷ x) (y ∷ g) h = refl
join_filled sep [] g h = ground arith

write_sep_filled : (sep : ℕ) (buf s : Str) → IsFilled buf → write_sep sep buf s ≡ buf ++ sep ∷ s
write_sep_filled sep [] s h = ground arith
write_sep_filled sep (c ∷ buf) s h = refl

-- Writing one more string behind a separator is joining one more.
pub join-snoc :
    (sep : ℕ) (g : List Str) (s : Str)
    → All IsFilled g
    → join sep (g ++ s ∷ []) ≡ write_sep sep (join sep g) s
unfolding join
join-snoc sep [] s h = refl
join-snoc sep (x ∷ g) s h =
    join-snoc_cons sep x g s
    ∙ sym (write_sep_filled sep (join sep (x ∷ g)) s (join_filled sep x g h.0))

pub length-write_sep :
    (sep : ℕ) (buf s : Str)
    → length (write_sep sep buf s) + (if is_empty buf then 1 else 0) ≡ length buf + 1 + length s
length-write_sep sep [] s = omega arith
length-write_sep sep (c ∷ buf) s = omega (arith, length-append (c ∷ buf) (sep ∷ s))

pub join-is_empty : (sep : ℕ) (g : List Str) → All IsFilled g → is_empty (join sep g) ≡ is_empty g
unfolding join
join-is_empty sep [] h = refl
join-is_empty sep (x ∷ g) h = join_filled sep x g h.0

-- The bytes of the strings, with one more for each.
abbrev pub total : List Str → ℕ
total [] = 0
total (x ∷ g) = length x + 1 + total g

pub length-join : (sep : ℕ) (x : Str) (g : List Str) → length (join sep (x ∷ g)) + 1 ≡ total (x ∷ g)
unfolding join
length-join sep x [] = omega arith
length-join sep x (y ∷ g) =
    omega (arith, length-append x (sep ∷ join sep (y ∷ g)), length-join sep y g)

pub total-snoc : (g : List Str) (s : Str) → total (g ++ s ∷ []) ≡ total g + (length s + 1)
total-snoc [] s = omega arith
total-snoc (x ∷ g) s = omega (arith, total-snoc g s)
