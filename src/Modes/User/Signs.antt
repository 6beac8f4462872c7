-- ===== src/Modes/User/Signs.antt =====
-- `Apply` of userModes in irc.go: what a mode string sets and clears.
use soju_bouncer.Prelude.{
  ℕ, ◌≡◌, refl, inl, inr, Bool, true, false, ◌&&◌, ◌||◌, not, [], ◌∷◌, ◌++◌, arith, nat_eq,
  if◌then◌else◌, nat_eq_iff, Bool-cases, nat_Eq, Str, str_Eq, pair_Eq,
}
use soju_bouncer.Modes.User.{apply, UserModes, has, add, del, is_sign, apply_from}

-- No letter stands twice.
abbrev pub NoRepeats : UserModes → Type 0
NoRepeats [] = Unit
NoRepeats (m ∷ ms) = (has ms m ≡ false) × NoRepeats ms

-- Whether a letter is set after a mode string, from the last sign before each mention of it.
abbrev pub set_after : ℕ → Bool → Str → ℕ → Bool
set_after sign before [] k = before
set_after sign before (c ∷ s) k =
    if is_sign c
    then set_after c before s k
    else set_after sign (if nat_eq c k then nat_eq sign b'+' else before) s k

has-snoc : (ms : UserModes) (c k : ℕ) → has (ms ++ c ∷ []) k ≡ (has ms k || nat_eq c k)
unfolding has
has-snoc [] c k = ground arith
has-snoc (m ∷ ms) c k = ground (arith, has-snoc ms c k)

NoRepeats-snoc :
    (ms : UserModes) (c : ℕ) → NoRepeats ms → has ms c ≡ false → NoRepeats (ms ++ c ∷ [])
unfolding has
NoRepeats-snoc [] c n h = (refl, tt)
NoRepeats-snoc (m ∷ ms) c n h = ground (arith, NoRepeats-snoc ms c n.1, has-snoc ms c m)

has-add : (ms : UserModes) (c k : ℕ) → has (add ms c) k ≡ (nat_eq c k || has ms k)
unfolding add
has-add ms c k = ground (arith, has-snoc ms c k, nat_eq_iff c k)

add-NoRepeats : (ms : UserModes) (c : ℕ) → NoRepeats ms → NoRepeats (add ms c)
unfolding add
add-NoRepeats ms c n = elim (Bool-cases (has ms c)) [
  | inl old ↦ rw old n
  | inr new ↦ rw new (NoRepeats-snoc ms c n new)
]

has-del :
    (ms : UserModes) (c k : ℕ) → NoRepeats ms → has (del ms c) k ≡ (not (nat_eq c k) && has ms k)
unfolding has del
has-del [] c k n = ground arith
has-del (m ∷ ms) c k n = ground (arith, has-del ms c k n.1)

del-NoRepeats : (ms : UserModes) (c : ℕ) → NoRepeats ms → NoRepeats (del ms c)
unfolding del
del-NoRepeats [] c n = tt
del-NoRepeats (m ∷ ms) c n = elim (Bool-cases (nat_eq m c)) [
  | inl here ↦ rw here n.1
  | inr past ↦ rw past (ground (arith, has-del ms c m n.1), del-NoRepeats ms c n.1)
]

apply_from-sign :
    (sign c : ℕ) (ms : UserModes) (s : Str)
    → is_sign c ≡ true
    → apply_from sign ms (c ∷ s) ≡ apply_from c ms s
unfolding apply_from
apply_from-sign sign c ms s h = rw (h, apply_from)

-- A letter under a sign.
abbrev letter : ℕ → UserModes → ℕ → UserModes
letter sign ms c = if nat_eq sign b'+' then add ms c else del ms c

apply_from-letter :
    (sign c : ℕ) (ms : UserModes) (s : Str)
    → is_sign sign ≡ true
    → is_sign c ≡ false
    → apply_from sign ms (c ∷ s) ≡ apply_from sign (letter sign ms c) s
unfolding apply_from
apply_from-letter sign c ms s p h = ground arith

has-letter :
    (sign c k : ℕ) (ms : UserModes)
    → NoRepeats ms
    → has (letter sign ms c) k ≡ (if nat_eq c k then nat_eq sign b'+' else has ms k)
has-letter sign c k ms n = ground (arith, has-add ms c k, has-del ms c k n)

letter-NoRepeats : (sign c : ℕ) (ms : UserModes) → NoRepeats ms → NoRepeats (letter sign ms c)
letter-NoRepeats sign c ms n = elim (Bool-cases (nat_eq sign b'+')) [
  | inl plus ↦ rw plus (add-NoRepeats ms c n)
  | inr minus ↦ rw minus (del-NoRepeats ms c n)
]

abbrev pub Applied : ℕ → UserModes → Str → ℕ → UserModes × Bool → Type 0
Applied sign ms s k result =
    (result.1 ≡ true) × NoRepeats result.0 × (has result.0 k ≡ set_after sign (has ms k) s k)

apply_from-set_after :
    (sign : ℕ) (ms : UserModes) (s : Str) (k : ℕ)
    → is_sign sign ≡ true
    → NoRepeats ms
    → Applied sign ms s k (apply_from sign ms s)
apply_from-set_after sign ms [] k p n = unfold apply_from in (refl, n, refl)
apply_from-set_after sign ms (c ∷ s) k p n = elim (Bool-cases (is_sign c)) [
  | inl signed ↦
      rw (apply_from-sign sign c ms s signed, signed) (apply_from-set_after c ms s k signed n)
  | inr plain ↦
      let (done, kept, sets) =
        apply_from-set_after sign (letter sign ms c) s k p (letter-NoRepeats sign c ms n) in
      rw (apply_from-letter sign c ms s p plain, plain)
        (done, kept, rw (has-letter sign c k ms n) at sets)
]

-- A mode string that begins with a sign is applied to its end: each letter is set if its last
-- mention stands under a plus, cleared if it stands under a minus, and stays as it was if it is not
-- mentioned; no letter comes to stand twice.
pub apply-set_after :
    (ms : UserModes) (c : ℕ) (s : Str) (k : ℕ)
    → NoRepeats ms
    → is_sign c ≡ true
    → Applied c ms s k (apply ms (c ∷ s))
unfolding apply
apply-set_after ms c s k n signed =
    rw (apply_from-sign 0 c ms s signed) (apply_from-set_after c ms s k signed n)
