-- ===== src/Modes/User.antt =====
-- irc.go, userModes: a string with the letters of the modes that are set.
pub mod Signs
use soju_bouncer.Prelude.{
  ℕ, Bool, true, false, ◌||◌, Option, none, some, [], ◌∷◌, ◌++◌, nat_eq, if◌then◌else◌, nat_Eq, Str,
  str_Eq, pair_Eq,
}

abbrev pub UserModes : Type 0
UserModes = Str

unfoldable pub has : UserModes → ℕ → Bool
has [] c = false
has (m ∷ ms) c = if nat_eq m c then true else has ms c

unfoldable pub add : UserModes → ℕ → UserModes
unfolding has
add ms c = if has ms c then ms else ms ++ c ∷ []

-- Deletes at the first index.
unfoldable pub del : UserModes → ℕ → UserModes
del [] c = []
del (m ∷ ms) c = if nat_eq m c then ms else m ∷ del ms c

abbrev pub is_sign : ℕ → Bool
is_sign c = nat_eq c b'+' || nat_eq c b'-'

-- One letter under a sign; `none` where there is no sign yet.
abbrev pub apply_letter : UserModes → ℕ → ℕ → Option UserModes
apply_letter ms plus_minus c =
    if nat_eq plus_minus b'+'
    then some (add ms c)
    else if nat_eq plus_minus b'-'
    then some (del ms c)
    else none

-- The loop of `Apply`, with the last sign, and whether it succeeded. The modes are changed in place,
-- so that they are a result on an error too.
unfoldable pub apply_from : ℕ → UserModes → Str → UserModes × Bool
unfolding add del
apply_from plus_minus ms [] = (ms, true)
apply_from plus_minus ms (c ∷ s) = elim (is_sign c) [
  | true ↦ apply_from c ms s
  | false ↦ elim (apply_letter ms plus_minus c) [
    | none ↦ (ms, false)
    | some ms' ↦ apply_from plus_minus ms' s
  ]
]

unfoldable pub apply : UserModes → Str → UserModes × Bool
unfolding apply_from
apply ms s = apply_from 0 ms s
