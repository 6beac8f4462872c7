-- ===== src/Service/Commands.antt =====
-- service.go, the tree of service commands: `Get` of serviceCommandSet finds a command by its words,
-- each of which may be cut short. A Go map is a list in some order.
use soju_bouncer.Prelude.{
  ℕ, ◌≡◌, refl, ◌∙◌, inl, inr, Bool, true, false, ◌||◌, not, Option, none, some, List, [], ◌∷◌,
  if◌then◌else◌, Bool-cases, ◌==◌, nat_Eq, Str, str_Eq, pair_Eq, is_empty,
}
use soju_bouncer.Prelude.Text.{has_prefix}

mutual
  -- A command, by the number of its handler, and its rights.
  pub data Command : Type 0 where
    command : ℕ → Bool → Bool → CommandSet → Command

  pub data CommandSet : Type 0 where
    no_commands : CommandSet
    and_command : Str → Command → CommandSet → CommandSet

abbrev pub children : Command → CommandSet
children (command _ _ _ cs) = cs

pub data GetResult : Type 0 where
  got : Command → List Str → GetResult
  not_specified not_found ambiguous : GetResult

-- `cmds[name]`.
unfoldable pub exact : CommandSet → Str → Option Command
exact no_commands name = none
exact (and_command k cmd cs) name = if k == name then some cmd else exact cs name

-- The loop over the names that begin with the word, with what was found so far; the test is whether
-- it is ambiguous.
unfoldable pub by_prefix : CommandSet → Str → Option Command → Option Command × Bool
by_prefix no_commands name found = (found, false)
by_prefix (and_command k cmd cs) name found =
    let rest = by_prefix cs name found in
    let first = by_prefix cs name (some cmd) in
    if not (has_prefix k name) then rest else elim found [ some c ↦ (some c, true) | none ↦ first ]

abbrev pub search_prefix : CommandSet → Str → Option Command × Bool
search_prefix cs name = by_prefix cs name none

unfoldable pub find : CommandSet → Str → Option Command × Bool
unfolding exact by_prefix
find cs name = elim (exact cs name) [ some cmd ↦ (some cmd, false) | none ↦ search_prefix cs name ]

abbrev pub has_no_commands : CommandSet → Bool
has_no_commands no_commands = true
has_no_commands (and_command _ _ _) = false

unfoldable pub get : CommandSet → List Str → GetResult
get cs [] = not_specified
get cs (name ∷ params) =
    let (found, several) = find cs name in
    elim several [
      | true ↦ ambiguous
      | false ↦ elim found [
        | none ↦ not_found
        | some cmd ↦
            let deeper = get (children cmd) params in
            if is_empty params || has_no_commands (children cmd) then got cmd params else deeper
      ]
    ]

-- The commands whose names begin with a word.
abbrev pub candidates : CommandSet → Str → List Command
candidates no_commands name = []
candidates (and_command k cmd cs) name =
    if has_prefix k name then cmd ∷ candidates cs name else candidates cs name

-- What a word stands for, by the command that it names and those that it begins.
abbrev pub choose : Option Command → List Command → Option Command × Bool
choose (some cmd) l = (some cmd, false)
choose none [] = (none, false)
choose none (cmd ∷ []) = (some cmd, false)
choose none (cmd ∷ _ ∷ _) = (some cmd, true)

abbrev after_first : Command → List Command → Option Command × Bool
after_first c [] = (some c, false)
after_first c (_ ∷ _) = (some c, true)

by_prefix-some :
    (cs : CommandSet) (name : Str) (c : Command)
    → by_prefix cs name (some c) ≡ after_first c (candidates cs name)
unfolding by_prefix
by_prefix-some no_commands name c = refl
by_prefix-some (and_command k cmd cs) name c = elim (Bool-cases (has_prefix k name)) [
  | inl fits ↦ rw fits refl
  | inr other ↦ rw other (by_prefix-some cs name c)
]

by_prefix-none :
    (cs : CommandSet) (name : Str) → by_prefix cs name none ≡ choose none (candidates cs name)
unfolding by_prefix
by_prefix-none no_commands name = refl
by_prefix-none (and_command k cmd cs) name = elim (Bool-cases (has_prefix k name)) [
  | inl fits ↦ rw fits (by_prefix-some cs name cmd ∙ same (candidates cs name))
  | inr other ↦ rw other (by_prefix-none cs name)
]
  where
    same : (l : List Command) → after_first cmd l ≡ choose none (cmd ∷ l)
    same [] = refl
    same (_ ∷ _) = refl

-- A word stands for the command that it names, and otherwise for the one command whose name begins
-- with it: with no such command none is found, and with several the word is ambiguous.
pub find_lem :
    (cs : CommandSet) (name : Str) → find cs name ≡ choose (exact cs name) (candidates cs name)
unfolding find
find_lem cs name = by_exact (exact cs name)
  where
    by_exact :
        (o : Option Command)
        → elim o as (λ _. Option Command × Bool) [
          | some cmd ↦ (some cmd, false)
          | none ↦ search_prefix cs name
        ]
          ≡ choose o (candidates cs name)
    by_exact (some cmd) = refl
    by_exact none = by_prefix-none cs name
