-- ===== src/Xirc/Caps.antt =====
-- xirc/caps.go: the capabilities that a server offers, and those that are switched on.
use soju_bouncer.Prelude.{
  ◌≡◌, Bool, ◌&&◌, not, List, [], Str, str_Eq, lookup, insert, delete, is_some, ◌==◌, if◌then◌else◌,
  lookup-insert, lookup-delete, arith,
}

pub record CapRegistry : Type 0 where
  pub available : List (Str × Str)
  pub enabled : List (Str × Unit {0})

unfoldable pub new : CapRegistry
new = record { available = []; enabled = [] }

unfoldable pub is_available : CapRegistry → Str → Bool
is_available cr name = is_some (lookup name cr.available)

unfoldable pub is_enabled : CapRegistry → Str → Bool
is_enabled cr name = is_some (lookup name cr.enabled)

unfoldable pub del : CapRegistry → Str → CapRegistry
del cr name = record { available = delete name cr.available; enabled = delete name cr.enabled }

unfoldable pub set_enabled : CapRegistry → Str → Bool → CapRegistry
set_enabled cr name on =
    if on
    then record cr { enabled = insert name tt cr.enabled }
    else record cr { enabled = delete name cr.enabled }

-- `SetEnabled` changes whether its own capability is enabled, and nothing else: every other
-- capability and all that is available stay. `Del` ends both for its own capability alone.
pub set_enabled-del :
    (cr : CapRegistry) (name k : Str) (on : Bool)
    → (is_enabled (set_enabled cr name on) k ≡ (if name == k then on else is_enabled cr k))
      × (is_available (set_enabled cr name on) k ≡ is_available cr k)
      × (is_enabled (del cr name) k ≡ (not (name == k) && is_enabled cr k))
      × (is_available (del cr name) k ≡ (not (name == k) && is_available cr k))
unfolding is_enabled is_available set_enabled del
set_enabled-del cr name k on = ground (
  arith,
  lookup-insert name k tt cr.enabled,
  lookup-delete name k cr.enabled,
  lookup-delete name k cr.available,
)
