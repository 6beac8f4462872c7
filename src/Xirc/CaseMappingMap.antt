-- ===== src/Xirc/CaseMappingMap.antt =====
-- xirc/casemapping.go, CaseMappingMap: a map whose keys are compared under a case mapping, and that
-- keeps the spelling under which each entry was first set.
pub mod Laws
use soju_bouncer.Prelude.{
  ℕ, Bool, Option, none, some, List, [], ◌∷◌, Str, str_Eq, lookup, insert, delete, is_some, length,
}
use soju_bouncer.Xirc.CaseMapping.{CaseMapping}

pub record Entry {ℓ} (V : Type ℓ) : Type ℓ where
  pub original_key : Str
  pub value : V

pub record CaseMappingMap {ℓ} (V : Type ℓ) : Type ℓ where
  pub m : List (Str × Entry V)
  pub casemap : CaseMapping

module _ {ℓ} {V : Type ℓ} where
  unfoldable pub new : CaseMapping → CaseMappingMap V
  new cm = record { m = []; casemap = cm }

  unfoldable pub has : CaseMappingMap V → Str → Bool
  unfolding lookup
  has cmm name = is_some (lookup (cmm.casemap name) cmm.m)

  unfoldable pub len : CaseMappingMap V → ℕ
  len cmm = length cmm.m

  abbrev pub value_of : V → Option (Entry V) → V
  value_of d none = d
  value_of d (some entry) = entry.value

  -- `zero_value` is the zero value of `V`.
  unfoldable pub get : V → CaseMappingMap V → Str → V
  get zero_value cmm name = value_of zero_value (lookup (cmm.casemap name) cmm.m)

  -- The entry that `Set` writes: the old one with a new value, or a new one.
  abbrev updated : Option (Entry V) → Str → V → Entry V
  updated none name value = record { original_key = name; value = value }
  updated (some entry) name value = record entry { value = value }

  unfoldable pub set : CaseMappingMap V → Str → V → CaseMappingMap V
  set cmm name value =
      let name_cm = cmm.casemap name in
      record cmm { m = insert name_cm (updated (lookup name_cm cmm.m) name value) cmm.m }

  unfoldable pub del : CaseMappingMap V → Str → CaseMappingMap V
  del cmm name = record cmm { m = delete (cmm.casemap name) cmm.m }

  -- What `ForEach` calls its function on, in order. Go leaves the order open.
  unfoldable pub entries : List (Str × Entry V) → List (Str × V)
  entries [] = []
  entries ((_, entry) ∷ m) = (entry.original_key, entry.value) ∷ entries m

  unfoldable pub rebuild :
      CaseMapping → List (Str × Entry V) → List (Str × Entry V) → List (Str × Entry V)
  rebuild cm [] acc = acc
  rebuild cm ((_, entry) ∷ m) acc = rebuild cm m (insert (cm entry.original_key) entry acc)

  unfoldable pub set_case_mapping : CaseMappingMap V → CaseMapping → CaseMappingMap V
  unfolding rebuild
  set_case_mapping cmm new_casemap = record {
    casemap = new_casemap;
    m = rebuild new_casemap cmm.m [];
  }
