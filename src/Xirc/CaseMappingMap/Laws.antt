-- ===== src/Xirc/CaseMappingMap/Laws.antt =====
-- CaseMappingMap of xirc/casemapping.go: reads after writes, and the invariant of its keys.
use soju_bouncer.Prelude.{
  ◌≡◌, ◌≢◌, refl, some, List, [], ◌∷◌, Str, str_Eq, ◌==◌, if◌then◌else◌, lookup, insert, delete,
  lookup-insert, lookup-delete, DistinctKeys, insert-DistinctKeys, delete-DistinctKeys, All, arith,
  list_eq_iff, eq_refl, nat_Eq, Option-cases, inl, inr, ◌||◌, ◌&&◌, not,
}
use soju_bouncer.Xirc.CaseMapping.{CaseMapping}
use soju_bouncer.Xirc.CaseMappingMap.{
  Entry, CaseMappingMap, get, has, set, del, rebuild, set_case_mapping, updated,
}

-- The key of an entry is the canonical form of the name that it was first set under.
abbrev pub IsKeyed {ℓ} : {V : Type ℓ} → CaseMapping → Str × Entry V → Type 0
IsKeyed cm x = x.0 ≡ cm x.1.original_key

pub record IsValid {ℓ} {V : Type ℓ} (cmm : CaseMappingMap V) : Type ℓ where
  pub distinct : DistinctKeys cmm.m
  pub keyed : All (IsKeyed cmm.casemap) cmm.m

module _ {ℓ} {V : Type ℓ} where
  -- A read after `Set` finds the new value under every spelling of the name that the case mapping
  -- identifies with it, and what was there before under every other name.
  pub get-set :
      (z v : V) (cmm : CaseMappingMap V) (name k : Str)
      → get z (set cmm name v) k ≡ (if cmm.casemap name == cmm.casemap k then v else get z cmm k)
  unfolding get set
  get-set z v cmm name k = ground (
    arith,
    lookup-insert (cmm.casemap name) (cmm.casemap k)
        (updated (lookup (cmm.casemap name) cmm.m) name v) cmm.m,
  )

  -- `Del` takes away the name under all its spellings, and nothing else.
  pub get-del :
      (z : V) (cmm : CaseMappingMap V) (name k : Str)
      → get z (del cmm name) k ≡ (if cmm.casemap name == cmm.casemap k then z else get z cmm k)
  unfolding get del
  get-del z cmm name k = ground (arith, lookup-delete (cmm.casemap name) (cmm.casemap k) cmm.m)

  pub has-set :
      (cmm : CaseMappingMap V) (name k : Str) (v : V)
      → has (set cmm name v) k ≡ (cmm.casemap name == cmm.casemap k) || has cmm k
  unfolding has set
  has-set cmm name k v = ground (
    arith,
    lookup-insert (cmm.casemap name) (cmm.casemap k)
        (updated (lookup (cmm.casemap name) cmm.m) name v) cmm.m,
  )

  pub has-del :
      (cmm : CaseMappingMap V) (name k : Str)
      → has (del cmm name) k ≡ not (cmm.casemap name == cmm.casemap k) && has cmm k
  unfolding has del
  has-del cmm name k = ground (arith, lookup-delete (cmm.casemap name) (cmm.casemap k) cmm.m)

  insert-IsKeyed :
      (cm : CaseMapping) (k : Str) (entry : Entry V) (m : List (Str × Entry V))
      → k ≡ cm entry.original_key
      → All (IsKeyed cm) m
      → All (IsKeyed cm) (insert k entry m)
  unfolding insert
  insert-IsKeyed cm k entry [] e h = (e, tt)
  insert-IsKeyed cm k entry ((j, w) ∷ m) e h =
      ground (arith, list_eq_iff j k, insert-IsKeyed cm k entry m)

  delete-IsKeyed :
      (cm : CaseMapping) (k : Str) (m : List (Str × Entry V))
      → All (IsKeyed cm) m
      → All (IsKeyed cm) (delete k m)
  unfolding delete
  delete-IsKeyed cm k [] h = tt
  delete-IsKeyed cm k ((j, w) ∷ m) h = ground (arith, delete-IsKeyed cm k m)

  lookup_keyed :
      (cm : CaseMapping) (k : Str) (entry : Entry V) (m : List (Str × Entry V))
      → All (IsKeyed cm) m
      → lookup k m ≡ some entry
      → k ≡ cm entry.original_key
  unfolding lookup
  lookup_keyed cm k entry [] h l = ground arith
  lookup_keyed cm k entry ((j, w) ∷ m) h l =
      ground (arith, list_eq_iff j k, lookup_keyed cm k entry m)

  updated_keyed :
      (cmm : CaseMappingMap V) (name : Str) (v : V)
      → All (IsKeyed cmm.casemap) cmm.m
      → cmm.casemap name
        ≡ cmm.casemap (updated (lookup (cmm.casemap name) cmm.m) name v).original_key
  updated_keyed cmm name v h = elim (Option-cases (lookup (cmm.casemap name) cmm.m)) [
    | inl fresh ↦ rw fresh refl
    | inr (entry, old) ↦ rw old (lookup_keyed cmm.casemap _ entry cmm.m h old)
  ]

  pub set-IsValid :
      (cmm : CaseMappingMap V) (name : Str) (v : V) → IsValid cmm → IsValid (set cmm name v)
  unfolding set
  set-IsValid cmm name v i = record {
    distinct = insert-DistinctKeys _ _ cmm.m i.distinct;
    keyed = insert-IsKeyed cmm.casemap _ _ cmm.m (updated_keyed cmm name v i.keyed) i.keyed;
  }

  pub del-IsValid : (cmm : CaseMappingMap V) (name : Str) → IsValid cmm → IsValid (del cmm name)
  unfolding del
  del-IsValid cmm name i = record {
    distinct = delete-DistinctKeys _ cmm.m i.distinct;
    keyed = delete-IsKeyed cmm.casemap _ cmm.m i.keyed;
  }

  rebuild_valid :
      (cm : CaseMapping) (m acc : List (Str × Entry V))
      → DistinctKeys acc
      → All (IsKeyed cm) acc
      → DistinctKeys (rebuild cm m acc) × All (IsKeyed cm) (rebuild cm m acc)
  unfolding rebuild
  rebuild_valid cm [] acc d k = (d, k)
  rebuild_valid cm ((_, entry) ∷ m) acc d k =
      rebuild_valid cm m (insert (cm entry.original_key) entry acc) (insert-DistinctKeys _ _ acc d)
        (insert-IsKeyed cm _ entry acc refl k)

  -- `Set`, `Del` and `SetCaseMapping` keep the invariant: no key stands twice, and each key is the
  -- canonical form, under the current case mapping, of the name its entry was first set under.
  -- `SetCaseMapping` restores it for a new mapping whatever stood in the map.
  pub operations-IsValid :
      (cmm : CaseMappingMap V) (name : Str) (v : V) (cm : CaseMapping)
      → IsValid cmm
      → IsValid (set cmm name v) × IsValid (del cmm name) × IsValid (set_case_mapping cmm cm)
  unfolding set_case_mapping
  operations-IsValid cmm name v cm i =
      let (d, k) = rebuild_valid cm cmm.m [] tt tt in
      (set-IsValid cmm name v i, del-IsValid cmm name i, record { distinct = d; keyed = k })

  -- No two entries fall together under the mapping.
  abbrev pub Apart : CaseMapping → List (Str × Entry V) → Type 0
  Apart cm [] = Unit
  Apart cm (x ∷ m) =
      All (λ (y : Str × Entry V). cm y.1.original_key ≢ cm x.1.original_key) m × Apart cm m

  rebuild_other :
      (cm : CaseMapping) (k : Str) (m acc : List (Str × Entry V))
      → All (λ (y : Str × Entry V). cm y.1.original_key ≢ k) m
      → lookup k (rebuild cm m acc) ≡ lookup k acc
  unfolding rebuild
  rebuild_other cm k [] acc h = refl
  rebuild_other cm k ((_, entry) ∷ m) acc h = ground (
    arith,
    rebuild_other cm k m (insert (cm entry.original_key) entry acc) h.1,
    lookup-insert (cm entry.original_key) k entry acc,
    list_eq_iff (cm entry.original_key) k,
  )

  rebuild_finds :
      (z : V) (cm : CaseMapping) (m acc : List (Str × Entry V))
      → Apart cm m
      → All (λ (y : Str × Entry V). lookup (cm y.1.original_key) (rebuild cm m acc) ≡ some y.1) m
  unfolding rebuild
  rebuild_finds z cm [] acc h = tt
  rebuild_finds z cm ((_, entry) ∷ m) acc h = (
    ground (
      arith,
      rebuild_other cm (cm entry.original_key) m (insert (cm entry.original_key) entry acc) h.0,
      lookup-insert (cm entry.original_key) (cm entry.original_key) entry acc,
      eq_refl (cm entry.original_key),
    ),
    rebuild_finds z cm m (insert (cm entry.original_key) entry acc) h.1,
  )

  All-map {κ} :
      (P Q : Str × Entry V → Type κ) (m : List (Str × Entry V))
      → ((x : Str × Entry V) → P x → Q x)
      → All P m
      → All Q m
  All-map P Q [] f h = tt
  All-map P Q (x ∷ m) f h = (f x h.0, All-map P Q m f h.1)

  get_of_lookup :
      (z : V) (cmm : CaseMappingMap V) (y : Str × Entry V)
      → lookup (cmm.casemap y.1.original_key) cmm.m ≡ some y.1
      → get z cmm y.1.original_key ≡ y.1.value
  unfolding get
  get_of_lookup z cmm y h = ground arith

  -- If no two entries fall together under the new mapping, the map still reads the value of every
  -- entry under its name after `SetCaseMapping`.
  pub get-set_case_mapping :
      (z : V) (cmm : CaseMappingMap V) (cm : CaseMapping)
      → Apart cm cmm.m
      → All
          (λ (y : Str × Entry V). get z (set_case_mapping cmm cm) y.1.original_key ≡ y.1.value)
          cmm.m
  unfolding set_case_mapping
  get-set_case_mapping z cmm cm h =
      All-map _ _ cmm.m (λ y. get_of_lookup z (set_case_mapping cmm cm) y)
        (rebuild_finds z cm cmm.m [] h)
