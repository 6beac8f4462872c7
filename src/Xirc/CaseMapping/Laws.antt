-- ===== src/Xirc/CaseMapping/Laws.antt =====
-- The case mappings of xirc/casemapping.go: canonical forms, and how they refine one another.
use soju_bouncer.Prelude.{
  ℕ, ◌≡◌, refl, ap, sym, ◌∙◌, map, [], ◌∷◌, List, Str, length, length-map, arith, some,
}
use soju_bouncer.Xirc.CaseMapping.{
  CaseMapping, ascii_byte, rfc1459_byte, rfc1459_strict_byte, casemap_ascii, casemap_rfc1459,
  casemap_rfc1459_strict, parse_case_mapping,
}

map_fuse {ℓ} :
    {A : Type ℓ} (f g h : A → A)
    → ((a : A) → f (g a) ≡ h a)
    → (xs : List A) → map f (map g xs) ≡ map h xs
map_fuse f g h e [] = refl
map_fuse f g h e (x ∷ xs) = ground (arith, e x, map_fuse f g h e xs)

ascii_byte_idem : (r : ℕ) → ascii_byte (ascii_byte r) ≡ ascii_byte r
unfolding ascii_byte
ascii_byte_idem r = ground arith

rfc1459_byte_idem : (r : ℕ) → rfc1459_byte (rfc1459_byte r) ≡ rfc1459_byte r
unfolding rfc1459_byte
rfc1459_byte_idem r = ground arith

rfc1459_strict_byte_idem :
    (r : ℕ) → rfc1459_strict_byte (rfc1459_strict_byte r) ≡ rfc1459_strict_byte r
unfolding rfc1459_strict_byte
rfc1459_strict_byte_idem r = ground arith

strict_byte_ascii : (r : ℕ) → rfc1459_strict_byte (ascii_byte r) ≡ rfc1459_strict_byte r
unfolding rfc1459_strict_byte ascii_byte
strict_byte_ascii r = ground arith

rfc1459_byte_strict : (r : ℕ) → rfc1459_byte (rfc1459_strict_byte r) ≡ rfc1459_byte r
unfolding rfc1459_strict_byte rfc1459_byte
rfc1459_byte_strict r = ground arith

pub casemap_ascii_idem : (s : Str) → casemap_ascii (casemap_ascii s) ≡ casemap_ascii s
unfolding casemap_ascii
casemap_ascii_idem = map_fuse _ _ _ ascii_byte_idem

pub casemap_rfc1459_idem : (s : Str) → casemap_rfc1459 (casemap_rfc1459 s) ≡ casemap_rfc1459 s
unfolding casemap_rfc1459
casemap_rfc1459_idem = map_fuse _ _ _ rfc1459_byte_idem

pub casemap_rfc1459_strict_idem :
    (s : Str) → casemap_rfc1459_strict (casemap_rfc1459_strict s) ≡ casemap_rfc1459_strict s
unfolding casemap_rfc1459_strict
casemap_rfc1459_strict_idem = map_fuse _ _ _ rfc1459_strict_byte_idem

strict-ascii : (s : Str) → casemap_rfc1459_strict (casemap_ascii s) ≡ casemap_rfc1459_strict s
unfolding casemap_ascii casemap_rfc1459_strict
strict-ascii = map_fuse _ _ _ strict_byte_ascii

rfc1459-strict : (s : Str) → casemap_rfc1459 (casemap_rfc1459_strict s) ≡ casemap_rfc1459 s
unfolding casemap_rfc1459 casemap_rfc1459_strict
rfc1459-strict = map_fuse _ _ _ rfc1459_byte_strict

-- Names that are one under the ASCII mapping are one under the strict RFC 1459 mapping, and names
-- that are one under the strict mapping are one under the RFC 1459 mapping.
pub casemap_refinement :
    (a b : Str)
    → (casemap_ascii a ≡ casemap_ascii b → casemap_rfc1459_strict a ≡ casemap_rfc1459_strict b)
      × (casemap_rfc1459_strict a ≡ casemap_rfc1459_strict b
          → casemap_rfc1459 a ≡ casemap_rfc1459 b)
casemap_refinement a b = (
  (λ h. sym (strict-ascii a) ∙ (ap casemap_rfc1459_strict h ∙ strict-ascii b)),
  (λ h. sym (rfc1459-strict a) ∙ (ap casemap_rfc1459 h ∙ rfc1459-strict b)),
)

length-casemap_ascii : (s : Str) → length (casemap_ascii s) ≡ length s
unfolding casemap_ascii
length-casemap_ascii = length-map _

length-casemap_rfc1459 : (s : Str) → length (casemap_rfc1459 s) ≡ length s
unfolding casemap_rfc1459
length-casemap_rfc1459 = length-map _

length-casemap_rfc1459_strict : (s : Str) → length (casemap_rfc1459_strict s) ≡ length s
unfolding casemap_rfc1459_strict
length-casemap_rfc1459_strict = length-map _

-- Every mapping that a server can name maps a canonical name to itself, and keeps the number of
-- bytes.
pub parse_case_mapping_canonical :
    (s name : Str) (cm : CaseMapping)
    → parse_case_mapping s ≡ some cm
    → (cm (cm name) ≡ cm name) × (length (cm name) ≡ length name)
unfolding parse_case_mapping
parse_case_mapping_canonical s name cm h = ground (
  arith,
  casemap_ascii_idem name,
  casemap_rfc1459_idem name,
  casemap_rfc1459_strict_idem name,
  length-casemap_ascii name,
  length-casemap_rfc1459 name,
  length-casemap_rfc1459_strict name,
)
