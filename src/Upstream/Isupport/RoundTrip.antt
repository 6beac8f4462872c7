-- ===== src/Upstream/Isupport/RoundTrip.antt =====
-- upstream.go, handleMemberships: a PREFIX token that lists memberships is read as that list.
use soju_bouncer.Prelude.{
  ℕ, zero, suc, ◌+◌, ◌-◌, ◌*◌, ◌/◌, ◌≡◌, ◌≢◌, ◌<◌, refl, true, some, List, [], ◌∷◌, ◌++◌, map,
  nat_eq, nat_eq_iff, Str, length, get_or, arith, All, length-append, length-map, ◌∙◌, ap,
}
use soju_bouncer.Xirc.Membership.{Membership}
use soju_bouncer.Upstream.Isupport.{index_byte, memberships_from, parse_memberships}

abbrev pub modes_of_all : List Membership → Str
modes_of_all ms = map (λ (m : Membership). m.mode) ms

abbrev pub prefixes_of_all : List Membership → Str
prefixes_of_all ms = map (λ (m : Membership). m.prefix) ms

-- The value of the token, `(modes)prefixes`.
abbrev pub prefix_value : List Membership → Str
prefix_value ms = b'(' ∷ (modes_of_all ms ++ (b')' ∷ prefixes_of_all ms))

index-modes :
    (ms : List Membership) (rest : Str)
    → All (λ (m : Membership). m.mode ≢ b')') ms
    → index_byte (modes_of_all ms ++ (b')' ∷ rest)) b')' ≡ some (length ms)
unfolding index_byte
index-modes [] rest h = refl
index-modes (m ∷ ms) rest h = ground (arith, index-modes ms rest h.1, h.0)

get_or-append_right : (xs ys : Str) (i d : ℕ) → get_or (xs ++ ys) (length xs + i) d ≡ get_or ys i d
get_or-append_right [] ys i d = ap (λ n. get_or ys n d) {y = i} (omega arith)
get_or-append_right (x ∷ xs) ys i d =
    ap (λ n. get_or (x ∷ (xs ++ ys)) n d) {y = suc (length xs + i)} (omega arith)
    ∙ get_or-append_right xs ys i d

get_or-append_left : (xs ys : Str) (i d : ℕ) → i < length xs → get_or (xs ++ ys) i d ≡ get_or xs i d
get_or-append_left [] ys i d h = elim h [ ]
get_or-append_left (x ∷ xs) ys zero d h = refl
get_or-append_left (x ∷ xs) ys (suc i) d h = get_or-append_left xs ys i d (omega (arith, h))

-- The loop reads the memberships whose modes and prefixes stand where it looks.
read_from :
    (ms : List Membership) (s : Str) (sep i : ℕ)
    → ((j : ℕ) → j < length ms → get_or s (i + j + 1) 0 ≡ get_or (modes_of_all ms) j 0)
    → ((j : ℕ) → j < length ms → get_or s (sep + (i + j) + 1) 0 ≡ get_or (prefixes_of_all ms) j 0)
    → memberships_from s sep i (length ms) ≡ ms
unfolding memberships_from
read_from [] s sep i h k = refl
read_from (m ∷ ms) s sep i h k =
    let mode : get_or s (i + 1) 0 ≡ m.mode =
      ap (λ n. get_or s n 0) {x = i + 1} (omega arith) ∙ h 0 (omega arith) in
    let prefix : get_or s (sep + i + 1) 0 ≡ m.prefix =
      ap (λ n. get_or s n 0) {x = sep + i + 1} (omega arith) ∙ k 0 (omega arith) in
    let rest =
      read_from ms s sep (i + 1)
        (λ j lt.
          ap (λ n. get_or s n 0) {y = i + suc j + 1} (omega arith) ∙ h (suc j) (omega (arith, lt)))
        (λ j lt.
          ap (λ n. get_or s n 0) {y = sep + (i + suc j) + 1} (omega arith)
          ∙ k (suc j) (omega (arith, lt))) in
    rw (mode, prefix, rest) refl

-- A list of memberships, none with a closing parenthesis as its mode, is what its own value of PREFIX
-- is read as.
pub parse-prefix_value :
    (ms : List Membership)
    → All (λ (m : Membership). m.mode ≢ b')') ms
    → parse_memberships (prefix_value ms) ≡ some ms
unfolding parse_memberships index_byte
parse-prefix_value ms h =
    let modes = modes_of_all ms in
    let prefixes = prefixes_of_all ms in
    let ends = b')' ∷ prefixes in
    let l = length-map (λ (m : Membership). m.mode) ms in
    let l' = length-map (λ (m : Membership). m.prefix) ms in
    let total : length (prefix_value ms) ≡ (length ms + 1) * 2 =
      omega (arith, length-append modes ends, l, l') in
    let read =
      read_from ms (prefix_value ms) (suc (length ms)) 0
        (λ j lt.
          ap (λ n. get_or (prefix_value ms) n 0) {y = suc j} (omega arith)
          ∙ get_or-append_left modes ends j 0 (omega (arith, l, lt)))
        (λ j lt.
          ap (λ n. get_or (prefix_value ms) n 0) {y = suc (length modes + suc j)} (omega (arith, l))
          ∙ get_or-append_right modes ends (suc j) 0) in
    let fits : nat_eq (length (prefix_value ms)) (suc (length ms) * 2) ≡ true =
      (nat_eq_iff (length (prefix_value ms)) (suc (length ms) * 2)).1 (omega (arith, total)) in
    let half : length (prefix_value ms) / 2 - 1 ≡ length ms = omega (arith, total) in
    rw (index-modes ms prefixes h, fits, half, read) refl
