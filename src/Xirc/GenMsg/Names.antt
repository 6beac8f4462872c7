-- ===== src/Xirc/GenMsg/Names.antt =====
-- `GenerateNamesReply` of xirc/genmsg.go: the names are cut into lines that fit.
use mathlib.Core.List.{append_assoc}
use soju_bouncer.Xirc.GenMsg.{max_message_length, generate_names_reply, names_message, names_from}
use soju_bouncer.Irc.{Message, message, rpl_endofnames}
use soju_bouncer.Prelude.Text.{join}
use soju_bouncer.Prelude.Text.Joins.{IsFilled, join-snoc, length-write_sep, join-is_empty}
use soju_bouncer.Prelude.{
  ℕ, ◌+◌, ◌-◌, ◌≤◌, ◌≡◌, refl, ap, inl, inr, false, ◌&&◌, not, List, [], ◌∷◌, ◌++◌, arith, ltb,
  Bool-cases, nat_Eq, Str, str_Eq, pair_Eq, codes, length, is_empty, All, All-append, flatten,
}

abbrev end_of_names : Str → Message
end_of_names channel =
    message rpl_endofnames (codes "*" ∷ channel ∷ codes "End of /NAMES list" ∷ [])

-- The lines of a reply for members that are cut into groups.
abbrev pub names_lines : Str → ℕ → List (List Str) → List Message
names_lines channel status [] = end_of_names channel ∷ []
names_lines channel status (g ∷ groups) =
    names_message channel status (join b' ' g) ∷ names_lines channel status groups

-- Groups that hold all members in order, each within the limit.
pub record AreLines (max : ℕ) (members : List Str) (groups : List (List Str)) : Type 0 where
  pub all : flatten groups ≡ members
  pub filled : All (λ g. is_empty g ≡ false) groups
  pub fit : All (λ g. length (join b' ' g) ≤ max) groups

AreLines-cons :
    (max : ℕ) (g rest : List Str) (groups : List (List Str))
    → is_empty g ≡ false
    → length (join b' ' g) ≤ max
    → AreLines max rest groups
    → AreLines max (g ++ rest) (g ∷ groups)
AreLines-cons max g rest groups f b a = record {
  all = ap (◌++◌ g) a.all;
  filled = (f, a.filled);
  fit = (b, a.fit);
}

All-snoc_filled :
    (g : List Str) (s : Str) → All IsFilled g → IsFilled s → All IsFilled (g ++ s ∷ [])
All-snoc_filled g s f h = All-append IsFilled g (s ∷ []) f (h, tt)

single_fits : {max : ℕ} (s : Str) → length s ≤ max → length (join b' ' (s ∷ [])) ≤ max
unfolding join
single_fits s b = b

fits :
    (max : ℕ) (g : List Str) (s : Str)
    → All IsFilled g
    → length s ≤ max
    → (not (is_empty (join b' ' g)) && ltb max (length (join b' ' g) + 1 + length s)) ≡ false
    → length (join b' ' (g ++ s ∷ [])) ≤ max
fits max g s f b h =
    rw (join-snoc b' ' g s f) (ground (arith, length-write_sep b' ' (join b' ' g) s))

module _ (max : ℕ) (channel : Str) (status : ℕ) where
  abbrev pub Lines : List Str → List Message → Type 0
  Lines members msgs =
      (groups : List (List Str)) × (msgs ≡ names_lines channel status groups)
      × AreLines max members groups

  Lines-cons :
      (g rest : List Str) {msgs : List Message}
      → is_empty g ≡ false
      → length (join b' ' g) ≤ max
      → Lines rest msgs
      → Lines (g ++ rest) (names_message channel status (join b' ' g) ∷ msgs)
  Lines-cons g rest f b (groups, e, a) = (
    g ∷ groups,
    ap (◌∷◌ (names_message channel status (join b' ' g))) e,
    AreLines-cons max g rest groups f b a,
  )

  of_single :
      (s : Str) (members : List Str)
      → Lines (s ∷ members) (names_from max channel status members (join b' ' (s ∷ [])))
      → Lines (s ∷ members) (names_from max channel status members s)
  unfolding join
  of_single s members h = h

  names_from_lem :
      (members g : List Str)
      → All IsFilled g
      → All IsFilled members
      → length (join b' ' g) ≤ max
      → All (λ s. length s ≤ max) members
      → Lines (g ++ members) (names_from max channel status members (join b' ' g))
  unfolding names_from
  names_from_lem [] [] f fs b bs =
      unfold join in ([], refl, record { all = refl; filled = tt; fit = tt })
  names_from_lem [] (x ∷ g) f fs b bs =
      rw (join-is_empty b' ' (x ∷ g) f)
        (Lines-cons (x ∷ g) [] refl b (([], refl, record { all = refl; filled = tt; fit = tt })))
  names_from_lem (s ∷ members) g f fs b bs =
      elim (Bool-cases
        (not (is_empty (join b' ' g)) && ltb max (length (join b' ' g) + 1 + length s))) [
          | inl full ↦ rw full (
              Lines-cons g (s ∷ members) (ground (arith, join-is_empty b' ' g f)) b (
                of_single s members
                  (names_from_lem members (s ∷ []) (fs.0, tt) fs.1 (single_fits s bs.0) bs.1)))
          | inr room ↦
              rw (room, ← join-snoc b' ' g s f, ← append_assoc g (s ∷ []) members)
                (names_from_lem members (g ++ s ∷ []) (All-snoc_filled g s f fs.0) fs.1
                  (fits max g s f bs.0 room) bs.1)
        ]

-- The names of a reply stand in its lines in their order, none of them dropped, repeated or cut,
-- separated by spaces; each line holds a name, and leaves the whole message within the limit of 512
-- bytes; the reply ends with RPL_ENDOFNAMES. The members are not empty, and each fits in a line of
-- its own.
pub generate_names_reply_lem :
    (render : Message → Str) (channel : Str) (status : ℕ) (members : List Str)
    → let max = max_message_length - length (render (names_message channel status [])) in
      All IsFilled members
      → All (λ s. length s ≤ max) members
      → Lines max channel status members (generate_names_reply render channel status members)
unfolding generate_names_reply
generate_names_reply_lem render channel status members f b =
    unfold join in names_from_lem _ channel status members [] tt f (omega arith) b
