-- ===== src/Tests/Modes.antt =====
-- Mode strings and member prefixes of irc.go, and command lines of service.go.
use soju_bouncer.Prelude.{
  arith, ℕ, ◌≡◌, refl, none, some, List, [], ◌∷◌, map, nat_Eq, Str, str_Eq, pair_Eq, codes, lookup,
}
use soju_bouncer.Prelude.Text.{join}
use soju_bouncer.Modes.Channel.{std_channel_modes, apply_channel_modes, format, Available, Channel}
use soju_bouncer.Modes.Channel.Members.{Kept, apply_channel_modes-Kept}
use soju_bouncer.Modes.Channel.RoundTrip.{apply-format, with_modes}
use soju_bouncer.Xirc.CaseMapping.{casemap_ascii}
use soju_bouncer.Xirc.CaseMappingMap
use soju_bouncer.Xirc.Membership.{membership_Eq}
use soju_bouncer.Service.Words.{split_words, is_unicode_space, split_ok}
use soju_bouncer.Service.Words.Quoted.{quoted, split_words-quoted, split_words-lost}

abbrev server : Available
server = record {
  memberships = record { mode = b'o'; prefix = b'@' } ∷ record { mode = b'v'; prefix = b'+' } ∷ [];
  channel_modes = std_channel_modes;
}

abbrev one_member : Channel
one_member = record {
  modes = some [];
  members = CaseMappingMap.set (CaseMappingMap.new casemap_ascii) (codes "ada") (some []);
}

apply_channel_modes-Kept_example :
    Kept server.memberships one_member
      (apply_channel_modes server one_member
        (codes "+ov-v")
        (codes "ada" ∷ codes "ada" ∷ codes "ada" ∷ [])).0
apply_channel_modes-Kept_example =
    apply_channel_modes-Kept server one_member (codes "+ov-v")
      (codes "ada" ∷ codes "ada" ∷ codes "ada" ∷ []) (refl, (refl, tt))

abbrev modes : List (ℕ × Str)
modes = (b'n', []) ∷ (b'k', codes "key") ∷ []

apply-format_example :
    (m : List (ℕ × Str)) × (apply_channel_modes server
        (with_modes [] one_member)
        (format modes).0
        (format modes).1
      ≡ (with_modes m one_member, none))
    × ((k : ℕ) → lookup k m ≡ lookup k modes)
unfolding lookup
apply-format_example =
    apply-format server modes one_member (refl, (refl, tt)) (omega arith, (omega arith, tt))
      ((refl, refl, refl), ((refl, refl, refl), tt))

split_words-quoted_example :
    split_words (join b' ' (map quoted (codes "a b" ∷ [] ∷ []))) ≡ split_ok (codes "a b" ∷ [] ∷ [])
split_words-quoted_example = split_words-quoted (codes "a b" ∷ [] ∷ [])

split_words-lost_example : split_words (codes "ab\\ ") ≡ split_ok []
split_words-lost_example =
    split_words-lost (codes "ab") (unfold is_unicode_space in ((refl, refl), ((refl, refl), tt)))
