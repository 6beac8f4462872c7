-- ===== src/Tests/Names.antt =====
-- Case mappings, maps under them, ranks and WHOX of xirc, at small inputs.
use soju_bouncer.Prelude.{
  ℕ, ◌≡◌, refl, ◌&&◌, some, [], ◌∷◌, arith, if◌then◌else◌, nat_Eq, str_Eq, pair_Eq, codes, contains,
  lookup,
}
use soju_bouncer.Xirc.CaseMapping.{casemap_ascii, casemap_rfc1459}
use soju_bouncer.Xirc.CaseMappingMap.{CaseMappingMap}
use soju_bouncer.Xirc.CaseMappingMap.Laws.{Apart, IsValid}
use soju_bouncer.Xirc.Membership.{Membership, membership_Eq}
use soju_bouncer.Xirc.Whox.{
  whox_fields, no_info, get, generate_whox_reply, parse_whox_reply, WhoxInfo,
}
use soju_bouncer.Xirc.Whox.RoundTrip.{parse-generate_whox}

-- Two channels, the first set under another spelling of its name.
abbrev two_channels : CaseMappingMap ℕ
two_channels = record {
  m =
      (codes "#a", record { original_key = codes "#A"; value = 1 })
      ∷ (codes "#b", record { original_key = codes "#b"; value = 2 })
      ∷ [];
  casemap = casemap_ascii;
}

two_channels-IsValid : IsValid two_channels
two_channels-IsValid = record {
  distinct = unfold lookup in (refl, (refl, tt));
  keyed = unfold casemap_ascii in (refl, (refl, tt));
}

different : Apart casemap_rfc1459 two_channels.m
different = unfold casemap_rfc1459 in (((λ e. ground (arith, e)), tt), (tt, tt))

abbrev op : Membership
op = record { mode = b'o'; prefix = b'@' }

abbrev voice : Membership
voice = record { mode = b'v'; prefix = b'+' }

abbrev ada : WhoxInfo
ada = record no_info { nickname = codes "ada"; hostname = codes "::1" }

parse-generate_whox_example :
    (parsed : WhoxInfo) × (parse_whox_reply (generate_whox_reply (codes "hn") ada) (codes "hn")
      ≡ some parsed)
    × ((k : ℕ)
        → get parsed k ≡ (
            if contains k whox_fields && contains k (codes "hn") then get ada k else get no_info k))
parse-generate_whox_example = parse-generate_whox (codes "hn") ada refl
