-- ===== src/Modes/Channel.antt =====
-- irc.go, channel modes: the modes of a channel and the ranks of its members.
pub mod Members
pub mod RoundTrip
use soju_bouncer.Prelude.{
  ℕ, ◌+◌, ◌/◌, ◌%◌, ltb, Bool, true, false, ◌||◌, Option, none, some, List, [], ◌∷◌, ◌++◌, map,
  nat_eq, if◌then◌else◌, nat_Eq, Str, str_Eq, pair_Eq, get_elem?, get_or, is_empty, lookup, insert,
  delete,
}
use soju_bouncer.Xirc.CaseMappingMap
use soju_bouncer.Xirc.CaseMappingMap.{CaseMappingMap}
use soju_bouncer.Xirc.Membership
use soju_bouncer.Xirc.Membership.{Membership, MembershipSet}

pub data ModeType : Type 0 where
  type_a type_b type_c type_d : ModeType

abbrev pub std_channel_modes : List (ℕ × ModeType)
std_channel_modes =
    (b'b', type_a)
    ∷ (b'e', type_a)
    ∷ (b'I', type_a)
    ∷ (b'k', type_b)
    ∷ (b'l', type_c)
    ∷ (b'i', type_d)
    ∷ (b'm', type_d)
    ∷ (b'n', type_d)
    ∷ (b's', type_d)
    ∷ (b't', type_d)
    ∷ []

-- What the connection knows of the server's modes.
pub record Available : Type 0 where
  pub memberships : List Membership
  pub channel_modes : List (ℕ × ModeType)

-- The modes of a channel, `none` for the nil map, and its members; a member that is not in the map
-- reads as the nil pointer, `none`.
pub record Channel : Type 0 where
  pub modes : Option (List (ℕ × Str))
  pub members : CaseMappingMap (Option MembershipSet)

pub data ModeError : Type 0 where
  missing_plus_minus missing_argument : ModeError

abbrev pub find_membership : List Membership → ℕ → Option Membership
find_membership [] mode = none
find_membership (m ∷ ms) mode = if nat_eq m.mode mode then some m else find_membership ms mode

-- `m.Add` and `m.Remove` through the pointer that the map holds.
abbrev pub change_member :
    Available → Bool → Membership → Str → Option MembershipSet → Channel → Channel
change_member av plus membership member none ch = ch
change_member av plus membership member (some m) ch = record ch {
  members = CaseMappingMap.set ch.members member (
      some (
        if plus
        then Membership.add av.memberships m membership
        else Membership.remove m membership));
}

abbrev pub set_mode : Option (List (ℕ × Str)) → ℕ → Str → Option (List (ℕ × Str))
set_mode none mode argument = none
set_mode (some m) mode argument = some (insert mode argument m)

abbrev pub unset_mode : Option (List (ℕ × Str)) → ℕ → Option (List (ℕ × Str))
unset_mode none mode = none
unset_mode (some m) mode = some (delete mode m)

-- A mode of the channel itself, with the number of arguments that it uses up.
abbrev pub change_mode : ModeType → Bool → ℕ → List Str → ℕ → Channel → Channel × ℕ
change_mode type_a plus mode arguments next ch = (ch, next + 1)
change_mode type_b plus mode arguments next ch =
    if plus
    then (record ch { modes = set_mode ch.modes mode (get_or arguments next []) }, next + 1)
    else (record ch { modes = unset_mode ch.modes mode }, next + 1)
change_mode type_c plus mode arguments next ch =
    if plus
    then (record ch { modes = set_mode ch.modes mode (get_or arguments next []) }, next + 1)
    else (record ch { modes = unset_mode ch.modes mode }, next)
change_mode type_d plus mode arguments next ch =
    if plus
    then (record ch { modes = set_mode ch.modes mode [] }, next)
    else (record ch { modes = unset_mode ch.modes mode }, next)

abbrev pub change_known : Option ModeType → Bool → ℕ → List Str → ℕ → Channel → Channel × ℕ
change_known none plus mode arguments next ch = (ch, next)
change_known (some mt) plus mode arguments next ch = change_mode mt plus mode arguments next ch

abbrev pub give_rank :
    Available → Bool → Membership → Option Str → ℕ → Channel → Option (Channel × ℕ)
give_rank av plus membership none next ch = none
give_rank av plus membership (some member) next ch = some (
  change_member av plus membership member (CaseMappingMap.get none ch.members member) ch,
  next + 1,
)

-- One letter under a sign; `none` where the argument of a membership is missing.
abbrev pub apply_letter :
    Available → Option Membership → Bool → ℕ → List Str → ℕ → Channel → Option (Channel × ℕ)
apply_letter av (some membership) plus mode arguments next ch =
    give_rank av plus membership (get_elem? arguments next) next ch
apply_letter av none plus mode arguments next ch =
    some (change_known (lookup mode av.channel_modes) plus mode arguments next ch)

abbrev pub is_sign : ℕ → Bool
is_sign c = nat_eq c b'+' || nat_eq c b'-'

-- The loop of `applyChannelModes`. The channel is changed in place, so that it is a result on an
-- error too.
unfoldable pub apply_from :
    Available → List Str → ℕ → ℕ → Channel → Str → Channel × Option ModeError
apply_from av arguments plus_minus next ch [] = (ch, none)
apply_from av arguments plus_minus next ch (mode ∷ s) = elim (is_sign mode) [
  | true ↦ apply_from av arguments mode next ch s
  | false ↦ elim (is_sign plus_minus) [
    | false ↦ (ch, some missing_plus_minus)
    | true ↦
        elim (apply_letter av (find_membership av.memberships mode) (nat_eq plus_minus b'+') mode
          arguments next ch) [
            | none ↦ (ch, some missing_argument)
            | some (ch', next') ↦ apply_from av arguments plus_minus next' ch' s
          ]
  ]
]

unfoldable pub apply_channel_modes :
    Available → Channel → Str → List Str → Channel × Option ModeError
unfolding apply_from
apply_channel_modes av ch mode_str arguments = apply_from av arguments 0 0 ch mode_str

-- The letters and the values of the modes that have a value.
abbrev pub with_values : List (ℕ × Str) → List (ℕ × Str)
with_values [] = []
with_values ((mode, value) ∷ cm) =
    if is_empty value then with_values cm else (mode, value) ∷ with_values cm

abbrev pub without_values : List (ℕ × Str) → List (ℕ × Str)
without_values [] = []
without_values ((mode, value) ∷ cm) =
    if is_empty value then (mode, value) ∷ without_values cm else without_values cm

-- `string(mode)`: the mode as a rune, in UTF-8.
abbrev pub mode_string : ℕ → Str
mode_string mode = if ltb mode 0x80 then mode ∷ [] else (0xc0 + mode / 64) ∷ (0x80 + mode % 64) ∷ []

abbrev pub mode_strings : List (ℕ × Str) → Str
mode_strings [] = []
mode_strings ((mode, value) ∷ cm) = mode_string mode ++ mode_strings cm

-- `Format` of channelModes: the letters with values stand first.
unfoldable pub format : List (ℕ × Str) → Str × List Str
format cm = (
  b'+' ∷ (mode_strings (with_values cm) ++ mode_strings (without_values cm)),
  map (λ (e : ℕ × Str). e.1) (with_values cm),
)
