-- ===== src/Upstream/Detach/RoundTrip.antt =====
-- user.go, a channel that is detached and attached again.
use soju_bouncer.Prelude.{
  if◌then◌else◌, str_Eq, nat_Eq, ℕ, ◌≡◌, refl, inl, inr, Bool, false, Option, none, some,
  Bool-cases, Str, ◌∙◌, ap, sym, eq_refl, nat_eq, List, [], ◌∷◌, ◌++◌, map, codes, true, ◌==◌,
}
use mathlib.Core.List.{append-nil}
use soju_bouncer.Irc.{message}
use soju_bouncer.Xirc.CaseMappingMap
use soju_bouncer.Xirc.CaseMappingMap.Laws.{get-set}
use soju_bouncer.Database.Channels.{ChannelSettings}
use soju_bouncer.Upstream.State.{
  UpstreamConn, UpstreamChannel, Network, Client, Output, replied, timer_stopped, get_channel,
}
use soju_bouncer.Upstream.Produce.{
  update_auto_detach, update_channel_auto_detach, detach_later, detach_channel_later,
}
use soju_bouncer.Upstream.Text.{attach, set_saved}
use soju_bouncer.Upstream.Detach.{detach, detached_settings, stop_channel_timer, part_clients}

auto_detach-saved :
    (uc : UpstreamConn) (name : Str) (ch : UpstreamChannel) (dur : ℕ)
    → (update_auto_detach uc name ch dur).saved ≡ uc.saved
auto_detach-saved uc name ch dur = elim (Bool-cases (nat_eq dur 0)) [
  | inl off ↦ elim (Bool-cases ch.detach_timer) [
    | inl t ↦ rw (off, t) refl
    | inr t ↦ rw (off, t) refl
  ]
  | inr on ↦ elim (Bool-cases ch.detach_timer) [ inl t ↦ rw (on, t) refl | inr t ↦ rw (on, t) refl ]
]

stop-saved :
    (uc : UpstreamConn) (name : Str) (o : Option UpstreamChannel)
    → (stop_channel_timer uc name o).saved ≡ uc.saved
stop-saved uc name none = refl
stop-saved uc name (some ch) = auto_detach-saved uc name ch 0

later-saved :
    (uc : UpstreamConn) (name : Str) (o : Option UpstreamChannel) (s : Option ChannelSettings)
    → (detach_channel_later uc name o).saved ≡ uc.saved
later-saved uc name none s = refl
later-saved uc name (some ch) s = of_settings (CaseMappingMap.get none uc.saved name)
  where
    of_settings : (s : Option ChannelSettings) → (detach_later uc name ch s).saved ≡ uc.saved
    of_settings none = refl
    of_settings (some c) = elim (Bool-cases c.detached) [
      | inl d ↦ rw d refl
      | inr d ↦ rw d (auto_detach-saved uc name ch c.detach_after)
    ]

get_self :
    (z v : Option ChannelSettings) (uc : UpstreamConn) (name : Str)
    → CaseMappingMap.get z (CaseMappingMap.set uc.saved name v) name ≡ v
get_self z v uc name = get-set z v uc.saved name name ∙ rw (eq_refl (uc.saved.casemap name)) refl

abbrev pub has_timer : Option UpstreamChannel → Bool
has_timer none = false
has_timer (some uch) = uch.detach_timer

stopped :
    (uc : UpstreamConn) (name : Str) (o : Option UpstreamChannel)
    → get_channel uc name ≡ o
    → has_timer (get_channel (stop_channel_timer uc name o) name) ≡ false
unfolding get_channel
stopped uc name none e = ap has_timer e
stopped uc name (some ch) e =
    let off = record ch { detach_timer = false } in
    let at : CaseMappingMap.get none (CaseMappingMap.set uc.channels name (some off)) name
        ≡ some off =
      get-set none (some off) uc.channels name name
      ∙ ap (λ (b : Bool). if b then some off else CaseMappingMap.get none uc.channels name)
          (eq_refl (uc.channels.casemap name)) in
    elim (Bool-cases ch.detach_timer) [
      | inl t ↦ rw t (ap has_timer at)
      | inr t ↦ rw t (ap has_timer at)
    ]

-- A channel's settings that are detached: with the id of the last message that the store has of it,
-- or none if the store cannot tell; without a store the id stays; and nothing else is changed.
pub record IsDetached (net : Network) (uc : UpstreamConn) (ch ch1 : ChannelSettings) : Type 0 where
  pub rest :
      ch1 ≡ record ch { detached = true; detached_internal_msg_id = ch1.detached_internal_msg_id }
  pub latest :
      (id : Str)
      → net.has_msg_store ≡ true
      → net.last_msg_id (uc.casemap ch.name) ≡ some id
      → ch1.detached_internal_msg_id ≡ id
  pub unknown :
      net.has_msg_store ≡ true
      → net.last_msg_id (uc.casemap ch.name) ≡ none
      → ch1.detached_internal_msg_id ≡ []
  pub without_store :
      net.has_msg_store ≡ false → ch1.detached_internal_msg_id ≡ ch.detached_internal_msg_id

detached_settings-IsDetached :
    (net : Network) (uc : UpstreamConn) (ch : ChannelSettings)
    → IsDetached net uc ch (detached_settings net uc ch)
detached_settings-IsDetached net uc ch = record {
  rest = refl;
  latest = λ id stores last. rw (stores, last) refl;
  unknown = λ stores last. rw (stores, last) refl;
  without_store = λ none_kept. rw none_kept refl;
}

-- What a client is told of a channel that it leaves.
abbrev pub parted : Str → Client → Output
parted name dc = replied dc.id dc.prefix (message (codes "PART") (name ∷ codes "Detach" ∷ []))

part_clients-parted : (name : Str) (l : List Client) → part_clients name l ≡ map (parted name) l
unfolding part_clients
part_clients-parted name [] = refl
part_clients-parted name (dc ∷ l) = ap (◌∷◌ (parted name dc)) (part_clients-parted name l)

abbrev pub timers_stopped : Option UpstreamChannel → List Output
timers_stopped none = []
timers_stopped (some uch) = if uch.detach_timer then timer_stopped uch.name ∷ [] else []

stop-out :
    (uc : UpstreamConn) (name : Str) (o : Option UpstreamChannel)
    → (stop_channel_timer uc name o).out ≡ uc.out ++ timers_stopped o
stop-out uc name none = sym (append-nil uc.out)
stop-out uc name (some uch) = elim (Bool-cases uch.detach_timer) [
  | inl runs ↦ rw runs refl
  | inr idle ↦ rw idle (sym (append-nil uc.out))
]

-- After a channel that is attached is detached, its saved settings say so and hold the last message
-- at that time, the settings of the other channels stay, the timer of the channel is stopped if it
-- runs, and then every client is told that it has left; attached again, it is saved as it was before,
-- without a message.
pub attach-detach :
    (net : Network) (uc : UpstreamConn) (ch : ChannelSettings)
    → ch.detached ≡ false
    → let uc1 = detach net uc ch in
      (ch1 : ChannelSettings) × IsDetached net uc ch ch1
      × ((name : Str)
          → CaseMappingMap.get none uc1.saved name ≡ (
              if uc.saved.casemap ch.name == uc.saved.casemap name
              then some ch1
              else CaseMappingMap.get none uc.saved name))
      × (has_timer (get_channel uc1 ch.name) ≡ false)
      × (uc1.out
          ≡ (uc.out ++ timers_stopped (get_channel uc ch.name)) ++ map (parted ch.name) net.clients)
      × (CaseMappingMap.get none (attach net uc1 ch1).saved ch.name
          ≡ some (record ch { detached_internal_msg_id = [] }))
unfolding detach attach update_channel_auto_detach get_channel
attach-detach net uc ch attached =
    let uc1 = detach net uc ch in
    let ch1 = detached_settings net uc ch in
    let set1 = set_saved uc ch.name ch1 in
    let set2 =
      set_saved uc1 ch.name (record ch1 { detached = false; detached_internal_msg_id = [] }) in
    (
      ch1,
      detached_settings-IsDetached net uc ch,
      (λ name. rw attached (
          ap (λ m. CaseMappingMap.get none m name)
            (stop-saved set1 ch.name (get_channel set1 ch.name))
          ∙ get-set none (some ch1) uc.saved ch.name name)),
      rw attached (stopped set1 ch.name (get_channel set1 ch.name) refl),
      rw attached (
          ap (λ o. o ++ part_clients ch.name net.clients)
            (stop-out set1 ch.name (get_channel uc ch.name))
          ∙ ap (λ o. (uc.out ++ timers_stopped (get_channel uc ch.name)) ++ o)
              (part_clients-parted ch.name net.clients)),
      ap (λ m. CaseMappingMap.get none m ch.name)
            (later-saved set2 ch.name (get_channel set2 ch.name) none)
          ∙ get_self none _ uc1 ch.name
          ∙ ap (λ (d : Bool). some (record ch { detached = d; detached_internal_msg_id = [] }))
              (sym attached),
    )
