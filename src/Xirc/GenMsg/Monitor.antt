-- ===== src/Xirc/GenMsg/Monitor.antt =====
-- `GenerateMonitor` of xirc/genmsg.go: the targets are cut into messages that fit.
use soju_bouncer.Prelude.{
  ℕ, ◌+◌, ◌-◌, ◌≤◌, ◌≡◌, refl, ap, inl, inr, false, List, [], ◌∷◌, ◌++◌, map, arith, ltb,
  Bool-cases, nat_Eq, Str, str_Eq, pair_Eq, codes, length, is_empty, All, flatten,
}
use mathlib.Core.List.{append_assoc}
use soju_bouncer.Irc.{Message}
use soju_bouncer.Prelude.Text.{join}
use soju_bouncer.Prelude.Text.Joins.{total, length-join, total-snoc}
use soju_bouncer.Xirc.GenMsg.{max_message_length, monitor_message, monitor_from, generate_monitor}

-- Groups that hold all targets in order, none empty, each with its commas within the limit.
pub record AreGroups (max : ℕ) (targets : List Str) (groups : List (List Str)) : Type 0 where
  pub all : flatten groups ≡ targets
  pub filled : All (λ g. is_empty g ≡ false) groups
  pub fit : All (λ g. length (join b',' g) + 1 ≤ max) groups

length-join_le :
    (max : ℕ) (g : List Str) → is_empty g ≡ false → total g ≤ max → length (join b',' g) + 1 ≤ max
length-join_le max [] f b = ground arith
length-join_le max (x ∷ g) f b = omega (arith, length-join b',' x g)

module _ (max : ℕ) (subcmd : Str) where
  abbrev pub Groups : List Str → List Message → Type 0
  Groups targets msgs =
      (groups : List (List Str)) × (msgs ≡ map (monitor_message subcmd) groups)
      × AreGroups max targets groups

  Groups-cons :
      (g rest : List Str) {msgs : List Message}
      → is_empty g ≡ false
      → total g ≤ max
      → Groups rest msgs
      → Groups (g ++ rest) (monitor_message subcmd g ∷ msgs)
  Groups-cons g rest f b (groups, e, a) = (
    g ∷ groups,
    ap (◌∷◌ (monitor_message subcmd g)) e,
    record {
      all = ap (◌++◌ g) a.all;
      filled = (f, a.filled);
      fit = (length-join_le max g f b, a.fit);
    },
  )

  Groups-nil : Groups [] []
  Groups-nil = ([], refl, record { all = refl; filled = tt; fit = tt })

  snoc_filled : (g : List Str) (s : Str) → is_empty (g ++ s ∷ []) ≡ false
  snoc_filled [] s = refl
  snoc_filled (x ∷ g) s = refl

  monitor_from_lem :
      (targets g : List Str) (n : ℕ)
      → n ≡ total g
      → is_empty g ≡ false
      → total g ≤ max
      → All (λ s. length s + 1 ≤ max) targets
      → Groups (g ++ targets) (monitor_from max subcmd targets g n)
  unfolding monitor_from
  monitor_from_lem [] g n e f b bs = rw f (Groups-cons g [] f b Groups-nil)
  monitor_from_lem (s ∷ targets) g n e f b bs = elim (Bool-cases (ltb max (n + length s + 1))) [
    | inl full ↦ rw full (
        Groups-cons g (s ∷ targets) f b
          (monitor_from_lem targets (s ∷ []) _ (omega arith) refl (omega arith) bs.1))
    | inr room ↦
        rw (room, ← append_assoc g (s ∷ []) targets)
          (monitor_from_lem targets (g ++ s ∷ []) (n + (length s + 1))
            (omega (arith, total-snoc g s)) (snoc_filled g s) (ground (arith, total-snoc g s)) bs.1)
  ]

  monitor_from_first :
      (targets : List Str) (s : Str)
      → length s + 1 ≤ max
      → Groups (s ∷ targets) (monitor_from max subcmd targets (s ∷ []) (0 + (length s + 1)))
      → Groups (s ∷ targets) (monitor_from max subcmd (s ∷ targets) [] 0)
  unfolding monitor_from
  monitor_from_first targets s b h =
      let room : ltb max (0 + length s + 1) ≡ false = ground arith in rw room h

-- `GenerateMonitor` puts every target in one message, in their order, none of them dropped,
-- repeated or cut; each message holds a target, and with its command stays within 512 bytes. Each
-- target fits in a message of its own.
pub generate_monitor_lem :
    (subcmd : Str) (targets : List Str)
    → let max = max_message_length - length (codes "MONITOR " ++ (subcmd ++ codes " ")) in
      All (λ s. length s + 1 ≤ max) targets
      → Groups max subcmd targets (generate_monitor subcmd targets)
unfolding generate_monitor
generate_monitor_lem subcmd [] b = unfold monitor_from in Groups-nil _ subcmd
generate_monitor_lem subcmd (s ∷ targets) b =
    monitor_from_first _ subcmd targets s b.0
      (monitor_from_lem _ subcmd targets (s ∷ []) _ (omega arith) refl (omega arith) b.1)
