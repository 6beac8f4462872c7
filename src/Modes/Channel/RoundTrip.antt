-- ===== src/Modes/Channel/RoundTrip.antt =====
-- channelModes of irc.go: what `Format` writes, `applyChannelModes` reads back.
use soju_bouncer.Prelude.{
  ℕ, zero, suc, ◌+◌, ◌≤◌, ◌<◌, lt→ltb, ◌≡◌, refl, ap, ◌∙◌, Bool, true, false, Option, none, some,
  List, [], ◌∷◌, ◌++◌, map, arith, if◌then◌else◌, nat_eq_iff, nat_Eq, Str, str_Eq, pair_Eq, length,
  get_or, is_empty, length-append, length-map, All, lookup, insert, lookup-insert, DistinctKeys,
}
use mathlib.Core.List.{append_assoc}
use native.Mathlib.Nat.{add-zero}
use soju_bouncer.Modes.Channel.{
  format, apply_channel_modes, change_known, find_membership, is_sign, apply_from, with_values,
  without_values, mode_strings, ModeType, Available, Channel, type_a, type_b, type_c, type_d,
}

-- Whether a mode of this type may have this value.
abbrev pub may_have : Option ModeType → Str → Bool
may_have none value = false
may_have (some type_a) value = false
may_have (some type_b) value = true
may_have (some type_c) value = true
may_have (some type_d) value = is_empty value

-- A mode of the channel that the server has announced, with a value that its type allows.
abbrev pub Fits : Available → ℕ × Str → Type 0
Fits av (mode, value) =
    (is_sign mode ≡ false)
    × (find_membership av.memberships mode ≡ none)
    × (may_have (lookup mode av.channel_modes) value ≡ true)

abbrev insert_all : List (ℕ × Str) → List (ℕ × Str) → List (ℕ × Str)
insert_all [] m = m
insert_all ((mode, value) ∷ cm) m = insert_all cm (insert mode value m)

abbrev or_else : Option Str → Option Str → Option Str
or_else none b = b
or_else (some a) b = some a

lookup-insert_all :
    (k : ℕ) (cm m : List (ℕ × Str))
    → DistinctKeys cm
    → lookup k (insert_all cm m) ≡ or_else (lookup k cm) (lookup k m)
unfolding lookup
lookup-insert_all k [] m d = refl
lookup-insert_all k ((mode, value) ∷ cm) m d = ground (
  arith,
  lookup-insert_all k cm (insert mode value m) d.1,
  lookup-insert mode k value m,
  nat_eq_iff mode k,
)

-- The value of a mode, kept if it is empty or if it is not.
abbrev keep : Bool → Option Str → Option Str
keep b none = none
keep b (some value) =
    if is_empty value then (if b then some value else none) else (if b then none else some value)

lookup-with_values :
    (k : ℕ) (cm : List (ℕ × Str))
    → DistinctKeys cm
    → lookup k (with_values cm) ≡ keep false (lookup k cm)
unfolding lookup
lookup-with_values k [] d = refl
lookup-with_values k ((mode, value) ∷ cm) d =
    ground (arith, lookup-with_values k cm d.1, nat_eq_iff mode k)

lookup-without_values :
    (k : ℕ) (cm : List (ℕ × Str))
    → DistinctKeys cm
    → lookup k (without_values cm) ≡ keep true (lookup k cm)
unfolding lookup
lookup-without_values k [] d = refl
lookup-without_values k ((mode, value) ∷ cm) d =
    ground (arith, lookup-without_values k cm d.1, nat_eq_iff mode k)

with_values-DistinctKeys : (cm : List (ℕ × Str)) → DistinctKeys cm → DistinctKeys (with_values cm)
with_values-DistinctKeys [] d = tt
with_values-DistinctKeys ((mode, value) ∷ cm) d =
    ground (arith, with_values-DistinctKeys cm d.1, lookup-with_values mode cm d.1)

without_values-DistinctKeys :
    (cm : List (ℕ × Str)) → DistinctKeys cm → DistinctKeys (without_values cm)
without_values-DistinctKeys [] d = tt
without_values-DistinctKeys ((mode, value) ∷ cm) d =
    ground (arith, without_values-DistinctKeys cm d.1, lookup-without_values mode cm d.1)

same_lookup :
    (k : ℕ) (cm : List (ℕ × Str))
    → DistinctKeys cm
    → lookup k (insert_all (without_values cm) (insert_all (with_values cm) [])) ≡ lookup k cm
unfolding lookup
same_lookup k cm d = ground (
  arith,
  lookup-insert_all k (without_values cm) (insert_all (with_values cm) [])
      (without_values-DistinctKeys cm d),
  lookup-insert_all k (with_values cm) [] (with_values-DistinctKeys cm d),
  lookup-with_values k cm d,
  lookup-without_values k cm d,
)

abbrev pub with_modes : List (ℕ × Str) → Channel → Channel
with_modes m ch = record ch { modes = some m }

get_or-beyond : (l : List Str) (i : ℕ) → length l ≤ i → get_or l i [] ≡ []
get_or-beyond [] i h = refl
get_or-beyond (x ∷ l) zero h = ground arith
get_or-beyond (x ∷ l) (suc i) h = get_or-beyond l i (omega arith)

-- How many arguments a mode uses up under a plus.
abbrev uses : Option ModeType → ℕ
uses none = 0
uses (some type_a) = 1
uses (some type_b) = 1
uses (some type_c) = 1
uses (some type_d) = 0

change_known_lem :
    (mt : Option ModeType) (arguments : List Str) (next mode : ℕ) (m : List (ℕ × Str))
    (ch : Channel) (value : Str)
    → may_have mt value ≡ true
    → get_or arguments next [] ≡ value
    → change_known mt true mode arguments next (with_modes m ch)
      ≡ (with_modes (insert mode value m) ch, next + uses mt)
change_known_lem none arguments next mode m ch value h g = ground arith
change_known_lem (some type_a) arguments next mode m ch value h g = ground arith
change_known_lem (some type_b) arguments next mode m ch value h g = rw g refl
change_known_lem (some type_c) arguments next mode m ch value h g = rw g refl
change_known_lem (some type_d) arguments next mode m ch [] h g = rw add-zero refl
change_known_lem (some type_d) arguments next mode m ch (c ∷ value) h g = ground arith

-- A letter with its value next among the arguments, under a plus.
letter_step :
    (av : Available) (arguments : List Str) (next : ℕ) (m : List (ℕ × Str)) (ch : Channel)
    (mode : ℕ) (value : Str) (s : Str)
    → Fits av (mode, value)
    → get_or arguments next [] ≡ value
    → apply_from av arguments b'+' next (with_modes m ch) (mode ∷ s)
      ≡ apply_from av arguments b'+'
          (next + uses (lookup mode av.channel_modes))
          (with_modes (insert mode value m) ch)
          s
unfolding apply_from
letter_step av arguments next m ch mode value s (plain, free, fits) g =
    rw (plain, apply_from, free)
      (ap (λ (r : Channel × ℕ). apply_from av arguments b'+' r.1 r.0 s)
        (change_known_lem (lookup mode av.channel_modes) arguments next mode m ch value fits g))

apply_from-without :
    (av : Available) (arguments : List Str) (cm m : List (ℕ × Str)) (next : ℕ) (ch : Channel)
    → All (Fits av) cm
    → length arguments ≤ next
    → apply_from av arguments b'+' next
        (with_modes m ch)
        (map (λ (e : ℕ × Str). e.0) (without_values cm))
      ≡ (with_modes (insert_all (without_values cm) m) ch, none)
apply_from-without av arguments [] m next ch f l = unfold apply_from in refl
apply_from-without av arguments ((mode, []) ∷ cm) m next ch f l =
    letter_step av arguments next m ch mode [] _ f.0 (get_or-beyond arguments next l)
    ∙ apply_from-without av arguments cm (insert mode [] m) _ ch f.1 (omega arith)
apply_from-without av arguments ((mode, c ∷ value) ∷ cm) m next ch f l =
    apply_from-without av arguments cm m next ch f.1 l

uses-valued :
    (mt : Option ModeType) (c : ℕ) (value : Str) → may_have mt (c ∷ value) ≡ true → uses mt ≡ 1
uses-valued none c value h = ground arith
uses-valued (some type_a) c value h = refl
uses-valued (some type_b) c value h = refl
uses-valued (some type_c) c value h = refl
uses-valued (some type_d) c value h = ground arith

get_or-prefix : (pre l : List Str) (v : Str) → get_or (pre ++ v ∷ l) (length pre) [] ≡ v
get_or-prefix [] l v = refl
get_or-prefix (x ∷ pre) l v = get_or-prefix pre l v

length-snoc : (pre : List Str) (v : Str) → length (pre ++ v ∷ []) ≡ length pre + 1
length-snoc pre v = length-append pre (v ∷ [])

abbrev letters : List (ℕ × Str) → Str
letters cm = map (λ (e : ℕ × Str). e.0) (with_values cm)

abbrev values : List (ℕ × Str) → List Str
values cm = map (λ (e : ℕ × Str). e.1) (with_values cm)

apply_from-with :
    (av : Available) (cm m : List (ℕ × Str)) (pre : List Str) (ch : Channel) (s : Str)
    → All (Fits av) cm
    → apply_from av
        (pre ++ map (λ (e : ℕ × Str). e.1) (with_values cm))
        b'+'
        (length pre)
        (with_modes m ch)
        (map (λ (e : ℕ × Str). e.0) (with_values cm) ++ s)
      ≡ apply_from av
          (pre ++ map (λ (e : ℕ × Str). e.1) (with_values cm))
          b'+'
          (length pre + length (with_values cm))
          (with_modes (insert_all (with_values cm) m) ch)
          s
apply_from-with av [] m pre ch s f = rw add-zero refl
apply_from-with av ((mode, []) ∷ cm) m pre ch s f = apply_from-with av cm m pre ch s f.1
apply_from-with av ((mode, c ∷ value) ∷ cm) m pre ch s f =
    (rw (uses-valued (lookup mode av.channel_modes) c value f.0.2) at (
      letter_step av (pre ++ (c ∷ value) ∷ values cm) (length pre) m ch mode (c ∷ value)
        (letters cm ++ s) f.0 (get_or-prefix pre (values cm) (c ∷ value))))
    ∙ (rw (append_assoc pre ((c ∷ value) ∷ []) (values cm), length-snoc pre (c ∷ value)) at
        (apply_from-with av cm (insert mode (c ∷ value) m) (pre ++ (c ∷ value) ∷ []) ch s f.1))
    ∙ ap
        (λ n.
          apply_from av (pre ++ (c ∷ value) ∷ values cm) b'+' n
            (with_modes (insert_all (with_values cm) (insert mode (c ∷ value) m)) ch) s)
        (omega arith)

abbrev pub IsAscii : List (ℕ × Str) → Type 0
IsAscii = All (λ (e : ℕ × Str). e.0 < 0x80)

mode_strings-IsAscii :
    (cm : List (ℕ × Str)) → IsAscii cm → mode_strings cm ≡ map (λ (e : ℕ × Str). e.0) cm
mode_strings-IsAscii [] h = refl
mode_strings-IsAscii ((mode, value) ∷ cm) h =
    rw (lt→ltb mode 0x80 h.0) (ap (◌∷◌ mode) (mode_strings-IsAscii cm h.1))

with_values-IsAscii : (cm : List (ℕ × Str)) → IsAscii cm → IsAscii (with_values cm)
with_values-IsAscii [] h = tt
with_values-IsAscii ((mode, []) ∷ cm) h = with_values-IsAscii cm h.1
with_values-IsAscii ((mode, c ∷ value) ∷ cm) h = (h.0, with_values-IsAscii cm h.1)

without_values-IsAscii : (cm : List (ℕ × Str)) → IsAscii cm → IsAscii (without_values cm)
without_values-IsAscii [] h = tt
without_values-IsAscii ((mode, []) ∷ cm) h = (h.0, without_values-IsAscii cm h.1)
without_values-IsAscii ((mode, c ∷ value) ∷ cm) h = without_values-IsAscii cm h.1

-- The modes that `Format` writes, applied to a channel with no modes yet, give that channel the
-- same modes with the same values, and leave its members alone. The modes are distinct ASCII
-- characters, each is one that the server has announced, and its value is one that its type allows.
pub apply-format :
    (av : Available) (cm : List (ℕ × Str)) (ch : Channel)
    → DistinctKeys cm
    → IsAscii cm
    → All (Fits av) cm
    → (m : List (ℕ × Str)) × (apply_channel_modes av (with_modes [] ch) (format cm).0 (format cm).1
        ≡ (with_modes m ch, none))
      × ((k : ℕ) → lookup k m ≡ lookup k cm)
unfolding apply_channel_modes format
apply-format av cm ch d a f = (
  insert_all (without_values cm) (insert_all (with_values cm) []),
  rw
      (
        mode_strings-IsAscii (with_values cm) (with_values-IsAscii cm a),
        mode_strings-IsAscii (without_values cm) (without_values-IsAscii cm a),
      )
      whole,
  λ k. same_lookup k cm d,
)
  where
    whole :
        apply_from av
          (values cm)
          0
          0
          (with_modes [] ch)
          (b'+' ∷ (letters cm ++ map (λ (e : ℕ × Str). e.0) (without_values cm)))
        ≡ (with_modes (insert_all (without_values cm) (insert_all (with_values cm) [])) ch, none)
    whole =
        unfold apply_from in
        (apply_from-with av cm [] [] ch (map (λ (e : ℕ × Str). e.0) (without_values cm)) f
          ∙ apply_from-without av (values cm) cm (insert_all (with_values cm) [])
              (0 + length (with_values cm)) ch f
              (omega (arith, length-map (λ (e : ℕ × Str). e.1) (with_values cm))))
