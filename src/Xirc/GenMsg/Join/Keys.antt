-- ===== src/Xirc/GenMsg/Join/Keys.antt =====
-- Batches of `GenerateJoin` of xirc/genmsg.go: their channels, and the keys among them.
use soju_bouncer.Prelude.{
  ◌≡◌, refl, ap, true, false, List, [], ◌∷◌, ◌++◌, arith, nat_Eq, Str, str_Eq, pair_Eq, is_empty,
  All, flatten,
}
use soju_bouncer.Prelude.Sort.{IsSorted, str_less_asym}
use soju_bouncer.Xirc.GenMsg.{join_less}
use soju_bouncer.Prelude.Text.Joins.{IsFilled}

abbrev pub channels_of : List (Str × Str) → List Str
channels_of [] = []
channels_of ((c, k) ∷ b) = c ∷ channels_of b

abbrev pub keys_with : Str → List Str → List Str
keys_with [] ks = ks
keys_with (x ∷ k) ks = (x ∷ k) ∷ ks

-- The keys that are not empty.
abbrev pub keys_of : List (Str × Str) → List Str
keys_of [] = []
keys_of ((c, k) ∷ b) = keys_with k (keys_of b)

-- How a server reads a JOIN: the n-th key is that of the n-th channel.
abbrev pub read_join : List Str → List Str → List (Str × Str)
read_join [] ks = []
read_join (c ∷ cs) [] = (c, []) ∷ read_join cs []
read_join (c ∷ cs) (k ∷ ks) = (c, k) ∷ read_join cs ks

-- No channel with a key stands behind one without.
abbrev pub KeyedFirst : List (Str × Str) → Type 0
KeyedFirst [] = Unit
KeyedFirst ((c, []) ∷ b) = All (λ (p : Str × Str). is_empty p.1 ≡ true) b
KeyedFirst ((c, x ∷ k) ∷ b) = KeyedFirst b

pub channels_of-snoc :
    (b : List (Str × Str)) (c k : Str) → channels_of (b ++ (c, k) ∷ []) ≡ channels_of b ++ c ∷ []
channels_of-snoc [] c k = refl
channels_of-snoc ((c', k') ∷ b) c k = ap (◌∷◌ c') (channels_of-snoc b c k)

pub keys_of-snoc :
    (b : List (Str × Str)) (c k : Str) → keys_of (b ++ (c, k) ∷ []) ≡ keys_of b ++ keys_with k []
keys_of-snoc [] c [] = refl
keys_of-snoc [] c (x ∷ k) = refl
keys_of-snoc ((c', []) ∷ b) c k = keys_of-snoc b c k
keys_of-snoc ((c', x ∷ k') ∷ b) c k = ap (◌∷◌ (x ∷ k')) (keys_of-snoc b c k)

pub keys_of_filled : (b : List (Str × Str)) → All IsFilled (keys_of b)
keys_of_filled [] = tt
keys_of_filled ((c, []) ∷ b) = keys_of_filled b
keys_of_filled ((c, x ∷ k) ∷ b) = (refl, keys_of_filled b)

abbrev NoKeys : List (Str × Str) → Type 0
NoKeys = All (λ p. is_empty p.1 ≡ true)

keys_of-NoKeys : (b : List (Str × Str)) → NoKeys b → keys_of b ≡ []
keys_of-NoKeys [] h = refl
keys_of-NoKeys ((c, []) ∷ b) h = keys_of-NoKeys b h.1
keys_of-NoKeys ((c, x ∷ k) ∷ b) h = ground arith

read_none : (b : List (Str × Str)) → NoKeys b → read_join (channels_of b) [] ≡ b
read_none [] h = refl
read_none ((c, []) ∷ b) h = ap (◌∷◌ (c, [])) (read_none b h.1)
read_none ((c, x ∷ k) ∷ b) h = ground arith

-- Where the channels with a key come first, a server reads each key at its channel.
pub read_join_lem :
    (b : List (Str × Str)) → KeyedFirst b → read_join (channels_of b) (keys_of b) ≡ b
read_join_lem [] h = refl
read_join_lem ((c, []) ∷ b) h = rw (keys_of-NoKeys b h) (ap (◌∷◌ (c, [])) (read_none b h))
read_join_lem ((c, x ∷ k) ∷ b) h = ap (◌∷◌ (c, x ∷ k)) (read_join_lem b h)

All-split {ℓ κ} : {A : Type ℓ} (P : A → Type κ) (a b : List A) → All P (a ++ b) → All P a × All P b
All-split P [] b h = (tt, h)
All-split P (x ∷ a) b h = let (l, r) = All-split P a b h.1 in ((h.0, l), r)

NoKeys-KeyedFirst : (b : List (Str × Str)) → NoKeys b → KeyedFirst b
NoKeys-KeyedFirst [] h = tt
NoKeys-KeyedFirst ((c, []) ∷ b) h = h.1
NoKeys-KeyedFirst ((c, x ∷ k) ∷ b) h = ground arith

KeyedFirst-split : (a b : List (Str × Str)) → KeyedFirst (a ++ b) → KeyedFirst a × KeyedFirst b
KeyedFirst-split [] b h = (tt, h)
KeyedFirst-split ((c, []) ∷ a) b h =
    let (l, r) = All-split (λ (p : Str × Str). is_empty p.1 ≡ true) a b h in
    (l, NoKeys-KeyedFirst b r)
KeyedFirst-split ((c, x ∷ k) ∷ a) b h = KeyedFirst-split a b h

pub aligned_of :
    (batches : List (List (Str × Str)))
    → KeyedFirst (flatten batches)
    → All (λ b. read_join (channels_of b) (keys_of b) ≡ b) batches
aligned_of [] h = tt
aligned_of (b ∷ batches) h =
    let (l, r) = KeyedFirst-split b (flatten batches) h in (read_join_lem b l, aligned_of batches r)

sorted-NoKeys : (c : Str) (b : List (Str × Str)) → IsSorted join_less ((c, []) ∷ b) → NoKeys b
unfolding join_less
sorted-NoKeys c [] s = tt
sorted-NoKeys c ((c', []) ∷ b) s = (refl, sorted-NoKeys c' b s.1)
sorted-NoKeys c ((c', x ∷ k) ∷ b) s = ground arith

IsSorted-tail :
    (p : Str × Str) (b : List (Str × Str)) → IsSorted join_less (p ∷ b) → IsSorted join_less b
IsSorted-tail p [] s = tt
IsSorted-tail p (q ∷ b) s = s.1

-- The order of the sort puts the channels with a key first.
pub sorted-KeyedFirst : (b : List (Str × Str)) → IsSorted join_less b → KeyedFirst b
sorted-KeyedFirst [] s = tt
sorted-KeyedFirst ((c, []) ∷ b) s = sorted-NoKeys c b s
sorted-KeyedFirst ((c, x ∷ k) ∷ b) s = sorted-KeyedFirst b (IsSorted-tail (c, x ∷ k) b s)

pub join_less_asym : (a b : Str × Str) → join_less a b ≡ true → join_less b a ≡ false
unfolding join_less
join_less_asym (c, []) (c', []) h = str_less_asym c c' h
join_less_asym (c, []) (c', x ∷ k) h = ground arith
join_less_asym (c, x ∷ k) (c', []) h = refl
join_less_asym (c, x ∷ k) (c', x' ∷ k') h = str_less_asym c c' h
