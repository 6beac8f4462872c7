-- ===== src/Xirc/GenMsg/Join.antt =====
-- `GenerateJoin` of xirc/genmsg.go: channels and keys are cut into messages that fit.
pub mod Keys
use soju_bouncer.Prelude.{
  ℕ, ◌+◌, ◌*◌, ◌≤◌, ◌≡◌, refl, sym, ap, ◌∙◌, inl, inr, true, false, ◌&&◌, not, List, [], ◌∷◌, ◌++◌,
  map, arith, ltb, Bool-cases, nat_Eq, Str, str_Eq, pair_Eq, length, is_empty, All, All-append,
  flatten,
}
use mathlib.Core.List.{append_assoc, append-nil, Perm}
use soju_bouncer.Irc.{Message}
use soju_bouncer.Prelude.Sort.{sort, sort-perm, sort-IsSorted, sort-All}
use soju_bouncer.Prelude.Text.{join}
use soju_bouncer.Prelude.Text.Joins.{write_sep, IsFilled, join-snoc, length-write_sep}
use soju_bouncer.Xirc.GenMsg.{
  join_less, join_message, key_room, write_key, join_from, generate_join,
}
use soju_bouncer.Xirc.GenMsg.Join.Keys.{
  channels_of, keys_of, read_join, channels_of-snoc, keys_of-snoc, keys_of_filled, aligned_of,
  sorted-KeyedFirst, join_less_asym,
}

abbrev pub channel_text : List (Str × Str) → Str
channel_text b = join b',' (channels_of b)

abbrev pub key_text : List (Str × Str) → Str
key_text b = join b',' (keys_of b)

abbrev pub batch_message : List (Str × Str) → Message
batch_message b = join_message (channel_text b) (key_text b)

-- Batches that hold all pairs in order, none empty, each within the limit, and whose keys are read
-- back at their channels.
pub record AreBatches (max : ℕ) (pairs : List (Str × Str)) (batches : List (List (Str × Str)))
    : Type 0 where
  pub all : flatten batches ≡ pairs
  pub filled : All (λ b. is_empty b ≡ false) batches
  pub fit : All (λ b. length (channel_text b) + length (key_text b) ≤ max) batches

abbrev PairFits : ℕ → Str × Str → Type 0
PairFits max p = IsFilled p.0 × (length p.0 + length p.1 ≤ max)

module _ (max : ℕ) where
  abbrev Batches : List (Str × Str) → List Message → Type 0
  Batches pairs msgs =
      (batches : List (List (Str × Str))) × (msgs ≡ map batch_message batches)
      × AreBatches max pairs batches

  Batches-cons :
      (g rest : List (Str × Str)) {msgs : List Message}
      → is_empty g ≡ false
      → length (channel_text g) + length (key_text g) ≤ max
      → Batches rest msgs
      → Batches (g ++ rest) (batch_message g ∷ msgs)
  Batches-cons g rest f b (batches, e, a) = (
    g ∷ batches,
    ap (◌∷◌ (batch_message g)) e,
    record { all = ap (◌++◌ g) a.all; filled = (f, a.filled); fit = (b, a.fit) },
  )

  Batches-nil : Batches [] []
  Batches-nil = ([], refl, record { all = refl; filled = tt; fit = tt })

  -- The buffers hold the texts of a batch that fits.
  record Holds (g : List (Str × Str)) (channels keys : Str) : Type 0 where
    chans : channels ≡ channel_text g
    keyed : keys ≡ key_text g
    names : All IsFilled (channels_of g)
    fit : length channels + length keys ≤ max
    empty : is_empty channels ≡ is_empty g

  fit_texts :
      (g : List (Str × Str)) (channels keys : Str)
      → Holds g channels keys
      → length (channel_text g) + length (key_text g) ≤ max
  fit_texts g channels keys h = rw (← h.chans, ← h.keyed) h.fit

  cons_held :
      (g rest : List (Str × Str)) (channels keys : Str) {msgs : List Message}
      → Holds g channels keys
      → is_empty g ≡ false
      → Batches rest msgs
      → Batches (g ++ rest) (join_message channels keys ∷ msgs)
  cons_held g rest channels keys h f b =
      rw (h.chans, h.keyed) (Batches-cons g rest f (fit_texts g channels keys h) b)

  Holds-start : Holds [] [] []
  unfolding join
  Holds-start = record { chans = refl; keyed = refl; names = tt; fit = omega arith; empty = refl }

  Holds-single : (c k : Str) → PairFits max (c, k) → Holds ((c, k) ∷ []) c (write_key [] k)
  unfolding join
  Holds-single c [] h = record {
    chans = refl;
    keyed = refl;
    names = (h.0, tt);
    fit = h.1;
    empty = h.0;
  }
  Holds-single c (x ∷ k) h = record {
    chans = refl;
    keyed = refl;
    names = (h.0, tt);
    fit = h.1;
    empty = h.0;
  }

  key_text-snoc :
      (g : List (Str × Str)) (c k : Str) → key_text (g ++ (c, k) ∷ []) ≡ write_key (key_text g) k
  key_text-snoc g c [] = rw (keys_of-snoc g c [], append-nil)
  key_text-snoc g c (x ∷ k) =
      rw (keys_of-snoc g c (x ∷ k)) (join-snoc b',' (keys_of g) (x ∷ k) (keys_of_filled g))

  length-write_key : (keys k : Str) → length (write_key keys k) ≤ length keys + key_room k
  length-write_key keys [] = omega arith
  length-write_key keys (x ∷ k) = ground (arith, length-write_sep b',' keys (x ∷ k))

  no_keys_yet :
      (g : List (Str × Str)) (channels keys : Str)
      → Holds g channels keys
      → is_empty channels ≡ true
      → (channels ≡ []) × (keys ≡ [])
  unfolding join
  no_keys_yet [] channels keys h e = (h.chans, h.keyed)
  no_keys_yet (x ∷ g) channels keys h e = cc (sym e ∙ h.empty)

  length-snoc :
      (g : List (Str × Str)) (channels keys c k : Str)
      → Holds g channels keys
      → PairFits max (c, k)
      → (not (is_empty channels)
          && ltb max (length channels + length keys + 1 + length c + key_room k))
        ≡ false
      → length (write_sep b',' channels c) + length (write_key keys k) ≤ max
  length-snoc g channels keys c k h p room = elim (Bool-cases (is_empty channels)) [
    | inl fresh ↦ let (e, f) = no_keys_yet g channels keys h fresh in rw (e, f) (lone c k p)
    | inr some_chans ↦ ground (arith, length-write_sep b',' channels c, length-write_key keys k)
  ]
    where
      lone : (c k : Str) → PairFits max (c, k) → length c + length (write_key [] k) ≤ max
      lone c [] p = p.1
      lone c (x ∷ k) p = p.1

  is_empty-write_sep : (buf s : Str) → IsFilled s → is_empty (write_sep b',' buf s) ≡ false
  is_empty-write_sep [] s f = f
  is_empty-write_sep (c ∷ buf) s f = refl

  is_empty-snoc : (g : List (Str × Str)) (p : Str × Str) → is_empty (g ++ p ∷ []) ≡ false
  is_empty-snoc [] p = refl
  is_empty-snoc (q ∷ g) p = refl

  Holds-snoc :
      (g : List (Str × Str)) (channels keys c k : Str)
      → Holds g channels keys
      → PairFits max (c, k)
      → (not (is_empty channels)
          && ltb max (length channels + length keys + 1 + length c + key_room k))
        ≡ false
      → Holds (g ++ (c, k) ∷ []) (write_sep b',' channels c) (write_key keys k)
  Holds-snoc g channels keys c k h p room = record {
    chans = rw (h.chans, channels_of-snoc g c k) (sym (join-snoc b',' (channels_of g) c h.names));
    keyed = rw (h.keyed, key_text-snoc g c k);
    names =
        rw (channels_of-snoc g c k)
          (All-append IsFilled (channels_of g) (c ∷ []) h.names (p.0, tt));
    fit = length-snoc g channels keys c k h p room;
    empty = is_empty-write_sep channels c p.0 ∙ sym (is_empty-snoc g (c, k));
  }

  join_from_lem :
      (pairs g : List (Str × Str)) (channels keys : Str)
      → Holds g channels keys
      → All (PairFits max) pairs
      → Batches (g ++ pairs) (join_from max pairs channels keys)
  unfolding join_from
  join_from_lem [] [] channels keys h ps = rw h.empty Batches-nil
  join_from_lem [] (x ∷ g) channels keys h ps =
      rw (h.empty, h.chans, h.keyed)
        (Batches-cons (x ∷ g) [] refl (fit_texts (x ∷ g) channels keys h) Batches-nil)
  join_from_lem ((c, k) ∷ pairs) g channels keys h ps =
      elim (Bool-cases (
        not (is_empty channels)
        && ltb max (length channels + length keys + 1 + length c + key_room k))) [
          | inl full ↦ rw full (
              cons_held g ((c, k) ∷ pairs) channels keys h (ground arith)
                (join_from_lem pairs ((c, k) ∷ []) c (write_key [] k) (Holds-single c k ps.0) ps.1))
          | inr room ↦
              rw (room, ← append_assoc g ((c, k) ∷ []) pairs)
                (join_from_lem pairs (g ++ (c, k) ∷ []) _ _
                  (Holds-snoc g channels keys c k h ps.0 room) ps.1)
        ]

-- `GenerateJoin` sends every channel once, with its key, and nothing else: the messages are those of
-- batches that together are a rearrangement of the channels; a server that reads a message, the n-th
-- key for the n-th channel, finds each channel of the batch with its key; and the channels and keys
-- of a message take at most 506 bytes, so that with the command and two spaces it has at most 512.
-- The channels are not empty, and each fits in a message of its own with its key.
pub generate_join_lem :
    (pairs : List (Str × Str))
    → All (PairFits 506) pairs
    → (batches : List (List (Str × Str))) × (generate_join pairs ≡ map batch_message batches)
      × Perm (flatten batches) pairs
      × All (λ b. read_join (channels_of b) (keys_of b) ≡ b) batches
      × All (λ b. is_empty b ≡ false) batches
      × All (λ b. length (channel_text b) + length (key_text b) ≤ 506) batches
unfolding generate_join
generate_join_lem pairs h =
    let (batches, e, a) =
      join_from_lem 506 (sort join_less pairs) [] [] [] (Holds-start 506)
        (sort-All join_less (PairFits 506) pairs h) in
    (
      batches,
      e,
      rw a.all (sort-perm join_less pairs),
      aligned_of batches
          (rw a.all (sorted-KeyedFirst _ (sort-IsSorted join_less join_less_asym pairs))),
      a.filled,
      a.fit,
    )
