-- ===== src/Msgstore/Ring.antt =====
-- msgstore/memory.go, messageRingBuffer: the last messages of a target, numbered from 1. A slot that
-- was never written holds the nil pointer, `none`.
pub mod History
use soju_bouncer.Prelude.{
  ℕ, zero, suc, ◌+◌, ◌-◌, ◌%◌, ◌^◌, Option, none, some, List, [], ◌∷◌, ltb, nat_eq, if◌then◌else◌,
  nat_Eq, str_Eq, pair_Eq, length, get_or, set, replicate,
}

pub record RingBuffer {ℓ} (A : Type ℓ) : Type ℓ where
  pub buf : List (Option A)
  pub cur : ℕ

pub data LoadResult {ℓ} (A : Type ℓ) : Type ℓ where
  loaded : List (Option A) → LoadResult A
  bad_sequence : ℕ → ℕ → LoadResult A

module _ {ℓ} {A : Type ℓ} where
  unfoldable pub new : ℕ → RingBuffer A
  new capacity = record { buf = replicate capacity none; cur = 1 }

  abbrev pub cap : RingBuffer A → ℕ
  cap rb = length rb.buf

  -- The counter is a uint64.
  unfoldable pub append : RingBuffer A → A → RingBuffer A × ℕ
  append rb msg =
      let seq = rb.cur in
      let i = seq % cap rb in
      (record { buf = set rb.buf i (some msg); cur = (rb.cur + 1) % 2 ^ 64 }, seq)

  -- The number of messages that are returned. There `seq` is below `cur`, so the subtractions are
  -- exact.
  abbrev pub load_count : RingBuffer A → ℕ → ℕ → ℕ
  load_count rb seq limit =
      let diff = rb.cur - seq - 1 in
      let kept = if ltb (cap rb) diff then cap rb else diff in
      if ltb limit kept then limit else kept

  -- The loop over `i`, for the rounds that are left.
  unfoldable pub load_from : RingBuffer A → ℕ → ℕ → ℕ → List (Option A)
  load_from rb diff i zero = []
  load_from rb diff i (suc rounds) =
      get_or rb.buf ((rb.cur - diff + i) % cap rb) none ∷ load_from rb diff (i + 1) rounds

  unfoldable pub load_latest_seq : RingBuffer A → ℕ → ℕ → LoadResult A
  unfolding load_from
  load_latest_seq rb seq limit =
      if ltb rb.cur seq
      then bad_sequence seq rb.cur
      else if nat_eq seq rb.cur
      then loaded []
      else let diff = load_count rb seq limit in loaded (load_from rb diff 0 diff)
