-- ===== src/Rate.antt =====
-- rate.go, backoffer: delays that double up to a limit. A duration and the counter are 64-bit signed
-- numbers, written as their residues.
use mathlib.Core.Path.{ap₂}
use native.Mathlib.Nat.{mod-eq_of_lt, mul-le-mul_right}
use soju_bouncer.Prelude.{
  ℕ, ◌+◌, ◌*◌, ◌%◌, ◌^◌, ◌≤◌, ◌<◌, min, ◌≡◌, refl, ◌⊎◌, inl, inr, Bool, true, false, arith, ltb,
  nat_eq, if◌then◌else◌, Bool-cases, nat_Eq, str_Eq, pair_Eq,
}

pub record Backoffer : Type 0 where
  pub min_delay : ℕ
  pub max_delay : ℕ
  pub jitter : ℕ
  pub n : ℕ

unfoldable pub new_backoffer : ℕ → ℕ → ℕ → Backoffer
new_backoffer min_delay max_delay jitter = record {
  min_delay = min_delay;
  max_delay = max_delay;
  jitter = jitter;
  n = 0;
}

unfoldable pub reset : Backoffer → Backoffer
reset b = record b { n = 0 }

-- `a < b` on signed numbers.
abbrev pub signed_lt : ℕ → ℕ → Bool
signed_lt a b = ltb ((a + 2 ^ 63) % 2 ^ 64) ((b + 2 ^ 63) % 2 ^ 64)

-- `random` is the result of `rand.Int63n(jitter)`.
unfoldable pub next : Backoffer → ℕ → Backoffer × ℕ
next b random =
    let d = b.n * b.min_delay % 2 ^ 64 in
    let over = signed_lt b.max_delay d in
    let delay = if over then b.max_delay else d in
    let n' = if over then b.n else b.n * 2 % 2 ^ 64 in
    if nat_eq b.n 0
    then (record b { n = 1 }, 0)
    else (record b { n = n' }, if nat_eq b.jitter 0 then delay else (delay + random) % 2 ^ 64)

-- The delays are positive, the limit leaves room for twice itself and for the jitter, and the counter
-- has not run past twice the limit.
pub record IsBackoff (b : Backoffer) : Type 0 where
  pub positive : 0 < b.min_delay
  pub ordered : b.min_delay ≤ b.max_delay
  pub room : b.max_delay + b.max_delay + b.jitter < 2 ^ 63
  pub bounded : b.n * b.min_delay ≤ b.max_delay + b.max_delay

signed_lt-small : (a b : ℕ) → a < 2 ^ 63 → b < 2 ^ 63 → signed_lt a b ≡ ltb a b
signed_lt-small a b h k =
    rw
      (
        mod-eq_of_lt {n = a + 2 ^ 63} {m = 2 ^ 64} (omega (arith, h)),
        mod-eq_of_lt {n = b + 2 ^ 63} {m = 2 ^ 64} (omega (arith, k)),
      )
      (ground arith)

le_times : (n m : ℕ) → 0 < m → n ≤ n * m
le_times n m h = let one : 1 ≤ m = omega (arith, h) in grind (arith, mul-le-mul_right n one)

doubled : (n m : ℕ) → n * 2 * m ≡ n * m + n * m
doubled n m = grind arith

-- The delay without the jitter.
abbrev pub plain_delay : Backoffer → ℕ
plain_delay b = if ltb b.max_delay (b.n * b.min_delay) then b.max_delay else b.n * b.min_delay

next-running :
    (b : Backoffer) (random : ℕ)
    → IsBackoff b
    → nat_eq b.n 0 ≡ false
    → random ≤ b.jitter
    → next b random ≡ (
      record b { n = if ltb b.max_delay (b.n * b.min_delay) then b.n else b.n * 2 },
      plain_delay b + (if nat_eq b.jitter 0 then 0 else random),
    )
unfolding next
next-running b random h run r =
    let d = b.n * b.min_delay in
    let small : d < 2 ^ 63 = omega (arith, h.bounded, h.room) in
    let exact : d % 2 ^ 64 ≡ d = mod-eq_of_lt {n = d} {m = 2 ^ 64} (omega (arith, small)) in
    let test = signed_lt-small b.max_delay d (omega (arith, h.room)) small in
    let below : b.n ≤ d = le_times b.n b.min_delay h.positive in
    rw (run, exact, test)
      (elim (Bool-cases (ltb b.max_delay d)) [
        | inl over ↦ rw over (pair refl (jittered b.jitter b.max_delay (omega (arith, h.room))))
        | inr under ↦ rw under (
            pair (mod-eq_of_lt {n = b.n * 2} {m = 2 ^ 64} (omega (arith, below, small)))
              (jittered b.jitter d (ground (arith, under, h.room))))
      ])
  where
    pair :
        {n n' d d' : ℕ}
        → n ≡ n'
        → d ≡ d'
        → ◌≡◌ {A = Backoffer × ℕ} (record b { n = n }, d) (record b { n = n' }, d')
    pair p q = ap₂ (λ x y. (record b { n = x }, y)) p q

    jittered :
        (j d : ℕ)
        → d + b.jitter < 2 ^ 64
        → (if nat_eq j 0 then d else (d + random) % 2 ^ 64) ≡ d + (if nat_eq j 0 then 0 else random)
    jittered j d l = elim (Bool-cases (nat_eq j 0)) [
      | inl none_set ↦ rw none_set (omega arith)
      | inr some_set ↦
          rw some_set (mod-eq_of_lt {n = d + random} {m = 2 ^ 64} (omega (arith, l, r)))
    ]

next-fresh :
    (b : Backoffer) (random : ℕ) → nat_eq b.n 0 ≡ true → next b random ≡ (record b { n = 1 }, 0)
unfolding next
next-fresh b random fresh = rw (fresh, next) refl

-- The first delay is nothing; the next is the shortest one, and each is then twice the one before it,
-- up to the longest; the jitter is added to each of them, and nothing wraps around. The durations
-- are those of a `Backoffer` whose limit leaves room for twice itself and the jitter.
pub next-doubles :
    (b : Backoffer) (random : ℕ)
    → IsBackoff b
    → random ≤ b.jitter
    → let (b', delay) = next b random in
      IsBackoff b'
      × (delay
          ≡ (if nat_eq b.n 0 then 0 else plain_delay b + (if nat_eq b.jitter 0 then 0 else random)))
      × (plain_delay b'
          ≡ (if nat_eq b.n 0 then b.min_delay else min (plain_delay b + plain_delay b) b.max_delay))
next-doubles b random h r = elim (Bool-cases (nat_eq b.n 0)) [
  | inl fresh ↦ rw (next-fresh b random fresh, fresh) (started, refl, ground (arith, h.ordered))
  | inr run ↦
      rw (next-running b random h run r, run)
        (
          kept (Bool-cases (ltb b.max_delay (b.n * b.min_delay))),
          refl,
          grows (Bool-cases (ltb b.max_delay (b.n * b.min_delay))),
        )
]
  where
    started : IsBackoff (record b { n = 1 })
    started = record {
      positive = h.positive;
      ordered = h.ordered;
      room = h.room;
      bounded = omega (arith, h.ordered);
    }

    kept :
        (ltb b.max_delay (b.n * b.min_delay) ≡ true) ⊎ (ltb b.max_delay (b.n * b.min_delay) ≡ false)
        → IsBackoff (record b { n = if ltb b.max_delay (b.n * b.min_delay) then b.n else b.n * 2 })
    kept c = record {
      positive = h.positive;
      ordered = h.ordered;
      room = h.room;
      bounded = elim c [
        | inl over ↦ rw over h.bounded
        | inr under ↦ rw (under, doubled b.n b.min_delay) (ground (arith, under))
      ];
    }

    grows :
        (ltb b.max_delay (b.n * b.min_delay) ≡ true) ⊎ (ltb b.max_delay (b.n * b.min_delay) ≡ false)
        → plain_delay
            (record b { n = if ltb b.max_delay (b.n * b.min_delay) then b.n else b.n * 2 })
          ≡ min (plain_delay b + plain_delay b) b.max_delay
    grows (inl over) = rw (over, over) (omega arith)
    grows (inr under) = rw (under, doubled b.n b.min_delay) (ground arith)
