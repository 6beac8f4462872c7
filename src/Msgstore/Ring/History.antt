-- ===== src/Msgstore/Ring/History.antt =====
-- The ring buffer of msgstore/memory.go against the list of all messages that were appended.
use soju_bouncer.Prelude.{
  ℕ, zero, suc, ◌+◌, ◌-◌, ◌*◌, ◌/◌, ◌%◌, ◌^◌, ◌≤◌, ◌<◌, min, ◌≡◌, refl, sym, ap, ◌∙◌, ◌≢◌, inl, inr,
  false, Option, none, some, List, [], ◌∷◌, ◌++◌, map, arith, ltb, leb, nat_eq, if◌then◌else◌,
  leb→le, nat_eq_iff, Bool-cases, nat_Eq, str_Eq, pair_Eq, length, get_elem?, get_or, set, drop,
  length-append, length-set, length-replicate, get_or-set_self, get_or-set_ne,
}
use native.Mathlib.Nat.{div-add-mod, mod-lt, mod-eq_of_lt, mul-le-mul_right}
use native.Mathlib.Decide.{dec_lt}
use soju_bouncer.Msgstore.Ring.{
  loaded, bad_sequence, new, cap, append, load_count, load_from, load_latest_seq, RingBuffer,
}

mul_gap : (q p c : ℕ) → q * c < p * c → q * c + c ≤ p * c
mul_gap q p c h = elim (dec_lt q p) [
  | yes lt ↦ grind (arith, mul-le-mul_right c lt)
  | no ge ↦ let le : p ≤ q = omega arith in absurd (grind (arith, mul-le-mul_right c le))
]

mod_ne : (a b c : ℕ) → a < b → b < a + c → a % c ≢ b % c
mod_ne a b c h k e =
    let x = div-add-mod a c in
    let y = div-add-mod b c in omega (arith, mul_gap (a / c) (b / c) c (omega arith))

-- The buffer holds the last messages of the history `h`, oldest first: the message with number
-- `i + 1` at its slot, unless `cap` newer ones were appended.
pub record Tracks {ℓ} {A : Type ℓ} (rb : RingBuffer A) (h : List A) : Type ℓ where
  pub positive : 0 < cap rb
  pub counted : rb.cur ≡ length h + 1
  pub held :
      (i : ℕ)
      → i < length h
      → length h ≤ i + cap rb
      → get_or rb.buf ((i + 1) % cap rb) none ≡ get_elem? h i

drop-cons {ℓ} :
    {A : Type ℓ} (h : List A) (k : ℕ)
    → k < length h
    → (x : A) × (get_elem? h k ≡ some x) × (drop k h ≡ x ∷ drop (suc k) h)
drop-cons [] k l = elim l [ ]
drop-cons (y ∷ h) zero l = (y, refl, refl)
drop-cons (y ∷ h) (suc k) l = drop-cons h k (omega arith)

pub drop_all {ℓ} : {A : Type ℓ} (h : List A) (k : ℕ) → length h ≤ k → drop k h ≡ []
drop_all [] zero l = refl
drop_all [] (suc k) l = refl
drop_all (y ∷ h) zero l = elim l [ ]
drop_all (y ∷ h) (suc k) l = drop_all h k (omega arith)

get_elem?-append {ℓ} :
    {A : Type ℓ} (h : List A) (m : A) (i : ℕ)
    → i < length h
    → get_elem? (h ++ m ∷ []) i ≡ get_elem? h i
get_elem?-append [] m i l = elim l [ ]
get_elem?-append (x ∷ h) m zero l = refl
get_elem?-append (x ∷ h) m (suc i) l = get_elem?-append h m i (omega arith)

get_elem?-last {ℓ} : {A : Type ℓ} (h : List A) (m : A) → get_elem? (h ++ m ∷ []) (length h) ≡ some m
get_elem?-last [] m = refl
get_elem?-last (x ∷ h) m = get_elem?-last h m

module _ {A : Type 0} where
  -- A new buffer with room tracks the empty history.
  pub new-Tracks : (capacity : ℕ) → 0 < capacity → Tracks (new {A = A} capacity) []
  unfolding new
  new-Tracks capacity p =
      let empty : Option A = none in
      record {
        positive = omega (arith, length-replicate capacity empty);
        counted = omega arith;
        held = λ i l. elim l [ ];
      }

  append-held :
      (rb : RingBuffer A) (h : List A) (m : A)
      → Tracks rb h
      → (i : ℕ) → i < length h + 1
      → length h + 1 ≤ i + cap rb
      → get_or (set rb.buf (rb.cur % cap rb) (some m)) ((i + 1) % cap rb) none
        ≡ get_elem? (h ++ m ∷ []) i
  append-held rb h m t i l b = elim (Bool-cases (nat_eq i (length h))) [
    | inl last ↦
        let e : i ≡ length h = (nat_eq_iff i (length h)).0 last in
        rw (e, t.counted, get_elem?-last h m)
          (get_or-set_self rb.buf ((length h + 1) % cap rb) (some m) none (mod-lt _ t.positive))
    | inr older ↦
        let lt : i < length h = ground arith in
        rw (t.counted, get_elem?-append h m i lt)
          (get_or-set_ne rb.buf ((length h + 1) % cap rb) ((i + 1) % cap rb) (some m) none
              (λ e. mod_ne (i + 1) (length h + 1) (cap rb) (omega arith) (omega arith) (sym e))
            ∙ t.held i lt (omega arith))
  ]

  -- Appending a message to the buffer appends it to the history, and returns its number.
  pub append-Tracks :
      (rb : RingBuffer A) (h : List A) (m : A)
      → Tracks rb h
      → length h + 2 < 2 ^ 64
      → Tracks (append rb m).0 (h ++ m ∷ []) × ((append rb m).1 ≡ length h + 1)
  unfolding append
  append-Tracks rb h m t b =
      let c = length-set rb.buf (rb.cur % cap rb) (some m) in
      let n = length-append h (m ∷ []) in
      (
        record {
          positive = omega (arith, t.positive);
          counted =
              rw (t.counted, mod-eq_of_lt {n = length h + 1 + 1} {m = 2 ^ 64} (omega arith))
                (omega arith);
          held = λ i l r. rw c (append-held rb h m t i (omega arith) (omega arith));
        },
        t.counted,
      )

  load_step :
      (rb : RingBuffer A) (h : List A) (diff i n k : ℕ) (x : A)
      → rb.cur - diff + i ≡ k + 1
      → get_or rb.buf ((k + 1) % cap rb) none ≡ some x
      → drop k h ≡ x ∷ drop (suc k) h
      → load_from rb diff (i + 1) n ≡ map some (drop (suc k) h)
      → load_from rb diff i (suc n) ≡ map some (drop k h)
  unfolding load_from
  load_step rb h diff i n k x e at tail rest = rw (e, tail, at, rest)

  load_from-Tracks :
      (rb : RingBuffer A) (h : List A) (diff i n : ℕ)
      → Tracks rb h
      → diff ≤ cap rb
      → diff ≤ length h
      → i + n ≡ diff
      → load_from rb diff i n ≡ map some (drop (length h - n) h)
  load_from-Tracks rb h diff i zero t c l e =
      unfold load_from in rw (drop_all h (length h - 0) (omega arith))
  load_from-Tracks rb h diff i (suc n) t c l e =
      let k = length h - suc n in
      let (x, at, tail) = drop-cons h k (omega arith) in
      let rest = load_from-Tracks rb h diff (i + 1) n t c l (omega arith) in
      let next : length h - n ≡ suc k = omega arith in
      load_step rb h diff i n k x (omega (arith, t.counted))
        (t.held k (omega arith) (omega arith) ∙ at) tail (rw next at rest)

  -- The history without its first `seq` messages, cut to the last `limit` and to what the buffer
  -- can hold.
  abbrev pub latest : List A → ℕ → ℕ → ℕ → List A
  latest h capacity seq limit = drop (length h - min limit (min capacity (length h - seq))) h

  load-past :
      (rb : RingBuffer A) (h : List A) (seq limit : ℕ)
      → Tracks rb h
      → length h + 1 ≤ seq
      → load_latest_seq rb seq limit
        ≡ (if ltb (length h + 1) seq then bad_sequence seq rb.cur else loaded [])
  unfolding load_latest_seq
  load-past rb h seq limit t l = ground (arith, t.counted)

  load_count-min :
      (rb : RingBuffer A) (h : List A) (seq limit : ℕ)
      → Tracks rb h
      → seq ≤ length h
      → load_count rb seq limit ≡ min limit (min (cap rb) (length h - seq))
  load_count-min rb h seq limit t l = ground (arith, t.counted)

  load-known :
      (rb : RingBuffer A) (h : List A) (seq limit : ℕ)
      → Tracks rb h
      → seq ≤ length h
      → load_latest_seq rb seq limit
        ≡ loaded (load_from rb (load_count rb seq limit) 0 (load_count rb seq limit))
  unfolding load_latest_seq
  load-known rb h seq limit t l =
      let a : ltb rb.cur seq ≡ false = ground (arith, t.counted) in
      let b : nat_eq seq rb.cur ≡ false = ground (arith, t.counted) in rw (a, b)

  -- The messages after number `seq` are loaded in their order, oldest first: of those that the
  -- buffer still holds, the last `limit`. A number beyond the next one is an error, and the next
  -- one itself loads nothing.
  pub load_latest_seq-Tracks :
      (rb : RingBuffer A) (h : List A) (seq limit : ℕ)
      → Tracks rb h
      → load_latest_seq rb seq limit ≡ (
          if ltb (length h + 1) seq
          then bad_sequence seq rb.cur
          else loaded (map some (latest h (cap rb) seq limit)))
  unfolding load_latest_seq
  load_latest_seq-Tracks rb h seq limit t = elim (Bool-cases (leb seq (length h))) [
    | inl known ↦
        let le = leb→le seq (length h) known in
        let far : ltb (length h + 1) seq ≡ false = ground arith in
        let n = min limit (min (cap rb) (length h - seq)) in
        rw (far, load-known rb h seq limit t le, load_count-min rb h seq limit t le)
          (ap loaded (load_from-Tracks rb h n 0 n t (omega arith) (omega arith) (omega arith)))
    | inr past ↦
        let gt : length h + 1 ≤ seq = ground arith in
        let none_left : latest h (cap rb) seq limit ≡ [] = drop_all h _ (omega arith) in
        rw none_left (load-past rb h seq limit t gt)
  ]
