-- ===== src/Upstream/Labels/RoundTrip.antt =====
-- Labels of upstream.go: what SendMessageLabeled writes, parseLabel reads.
use soju_bouncer.Prelude.{
  ℕ, zero, suc, ◌+◌, ◌*◌, ◌/◌, ◌%◌, ◌^◌, ◌≡◌, refl, ap, ◌<◌, ◌∙◌, true, false, inl, inr, some, [],
  ◌∷◌, ◌++◌, ltb, nat_eq, nat_Eq, Str, str_Eq, codes, arith, All, Bool-cases,
}
use soju_bouncer.Prelude.Text.{split_once}
use soju_bouncer.Upstream.Labels.{
  digits_from, format_uint, read_digits, parse_uint, split_n, format_label, label_tag, parse_label,
}

read_digit :
    (n d : ℕ) (s : Str)
    → d < 10
    → n * 10 + d < 2 ^ 64
    → read_digits n ((b'0' + d) ∷ s) ≡ read_digits (n * 10 + d) s
unfolding read_digits
read_digit n d s small fits = ground arith

-- The digits of a number read as the number.
read-digits_from :
    (fuel n : ℕ) (acc : Str)
    → n < fuel
    → n < 2 ^ 64
    → read_digits 0 (digits_from fuel n acc) ≡ read_digits n acc
unfolding digits_from
read-digits_from zero n acc enough fits = ground arith
read-digits_from (suc fuel) n acc enough fits = elim (Bool-cases (ltb n 10)) [
  | inl small ↦
      rw (digits_from, small)
        (read_digit 0 n acc (ground arith) (omega arith)
          ∙ ap (λ a. read_digits a acc) (omega arith))
  | inr more ↦
      let whole : n / 10 * 10 + n % 10 ≡ n = omega arith in
      rw (digits_from, more)
        (read-digits_from fuel (n / 10) _ (ground arith) (omega arith)
          ∙ read_digit (n / 10) (n % 10) acc (omega arith) (omega arith)
          ∙ ap (λ a. read_digits a acc) whole)
]

digits_NoDash :
    (fuel n : ℕ) (acc : Str)
    → All (λ c. nat_eq c b'-' ≡ false) acc
    → All (λ c. nat_eq c b'-' ≡ false) (digits_from fuel n acc)
unfolding digits_from
digits_NoDash zero n acc h = h
digits_NoDash (suc fuel) n acc h = elim (Bool-cases (ltb n 10)) [
  | inl small ↦ rw (digits_from, small) (ground arith, h)
  | inr more ↦ rw (digits_from, more) (digits_NoDash fuel (n / 10) _ (ground arith, h))
]

split_once-append :
    (s rest : Str)
    → All (λ c. nat_eq c b'-' ≡ false) s
    → split_once b'-' (s ++ (b'-' ∷ rest)) ≡ some (s, rest)
unfolding split_once
split_once-append [] rest h = refl
split_once-append (c ∷ s) rest h = rw (h.0, split_once-append s rest h.1) refl

digits_filled :
    (fuel n c : ℕ) (acc : Str) → (x : ℕ) × (t : Str) × (digits_from fuel n (c ∷ acc) ≡ x ∷ t)
unfolding digits_from
digits_filled zero n c acc = (c, acc, refl)
digits_filled (suc fuel) n c acc = elim (Bool-cases (ltb n 10)) [
  | inl small ↦ rw (digits_from, small) (_, _, refl)
  | inr more ↦ rw (digits_from, more) (digits_filled fuel (n / 10) _ (c ∷ acc))
]

digits_some :
    (fuel n : ℕ) (acc : Str) → 0 < fuel → (x : ℕ) × (t : Str) × (digits_from fuel n acc ≡ x ∷ t)
unfolding digits_from
digits_some zero n acc b = ground arith
digits_some (suc fuel) n acc b = elim (Bool-cases (ltb n 10)) [
  | inl small ↦ rw (digits_from, small) (_, _, refl)
  | inr more ↦ rw (digits_from, more) (digits_filled fuel (n / 10) _ acc)
]

parse-format_uint : (n : ℕ) → n < 2 ^ 64 → parse_uint (format_uint n) ≡ some n
unfolding parse_uint format_uint read_digits
parse-format_uint n fits =
    filled _ (digits_some (n + 1) n [] (omega arith))
    ∙ read-digits_from (n + 1) n [] (omega arith) fits
  where
    filled : (s : Str) → (x : ℕ) × (t : Str) × (s ≡ x ∷ t) → parse_uint s ≡ read_digits 0 s
    filled s (x, t, e) = rw e refl

split_label :
    (a b c : Str)
    → All (λ x. nat_eq x b'-' ≡ false) a
    → All (λ x. nat_eq x b'-' ≡ false) b
    → split_n 3 b'-' (codes "sd-" ++ (a ++ (b'-' ∷ (b ++ (b'-' ∷ c)))))
      ≡ codes "sd" ∷ a ∷ b ∷ c ∷ []
unfolding split_n
split_label a b c ha hb =
    rw
      (
        split_n,
        split_once-append (codes "sd") (a ++ (b'-' ∷ (b ++ (b'-' ∷ c)))) (refl, (refl, tt)),
        split_once-append a (b ++ (b'-' ∷ c)) ha,
        split_once-append b c hb,
      )
      refl

-- With labeled responses, the label that is set on a command, when the server sends it back, is read
-- as the downstream connection's id and as its own label, whatever dashes that has, and whatever the
-- counter of the labels is. The id is below 2^64.
pub parse-label_tag :
    (downstream_id next_label_id : ℕ) (label : Str)
    → downstream_id < 2 ^ 64
    → (tag : Str) × (label_tag true downstream_id next_label_id label
        ≡ (some tag, (next_label_id + 1) % 2 ^ 64))
      × (parse_label tag ≡ some (downstream_id, label))
unfolding label_tag parse_label format_label format_uint
parse-label_tag downstream_id next_label_id label fits = (
  format_label downstream_id next_label_id label,
  refl,
  rw
      (
        split_label (format_uint downstream_id) (format_uint next_label_id) label
            (digits_NoDash (downstream_id + 1) downstream_id [] tt)
            (digits_NoDash (next_label_id + 1) next_label_id [] tt),
        parse-format_uint downstream_id fits,
      )
      refl,
)
