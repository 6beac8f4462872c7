-- ===== src/Upstream/Highlight/Search.antt =====
-- irc.go, isHighlight: the search ends, and it takes the end of a cut for the edge of a word.
use soju_bouncer.Prelude.{
  ℕ, zero, suc, ◌+◌, ◌<◌, ◌≡◌, refl, inl, inr, Bool, true, false, some, [], ◌∷◌, ◌++◌, Bool-cases,
  Option-cases, Str, length, drop, take, Option, none, arith, length-drop, sym, ◌∙◌, ap,
  if◌then◌else◌,
}
use soju_bouncer.Prelude.Text.{has_prefix}
use soju_bouncer.Upstream.Highlight.{
  Unicode, index, rune_error, first_rune, last_rune, is_word_boundary, is_uri_prefix, stands_alone,
  highlight_from, is_highlight, last_word_from,
}

module _ (u : Unicode) where
  found-nonempty :
      (text : Str) (c i : ℕ) (nick : Str) → index text (c ∷ nick) ≡ some i → 0 < length text
  unfolding index has_prefix
  found-nonempty [] c i nick h = cc
  found-nonempty (d ∷ text) c i nick h = omega arith

  -- The runs of the loop: a search that ends with its answer, after finitely many steps.
  pub data Run (nick : Str) : Str → Bool → Type 0 where
    absent : (text : Str) → index text nick ≡ none → Run nick text false
    alone :
        (text : Str) (i : ℕ)
        → index text nick ≡ some i
        → stands_alone u text nick i ≡ true
        → Run nick text true
    past :
        (text rest : Str) (i : ℕ) (answer : Bool)
        → index text nick ≡ some i
        → stands_alone u text nick i ≡ false
        → drop (i + length nick) text ≡ rest
        → Run nick rest answer
        → Run nick text answer

  highlight_from-Run :
      (fuel : ℕ) (text : Str) (c : ℕ) (nick : Str)
      → length text < fuel
      → (answer : Bool) × (highlight_from u fuel text (c ∷ nick) ≡ some answer)
        × Run (c ∷ nick) text answer
  unfolding highlight_from
  highlight_from-Run zero text c nick h = elim h [ ]
  highlight_from-Run (suc fuel) text c nick h = elim (Option-cases (index text (c ∷ nick))) [
    | inl gone ↦ (false, rw (gone, highlight_from) refl, absent text gone)
    | inr (i, found) ↦ elim (Bool-cases (stands_alone u text (c ∷ nick) i)) [
      | inl by_itself ↦
          (true, rw (found, by_itself, highlight_from) refl, alone text i found by_itself)
      | inr joined ↦
          let some_text = found-nonempty text c i nick found in
          let rest = drop (i + length (c ∷ nick)) text in
          let (answer, e, run) =
            highlight_from-Run fuel rest c nick
              (omega (arith, length-drop (i + length (c ∷ nick)) text, some_text, h)) in
          (
            answer,
            rw (found, joined, highlight_from) e,
            past text rest i answer found joined refl run,
          )
    ]
  ]

  -- The search for a nickname that is not empty ends for every text, and its answer is that of a
  -- finite run of the loop.
  pub is_highlight-Run :
      (c : ℕ) (text nick : Str)
      → (answer : Bool) × (is_highlight u text (c ∷ nick) ≡ some answer)
        × Run (c ∷ nick) text answer
  unfolding is_highlight
  is_highlight-Run c text nick = highlight_from-Run (length text + 1) text c nick (omega arith)

  prefix-append : (xs ys : Str) → has_prefix (xs ++ ys) xs ≡ true
  unfolding has_prefix
  prefix-append [] [] = refl
  prefix-append [] (y ∷ ys) = refl
  prefix-append (x ∷ xs) ys = ground (arith, prefix-append xs ys)

  index-append : (c : ℕ) (nick rest : Str) → index ((c ∷ nick) ++ rest) (c ∷ nick) ≡ some 0
  unfolding index
  index-append c nick rest = rw (index, prefix-append (c ∷ nick) rest) refl

  drop-append : (xs ys : Str) → drop (length xs) (xs ++ ys) ≡ ys
  drop-append [] ys = refl
  drop-append (x ∷ xs) ys = drop-append xs ys

  drop-first : (xs ys : Str) → drop (0 + length xs) (xs ++ ys) ≡ ys
  drop-first xs ys = ap (λ k. drop k (xs ++ ys)) {y = length xs} (omega arith) ∙ drop-append xs ys

  append-nil : (xs : Str) → xs ++ [] ≡ xs
  append-nil [] = refl
  append-nil (x ∷ xs) = ap (◌∷◌ x) (append-nil xs)

  -- A nickname at the start of what is searched stands alone unless a letter or a number follows.
  at_start :
      (text nick : Str)
      → is_word_boundary u rune_error ≡ true
      → stands_alone u text nick 0 ≡ is_word_boundary u (first_rune (drop (0 + length nick) text))
  unfolding stands_alone is_uri_prefix last_word_from last_rune index has_prefix
  at_start text nick e = rw e (ground arith)

  -- One step of the search, where the nickname is at the start.
  starts :
      (c : ℕ) (nick rest : Str) (fuel : ℕ)
      → is_word_boundary u rune_error ≡ true
      → highlight_from u (suc fuel) ((c ∷ nick) ++ rest) (c ∷ nick) ≡ (
          if is_word_boundary u (first_rune rest)
          then some true
          else highlight_from u fuel rest (c ∷ nick))
  unfolding highlight_from
  starts c nick rest fuel e =
      let n = c ∷ nick in
      let d = drop-first n rest in
      let alone : stands_alone u (n ++ rest) n 0 ≡ is_word_boundary u (first_rune rest) =
        at_start (n ++ rest) n e ∙ ap (λ (s : Str). is_word_boundary u (first_rune s)) d in
      elim (Bool-cases (is_word_boundary u (first_rune rest))) [
        | inl edge ↦ rw (edge, highlight_from, index-append c nick rest, alone ∙ edge) refl
        | inr joined ↦ rw (joined, highlight_from, index-append c nick rest, alone ∙ joined, d) refl
      ]

  ends :
      (c : ℕ) (nick : Str) (fuel : ℕ)
      → is_word_boundary u rune_error ≡ true
      → highlight_from u (suc fuel) (c ∷ nick) (c ∷ nick) ≡ some true
  unfolding first_rune
  ends c nick fuel e =
      ap (λ (s : Str). highlight_from u (suc fuel) s (c ∷ nick)) (sym (append-nil (c ∷ nick)))
      ∙ starts c nick [] fuel e
      ∙ rw e refl

  either : (b : Bool) (x : Option Bool) → x ≡ some true → (if b then some true else x) ≡ some true
  either true x h = refl
  either false x h = h

  take-append : (xs ys : Str) → take (0 + length xs) (xs ++ ys) ≡ xs
  take-append xs ys = ap (λ k. take k (xs ++ ys)) {y = length xs} (omega arith) ∙ first xs
    where
      first : (xs : Str) → take (length xs) (xs ++ ys) ≡ xs
      first [] = refl
      first (x ∷ xs) = ap (◌∷◌ x) (first xs)

  -- A nickname after a character that is no edge of a word does not stand alone.
  after_rune :
      (text nick before : Str) (i : ℕ)
      → take i text ≡ before
      → is_word_boundary u (last_rune before) ≡ false
      → stands_alone u text nick i ≡ false
  unfolding stands_alone
  after_rune text nick before i e joined = rw (e, joined) refl

  -- A nickname that begins and ends with a letter, a number, '-', '_' or '|' does not stand alone at
  -- either place of a text that is the nickname twice without a break, but that text is a highlight,
  -- if U+FFFD, which stands for a missing rune, is no letter and no number.
  pub is_highlight-doubled :
      (c : ℕ) (nick : Str)
      → is_word_boundary u rune_error ≡ true
      → is_word_boundary u c ≡ false
      → is_word_boundary u (last_rune (c ∷ nick)) ≡ false
      → let n = c ∷ nick in
        (stands_alone u (n ++ n) n 0 ≡ false)
        × (stands_alone u (n ++ n) n (length n) ≡ false)
        × (is_highlight u (n ++ n) n ≡ some true)
  unfolding highlight_from first_rune is_highlight
  is_highlight-doubled c nick e begins finishes =
      let n = c ∷ nick in
      let k = length (nick ++ n) in
      let fuel : length (n ++ n) + 1 ≡ suc (suc k) = omega arith in
      let start : length n ≡ 0 + length n = omega arith in
      (
        at_start (n ++ n) n e
            ∙ ap (λ (s : Str). is_word_boundary u (first_rune s)) (drop-first n n)
            ∙ begins,
        after_rune (n ++ n) n n (length n) (ap (λ i. take i (n ++ n)) start ∙ take-append n n)
            finishes,
        ap (λ f. highlight_from u f (n ++ n) n) fuel
            ∙ starts c nick n (suc k) e
            ∙ either (is_word_boundary u c) _ (ends c nick k e),
      )
