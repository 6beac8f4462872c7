-- ===== src/Upstream/Handle/Batches.antt =====
-- upstream.go, BATCH: a batch that has started and ended leaves the batches as they were.
use soju_bouncer.Prelude.{
  ℕ, ◌≡◌, refl, inl, inr, Option, none, some, List, [], ◌∷◌, Bool-cases, nat_eq, is_empty, ◌==◌,
  str_Eq, Str, codes, lookup, insert, delete, eq_refl, ◌∙◌, ap, ◌||◌,
}
use soju_bouncer.Irc.{Message, message}
use soju_bouncer.Upstream.Labels.{parse_label}
use soju_bouncer.Upstream.State.{UpstreamConn, UpstreamBatch, Network}
use soju_bouncer.Upstream.Produce.{forward_msg_by_id}
use soju_bouncer.Upstream.Handle.{handle_batch, to_labeled, batch_started}

delete-absent :
    (m : List (Str × UpstreamBatch)) (tag : Str) → lookup tag m ≡ none → delete tag m ≡ m
unfolding lookup delete
delete-absent [] tag h = refl
delete-absent ((k, b) ∷ m) tag h = elim (Bool-cases (k == tag)) [
  | inl same ↦ let bad = rw same at h in cc
  | inr other ↦ rw (other, delete-absent m tag (rw other at h)) refl
]

delete-insert :
    (m : List (Str × UpstreamBatch)) (tag : Str) (b : UpstreamBatch)
    → lookup tag m ≡ none
    → (delete tag (insert tag b m) ≡ m) × (lookup tag (insert tag b m) ≡ some b)
unfolding lookup insert delete
delete-insert [] tag b h = rw (eq_refl tag) (refl, refl)
delete-insert ((k, b') ∷ m) tag b h = elim (Bool-cases (k == tag)) [
  | inl same ↦ let bad = rw same at h in cc
  | inr other ↦
      let (d, l) = delete-insert m tag b (rw other at h) in
      rw (insert, other, delete, lookup, other)
        (ap (λ (x : List (Str × UpstreamBatch)). (k, b') ∷ x) d, l)
]

labeled-batches :
    (net : Network) (uc : UpstreamConn) (o : Option (ℕ × Str)) (msg : Str → Message)
    → (to_labeled net uc o msg).batches ≡ uc.batches
unfolding forward_msg_by_id
labeled-batches net uc none msg = refl
labeled-batches net uc (some (id, label)) msg = elim (Bool-cases (nat_eq id 0 || is_empty label)) [
  | inl silent ↦ rw silent refl
  | inr told ↦ rw told refl
]

-- A batch whose tag is not in use starts without an error and is known with its type, parameters,
-- label and outer batch; when it ends, there is no error and the batches are those before it.
pub handle_batch-ends :
    (net : Network) (uc : UpstreamConn) (label label' : Str) (outer outer' : Option Str)
    (tag type : Str) (params rest : List Str)
    → lookup tag uc.batches ≡ none
    → let start =
        handle_batch net uc label outer (message (codes "BATCH") ((b'+' ∷ tag) ∷ type ∷ params)) in
      let end =
        handle_batch net start.0 label' outer' (message (codes "BATCH") ((b'-' ∷ tag) ∷ rest)) in
      ((start.1 ≡ none)
        × (lookup tag start.0.batches
            ≡ some (record { type = type; params = params; outer = outer; label = label })))
      × ((end.1 ≡ none) × (end.0.batches ≡ uc.batches))
unfolding handle_batch
handle_batch-ends net uc label label' outer outer' tag type params rest unused =
    let b : UpstreamBatch = record { type = type; params = params; outer = outer; label = label } in
    let (d, l) = delete-insert uc.batches tag b unused in
    let started = record uc { batches = insert tag b uc.batches } in
    let msg = batch_started (message (codes "BATCH") ((b'+' ∷ tag) ∷ type ∷ params)) in
    let same = labeled-batches net started (parse_label label) msg in
    let uc1 = to_labeled net started (parse_label label) msg in
    let known = ap (lookup tag) same ∙ l in
    rw (unused, known)
      (
        (refl, refl),
        (
          refl,
          labeled-batches net (record uc1 { batches = delete tag uc1.batches }) (parse_label label)
                (λ l. message (codes "BATCH") ((b'-' ∷ tag) ∷ rest))
              ∙ ap (delete tag) same
              ∙ d,
        ),
      )
