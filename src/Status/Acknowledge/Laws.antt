-- ===== src/Status/Acknowledge/Laws.antt =====
-- Acknowledging moves violations and loses none.
use mathlib.Core.List.{Perm, perm_middle}
use mathlib.Core.List.Perm
use network_enforcer.Common.{
  ℕ, ◌≤◌, List, [], ◌∷◌, ◌++◌, map, Option, none, some, Bool, true, false, ◌≡◌, refl, sym, ap, ◌∙◌,
  arith, delete_if, length, length-take, append-nil, append_assoc, nat_eq, if◌then◌else◌, ◌≢◌,
}
use network_enforcer.Common.Map.{lookup}
use network_enforcer.Api.Types.{ViolationRecord, AcknowledgedViolationRecord, WorkloadNetworkPolicy}
use network_enforcer.Status.Sorting.{
  sort_newest, cut_at-take, IsNewestFirst, take-IsNewestFirst, sort_newest-IsNewestFirst,
}
use network_enforcer.Status.Merge.{max_violation_records}
use network_enforcer.Status.Acknowledge.{
  Acknowledges, AnnotationInfo, AcknowledgeState, acknowledgement, acknowledge_found,
  acknowledge_each, acknowledge_with, acknowledge_violations_from_annotations, acknowledged_time,
  collect,
}

module _ (acknowledges : Acknowledges) (now : ℕ) where
  abbrev pub is_picked : Option AnnotationInfo → Bool
  is_picked none = false
  is_picked (some info) = true

  -- the violations that an annotation names
  abbrev pub picked : ViolationRecord → Bool
  picked v = is_picked (lookup v.id acknowledges)

  abbrev add_moved :
      ViolationRecord
      → Option AnnotationInfo
      → List AcknowledgedViolationRecord
      → List AcknowledgedViolationRecord
  add_moved v none rest = rest
  add_moved v (some info) rest = acknowledgement now v info ∷ rest

  abbrev moved : List ViolationRecord → List AcknowledgedViolationRecord
  moved [] = []
  moved (v ∷ vs) = add_moved v (lookup v.id acknowledges) (moved vs)

  -- one round, and what the rest of the loop adds
  step_lem :
      (s : AcknowledgeState) (v : ViolationRecord) (vs : List ViolationRecord)
      (o : Option AnnotationInfo)
      → ((acknowledge_found acknowledges now s v o).kept ++ vs
          ≡ s.kept ++ (if is_picked o then vs else v ∷ vs))
        × ((rest : List AcknowledgedViolationRecord)
            → (acknowledge_found acknowledges now s v o).ack_to_return ++ rest
              ≡ s.ack_to_return ++ add_moved v o rest)
  step_lem s v vs none = (append_assoc s.kept _ vs, λ rest. refl)
  step_lem s v vs (some info) = (refl, λ rest. append_assoc s.ack_to_return _ rest)

  pub acknowledge_each_lem :
      (s : AcknowledgeState) (vs : List ViolationRecord)
      → ((acknowledge_each acknowledges now s vs).kept ≡ s.kept ++ delete_if picked vs)
        × ((acknowledge_each acknowledges now s vs).ack_to_return ≡ s.ack_to_return ++ moved vs)
  unfolding acknowledge_each
  acknowledge_each_lem s [] = (sym (append-nil _), sym (append-nil _))
  acknowledge_each_lem s (v ∷ vs) =
      let found = lookup v.id acknowledges in
      let ih = acknowledge_each_lem (acknowledge_found acknowledges now s v found) vs in
      let step = step_lem s v (delete_if picked vs) found in
      (ih.0 ∙ step.0, ih.1 ∙ step.1 (moved vs))

  moved-perm_step :
      (v : ViolationRecord) (o : Option AnnotationInfo) (ks vs : List ViolationRecord)
      (rest : List AcknowledgedViolationRecord)
      → Perm (ks ++ map (λ a. a.violation) rest) vs
      → Perm
          ((if is_picked o then ks else v ∷ ks) ++ map (λ a. a.violation) (add_moved v o rest))
          (v ∷ vs)
  moved-perm_step v none ks vs rest p = Perm.cons v p
  moved-perm_step v (some info) ks vs rest p = Perm.trans (perm_middle ks _) (Perm.cons v p)

  moved-perm :
      (vs : List ViolationRecord)
      → Perm (delete_if picked vs ++ map (λ a. a.violation) (moved vs)) vs
  moved-perm [] = Perm.refl []
  moved-perm (v ∷ vs) =
      moved-perm_step v (lookup v.id acknowledges) (delete_if picked vs) vs (moved vs)
        (moved-perm vs)

-- What one call does to the list: the named violations go, one acknowledgement for each.
acknowledge_with-perm :
    (wnp : WorkloadNetworkPolicy) (now : ℕ) (acknowledges : Acknowledges)
    → Perm
        ((acknowledge_with wnp now acknowledges).0.status.violations
          ++ map (λ a. a.violation) (acknowledge_with wnp now acknowledges).1)
        wnp.status.violations
acknowledge_with-perm wnp now [] = rw (append-nil wnp.status.violations) (Perm.refl _)
acknowledge_with-perm wnp now (a ∷ acknowledges) =
    let each =
      acknowledge_each_lem (a ∷ acknowledges) now
        (record { kept = []; ack_to_return = []; annotations = wnp.meta.annotations })
        wnp.status.violations in
    rw (each.0, each.1) (moved-perm (a ∷ acknowledges) now wnp.status.violations)

-- Acknowledging loses no violation and makes none up: the violations that stay and those of the
-- returned acknowledgements are together the violations before, each as often.
pub acknowledge_violations_from_annotations-perm :
    (wnp : WorkloadNetworkPolicy) (now : ℕ)
    → Perm
        ((acknowledge_violations_from_annotations wnp now).0.status.violations
          ++ map (λ a. a.violation) (acknowledge_violations_from_annotations wnp now).1)
        wnp.status.violations
unfolding acknowledge_violations_from_annotations
acknowledge_violations_from_annotations-perm wnp now =
    acknowledge_with-perm wnp now (collect wnp.meta.annotations [])

delete_if-none : {A : Type 0} (xs : List A) → delete_if (λ x. false) xs ≡ xs
delete_if-none [] = refl
delete_if-none (x ∷ xs) = ap (λ l. x ∷ l) (delete_if-none xs)

-- The violations that stay are those that no annotation names.
pub acknowledge_with-delete :
    (wnp : WorkloadNetworkPolicy) (now : ℕ) (acknowledges : Acknowledges)
    → (acknowledge_with wnp now acknowledges).0.status.violations
      ≡ delete_if (picked acknowledges now) wnp.status.violations
unfolding lookup
acknowledge_with-delete wnp now [] = sym (delete_if-none wnp.status.violations)
acknowledge_with-delete wnp now (a ∷ acknowledges) =
    (acknowledge_each_lem (a ∷ acknowledges) now
      (record { kept = []; ack_to_return = []; annotations = wnp.meta.annotations })
      wnp.status.violations).0

pub violations-acknowledge :
    (wnp : WorkloadNetworkPolicy) (now : ℕ)
    → (acknowledge_violations_from_annotations wnp now).0.status.violations
      ≡ delete_if (picked (collect wnp.meta.annotations []) now) wnp.status.violations
unfolding acknowledge_violations_from_annotations
violations-acknowledge wnp now = acknowledge_with-delete wnp now (collect wnp.meta.annotations [])

acknowledge_with-bounded :
    (wnp : WorkloadNetworkPolicy) (now : ℕ) (acknowledges : Acknowledges)
    → (acknowledge_with wnp now acknowledges).1 ≢ []
    → IsNewestFirst acknowledged_time
        (acknowledge_with wnp now acknowledges).0.status.acknowledged_violations
      × (length (acknowledge_with wnp now acknowledges).0.status.acknowledged_violations ≤ 100)
acknowledge_with-bounded wnp now [] h = absurd (h refl)
acknowledge_with-bounded wnp now (a ∷ acknowledges) h =
    let each =
      acknowledge_each (a ∷ acknowledges) now
        (record { kept = []; ack_to_return = []; annotations = wnp.meta.annotations })
        wnp.status.violations in
    let all = wnp.status.acknowledged_violations ++ each.ack_to_return in
    let sorted = sort_newest acknowledged_time all in
    rw (cut_at-take max_violation_records sorted) (
      take-IsNewestFirst acknowledged_time max_violation_records sorted
          (sort_newest-IsNewestFirst acknowledged_time all),
      omega (arith, length-take max_violation_records sorted),
    )

-- Where something was acknowledged, the acknowledged violations are at most 100, newest first.
pub acknowledge_violations_from_annotations-bounded :
    (wnp : WorkloadNetworkPolicy) (now : ℕ)
    → (acknowledge_violations_from_annotations wnp now).1 ≢ []
    → IsNewestFirst acknowledged_time
        (acknowledge_violations_from_annotations wnp now).0.status.acknowledged_violations
      × (length (acknowledge_violations_from_annotations wnp now).0.status.acknowledged_violations
          ≤ 100)
unfolding acknowledge_violations_from_annotations
acknowledge_violations_from_annotations-bounded wnp now h =
    acknowledge_with-bounded wnp now (collect wnp.meta.annotations []) h

generation-acknowledge_with :
    (wnp : WorkloadNetworkPolicy) (now : ℕ) (acknowledges : Acknowledges)
    → (acknowledge_with wnp now acknowledges).0.meta.generation ≡ wnp.meta.generation
generation-acknowledge_with wnp now [] = refl
generation-acknowledge_with wnp now (a ∷ acknowledges) = refl

pub generation-acknowledge :
    (wnp : WorkloadNetworkPolicy) (now : ℕ)
    → (acknowledge_violations_from_annotations wnp now).0.meta.generation ≡ wnp.meta.generation
unfolding acknowledge_violations_from_annotations
generation-acknowledge wnp now =
    generation-acknowledge_with wnp now (collect wnp.meta.annotations [])
