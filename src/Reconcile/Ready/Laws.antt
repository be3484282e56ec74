-- ===== src/Reconcile/Ready/Laws.antt =====
-- internal/controller/workloadnetworkpolicy_selector_scope.go: the counters count transitions.
use network_enforcer.Common.{
  ℕ, ◌+◌, String, List, [], ◌∷◌, ◌≡◌, refl, sym, ap, ◌∙◌, inl, inr, Option, none, some, Bool, true,
  false, not, ◌&&◌, arith, Bool-cases, ◌==◌, string_eq, if◌then◌else◌, option_eq,
}
use network_enforcer.Api.Kube.{Condition}
use network_enforcer.Reconcile.Scope.{condition_ready, reason_selector_overlaps_workload}
use network_enforcer.Reconcile.Ready.{
  ReadyState, enters, increment, update_ready_condition, update_all,
}

-- the reason of a condition, where there is one
abbrev pub reason_of : Option Condition → Option String
reason_of none = none
reason_of (some c) = some c.reason

-- How often a policy enters a reason, from the reason that it has: an update whose patch fails is
-- none, and the next one finds the old reason.
unfoldable pub entries : String → Option String → List (Condition × Bool) → ℕ
entries reason current [] = 0
entries reason current ((condition, patched) ∷ updates) =
    let after = entries reason (some condition.reason) updates in
    let before = entries reason current updates in
    if not patched
    then before
    else if condition.reason == reason && not (current == some reason)
    then 1 + after
    else after

module _ (find : List Condition → String → Option Condition)
    (set : List Condition → Condition → Bool × List Condition)
    (found : (conditions : List Condition) (c : Condition)
      → c.type ≡ condition_ready
      → reason_of (find (set conditions c).1 condition_ready) ≡ some c.reason)
    (unchanged : (conditions : List Condition) (c : Condition)
      → c.type ≡ condition_ready
      → (set conditions c).0 ≡ false
      → reason_of (find conditions condition_ready) ≡ some c.reason) where
  abbrev Ready : List (Condition × Bool) → Type 0
  Ready [] = Unit
  Ready ((condition, patched) ∷ updates) = (condition.type ≡ condition_ready) × Ready updates

  enters-entries :
      (reason : String) (previous : Option Condition) (condition : Condition)
      → enters reason previous condition
        ≡ condition.reason == reason && not (reason_of previous == some reason)
  enters-entries reason none condition = ground arith
  enters-entries reason (some previous) condition = refl

  unpatched :
      (s : ReadyState) (condition : Condition)
      → (update_ready_condition find set s condition false).1 ≡ s
  unfolding update_ready_condition
  unpatched s condition = elim (Bool-cases (set s.conditions condition).0) [
    | inl c ↦ rw c refl
    | inr c ↦ rw c refl
  ]

  -- whether the update enters the reason, from the reason that the policy has
  abbrev is_new : ReadyState → Condition → Bool
  is_new s condition =
      condition.reason == reason_selector_overlaps_workload
      && not
          (reason_of (find s.conditions condition_ready) == some reason_selector_overlaps_workload)

  not_new :
      (s : ReadyState) (condition : Condition)
      → reason_of (find s.conditions condition_ready) ≡ some condition.reason
      → is_new s condition ≡ false
  not_new s condition h =
      rw h (elim (Bool-cases (condition.reason == reason_selector_overlaps_workload)) [
        | inl k ↦ rw k refl
        | inr k ↦ rw k refl
      ])

  count_new :
      (s : ReadyState) (condition : Condition) (n : ℕ)
      → s.selector_overlaps ≡ some n
      → increment
          (enters reason_selector_overlaps_workload (find s.conditions condition_ready) condition)
          s.selector_overlaps
        ≡ some (if is_new s condition then n + 1 else n)
  count_new s condition n e =
      rw
        (
          e,
          enters-entries reason_selector_overlaps_workload (find s.conditions condition_ready)
              condition,
        )
        (elim (Bool-cases (is_new s condition)) [ inl k ↦ rw k refl | inr k ↦ rw k refl ])

  patched :
      (s : ReadyState) (condition : Condition) (n : ℕ)
      → condition.type ≡ condition_ready
      → s.selector_overlaps ≡ some n
      → let next = (update_ready_condition find set s condition true).1 in
        (reason_of (find next.conditions condition_ready) ≡ some condition.reason)
        × (next.selector_overlaps ≡ some (if is_new s condition then n + 1 else n))
  unfolding update_ready_condition
  patched s condition n t e = elim (Bool-cases (set s.conditions condition).0) [
    | inl c ↦ rw c (found s.conditions condition t, count_new s condition n e)
    | inr c ↦ rw c (
      unchanged s.conditions condition t c,
      e
          ∙ ap (λ b. some (if b then n + 1 else n))
              (sym (not_new s condition (unchanged s.conditions condition t c))),
    )
  ]

  -- Where FindStatusCondition finds what SetStatusCondition has set, and the latter reports no change
  -- only for the reason that is there: the counter of overlaps grows by one each time that the policy
  -- enters that reason, and at no other update.
  pub update_all-entries :
      (updates : List (Condition × Bool)) (s : ReadyState) (n : ℕ)
      → Ready updates
      → s.selector_overlaps ≡ some n
      → (update_all find set s updates).selector_overlaps
        ≡ some (
            n
            + entries reason_selector_overlaps_workload
                (reason_of (find s.conditions condition_ready))
                updates)
  unfolding update_all entries
  update_all-entries [] s n h e = e ∙ ap some (omega arith)
  update_all-entries ((condition, false) ∷ updates) s n h e =
      ap (λ t. (update_all find set t updates).selector_overlaps) (unpatched s condition)
      ∙ update_all-entries updates s n h.1 e
  update_all-entries ((condition, true) ∷ updates) s n h e =
      let next = (update_ready_condition find set s condition true).1 in
      let (r, k) = patched s condition n h.0 e in
      let later = update_all-entries updates next (if is_new s condition then n + 1 else n) h.1 k in
      later
      ∙ ap some (
          rw r (elim (Bool-cases (is_new s condition)) [
            | inl k ↦ rw k (omega arith)
            | inr k ↦ rw k refl
          ]))
