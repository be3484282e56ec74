-- ===== src/Attribution/Targets.antt =====
-- internal/controller/workloadnetworkpolicystatus_sync.go: the targets of more than one policy.
use network_enforcer.Common.{
  ℕ, ◌+◌, ◌≤◌, List, [], ◌∷◌, ◌≡◌, inl, inr, Option, none, some, false, ◌==◌, Bool-cases, eq-true,
  ltb, if◌then◌else◌, option_eq, arith,
}
use network_enforcer.Common.Map.{lookup, lookup-insert}
use network_enforcer.Api.Names.{name_eq}
use network_enforcer.Attribution.Snapshot.{
  PolicyMap, WnpTarget, wnp_target_key, count_of, count_target, count_targets, more_than_once,
  duplicate_targets, is_duplicate,
}

-- how many policies of the snapshot have the target
unfoldable pub policies_with : WnpTarget → PolicyMap → ℕ
policies_with target [] = 0
policies_with target ((k, wnp) ∷ m) =
    let rest = policies_with target m in
    if wnp_target_key wnp == some target then 1 + rest else rest

count_of-count_target :
    (target : WnpTarget) (key : Option WnpTarget) (counts : List (WnpTarget × ℕ))
    → count_of (lookup target (count_target key counts))
      ≡ (if key == some target then 1 else 0) + count_of (lookup target counts)
count_of-count_target target none counts = omega arith
count_of-count_target target (some key) counts = elim (Bool-cases (key == target)) [
  | inl e ↦
      let n = lookup-insert key target (count_of (lookup key counts) + 1) counts in
      rw (n, e) (rw (eq-true key target e) (omega arith))
  | inr e ↦
      let n = lookup-insert key target (count_of (lookup key counts) + 1) counts in
      rw (n, e) (omega arith)
]

count_of-count_targets :
    (target : WnpTarget) (m : PolicyMap) (counts : List (WnpTarget × ℕ))
    → count_of (lookup target (count_targets m counts))
      ≡ policies_with target m + count_of (lookup target counts)
unfolding count_targets policies_with
count_of-count_targets target [] counts = omega arith
count_of-count_targets target ((k, wnp) ∷ m) counts =
    let rest = count_of-count_targets target m (count_target (wnp_target_key wnp) counts) in
    let one = count_of-count_target target (wnp_target_key wnp) counts in
    elim (Bool-cases (wnp_target_key wnp == some target)) [
      | inl e ↦ rw e (omega (arith, rest, rw e at one))
      | inr e ↦ rw e (omega (arith, rest, rw e at one))
    ]

not_more_than_once :
    (target : WnpTarget) (counts : List (WnpTarget × ℕ))
    → is_duplicate target (more_than_once counts) ≡ false
    → count_of (lookup target counts) ≤ 1
unfolding more_than_once lookup
not_more_than_once target [] h = omega arith
not_more_than_once target ((key, count) ∷ counts) h = elim (Bool-cases (ltb 1 count)) [
  | inl many ↦ elim (Bool-cases (key == target)) [
    | inl same ↦ absurd (cc (rw (many, same) at h))
    | inr other ↦ rw other (not_more_than_once target counts (rw (many, other) at h))
  ]
  | inr few ↦ elim (Bool-cases (key == target)) [
    | inl same ↦ rw same (ground arith)
    | inr other ↦ rw other (not_more_than_once target counts (rw few at h))
  ]
]

-- A target that is not filed as duplicated is that of at most one policy of the snapshot.
pub duplicate_targets_sound :
    (target : WnpTarget) (m : PolicyMap)
    → is_duplicate target (duplicate_targets m) ≡ false
    → policies_with target m ≤ 1
unfolding duplicate_targets
duplicate_targets_sound target m h =
    let counted = count_of-count_targets target m [] in
    let few = not_more_than_once target (count_targets m []) h in omega (arith, counted, few)
