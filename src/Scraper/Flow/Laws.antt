-- ===== src/Scraper/Flow/Laws.antt =====
-- internal/scraper/flow_parser_helpers.go: ports in range, and what resolution keeps.
use network_enforcer.Common.{
  ℕ, ◌≤◌, ◌<◌, ◌^◌, ◌≡◌, refl, sym, ◌∙◌, String, Option, none, some, inl, inr, ◌⊎◌, ◌↔◌, arith,
  Bool-cases, ◌==◌, ◌≢◌, ne_of_eq-false, string_eq, eq-true,
}
use network_enforcer.Common.Int.{ℤ, pos, negsuc}
use network_enforcer.Common.Result.{Result, ok, value_or}
use network_enforcer.Common.Text.Decimal.{parse_int, format_int, parse_int-format_int}
use network_enforcer.Api.Kube.{NamespacedName, policy_type_ingress}
use network_enforcer.Api.Types.{WorkloadRef, Observation}
use network_enforcer.Workload.{Client, resolve_denying_policy}
use network_enforcer.Enrich.Laws.{Keeps}
use network_enforcer.Scraper.Flow.{
  FlowError, parse_port, check_port, port_to_int32, process_flow_record_violation, subject_of,
  peer_of, resolved_ends, set_denying_policy, resolve_violation_denying_policy, with_subject,
}

-- a number from `low` to 65535
unfoldable pub IsPort : ℕ → ℤ → Type 0
IsPort low port = (n : ℕ) × (port ≡ pos n) × (low ≤ n) × (n ≤ 65535)

pub port_to_int32_sound :
    (port result : ℤ) → port_to_int32 port ≡ ok result → (result ≡ port) × IsPort 0 result
unfolding port_to_int32 IsPort
port_to_int32_sound (pos n) result h = ground arith
port_to_int32_sound (negsuc n) result h = ground arith

check_port_sound :
    (parsed : Option ℤ) (result : ℤ) → check_port parsed ≡ ok result → IsPort 1 result
unfolding IsPort port_to_int32
check_port_sound none result h = cc
check_port_sound (some (pos n)) result h = ground arith
check_port_sound (some (negsuc n)) result h = ground arith

check_port-pos : (n : ℕ) → 1 ≤ n → n ≤ 65535 → check_port (some (pos n)) ≡ ok (pos n)
unfolding port_to_int32
check_port-pos n low high = ground arith

pub parse_port_sound : (port : String) (result : ℤ) → parse_port port ≡ ok result → IsPort 1 result
unfolding parse_port
parse_port_sound port result h = check_port_sound (parse_int (2 ^ 31) port) result h

port_of : (n : ℕ) → IsPort 1 (pos n) → (1 ≤ n) × (n ≤ 65535)
unfolding IsPort
port_of n (m, e, low, high) = ground arith

-- The decimal form of a number below 2^31 is read as a port exactly when the number is from 1 to
-- 65535.
pub parse_port-format_int :
    (n : ℕ) → n < 2 ^ 31 → (parse_port (format_int (pos n)) ≡ ok (pos n)) ↔ ((1 ≤ n) × (n ≤ 65535))
unfolding parse_port
parse_port-format_int n fits =
    rw (parse_int-format_int (2 ^ 31) n fits)
      ((λ h. port_of n (check_port_sound (some (pos n)) (pos n) h)), λ r. check_port-pos n r.0 r.1)

abbrev SameEnds : Observation → Observation → Type 0
SameEnds observation result =
    (result.info.source ≡ observation.info.source) × (result.info.dest ≡ observation.info.dest)

-- the policy is as before
abbrev pub SamePolicy : Observation → Observation → Type 0
SamePolicy observation result =
    (result.info.denying_policy_name ≡ observation.info.denying_policy_name)
    × (result.info.denying_policy_namespace ≡ observation.info.denying_policy_namespace)

module _ (c : Client) where
  -- The policy is the reported one; where none is reported, it is the one that targets the subject, and
  -- where there is none either, it stays as it was.
  unfoldable pub PolicyResolved : Observation → Observation → Type 0
  PolicyResolved observation result =
      ((observation.info.denying_policy_name ≢ "") × SamePolicy observation result)
      ⊎ ((observation.info.denying_policy_name ≡ "")
          × (resolve_denying_policy c (subject_of result) result.direction ≡ none)
          × SamePolicy observation result)
      ⊎ ((observation.info.denying_policy_name ≡ "")
          × (resolve_denying_policy c (subject_of result) result.direction
              ≡ some (record {
                namespace = result.info.denying_policy_namespace;
                name = result.info.denying_policy_name;
              })))

  set_denying_policy_lem :
      (observation : Observation) (policy : Option NamespacedName)
      → observation.info.denying_policy_name ≡ ""
      → resolve_denying_policy c (subject_of observation) observation.direction ≡ policy
      → let result = set_denying_policy observation policy in
        PolicyResolved observation result × Keeps observation result × SameEnds observation result
  unfolding PolicyResolved Keeps
  set_denying_policy_lem observation none e h =
      (inr (inl (e, h, (refl, refl))), (refl, refl, refl, refl, refl, refl), (refl, refl))
  set_denying_policy_lem observation (some policy) e h =
      (inr (inr (e, h)), (refl, refl, refl, refl, refl, refl), (refl, refl))

  resolve_violation_denying_policy_lem :
      (observation : Observation)
      → let result = resolve_violation_denying_policy c observation in
        PolicyResolved observation result × Keeps observation result × SameEnds observation result
  unfolding resolve_violation_denying_policy PolicyResolved Keeps
  resolve_violation_denying_policy_lem observation =
      elim (Bool-cases (observation.info.denying_policy_name == "")) [
        | inl e ↦ rw e (set_denying_policy_lem observation _ (eq-true _ _ e) refl)
        | inr e ↦ rw e (
          inl (ne_of_eq-false _ _ e, (refl, refl)),
          (refl, refl, refl, refl, refl, refl),
          (refl, refl),
        )
      ]

-- the two ends after the resolution of the subject
resolved_ends_lem :
    (observation : Observation) (subject peer : WorkloadRef)
    → let result = resolved_ends observation subject peer in
      (subject_of result ≡ subject)
      × (peer_of result ≡ peer)
      × Keeps observation result
      × (result.info.denying_policy_name ≡ observation.info.denying_policy_name)
      × (result.info.denying_policy_namespace ≡ observation.info.denying_policy_namespace)
unfolding Keeps
resolved_ends_lem observation subject peer =
    elim (Bool-cases (observation.direction == policy_type_ingress)) [
      | inl e ↦ rw e (rw e refl, rw e refl, (refl, refl, refl, refl, refl, refl), refl, refl)
      | inr e ↦ rw e (rw e refl, rw e refl, (refl, refl, refl, refl, refl, refl), refl, refl)
    ]

Keeps-trans : (a b d : Observation) → Keeps a b → Keeps b d → Keeps a d
unfolding Keeps
Keeps-trans a b d (p1, p2, p3, p4, p5, p6) (q1, q2, q3, q4, q5, q6) =
    (q1 ∙ p1, q2 ∙ p2, q3 ∙ p3, q4 ∙ p4, q5 ∙ p5, q6 ∙ p6)

Keeps-subject :
    (a b : Observation)
    → Keeps a b
    → SameEnds a b
    → (subject_of b ≡ subject_of a) × (peer_of b ≡ peer_of a)
unfolding Keeps
Keeps-subject a b (p1, direction, p3, p4, p5, p6) (source, dest) =
    (rw (direction, source, dest) refl, rw (direction, source, dest) refl)

module _ (resolve_workload : WorkloadRef → Result FlowError WorkloadRef) (c : Client) where
  PolicyResolved-weaken :
      (a b d : Observation)
      → b.info.denying_policy_name ≡ a.info.denying_policy_name
      → b.info.denying_policy_namespace ≡ a.info.denying_policy_namespace
      → PolicyResolved c b d
      → PolicyResolved c a d
  unfolding PolicyResolved
  PolicyResolved-weaken a b d n ns (inl (e, (same, same'))) =
      inl ((λ h. e (n ∙ h)), (same ∙ n, same' ∙ ns))
  PolicyResolved-weaken a b d n ns (inr (inl (e, h, (same, same')))) =
      inr (inl (sym n ∙ e, h, (same ∙ n, same' ∙ ns)))
  PolicyResolved-weaken a b d n ns (inr (inr (e, h))) = inr (inr (sym n ∙ e, h))

  pub with_subject_lem :
      (observation : Observation) (subject : WorkloadRef)
      → (result : Observation) × (with_subject resolve_workload c observation (ok subject)
          ≡ process_flow_record_violation result)
        × Keeps observation result
        × (subject_of result ≡ subject)
        × (peer_of result ≡ value_or (peer_of observation) (resolve_workload (peer_of observation)))
        × PolicyResolved c observation result
  unfolding Keeps PolicyResolved
  with_subject_lem observation subject =
      let peer = value_or (peer_of observation) (resolve_workload (peer_of observation)) in
      let ends = resolved_ends observation subject peer in
      let (s, p, kept, n, ns) = resolved_ends_lem observation subject peer in
      let (policy, kept', same) = resolve_violation_denying_policy_lem c ends in
      let result = resolve_violation_denying_policy c ends in
      let (subject_same, peer_same) = Keeps-subject ends result kept' same in
      (
        result,
        refl,
        Keeps-trans observation ends result kept kept',
        subject_same ∙ s,
        peer_same ∙ p,
        PolicyResolved-weaken observation ends result n ns policy,
      )
