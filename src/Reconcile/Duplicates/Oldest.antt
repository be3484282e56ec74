-- ===== src/Reconcile/Duplicates/Oldest.antt =====
-- internal/controller/workloadnetworkpolicy_duplicate_target.go: the oldest policy of a target.
use mathlib.Core.Path.{subst}
use network_enforcer.Common.{
  String, List, [], ◌∷◌, Option, none, some, Bool, true, false, ◌≡◌, refl, sym, ap, ◌∙◌, arith,
  ◌==◌, IsIn, zero, suc, ◌↔◌, ◌⊎◌, ◌<◌, ◌≤◌, length, ltb, if◌then◌else◌, eq_iff, All, string_eq,
  Bool-cases, inl, inr,
}
use network_enforcer.Api.Kube.{NamespacedName}
use network_enforcer.Api.Types.{WorkloadNetworkPolicy}
use network_enforcer.Attribution.Snapshot.{wnp_target_key}
use network_enforcer.Reconcile.Duplicates.{
  older, oldest_from, Conflict, conflict_of, check_target, check_duplicate_target,
}

some_inj {ℓ} : {A : Type ℓ} {a b : A} → some a ≡ some b → a ≡ b
some_inj h = ground arith

-- strings.Compare orders texts: of two at most one is before the other, and not to be before is
-- transitive.
module _ (text_ltb : String → String → Bool)
    (asymmetric : (a b : String) → text_ltb a b ≡ true → text_ltb b a ≡ false)
    (chain : (a b c : String)
      → text_ltb a b ≡ false
      → text_ltb b c ≡ false
      → text_ltb a c ≡ false) where
  -- `a` was created before `b`, or at the same time and its name is not after that of `b`
  abbrev pub IsNoNewer : WorkloadNetworkPolicy → WorkloadNetworkPolicy → Type 0
  IsNoNewer a b =
      (a.meta.creation_timestamp < b.meta.creation_timestamp)
      ⊎ ((a.meta.creation_timestamp ≡ b.meta.creation_timestamp)
          × (text_ltb b.meta.name a.meta.name ≡ false))

  not_older-IsNoNewer : (a b : WorkloadNetworkPolicy) → older text_ltb b a ≡ false → IsNoNewer a b
  not_older-IsNoNewer a b h =
      elim (Bool-cases (ltb b.meta.creation_timestamp a.meta.creation_timestamp)) [
        | inl e ↦ absurd (cc (rw e at h))
        | inr e ↦ elim (Bool-cases (ltb a.meta.creation_timestamp b.meta.creation_timestamp)) [
          | inl l ↦ inl (ground arith)
          | inr l ↦ inr (ground arith, rw (e, l) at h)
        ]
      ]

  IsNoNewer-trans : (a b c : WorkloadNetworkPolicy) → IsNoNewer a b → IsNoNewer b c → IsNoNewer a c
  IsNoNewer-trans a b c (inl h) (inl k) = inl (omega arith)
  IsNoNewer-trans a b c (inl h) (inr (k, n)) = inl (omega arith)
  IsNoNewer-trans a b c (inr (h, m)) (inl k) = inl (omega arith)
  IsNoNewer-trans a b c (inr (h, m)) (inr (k, n)) =
      inr (h ∙ k, chain c.meta.name b.meta.name a.meta.name n m)

  older-IsNoNewer : (a b : WorkloadNetworkPolicy) → older text_ltb a b ≡ true → IsNoNewer a b
  older-IsNoNewer a b h =
      elim (Bool-cases (ltb a.meta.creation_timestamp b.meta.creation_timestamp)) [
        | inl l ↦ inl (ground arith)
        | inr l ↦ elim (Bool-cases (ltb b.meta.creation_timestamp a.meta.creation_timestamp)) [
          | inl e ↦ absurd (cc (rw (l, e) at h))
          | inr e ↦ inr (ground arith, asymmetric a.meta.name b.meta.name (rw (l, e) at h))
        ]
      ]

  IsNoNewer-refl : (a : WorkloadNetworkPolicy) → IsNoNewer a a
  IsNoNewer-refl a = elim (Bool-cases (text_ltb a.meta.name a.meta.name)) [
    | inl e ↦ inr (refl, asymmetric a.meta.name a.meta.name e)
    | inr e ↦ inr (refl, e)
  ]

  IsIn-insert :
      (x best w : WorkloadNetworkPolicy) (ws : List WorkloadNetworkPolicy)
      → IsIn x (best ∷ ws)
      → IsIn x (best ∷ w ∷ ws)
  IsIn-insert x best w ws (zero, e) = (0, e)
  IsIn-insert x best w ws (suc i, e) = (suc (suc i), e)

  -- one of the policies that none of them is older than
  abbrev pub IsOldest : List WorkloadNetworkPolicy → WorkloadNetworkPolicy → Type 0
  IsOldest items oldest = IsIn oldest items × All (λ w. IsNoNewer oldest w) items

  -- the best so far and the policies that are left
  oldest_from-IsOldest :
      (best : WorkloadNetworkPolicy) (ws : List WorkloadNetworkPolicy)
      → IsOldest (best ∷ ws) (oldest_from text_ltb best ws)
  unfolding oldest_from
  oldest_from-IsOldest best [] = ((0, refl), (IsNoNewer-refl best, tt))
  oldest_from-IsOldest best (w ∷ ws) = elim (Bool-cases (older text_ltb w best)) [
    | inl e ↦
        let (m, (h, rest)) = oldest_from-IsOldest w ws in
        subst (IsOldest (best ∷ w ∷ ws))
          (ap (λ b. oldest_from text_ltb (if b then w else best) ws) (sym e))
          (
            (suc m.0, m.1),
            (
              IsNoNewer-trans (oldest_from text_ltb w ws) w best h (older-IsNoNewer w best e),
              (h, rest),
            ),
          )
    | inr e ↦
        let (m, (h, rest)) = oldest_from-IsOldest best ws in
        subst (IsOldest (best ∷ w ∷ ws))
          (ap (λ b. oldest_from text_ltb (if b then w else best) ws) (sym e))
          (
            IsIn-insert (oldest_from text_ltb best ws) best w ws m,
            (
              h,
              (
                IsNoNewer-trans (oldest_from text_ltb best ws) best w h
                    (not_older-IsNoNewer best w e),
                rest,
              ),
            ),
          )
  ]

  -- What a conflict says of the listed policies: there are two or more, the oldest is one of them that
  -- none is older than, and the policy is the winner exactly when it has the name of the oldest.
  abbrev pub IsConflict :
      WorkloadNetworkPolicy → List WorkloadNetworkPolicy → Conflict text_ltb → Type 0
  IsConflict wnp items c =
      (2 ≤ length items)
      × IsOldest items c.oldest
      × ((c.winner ≡ true) ↔ (c.oldest.meta.name ≡ wnp.meta.name))

  conflict_of_sound :
      (wnp : WorkloadNetworkPolicy) (o : Option (List WorkloadNetworkPolicy))
      (c : Conflict text_ltb)
      → conflict_of text_ltb wnp o ≡ some (some c)
      → (items : List WorkloadNetworkPolicy) × (o ≡ some items) × IsConflict wnp items c
  conflict_of_sound wnp none c h = cc
  conflict_of_sound wnp (some []) c h = cc
  conflict_of_sound wnp (some (w ∷ [])) c h = cc
  conflict_of_sound wnp (some (w ∷ v ∷ ws)) c h =
      let seen : Conflict text_ltb = record {
        oldest = oldest_from text_ltb w (v ∷ ws);
        winner = (oldest_from text_ltb w (v ∷ ws)).meta.name == wnp.meta.name;
      } in
      let same : seen ≡ c = cc in
      (
        w ∷ v ∷ ws,
        refl,
        subst (IsConflict wnp (w ∷ v ∷ ws)) same
            (omega arith, oldest_from-IsOldest w (v ∷ ws), eq_iff _ _),
      )

  check_target_sound :
      (list_by_target : String → String → Option (List WorkloadNetworkPolicy))
      (wnp : WorkloadNetworkPolicy) (target : Option NamespacedName) (c : Conflict text_ltb)
      → check_target text_ltb list_by_target wnp target ≡ some (some c)
      → (key : NamespacedName) × (target ≡ some key)
        × (items : List WorkloadNetworkPolicy) × (list_by_target wnp.meta.namespace key.name
            ≡ some items)
        × IsConflict wnp items c
  check_target_sound list_by_target wnp none c h = cc
  check_target_sound list_by_target wnp (some key) c h =
      let (items, e, found) = conflict_of_sound wnp _ c h in (key, refl, items, e, found)

  -- A conflict is seen only where List answers with two or more policies for the policy's target. Its
  -- oldest policy is one of those listed, and none of them was created before it, or with it under a
  -- name that comes before its own; the policy is the winner, which renders, exactly when it has the
  -- name of the oldest.
  pub check_duplicate_target_sound :
      (list_by_target : String → String → Option (List WorkloadNetworkPolicy))
      (wnp : WorkloadNetworkPolicy) (c : Conflict text_ltb)
      → check_duplicate_target text_ltb list_by_target wnp ≡ some (some c)
      → (key : NamespacedName) × (wnp_target_key wnp ≡ some key)
        × (items : List WorkloadNetworkPolicy) × (list_by_target wnp.meta.namespace key.name
            ≡ some items)
        × IsConflict wnp items c
  unfolding check_duplicate_target
  check_duplicate_target_sound list_by_target wnp c h =
      check_target_sound list_by_target wnp (wnp_target_key wnp) c h
