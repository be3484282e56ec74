-- ===== src/Api/PolicyHelpers/Matching.antt =====
-- Comparing without order decides that one list is a rearrangement of the other.
use mathlib.Core.List.{Mem, Perm, mem-cons, not-mem-nil, mem-cons_self}
use mathlib.Core.List.Perm
use mathlib.Core.Logic.Or
use mathlib.Core.Option
use network_enforcer.Common.{
  ℕ, zero, suc, List, [], ◌∷◌, Option, none, some, Bool, true, false, ◌≡◌, ◌↔◌, refl, sym, ap, ◌∙◌,
  arith, Option-cases, Bool-cases, nat_beq, nat_beq_iff, inl, inr, length, length-map, map, set,
  replicate, if◌then◌else◌,
}
use network_enforcer.Common.Permutations.{length-perm}
use network_enforcer.Api.PolicyHelpers.{find_free, match_each, equal_unordered}

map-suc : (o : Option ℕ) (j : ℕ) → Option.map suc o ≡ some (suc j) → o ≡ some j
map-suc none j h = cc
map-suc (some i) j h = ground arith

map-suc-zero : (o : Option ℕ) → Option.map suc o ≡ some 0 → ⊥
map-suc-zero none h = cc
map-suc-zero (some i) h = ground arith

map-suc-none : (o : Option ℕ) → Option.map suc o ≡ none → o ≡ none
map-suc-none none h = refl
map-suc-none (some i) h = cc

not-zero : (j : ℕ) → some 0 ≡ some (suc j) → ⊥
not-zero j h = ground arith

found : ◌≡◌ {A = Option ℕ} (some 0) none → ⊥
found h = cc

nil_of_length {ℓ} : {A : Type ℓ} (xs : List A) → 0 ≡ length xs → xs ≡ []
nil_of_length [] h = refl
nil_of_length (x ∷ xs) h = absurd (omega arith)

module _ {ℓ κ} {T : Type ℓ} {K : Type κ} (eq : T → T → Bool) (view : T → K)
    (eq-view : (a b : T) → (eq a b ≡ true) ↔ (view a ≡ view b)) where
  -- what is still free, as it is seen
  abbrev remaining : List T → List Bool → List K
  remaining [] free = []
  remaining (r ∷ right) [] = []
  remaining (r ∷ right) (f ∷ free) =
      let rest = remaining right free in if f then view r ∷ rest else rest

  remaining-all :
      (right : List T) → remaining right (replicate (length right) true) ≡ map view right
  remaining-all [] = refl
  remaining-all (r ∷ right) = ap (λ l. view r ∷ l) (remaining-all right)

  find_free-some :
      (l : T) (right : List T) (free : List Bool) (j : ℕ)
      → find_free eq l right free ≡ some j
      → Perm (remaining right free) (view l ∷ remaining right (set free j false))
  unfolding find_free
  find_free-some l [] free j e = cc
  find_free-some l (r ∷ right) [] j e = cc
  find_free-some l (r ∷ right) (false ∷ free) zero e = absurd (map-suc-zero _ e)
  find_free-some l (r ∷ right) (false ∷ free) (suc j) e =
      find_free-some l right free j (map-suc _ j e)
  find_free-some l (r ∷ right) (true ∷ free) zero e = elim (Bool-cases (eq l r)) [
    | inl same ↦ Perm.cons' (sym ((eq-view l r).0 same)) (Perm.refl _)
    | inr other ↦ absurd (map-suc-zero _ (rw other at e))
  ]
  find_free-some l (r ∷ right) (true ∷ free) (suc j) e = elim (Bool-cases (eq l r)) [
    | inl same ↦ absurd (not-zero j (rw same at e))
    | inr other ↦
        Perm.trans
          (Perm.cons (view r) (find_free-some l right free j (map-suc _ j (rw other at e))))
          (Perm.swap _ _ _)
  ]

  find_free-none :
      (l : T) (right : List T) (free : List Bool)
      → find_free eq l right free ≡ none
      → Mem (view l) (remaining right free)
      → ⊥
  unfolding find_free
  find_free-none l [] free e m = not-mem-nil m
  find_free-none l (r ∷ right) [] e m = not-mem-nil m
  find_free-none l (r ∷ right) (false ∷ free) e m = find_free-none l right free (map-suc-none _ e) m
  find_free-none l (r ∷ right) (true ∷ free) e m = elim (Bool-cases (eq l r)) [
    | inl same ↦ found (rw same at e)
    | inr other ↦
        Or.elim (λ x. elim x [ ]) (mem-cons.0 m) (λ p. cc (other, (eq-view l r).1 p))
          (find_free-none l right free (map-suc-none _ (rw other at e)))
  ]

  match_each-perm :
      (left right : List T) (free : List Bool)
      → length left ≡ length (remaining right free)
      → (match_each eq left right free ≡ true) ↔ Perm (map view left) (remaining right free)
  unfolding match_each
  match_each-perm [] right free n = (λ _. rw (nil_of_length _ n) (Perm.refl []), λ _. refl)
  match_each-perm (l ∷ left) right free n = elim (Option-cases (find_free eq l right free)) [
    | inl e ↦
        rw (e, match_each)
          (
            λ h. cc,
            λ p. absurd (find_free-none l right free e (Perm.subset p (view l) mem-cons_self)),
          )
    | inr (j, e) ↦
        let p = find_free-some l right free j e in
        let ih = match_each-perm left right (set free j false) (omega (arith, length-perm p)) in
        rw (e, match_each)
          (
            λ h. Perm.trans (Perm.cons (view l) (ih.0 h)) (Perm.symm p),
            λ q. ih.1 (Perm.cons_inv (Perm.trans q p)),
          )
  ]

  -- Where `eq` compares what `view` shows, EqualUnordered accepts two slices exactly when what they
  -- show is the same up to order, each element as often.
  pub equal_unordered-perm :
      (left right : List T)
      → (equal_unordered eq left right ≡ true) ↔ Perm (map view left) (map view right)
  unfolding equal_unordered
  equal_unordered-perm left right = elim (Bool-cases (nat_beq (length left) (length right))) [
    | inl same ↦
        let free = replicate (length right) true in
        let all_free = remaining-all right in
        let sizes =
          (nat_beq_iff _ _).0 same ∙ sym (length-map view right) ∙ ap length (sym all_free) in
        rw (same, equal_unordered) (rw all_free at (match_each-perm left right free sizes))
    | inr other ↦
        rw (other, equal_unordered)
          (
            λ h. cc,
            λ p.
                let e = sym (length-map view left) ∙ length-perm p ∙ length-map view right in
                cc ((nat_beq_iff (length left) (length right)).1 e, other),
          )
  ]
