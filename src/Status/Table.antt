-- ===== src/Status/Table.antt =====
-- A slice of records with distinct keys, as a table: finding by key, and what the updates of the
-- merge do to it.
use network_enforcer.Common.{
  ℕ, zero, suc, ◌≡◌, ◌≢◌, refl, sym, ap, ◌∙◌, List, [], ◌∷◌, ◌++◌, Option, none, some, arith,
  Comparable, ◌==◌, eq-false, ne_of_eq-false, if◌then◌else◌, length, take, ltb, All, Bool-cases,
  inl, inr, All-append, All-take,
}
use mathlib.Core.Option
use network_enforcer.Status.Sorting.{insert_newest, sort_newest, All-insert_newest, All-sort_newest}

-- an element changed in place
unfoldable pub modify {ℓ} : {A : Type ℓ} → (A → A) → List A → ℕ → List A
modify f [] i = []
modify f (x ∷ xs) zero = f x ∷ xs
modify f (x ∷ xs) (suc i) = x ∷ modify f xs i

module _ {ℓ κ} {A : Type ℓ} {K : Type κ} ⦃e : Comparable K⦄ (key : A → K) where
  unfoldable pub find : K → List A → Option A
  find k [] = none
  find k (x ∷ xs) = if key x == k then some x else find k xs

  unfoldable pub position : K → List A → Option ℕ
  position k [] = none
  position k (x ∷ xs) =
      let rest = Option.map suc (position k xs) in if key x == k then some 0 else rest

  abbrev pub Distinct : List A → Type κ
  Distinct [] = Unit
  Distinct (x ∷ xs) = All (λ y. key y ≢ key x) xs × Distinct xs

  pub position-none : (k : K) (xs : List A) → position k xs ≡ none → find k xs ≡ none
  unfolding find position
  position-none k [] h = refl
  position-none k (x ∷ xs) h = ground (arith, position-none k xs)

  -- A key that has a position has a record.
  pub position-some : (k : K) (xs : List A) → position k xs ≢ none → (x : A) × (find k xs ≡ some x)
  unfolding find position
  position-some k [] h = absurd (h refl)
  position-some k (x ∷ xs) h = elim (Bool-cases (key x == k)) [
    | inl here ↦ rw here (x, refl)
    | inr other ↦ rw other (position-some k xs (λ e. h (rw (other, e))))
  ]

  pub find-none_of_All : (k : K) (xs : List A) → All (λ y. key y ≢ k) xs → find k xs ≡ none
  unfolding find
  find-none_of_All k [] h = refl
  find-none_of_All k (x ∷ xs) h = rw (eq-false (key x) k h.0) (find-none_of_All k xs h.1)

  pub All-of_find-none : (k : K) (xs : List A) → find k xs ≡ none → All (λ y. key y ≢ k) xs
  unfolding find
  All-of_find-none k [] h = tt
  All-of_find-none k (x ∷ xs) h = elim (Bool-cases (key x == k)) [
    | inl found ↦ cc (ap (λ b. if b then some x else find k xs) (sym found) ∙ h)
    | inr other ↦ (ne_of_eq-false (key x) k other, All-of_find-none k xs (rw other at h))
  ]

  pub find-append :
      (k : K) (xs : List A) (y : A)
      → find k (xs ++ y ∷ [])
        ≡ (elim (find k xs) [ some x ↦ some x | none ↦ if key y == k then some y else none ])
  unfolding find
  find-append k [] y = refl
  find-append k (x ∷ xs) y = ground (arith, find-append k xs y)

  pub position-append :
      (k : K) (xs : List A) (y : A)
      → position k (xs ++ y ∷ []) ≡ (elim (position k xs) [
        | some i ↦ some i
        | none ↦ if key y == k then some (length xs) else none
      ])
  unfolding position
  position-append k [] y = refl
  position-append k (x ∷ xs) y = ground (arith, position-append k xs y)

  module _ (f : A → A) (same : (x : A) → key (f x) ≡ key x) where
    pub find-modify :
        (k j : K) (xs : List A) (i : ℕ)
        → position k xs ≡ some i
        → find j (modify f xs i) ≡ (if k == j then Option.map f (find j xs) else find j xs)
    unfolding find position modify
    find-modify k j [] i h = cc
    find-modify k j (x ∷ xs) zero h =
        ground (arith, same x, e.equals_iff (key x) k, e.equals_iff k j, e.equals_iff (key x) j)
    find-modify k j (x ∷ xs) (suc i) h = ground (
      arith,
      find-modify k j xs i,
      e.equals_iff (key x) k,
      e.equals_iff k j,
      e.equals_iff (key x) j,
    )

    pub position-modify : (j : K) (xs : List A) (i : ℕ) → position j (modify f xs i) ≡ position j xs
    unfolding position modify
    position-modify j [] i = refl
    position-modify j (x ∷ xs) zero = rw (same x)
    position-modify j (x ∷ xs) (suc i) = rw (position-modify j xs i)

    pub All-modify {μ} :
        (P : A → Type μ) (xs : List A) (i : ℕ)
        → ((x : A) → P x → P (f x))
        → All P xs
        → All P (modify f xs i)
    unfolding modify
    All-modify P [] i keep h = tt
    All-modify P (x ∷ xs) zero keep h = (keep x h.0, h.1)
    All-modify P (x ∷ xs) (suc i) keep h = (h.0, All-modify P xs i keep h.1)

    pub Distinct-modify : (xs : List A) (i : ℕ) → Distinct xs → Distinct (modify f xs i)
    unfolding modify
    Distinct-modify [] i h = tt
    Distinct-modify (x ∷ xs) zero h = rw (same x) h
    Distinct-modify (x ∷ xs) (suc i) h =
        (All-modify (λ y. key y ≢ key x) xs i (λ y p. rw (same y) p) h.0, Distinct-modify xs i h.1)

  All-ne-append :
      (x : A) (xs : List A) (y : A)
      → All (λ z. key z ≢ key x) xs
      → key y ≢ key x
      → All (λ z. key z ≢ key x) (xs ++ y ∷ [])
  All-ne-append x xs y h p = All-append (λ z. key z ≢ key x) xs (y ∷ []) h (p, tt)

  pub Distinct-append :
      (xs : List A) (y : A) → Distinct xs → All (λ z. key z ≢ key y) xs → Distinct (xs ++ y ∷ [])
  Distinct-append [] y h a = (tt, tt)
  Distinct-append (x ∷ xs) y h a =
      (All-ne-append x xs y h.0 (λ p. a.0 (sym p)), Distinct-append xs y h.1 a.1)

  pub Distinct-take : (n : ℕ) (xs : List A) → Distinct xs → Distinct (take n xs)
  Distinct-take zero xs h = tt
  Distinct-take (suc n) [] h = tt
  Distinct-take (suc n) (x ∷ xs) h =
      (All-take (λ y. key y ≢ key x) n xs h.0, Distinct-take n xs h.1)

  module _ (time : A → ℕ) where
    Distinct-insert_newest :
        (x : A) (xs : List A)
        → All (λ z. key z ≢ key x) xs
        → Distinct xs
        → Distinct (insert_newest time x xs)
    unfolding insert_newest
    Distinct-insert_newest x [] a h = (tt, tt)
    Distinct-insert_newest x (y ∷ ys) a h = elim (Bool-cases (ltb (time x) (time y))) [
      | inl older ↦ rw older (
        All-insert_newest time (λ z. key z ≢ key y) x ys (λ p. a.0 (sym p)) h.0,
        Distinct-insert_newest x ys a.1 h.1,
      )
      | inr newer ↦ rw newer (a, h)
    ]

    pub Distinct-sort_newest : (xs : List A) → Distinct xs → Distinct (sort_newest time xs)
    unfolding sort_newest
    Distinct-sort_newest [] h = tt
    Distinct-sort_newest (x ∷ xs) h =
        Distinct-insert_newest x (sort_newest time xs)
          (All-sort_newest time (λ z. key z ≢ key x) xs h.0) (Distinct-sort_newest xs h.1)

    find-insert_newest :
        (k : K) (x : A) (xs : List A)
        → All (λ z. key z ≢ key x) xs
        → find k (insert_newest time x xs) ≡ find k (x ∷ xs)
    unfolding find insert_newest
    find-insert_newest k x [] a = refl
    find-insert_newest k x (y ∷ ys) a =
        ground (
          arith,
          a.0,
          find-insert_newest k x ys a.1,
          e.equals_iff (key x) k,
          e.equals_iff (key y) k,
        )

    -- Sorting moves no record to another key.
    pub find-sort_newest :
        (k : K) (xs : List A) → Distinct xs → find k (sort_newest time xs) ≡ find k xs
    unfolding find sort_newest
    find-sort_newest k [] h = refl
    find-sort_newest k (x ∷ xs) h =
        find-insert_newest k x (sort_newest time xs)
          (All-sort_newest time (λ z. key z ≢ key x) xs h.0)
        ∙ ap (λ o. if key x == k then some x else o) (find-sort_newest k xs h.1)

  -- What a cut list finds, the whole list finds.
  pub find-take :
      (k : K) (n : ℕ) (xs : List A) {x : A} → find k (take n xs) ≡ some x → find k xs ≡ some x
  unfolding find
  find-take k zero xs h = cc
  find-take k (suc n) [] h = cc
  find-take k (suc n) (y ∷ xs) {x} h = ground (arith, find-take k n xs {x = x})
