-- ===== src/Status/Sorting.antt =====
-- slices.SortStableFunc with the order newest first, and the cut at the maximal length.
use network_enforcer.Common.{
  ℕ, ◌≤◌, ◌≡◌, List, [], ◌∷◌, arith, ltb, if◌then◌else◌, length, take, All, Bool-cases, inl, inr,
  suc, zero, All-take, sym, take-all,
}
use mathlib.Core.List.{Perm}
use mathlib.Core.List.Perm
use network_enforcer.Common.Permutations.{length-perm}

module _ {ℓ} {A : Type ℓ} (time : A → ℕ) where
  -- An element that comes before another of the same time stays before it.
  unfoldable pub insert_newest : A → List A → List A
  insert_newest x [] = x ∷ []
  insert_newest x (y ∷ ys) =
      let later = insert_newest x ys in if ltb (time x) (time y) then y ∷ later else x ∷ y ∷ ys

  unfoldable pub sort_newest : List A → List A
  unfolding insert_newest
  sort_newest [] = []
  sort_newest (x ∷ xs) = insert_newest x (sort_newest xs)

  -- Each element is at least as new as all that follow it.
  abbrev pub IsNewestFirst : List A → Type 0
  IsNewestFirst [] = Unit
  IsNewestFirst (x ∷ xs) = All (λ y. time y ≤ time x) xs × IsNewestFirst xs

  pub All-insert_newest {κ} :
      (P : A → Type κ) (x : A) (xs : List A) → P x → All P xs → All P (insert_newest x xs)
  unfolding insert_newest
  All-insert_newest P x [] p h = (p, tt)
  All-insert_newest P x (y ∷ ys) p h = elim (Bool-cases (ltb (time x) (time y))) [
    | inl older ↦ rw older (h.0, All-insert_newest P x ys p h.1)
    | inr newer ↦ rw newer (p, h)
  ]

  pub All-sort_newest {κ} : (P : A → Type κ) (xs : List A) → All P xs → All P (sort_newest xs)
  unfolding sort_newest
  All-sort_newest P [] h = tt
  All-sort_newest P (x ∷ xs) h =
      All-insert_newest P x (sort_newest xs) h.0 (All-sort_newest P xs h.1)

  All-le : (m n : ℕ) (xs : List A) → m ≤ n → All (λ y. time y ≤ m) xs → All (λ y. time y ≤ n) xs
  All-le m n [] h a = tt
  All-le m n (x ∷ xs) h a = (omega arith, All-le m n xs h a.1)

  insert_newest-IsNewestFirst :
      (x : A) (xs : List A) → IsNewestFirst xs → IsNewestFirst (insert_newest x xs)
  unfolding insert_newest
  insert_newest-IsNewestFirst x [] h = (tt, tt)
  insert_newest-IsNewestFirst x (y ∷ ys) h = elim (Bool-cases (ltb (time x) (time y))) [
    | inl older ↦ rw older (
      All-insert_newest (λ z. time z ≤ time y) x ys (ground arith) h.0,
      insert_newest-IsNewestFirst x ys h.1,
    )
    | inr newer ↦
        let below : time y ≤ time x = ground arith in
        rw newer ((below, All-le (time y) (time x) ys below h.0), h)
  ]

  pub sort_newest-IsNewestFirst : (xs : List A) → IsNewestFirst (sort_newest xs)
  unfolding sort_newest
  sort_newest-IsNewestFirst [] = tt
  sort_newest-IsNewestFirst (x ∷ xs) =
      insert_newest-IsNewestFirst x (sort_newest xs) (sort_newest-IsNewestFirst xs)

  pub take-IsNewestFirst : (n : ℕ) (xs : List A) → IsNewestFirst xs → IsNewestFirst (take n xs)
  take-IsNewestFirst zero xs h = tt
  take-IsNewestFirst (suc n) [] h = tt
  take-IsNewestFirst (suc n) (x ∷ xs) h =
      (All-take (λ y. time y ≤ time x) n xs h.0, take-IsNewestFirst n xs h.1)

  insert_newest-perm : (x : A) (xs : List A) → Perm (insert_newest x xs) (x ∷ xs)
  unfolding insert_newest
  insert_newest-perm x [] = Perm.refl _
  insert_newest-perm x (y ∷ ys) = elim (Bool-cases (ltb (time x) (time y))) [
    | inl older ↦ rw older (Perm.trans (Perm.cons y (insert_newest-perm x ys)) (Perm.swap x y ys))
    | inr newer ↦ rw newer (Perm.refl _)
  ]

  pub sort_newest-perm : (xs : List A) → Perm (sort_newest xs) xs
  unfolding sort_newest
  sort_newest-perm [] = Perm.refl []
  sort_newest-perm (x ∷ xs) =
      Perm.trans (insert_newest-perm x (sort_newest xs)) (Perm.cons x (sort_newest-perm xs))

  pub length-sort_newest : (xs : List A) → length (sort_newest xs) ≡ length xs
  length-sort_newest xs = length-perm (sort_newest-perm xs)

-- the slice cut at `limit` elements, if it has more
abbrev pub cut_at {ℓ} : {A : Type ℓ} → ℕ → List A → List A
cut_at limit xs = if ltb limit (length xs) then take limit xs else xs

pub cut_at-take {ℓ} : {A : Type ℓ} (limit : ℕ) (xs : List A) → cut_at limit xs ≡ take limit xs
cut_at-take limit xs = elim (Bool-cases (ltb limit (length xs))) [
  | inl more ↦ rw more
  | inr few ↦ rw few (sym (take-all limit xs (ground arith)))
]
