-- ===== src/Ringbuf/Inv.antt =====
-- What a buffer holds: the records since the last drain, newest first.
use native.Mathlib.Nat.{mod-lt, mod-eq_of_lt, mod-add-mod, mod-eq-sub-mod}
use native.Mathlib.Decide.{dec_lt}
use network_enforcer.Common.{
  ℕ, zero, suc, ◌+◌, ◌-◌, ◌%◌, ◌^◌, ◌≤◌, ◌<◌, min, ◌≡◌, ◌≢◌, refl, sym, ap, ◌∙◌, some, List, [],
  ◌∷◌, arith, leb, length, get_elem?, set, take, drop, take-drop, take-min, take-nil, Bool-cases,
  nat_beq, nat_beq_iff, inl, inr, get_elem?-of_lt, length-set, length-replicate, get_elem?-set_self,
  get_elem?-set_ne,
}
use network_enforcer.Common.Int.{ℤ}
use network_enforcer.Ringbuf.{
  Buffer, new_with_size, record_item, drain_from, drain, size_or_default,
}

-- A step back of less than a whole round ends at another slot.
mod-ne : (n d cap : ℕ) → 0 < d → d < cap → d ≤ n → (n - d) % cap ≢ n % cap
mod-ne n d cap h k l e =
    let back = mod-add-mod (n - d) cap d in
    let whole : (n - d + d) % cap ≡ n % cap = ap (λ t. t % cap) (omega arith) in
    let small = mod-lt (n - d) {m = cap} (omega arith) in
    elim (dec_lt ((n - d) % cap + d) cap) [
      | yes p ↦ omega (arith, mod-eq_of_lt p)
      | no p ↦ omega (
        arith,
        mod-eq-sub-mod {n = (n - d) % cap + d} {m = cap} (omega arith),
        mod-eq_of_lt {n = (n - d) % cap + d - cap} {m = cap} (omega arith),
      )
    ]

module _ {ℓ} {T : Type ℓ} where
  -- `history` is what was recorded since the last drain, newest first. The position counts it, and
  -- the newest `capacity` records are in their slots.
  pub record Holds (b : Buffer T) (history : List T) : Type ℓ where
    pub some_room : 0 < b.capacity
    pub slots : length b.buf ≡ b.capacity
    pub counted : b.pos ≡ length history
    pub positive : b.pos < 2 ^ 63
    pub at :
        (i : ℕ)
        → i < length history
        → i < b.capacity
        → get_elem? b.buf ((b.pos - 1 - i) % b.capacity) ≡ get_elem? history i

  pub Holds-new_with_size : (zero_value : T) (size : ℤ) → Holds (new_with_size zero_value size) []
  unfolding new_with_size
  Holds-new_with_size zero_value size = record {
    some_room = ground arith;
    slots = length-replicate (size_or_default size) zero_value;
    counted = refl;
    positive = omega arith;
    at = λ i h k. absurd (omega arith);
  }

  -- The slot of the `i`-th newest record after a write.
  at-cons :
      (buf : List T) (pos capacity : ℕ) (history : List T) (x : T) (i : ℕ)
      → 0 < capacity
      → length buf ≡ capacity
      → pos ≡ length history
      → ((j : ℕ)
          → j < length history
          → j < capacity
          → get_elem? buf ((pos - 1 - j) % capacity) ≡ get_elem? history j)
      → i < suc (length history)
      → i < capacity
      → get_elem? (set buf (pos % capacity) x) ((pos + 1 - 1 - i) % capacity)
        ≡ get_elem? (x ∷ history) i
  at-cons buf pos capacity history x zero room slots counted at l k =
      let e : pos + 1 - 1 - 0 ≡ pos = omega arith in
      rw e (get_elem?-set_self buf (pos % capacity) x (omega (arith, mod-lt pos room)))
  at-cons buf pos capacity history x (suc i) room slots counted at l k =
      let e : pos + 1 - 1 - suc i ≡ pos - suc i = omega arith in
      let e' : pos - 1 - i ≡ pos - suc i = omega arith in
      let older = at i (omega arith) (omega arith) in
      rw e (
        get_elem?-set_ne buf x
          (λ p. mod-ne pos (suc i) capacity (omega arith) k (omega arith) (sym p))
        ∙ (rw e' at older))

  -- One more record: never a panic, dropped exactly when the buffer was full, and the record is the
  -- newest of the history.
  pub record_item_lem :
      (b : Buffer T) (history : List T) (x : T)
      → Holds b history
      → suc (length history) < 2 ^ 63
      → (b' : Buffer T) × (record_item b x ≡ some (leb b.capacity (length history), b'))
        × (b'.capacity ≡ b.capacity)
        × Holds b' (x ∷ history)
  unfolding record_item
  record_item_lem b history x h fits = (
    record b { buf = set b.buf (b.pos % b.capacity) x; pos = (b.pos + 1) % 2 ^ 64 },
    ground (arith, mod-lt b.pos h.some_room),
    refl,
    record {
      some_room = h.some_room;
      slots = length-set b.buf (b.pos % b.capacity) x ∙ h.slots;
      counted = omega (arith, h.counted);
      positive = omega (arith, h.counted);
      at = λ i l k.
          let e : (b.pos + 1) % 2 ^ 64 ≡ b.pos + 1 = omega (arith, h.positive) in
          rw e (at-cons b.buf b.pos b.capacity history x i h.some_room h.slots h.counted h.at l k);
    },
  )

  drain_from_lem :
      (b : Buffer T) (history : List T)
      → Holds b history
      → (rounds i : ℕ) → i + rounds ≤ min (length history) b.capacity
      → drain_from b i rounds ≡ some (take rounds (drop i history))
  unfolding drain_from
  drain_from_lem b history h zero i fits = refl
  drain_from_lem b history h (suc rounds) i fits =
      let (x, e) = get_elem?-of_lt history i (omega arith) in
      let slot = h.at i (omega arith) (omega arith) ∙ e in
      let later = drain_from_lem b history h rounds (i + 1) (omega arith) in
      let n : i + 1 ≡ suc i = omega arith in
      rw (slot, later, n) (ap some (sym (take-drop rounds i history e)))

  nothing_held :
      (b : Buffer T) (history : List T)
      → Holds b history
      → min b.pos b.capacity ≡ 0
      → (history ≡ []) × (b.pos ≡ 0)
  nothing_held b [] h e = (refl, h.counted)
  nothing_held b (x ∷ history) h e = absurd (omega (arith, h.counted, h.some_room))

  drain_from-all :
      (b : Buffer T) (history : List T)
      → Holds b history
      → drain_from b 0 (min b.pos b.capacity) ≡ some (take b.capacity history)
  drain_from-all b history h = simp h.counted (
      drain_from_lem b history h (min (length history) b.capacity) 0 (omega arith)
      ∙ ap some (take-min b.capacity history))

  drain-ok :
      (b : Buffer T) (history : List T)
      → Holds b history
      → drain b ≡ some (take b.capacity history, record b { pos = 0 })
  unfolding drain
  drain-ok b history h = elim (Bool-cases (nat_beq (min b.pos b.capacity) 0)) [
    | inl none_left ↦
        let (e, z) = nothing_held b history h ((nat_beq_iff _ _).0 none_left) in
        ground (arith, e, z, ap (take b.capacity) e, take-nil {A = T} b.capacity)
    | inr some_left ↦ ground (arith, drain_from-all b history h)
  ]

  -- Drain: never a panic, and the newest `capacity` records, newest first; nothing is left.
  pub drain_lem :
      (b : Buffer T) (history : List T)
      → Holds b history
      → (b' : Buffer T) × (drain b ≡ some (take b.capacity history, b'))
        × (b'.capacity ≡ b.capacity)
        × Holds b' []
  drain_lem b history h = (
    record b { pos = 0 },
    drain-ok b history h,
    refl,
    record {
      some_room = h.some_room;
      slots = h.slots;
      counted = refl;
      positive = omega arith;
      at = λ i l k. absurd (omega arith);
    },
  )
