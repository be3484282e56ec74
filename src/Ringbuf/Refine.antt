-- ===== src/Ringbuf/Refine.antt =====
-- A buffer behaves as a list of at most `capacity` records, newest first.
use network_enforcer.Common.{
  ℕ, ◌+◌, ◌^◌, ◌<◌, ◌≡◌, refl, some, List, [], ◌∷◌, arith, leb, length, take,
}
use network_enforcer.Common.Int.{ℤ}
use network_enforcer.Ringbuf.{
  Buffer, Op, add, take_all, Reply, added, taken, run, new_with_size, size_or_default,
}
use network_enforcer.Ringbuf.Inv.{Holds, record_item_lem, drain_lem, Holds-new_with_size}

module _ {ℓ} {T : Type ℓ} where
  -- The specification: a history of everything recorded since the last drain, of which a drain
  -- hands out the newest `capacity`.
  unfoldable pub replies : ℕ → List T → List (Op T) → List (Reply T)
  replies capacity history [] = []
  replies capacity history (add x ∷ ops) =
      added (leb capacity (length history)) ∷ replies capacity (x ∷ history) ops
  replies capacity history (take_all ∷ ops) =
      taken (take capacity history) ∷ replies capacity [] ops

  -- From any state that holds a history, every sequence of calls gives the replies of the
  -- specification, with no panic, as long as fewer than 2^63 records can accumulate.
  pub run-replies :
      (ops : List (Op T)) (b : Buffer T) (history : List T)
      → Holds b history
      → length history + length ops < 2 ^ 63
      → run b ops ≡ some (replies b.capacity history ops)
  unfolding run replies
  run-replies [] b history h fits = refl
  run-replies (add x ∷ ops) b history h fits =
      let (b', e, c, h') = record_item_lem b history x h (omega arith) in
      let later = run-replies ops b' (x ∷ history) h' (omega arith) in ground (arith, e, c, later)
  run-replies (take_all ∷ ops) b history h fits =
      let (b', e, c, h') = drain_lem b history h in
      let later = run-replies ops b' [] h' (omega arith) in ground (arith, e, c, later)

  -- A new buffer of any requested size, used by fewer than 2^63 calls in any order, never panics
  -- and answers each call as the specification does.
  pub run-new_with_size :
      (zero_value : T) (size : ℤ) (ops : List (Op T))
      → length ops < 2 ^ 63
      → run (new_with_size zero_value size) ops ≡ some (replies (size_or_default size) [] ops)
  run-new_with_size zero_value size ops fits =
      unfold new_with_size in
      run-replies ops (new_with_size zero_value size) [] (Holds-new_with_size zero_value size)
        (omega arith)
