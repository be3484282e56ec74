-- ===== src/Scraper/Reconnect/Laws.antt =====
-- internal/scraper/scraper_helpers.go: when the supervision of a stream ends.
use network_enforcer.Common.{
  List, [], ◌∷◌, ◌++◌, ◌≡◌, refl, ap, ◌∙◌, inl, inr, ◌⊎◌, true, false, ◌||◌, arith, All, Bool-cases,
}
use network_enforcer.Scraper.Reconnect.{
  Round, Supervision, running, shut_down, gave_up, run_stream_with_reconnect,
}

-- a stream that had connected was interrupted, and no one asked to stop
abbrev pub Survived : Round → Type 0
Survived round =
    (round.cancellation ≡ false)
    × (round.context_done ≡ false)
    × (round.successful_connection ≡ true)
    × (round.done_while_waiting ≡ false)

-- why a round ends the supervision, and how
abbrev pub Ends : Round → Supervision → Type 0
Ends round running = ⊥
Ends round shut_down = round.cancellation || round.context_done || round.done_while_waiting ≡ true
Ends round gave_up =
    (round.cancellation ≡ false)
    × (round.context_done ≡ false)
    × (round.successful_connection ≡ false)

-- the first round that ends it, after rounds that it survived
abbrev pub EndedBy : List Round → Supervision → Type 0
EndedBy rounds outcome =
    (early : List Round) × (round : Round) × (later : List Round) × (rounds
      ≡ early ++ round ∷ later)
    × All Survived early
    × Ends round outcome

round_lem :
    (round : Round) (rounds : List Round)
    → (Survived round
        × (run_stream_with_reconnect (round ∷ rounds) ≡ run_stream_with_reconnect rounds))
      ⊎ Ends round (run_stream_with_reconnect (round ∷ rounds))
unfolding run_stream_with_reconnect
round_lem round rounds = elim (Bool-cases (round.cancellation || round.context_done)) [
  | inl e ↦ rw e (inr (ground arith))
  | inr e ↦ elim (Bool-cases round.successful_connection) [
    | inr s ↦ rw (e, s) (inr (ground arith, ground arith, refl))
    | inl s ↦ elim (Bool-cases round.done_while_waiting) [
      | inl w ↦ rw (e, s, w) (inr (ground arith))
      | inr w ↦ rw (e, s, w) (inl ((ground arith, ground arith, refl, refl), refl))
    ]
  ]
]

-- However often a connected stream is interrupted, its supervision goes on: it ends exactly at the
-- first round that either is cancelled, or whose attempts all failed before a flow arrived. Only in
-- the second case it ends with an error.
pub run_stream_with_reconnect_sound :
    (rounds : List Round)
    → (All Survived rounds × (run_stream_with_reconnect rounds ≡ running))
      ⊎ EndedBy rounds (run_stream_with_reconnect rounds)
unfolding run_stream_with_reconnect
run_stream_with_reconnect_sound [] = inl (tt, refl)
run_stream_with_reconnect_sound (round ∷ rounds) = elim (round_lem round rounds) [
  | inr e ↦ inr ([], round, rounds, refl, tt, e)
  | inl (survived, same) ↦ elim (run_stream_with_reconnect_sound rounds) [
    | inl (all, run) ↦ inl ((survived, all), same ∙ run)
    | inr (early, last, later, e, all, ends) ↦
        inr (round ∷ early, last, later, ap (λ l. round ∷ l) e, (survived, all), rw same ends)
  ]
]
