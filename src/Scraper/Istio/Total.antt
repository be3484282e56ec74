-- ===== src/Scraper/Istio/Total.antt =====
-- internal/scraper/istio_scraper.go: no request is a panic.
use network_enforcer.Common.{
  ℕ, suc, ◌+◌, ◌^◌, ◌<◌, String, List, [], ◌∷◌, ◌≡◌, refl, inl, inr, Option, none, some, ◌||◌, ◌==◌,
  string_eq, Bool-cases, arith, length,
}
use network_enforcer.Api.Types.{Observation, LearningEvent}
use network_enforcer.Ringbuf.Inv.{Holds, record_item_lem}
use network_enforcer.Scraper.Attributes.{attr, attr_map}
use network_enforcer.Scraper.Pipeline.{
  Pipeline, enqueue_learning_event, record_observation, emit_otel_log,
}
use network_enforcer.Scraper.Pipeline.Laws.{DumpFits, dump_flow_lem}
use network_enforcer.Scraper.Istio.{
  LogRecord, ResourceLogs, Scraper, handle_record, record_policy_event, enqueue_event_of,
  export_record, export_records, export_scopes, export, event_type_key, event_type_learn,
  event_type_monitor, event_type_protect,
}

-- The buffer of violations, and that of dumps, take this many more.
unfoldable pub Room : ℕ → Pipeline → Type 0
Room n p = (history : List Observation) × Holds p.violations history × (length history + n < 2 ^ 63)

unfoldable pub Ready : ℕ → Pipeline → Type 0
Ready n p = Room n p × DumpFits n p.dumped

-- how many records there are, on top of a number
unfoldable pub count_records : List LogRecord → ℕ → ℕ
count_records [] n = n
count_records (rec ∷ records) n = suc (count_records records n)

unfoldable pub count_scopes : List (List LogRecord) → ℕ → ℕ
count_scopes [] n = n
count_scopes (records ∷ scopes) n = count_records records (count_scopes scopes n)

unfoldable pub count_resources : List ResourceLogs → ℕ → ℕ
count_resources [] n = n
count_resources (logs ∷ resources) n = count_scopes logs.scope_logs (count_resources resources n)

module _ (s : Scraper) where
  abbrev Continues : ℕ → Option Pipeline → Type 0
  Continues n result = (next : Pipeline) × (result ≡ some next) × Ready n next

  record_observation_lem :
      (n : ℕ) (p : Pipeline) (observation : Observation)
      → Room (suc n) p
      → DumpFits n p.dumped
      → Continues n (record_observation p observation)
  unfolding record_observation Ready Room
  record_observation_lem n p observation (history, holds, fits) dumps =
      let (b', e, c, h') = record_item_lem p.violations history observation holds (omega arith) in
      (
        record p { emitted = emit_otel_log p.emitted observation; violations = b' },
        rw e refl,
        ((observation ∷ history, h', omega arith), dumps),
      )

  Ready-weaken : (n : ℕ) (p : Pipeline) → Room (suc n) p → DumpFits n p.dumped → Ready n p
  unfolding Ready Room
  Ready-weaken n p (history, holds, fits) dumps = ((history, holds, omega arith), dumps)

  Ready-enqueue :
      (n : ℕ) (p : Pipeline) (event : Option LearningEvent)
      → Ready n p
      → Ready n (enqueue_event_of s p event)
  unfolding Ready Room enqueue_learning_event
  Ready-enqueue n p none ready = ready
  Ready-enqueue n p (some event) ready = ready

  handle_record_lem :
      (n : ℕ) (p : Pipeline) (rec : LogRecord) (attrs : List (String × String))
      → Room (suc n) p
      → DumpFits n p.dumped
      → Continues n (handle_record s p rec attrs)
  unfolding handle_record record_policy_event
  handle_record_lem n p rec attrs ready dumps =
      elim (Bool-cases (attr attrs event_type_key == event_type_learn)) [
        | inl e ↦ rw e (_, refl, Ready-enqueue n p _ (Ready-weaken n p ready dumps))
        | inr e ↦
            elim (Bool-cases (
              attr attrs event_type_key == event_type_monitor
              || attr attrs event_type_key == event_type_protect)) [
                | inl k ↦ rw (e, k) (record_observation_lem n p _ ready dumps)
                | inr k ↦ rw (e, k) (p, refl, Ready-weaken n p ready dumps)
              ]
      ]

  export_record_lem :
      (n : ℕ) (resource_attrs : List (String × String)) (p : Pipeline) (rec : LogRecord)
      → Ready (suc n) p
      → Continues n (export_record s resource_attrs p rec)
  unfolding export_record Ready Room
  export_record_lem n resource_attrs p rec (room, dumps) =
      let (dumped, d, dumps') = dump_flow_lem s.marshal n p.dumped rec dumps in
      rw d (handle_record_lem n (record p { dumped = dumped }) rec _ room dumps')

  export_records_lem :
      (n : ℕ) (resource_attrs : List (String × String)) (records : List LogRecord) (p : Pipeline)
      → Ready (count_records records n) p
      → Continues n (export_records s resource_attrs p records)
  unfolding export_records count_records
  export_records_lem n resource_attrs [] p ready = (p, refl, ready)
  export_records_lem n resource_attrs (rec ∷ records) p ready =
      let (next, e, ready') =
        export_record_lem (count_records records n) resource_attrs p rec ready in
      rw e (export_records_lem n resource_attrs records next ready')

  export_scopes_lem :
      (n : ℕ) (resource_attrs : List (String × String)) (scopes : List (List LogRecord))
      (p : Pipeline)
      → Ready (count_scopes scopes n) p
      → Continues n (export_scopes s resource_attrs p scopes)
  unfolding export_scopes count_scopes
  export_scopes_lem n resource_attrs [] p ready = (p, refl, ready)
  export_scopes_lem n resource_attrs (records ∷ scopes) p ready =
      let (next, e, ready') =
        export_records_lem (count_scopes scopes n) resource_attrs records p ready in
      rw e (export_scopes_lem n resource_attrs scopes next ready')

  -- A request is exported without a panic whenever the buffers have room for as many records as it
  -- has, below 2^63 in all; they then have that much less room.
  pub export_total :
      (n : ℕ) (resources : List ResourceLogs) (p : Pipeline)
      → Ready (count_resources resources n) p
      → (next : Pipeline) × (export s p resources ≡ some next) × Ready n next
  unfolding export count_resources
  export_total n [] p ready = (p, refl, ready)
  export_total n (logs ∷ resources) p ready =
      let (next, e, ready') =
        export_scopes_lem (count_resources resources n) (attr_map s.format_float logs.attributes)
          logs.scope_logs p ready in
      rw e (export_total n resources next ready')
