-- ===== src/Tests/IstioTests.antt =====
-- Istio's log records, enrichment and workloads at concrete inputs.
use network_enforcer.Common.{
  ◌≡◌, refl, arith, String, List, [], ◌∷◌, some, ne_of_eq-false, string_eq,
}
use network_enforcer.Common.Int.{pos}
use network_enforcer.Common.Map.{lookup}
use network_enforcer.Common.Text.{cut_prefix, cut_suffix}
use network_enforcer.Common.Text.Decimal.{parse_int}
use network_enforcer.Ringbuf.Inv.{Holds-new_with_size}
use network_enforcer.Api.Types.{LearningEvent, bare_ref, is_supported}
use network_enforcer.Workload.{
  get, get_name_and_kind, lookup_pod_selector_for_workload, get_selector_of, has_suffix,
  trim_suffix,
}
use network_enforcer.Workload.Laws.{get_name_and_kind-deployment}
use network_enforcer.Enrich.{enrich, get_workload_ref}
use network_enforcer.Enrich.Laws.{SourceResolved, DestResolved, Keeps, enrich_sound}
use network_enforcer.Scraper.Flow.{parse_port, port_to_int32}
use network_enforcer.Scraper.Attributes.{KeyValue, string_value, int_value, attr}
use network_enforcer.Scraper.Pipeline.{Pipeline}
use network_enforcer.Scraper.Pipeline.Laws.{DumpFits}
use network_enforcer.Scraper.Istio.{ResourceLogs, Scraper, learning_event, export}
use network_enforcer.Scraper.Istio.Laws.{IsLearned, learning_event_sound}
use network_enforcer.Scraper.Istio.Total.{
  Ready, Room, count_resources, count_scopes, count_records, export_total,
}
use network_enforcer.Tests.Data.{observation}
use network_enforcer.Tests.Cluster.{client, web_pod, web_replica_set, web_selector}
use network_enforcer.Tests.PipelineTests.{empty_pipeline}

get_name_and_kind-deployment_example :
    get_name_and_kind web_pod ≡ bare_ref "shop" "Deployment" "web"
unfolding lookup
get_name_and_kind-deployment_example =
    get_name_and_kind-deployment web_pod web_replica_set "web" "5d4" refl refl refl refl
      (ne_of_eq-false "5d4" "" refl)

enrich_sound_example :
    SourceResolved
      (λ addr. some addr)
      client
      observation
      (enrich (λ addr. some addr) (some client) observation).info.source
    × DestResolved client observation (enrich (λ addr. some addr) (some client) observation)
    × Keeps observation (enrich (λ addr. some addr) (some client) observation)
enrich_sound_example = enrich_sound (λ addr. some addr) client observation

abbrev resource : List KeyValue
resource = record { key = "evt.type"; value = some (string_value "monitor") } ∷ []

abbrev own : List KeyValue
own =
    record { key = "evt.type"; value = some (string_value "learn") }
    ∷ record { key = "dst.port"; value = some (int_value (pos 8080)) }
    ∷ []

abbrev learn_attrs : List (String × String)
learn_attrs =
    ("src.identity", "spiffe://cluster.local/ns/shop/sa/web")
    ∷ ("dst.namespace", "shop")
    ∷ ("dst.name", "web-5d4-x7")
    ∷ ("dst.port", "8080")
    ∷ []

abbrev learned_web : LearningEvent
learned_web = record {
  source = some (record (bare_ref "" "" "") { identity = "cluster.local/ns/shop/sa/web" });
  dest = some (record (bare_ref "shop" "Deployment" "web") { selector = web_selector });
  dst_port = pos 8080;
  protocol = "TCP";
  backend = "istio";
}

is_learned : learning_event (some client) learn_attrs ≡ some learned_web
unfolding learning_event cut_prefix attr lookup parse_port parse_int port_to_int32 get_workload_ref
    get is_supported get_name_and_kind has_suffix cut_suffix lookup_pod_selector_for_workload
    get_selector_of trim_suffix
is_learned = refl

learning_event_sound_example : IsLearned client learn_attrs learned_web
learning_event_sound_example = learning_event_sound client learn_attrs learned_web is_learned

abbrev scraper : Scraper
scraper = record {
  capacity = 4;
  enricher = some client;
  format_float = λ bits. "0";
  split_host_port = λ addr. some addr;
  marshal = λ rec. some "x";
  now = 7;
  unix_nano = λ t. t;
}

abbrev request : List ResourceLogs
request =
    record {
      attributes = resource;
      scope_logs = (record { time_unix_nano = 5; attributes = own } ∷ []) ∷ [];
    }
    ∷ []

is_Ready : Ready (count_resources request 1) empty_pipeline
unfolding Ready Room DumpFits count_resources count_scopes count_records
is_Ready = (([], Holds-new_with_size observation (pos 2), omega arith), tt)

export_total_example :
    (next : Pipeline) × (export scraper empty_pipeline request ≡ some next) × Ready 1 next
export_total_example = export_total scraper 1 request empty_pipeline is_Ready
