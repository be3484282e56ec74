-- ===== src/Tests/AgentTests.antt =====
-- ztunnel's log lines and the checkpoint store at concrete inputs.
use network_enforcer.Common.{
  ◌≡◌, refl, inl, false, List, [], ◌∷◌, none, some, ne_of_eq-false, string_eq,
}
use network_enforcer.Common.Text.{contains_char}
use network_enforcer.Ztunnel.{ZtunnelRecord, parse, after_last_colon, all_digits, extract_port}
use network_enforcer.Ztunnel.Laws.{line, outcome, parse-line}
use network_enforcer.Tailer.{
  FilePersister, Fault, no_fault, write_failed, rename_failed, Command, command_set, command_batch,
  op_delete, decoded, run,
}
use network_enforcer.Tailer.Laws.{IsWhole, run-IsWhole}

abbrev complete : ZtunnelRecord
complete = record {
  message = "connection complete";
  direction = "inbound";
  source_identity = "spiffe://cluster.local/ns/shop/sa/web";
  destination_identity = "spiffe://cluster.local/ns/shop/sa/db";
  destination_name = some "db-0";
  destination_namespace = some "shop";
  destination_hbone_addr = "10.0.0.2:5432";
  policy = "";
  workload = "";
  peer = "";
}

port_is_read : extract_port "[::1]:15008" ≡ "15008"
unfolding extract_port after_last_colon all_digits
port_is_read = refl

no_spaces : contains_char "2026-01-01T00:00:00Z" " " ≡ false
unfolding contains_char
no_spaces = refl

no_space : contains_char "F" " " ≡ false
unfolding contains_char
no_space = refl

parse-line_example :
    parse (λ body. some complete) (line "2026-01-01T00:00:00Z" "stdout" "F" "{}")
    ≡ outcome "2026-01-01T00:00:00Z" (some complete)
parse-line_example =
    parse-line (λ body. some complete) "2026-01-01T00:00:00Z" "stdout" "F" "{}"
      (ne_of_eq-false "2026-01-01T00:00:00Z" "" refl) no_spaces (inl refl) no_space

abbrev offsets : FilePersister
offsets = record {
  entries = ("a", "1") ∷ [];
  disk = record { file = some "{a:1}"; temporary = none };
}

abbrev commands : List (Command × Fault)
commands =
    (command_set "b" "2", write_failed "{")
    ∷ (command_batch (op_delete "a" ∷ []), rename_failed)
    ∷ (command_set "c" "3", no_fault)
    ∷ []

run-IsWhole_example :
    IsWhole
      (λ store. some "{}")
      (λ raw. decoded [])
      (some "{a:1}")
      (run (λ store. some "{}") (λ raw. decoded []) offsets commands).disk.file
run-IsWhole_example = run-IsWhole (λ store. some "{}") (λ raw. decoded []) offsets commands
