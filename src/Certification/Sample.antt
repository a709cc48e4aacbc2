-- ===== src/Certification/Sample.antt =====
-- An adapter that discovers the shop, and a request to it.
use rdb_memory_mcp.Base.{ℕ, ◌+◌, Bool, false, [], codes, ok}
use rdb_memory_mcp.Certification.Accepted.{store, adapter, server, scope, discovered, checks}
use rdb_memory_mcp.Service.Outcome.{Redaction}
use rdb_memory_mcp.Service.Lifecycle.{
  IntrospectionRequest, CatalogDiscovery, Checkpoint, CatalogIntrospector,
}

abbrev pub discovery : CatalogDiscovery
discovery = record {
  snapshot = store;
  adapter = adapter;
  server = server;
  scope = scope;
  discovered_counts = discovered;
  capability_checks = checks;
}

abbrev pub plain : Redaction
plain = record { redact_connection_string = λ s. s; redact_error_with_connection_string = λ s _. s }

-- An adapter that finds the shop, and counts its calls.
abbrev pub finder : CatalogIntrospector ℕ
finder = record {
  source_kind = codes "s";
  discover = λ _ calls. (ok discovery, calls + 1);
  discover_with_cancellation = λ _ _ calls. (ok discovery, calls + 1);
}

abbrev pub asked : IntrospectionRequest
asked = record {
  connection_alias = codes "a";
  requested_catalogs = [];
  requested_schemas = [];
  timeout_ms = 5;
}

abbrev pub quiet : Checkpoint → Bool
quiet _ = false
