-- ===== src/Certification/Accepted.antt =====
-- The shop with its metadata can be certified.
use rdb_memory_mcp.Base.{refl, ℕ, ◌≡◌, List, [], ◌∷◌, map, Str, codes}
use rdb_memory_mcp.Snapshot.Canonical.{CanonicalSchemaSnapshot}
use rdb_memory_mcp.Base.{
  is_blank, byte_length, arith, sort_by, insert_by, dedup, dedup_from, str_cmp, str_eq, subst, sym,
}
use rdb_memory_mcp.Key.{display_key, versioned, join}
use rdb_memory_mcp.Metadata.Spec.{IsCanonical}
use rdb_memory_mcp.Metadata.Whole.{validate_canonical_schema_snapshot_iff}
use rdb_memory_mcp.Metadata.Accepted.{canonical_accepted}
use rdb_memory_mcp.Snapshot.Normalize.{
  key_after, str_after, relationship_after, normalize_canonical_snapshot,
}
use rdb_memory_mcp.Metadata.Example.{draws, shop_with}
use rdb_memory_mcp.Certification.Data.{
  AdapterIdentity, ServerIdentity, IntrospectionScope, DiscoveryCounts, DiscoveredCount,
  CapabilityCheck, CertifiedSchemaSnapshot,
}
use rdb_memory_mcp.Certification.Counts.{
  all_objects, all_relationships, emitted_object_counts, emitted_relationship_counts,
}
use rdb_memory_mcp.Certification.Spec.{IsCertified}
use rdb_memory_mcp.Certification.Issued.{Certifiable, certificate, certify_schema_snapshot_iff}
use rdb_memory_mcp.Certification.Counts.{
  tally, increment, inserted_counts, object_category_from_kind, ObjectCategory-discrete,
  RelationshipCategory-discrete,
}
use rdb_memory_mcp.Certification.Labels.{object_labels, relationship_labels}
use rdb_memory_mcp.Certification.Run.{require_discovery_evidence, check_after}
use rdb_memory_mcp.Certification.Reconcile.{all_discovery_issues, discovery_issues, find_entry}
use rdb_memory_mcp.Certification.Discovered.{all_discovery_issues_iff}
use rdb_memory_mcp.Certification.Issued.{certify_schema_snapshot-IsCertified}

abbrev pub store : CanonicalSchemaSnapshot
store = shop_with (draws ∷ [])

abbrev pub adapter : AdapterIdentity
adapter = record { name = codes "a"; version = codes "1" }

abbrev pub server : ServerIdentity
server = record { product = codes "s"; version = codes "1" }

abbrev pub scope : IntrospectionScope
scope = record { catalogs = codes "m" ∷ []; schemas = codes "m" ∷ codes "m" ∷ [] }

abbrev pub checks : List CapabilityCheck
checks = record { name = codes "c"; evidence = codes "e" } ∷ []

abbrev pub counted : ℕ → DiscoveredCount
counted n = record { count = n; evidence = codes "e" }

abbrev pub discovered : DiscoveryCounts
discovered = record {
  objects = map (λ c. (c, counted (emitted_object_counts store c))) all_objects;
  relationships = map (λ c. (c, counted (emitted_relationship_counts store c))) all_relationships;
}

abbrev pub unary : ℕ → Str
unary _ = []

abbrev pub shop_certificate : CertifiedSchemaSnapshot
shop_certificate = certificate unary adapter server discovered store scope checks

store_normal : normalize_canonical_snapshot store ≡ store
unfolding normalize_canonical_snapshot key_after str_after relationship_after sort_by insert_by
    dedup str_cmp display_key versioned join str_eq
store_normal = refl

pub store-IsCanonical : IsCanonical (normalize_canonical_snapshot store)
store-IsCanonical =
    subst IsCanonical (sym store_normal)
      ((validate_canonical_schema_snapshot_iff store).0 canonical_accepted)

all_discovered :
    (all_discovery_issues object_labels unary
        (emitted_object_counts (normalize_canonical_snapshot store))
        discovered.objects
      ≡ [])
    × (all_discovery_issues relationship_labels unary
          (emitted_relationship_counts (normalize_canonical_snapshot store))
          discovered.relationships
        ≡ [])
unfolding discovery_issues require_discovery_evidence find_entry emitted_object_counts
    emitted_relationship_counts tally increment inserted_counts object_category_from_kind
    ObjectCategory-discrete RelationshipCategory-discrete is_blank byte_length
    normalize_canonical_snapshot key_after str_after relationship_after sort_by insert_by dedup
    str_cmp display_key versioned join str_eq
all_discovered = (refl, refl)

pub store_certifiable : Certifiable unary adapter server discovered store scope checks
unfolding is_blank byte_length normalize_canonical_snapshot key_after str_after sort_by insert_by
    dedup dedup_from str_cmp str_eq check_after
store_certifiable = record {
  canonical = store-IsCanonical;
  identified = record {
    adapter_name = (refl, omega arith, refl);
    adapter_version = (refl, omega arith, refl);
    server_product = (refl, omega arith, refl);
    server_version = (refl, omega arith, refl);
  };
  scope_valid = record {
    has_catalog = λ h. cc;
    has_schema = λ h. cc;
    catalogs = (((refl, omega arith, refl), tt), refl);
    schemas = (((refl, omega arith, refl), tt), refl);
  };
  full = record {
    same_source = refl;
    metadata_only = refl;
    schemas = refl;
    tables = refl;
    columns = refl;
    constraints = refl;
    indexes = refl;
    views = refl;
    triggers = refl;
    routines = refl;
    dependencies = refl;
    unlimited = refl;
  };
  any_check = λ h. cc;
  texts = (((refl, omega arith, refl), (refl, omega arith, refl)), tt);
  distinct = (tt, tt);
  objects =
      (all_discovery_issues_iff object_labels unary
          (emitted_object_counts (normalize_canonical_snapshot store)) discovered.objects).0
        all_discovered.0;
  relationships =
      (all_discovery_issues_iff relationship_labels unary
          (emitted_relationship_counts (normalize_canonical_snapshot store))
          discovered.relationships).0
        all_discovered.1;
}

pub certificate_valid : IsCertified shop_certificate
certificate_valid =
    (certify_schema_snapshot-IsCertified unary adapter server discovered store scope checks
      shop_certificate
      ((certify_schema_snapshot_iff unary adapter server discovered store scope checks
          shop_certificate).1
        (store_certifiable, refl))).0
