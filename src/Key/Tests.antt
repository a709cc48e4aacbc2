-- ===== src/Key/Tests.antt =====
-- The keys of the unit tests of lib.rs, and instances of the properties at them.
use rdb_memory_mcp.Base.{◌≡◌, refl, ◌≢◌, ◌⊎◌, ◌↔◌, inl, inr, true, some, codes, ok, err, arith}
use rdb_memory_mcp.Key.Kind.{ObjectKind, parse_kind, display_kind, parse_kind_iff, invalid_key}
use rdb_memory_mcp.Key.Codec.{
  ObjectKey, versioned, join, split, write_object_key_part, decode_object_key_part, key_of_parts,
  parse_object_key_parts, display_key, parse_key,
}
use rdb_memory_mcp.Key.Parsed.{parse_key-display_key_iff, parse_key-IsComplete}
use rdb_memory_mcp.Key.Roundtrip.{IsComplete}

abbrev user_id : ObjectKey
user_id = record {
  source_kind = codes "postgres";
  connection_alias = codes "prod";
  database = codes "app";
  schema = codes "public";
  object_kind = ObjectKind.column;
  object_name = codes "users";
  sub_object = some (codes "id");
}

abbrev event_id : ObjectKey
event_id = record user_id {
  connection_alias = codes "prod:west";
  database = codes "app%main";
  schema = codes "audit:2026";
  object_name = codes "order:events";
  sub_object = some (codes "id%raw");
}

-- A key whose source kind is the version tag.
abbrev tagged : ObjectKey
tagged = record user_id { source_kind = codes "v2" }

display-user_id : display_key user_id ≡ codes "postgres:prod:app:public:column:users:id"
unfolding display_key versioned join
display-user_id = refl

display-event_id :
    display_key event_id
    ≡ codes "v2:postgres:prod%3Awest:app%25main:audit%3A2026:column:order%3Aevents:id%25raw"
unfolding display_key versioned join write_object_key_part
display-event_id = refl

parse-bad_escape :
    parse_key (codes "v2:postgres:prod:app:public:table:orders%2Farchive") ≡ err invalid_key
unfolding parse_key parse_object_key_parts split decode_object_key_part
parse-bad_escape = refl

parse-user_id : parse_key (codes "postgres:prod:app:public:column:users:id") ≡ ok user_id
unfolding parse_key parse_object_key_parts split key_of_parts parse_kind
parse-user_id = refl

parse_key-display_key_iff_example :
    (parse_key (display_key event_id) ≡ ok event_id)
    ↔ ((versioned event_id ≡ true) ⊎ (event_id.source_kind ≢ codes "v2"))
parse_key-display_key_iff_example = parse_key-display_key_iff event_id refl

tagged_collides : parse_key (display_key tagged) ≢ ok tagged
unfolding versioned
tagged_collides h = elim ((parse_key-display_key_iff tagged refl).0 h) [
  | inl v ↦ absurd (ground arith)
  | inr n ↦ n refl
]

parse_key-IsComplete_example : IsComplete user_id
parse_key-IsComplete_example =
    parse_key-IsComplete (codes "postgres:prod:app:public:column:users:id") user_id parse-user_id

parse_kind_iff_example :
    (parse_kind (codes "view") ≡ ok ObjectKind.view) ↔ (codes "view" ≡ display_kind ObjectKind.view)
parse_kind_iff_example = parse_kind_iff (codes "view") ObjectKind.view
