-- ===== src/Key/Codec.antt =====
-- `struct ObjectKey`: how it is printed, and how a printed key is read.
use rdb_memory_mcp.Base.{
  ℕ, Bool, true, false, not, ◌&&◌, ◌||◌, Option, none, some, List, [], ◌∷◌, ◌++◌, map, Str, codes,
  length, any, is_empty, contains, traverse, if◌then◌else◌, ◌==◌, Result, ok, err, ◌>>=◌,
}
use rdb_memory_mcp.Key.Kind.{ObjectKind, ObjectKeyParseError, invalid_key, display_kind, parse_kind}

pub record ObjectKey : Type 0 where
  pub source_kind : Str
  pub connection_alias : Str
  pub database : Str
  pub schema : Str
  pub object_kind : ObjectKind
  pub object_name : Str
  pub sub_object : Option Str

-- The vector `parts` of `<ObjectKey as Display>::fmt`.
abbrev pub key_parts : ObjectKey → List Str
key_parts k =
    let sub : List Str = elim k.sub_object [ none ↦ [] | some s ↦ s ∷ [] ] in
    k.source_kind
    ∷ k.connection_alias
    ∷ k.database
    ∷ k.schema
    ∷ display_kind k.object_kind
    ∷ k.object_name
    ∷ sub

abbrev pub is_reserved : Str → Bool
is_reserved part = contains b':' part || contains b'%' part

unfoldable pub versioned : ObjectKey → Bool
versioned k = any is_reserved (key_parts k)

-- `write_object_key_part`.
unfoldable pub write_object_key_part : Str → Str
write_object_key_part [] = []
write_object_key_part (c ∷ cs) =
    let rest = write_object_key_part cs in
    if c == b'%' then codes "%25" ++ rest else if c == b':' then codes "%3A" ++ rest else c ∷ rest

-- The parts with ":" written before each but the first.
unfoldable pub join : List Str → Str
join [] = []
join (p ∷ []) = p
join (p ∷ q ∷ rest) = p ++ (b':' ∷ join (q ∷ rest))

-- `<ObjectKey as Display>::fmt`.
unfoldable pub display_key : ObjectKey → Str
display_key k =
    if versioned k
    then codes "v2:" ++ join (map write_object_key_part (key_parts k))
    else join (key_parts k)

-- `value.split(':')`: always at least one piece.
abbrev cons_first : ℕ → List Str → List Str
cons_first c [] = (c ∷ []) ∷ []
cons_first c (p ∷ ps) = (c ∷ p) ∷ ps

unfoldable pub split : Str → List Str
split [] = [] ∷ []
split (c ∷ cs) = let rest = split cs in if c == b':' then [] ∷ rest else cons_first c rest

-- `decode_object_key_part`.
unfoldable pub decode_object_key_part : Str → Result ObjectKeyParseError Str
decode_object_key_part [] = ok []
decode_object_key_part (c ∷ []) = if c == b'%' then err invalid_key else ok (c ∷ [])
decode_object_key_part (c ∷ d ∷ []) =
    let rest = decode_object_key_part (d ∷ []) in
    if c == b'%' then err invalid_key else (rest >>= λ r. ok (c ∷ r))
decode_object_key_part (c ∷ d ∷ e ∷ cs) =
    let rest = decode_object_key_part (d ∷ e ∷ cs) in
    let after = decode_object_key_part cs in
    if not (c == b'%')
    then rest >>= (λ r. ok (c ∷ r))
    else if d == b'2' && e == b'5'
    then after >>= (λ r. ok (b'%' ∷ r))
    else if d == b'3' && (e == b'A' || e == b'a')
    then after >>= (λ r. ok (b':' ∷ r))
    else err invalid_key

-- The fields of the key from its decoded parts, `parts[0]` to `parts.get(6)`.
unfoldable pub key_of_parts : List Str → Result ObjectKeyParseError ObjectKey
key_of_parts (a ∷ b ∷ c ∷ d ∷ e ∷ f ∷ []) = parse_kind e >>= λ kind. ok (record {
  source_kind = a;
  connection_alias = b;
  database = c;
  schema = d;
  object_kind = kind;
  object_name = f;
  sub_object = none;
})
key_of_parts (a ∷ b ∷ c ∷ d ∷ e ∷ f ∷ g ∷ []) = parse_kind e >>= λ kind. ok (record {
  source_kind = a;
  connection_alias = b;
  database = c;
  schema = d;
  object_kind = kind;
  object_name = f;
  sub_object = some g;
})
key_of_parts _ = err invalid_key

-- `parse_object_key_parts`. With the length test passed, `key_of_parts` takes one of its first
-- two clauses.
unfoldable pub parse_object_key_parts : Str → Bool → Result ObjectKeyParseError ObjectKey
parse_object_key_parts value encoded =
    let raw_parts = split value in
    if not (length raw_parts == 6 || length raw_parts == 7) || any is_empty raw_parts
    then err invalid_key
    else traverse (λ part. if encoded then decode_object_key_part part else ok part) raw_parts
      >>= λ parts. if any is_empty parts then err invalid_key else key_of_parts parts

-- `value.strip_prefix("v2:")`.
abbrev pub strip_v2 : Str → Option Str
strip_v2 (a ∷ b ∷ c ∷ rest) = if a == b'v' && (b == b'2' && c == b':') then some rest else none
strip_v2 _ = none

-- `<ObjectKey as FromStr>::from_str`.
unfoldable pub parse_key : Str → Result ObjectKeyParseError ObjectKey
parse_key value = elim (strip_v2 value) [
  | some rest ↦ parse_object_key_parts rest true
  | none ↦ parse_object_key_parts value false
]
