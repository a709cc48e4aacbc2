-- ===== src/Key/Roundtrip.antt =====
-- Printing a stable key and reading it back, in both forms, and the keys where it fails.
use rdb_memory_mcp.Base.{
  ◌≡◌, refl, ◌≢◌, ◌⊎◌, inl, inr, Bool, true, false, ◌||◌, none, List, [], ◌∷◌, map, Str, codes,
  contains, any, is_empty, All, traverse, if◌then◌else◌, length, ◌==◌, ok, err, arith, Bool-cases,
  ap, ◌∙◌, Result, ◌>>=◌, Option-cases, not,
}
use rdb_memory_mcp.Key.Kind.{
  ObjectKind, display_kind, parse_kind-display_kind, invalid_key, ObjectKeyParseError,
}
use rdb_memory_mcp.Key.Codec.{
  ObjectKey, key_parts, is_reserved, versioned, write_object_key_part, join, display_key,
  decode_object_key_part, key_of_parts, parse_object_key_parts, strip_v2, parse_key,
}
use rdb_memory_mcp.Key.Split.{split-join, strip_v2-none}
use rdb_memory_mcp.Key.Escape.{is_empty-write, traverse-decode-write, All-contains-write}

-- Every component of the key is a non-empty text.
abbrev pub IsComplete : ObjectKey → Type 0
IsComplete k = any is_empty (key_parts k) ≡ false

is_empty-display_kind : (kind : ObjectKind) → is_empty (display_kind kind) ≡ false
is_empty-display_kind ObjectKind.database = refl
is_empty-display_kind _ = refl

key_of_parts-key_parts : (k : ObjectKey) → key_of_parts (key_parts k) ≡ ok k
unfolding key_of_parts
key_of_parts-key_parts k = elim (Option-cases k.sub_object) [
  | inl e ↦ rw (e, parse_kind-display_kind k.object_kind) refl
  | inr (s, e) ↦ rw (e, parse_kind-display_kind k.object_kind) refl
]

any-is_empty-write : (ps : List Str) → any is_empty (map write_object_key_part ps) ≡ any is_empty ps
any-is_empty-write [] = refl
any-is_empty-write (p ∷ ps) = rw (is_empty-write p, any-is_empty-write ps)

traverse_ok : (ps : List Str) → traverse {E = ObjectKeyParseError} {B = Str} (λ p. ok p) ps ≡ ok ps
traverse_ok [] = refl
traverse_ok (p ∷ ps) = rw (traverse_ok ps)

pub All-plain : (ps : List Str) → any is_reserved ps ≡ false → All (λ q. contains b':' q ≡ false) ps
All-plain [] h = tt
All-plain (p ∷ ps) h = (ground arith, All-plain ps (ground arith))

has_key_length : (k : ObjectKey) → (length (key_parts k) == 6 || length (key_parts k) == 7) ≡ true
has_key_length k = elim (Option-cases k.sub_object) [ inl e ↦ rw e | inr (s, e) ↦ rw e ]

has_written_length :
    (k : ObjectKey)
    → (length (map write_object_key_part (key_parts k)) == 6
        || length (map write_object_key_part (key_parts k)) == 7)
      ≡ true
has_written_length k = elim (Option-cases k.sub_object) [ inl e ↦ rw e | inr (s, e) ↦ rw e ]

-- The body of `parse_object_key_parts`, after the split.
abbrev pub parse_raw : Bool → List Str → Result ObjectKeyParseError ObjectKey
parse_raw encoded raw_parts =
    if not (length raw_parts == 6 || length raw_parts == 7) || any is_empty raw_parts
    then err invalid_key
    else traverse (λ part. if encoded then decode_object_key_part part else ok part) raw_parts
      >>= λ parts. if any is_empty parts then err invalid_key else key_of_parts parts

parse_raw_lem :
    (encoded : Bool) (raw parts : List Str) (k : ObjectKey)
    → (length raw == 6 || length raw == 7) ≡ true
    → any is_empty raw ≡ false
    → traverse (λ part. if encoded then decode_object_key_part part else ok part) raw ≡ ok parts
    → any is_empty parts ≡ false
    → key_of_parts parts ≡ ok k
    → parse_raw encoded raw ≡ ok k
parse_raw_lem encoded raw parts k l e t e' r = rw (l, e, t, e') r

parse-plain :
    (k : ObjectKey)
    → IsComplete k
    → any is_reserved (key_parts k) ≡ false
    → parse_object_key_parts (join (key_parts k)) false ≡ ok k
unfolding parse_object_key_parts
parse-plain k c p =
    ap (parse_raw false) (split-join _ _ (All-plain (key_parts k) p))
    ∙ parse_raw_lem false (key_parts k) (key_parts k) k (has_key_length k) c
        (traverse_ok (key_parts k)) c (key_of_parts-key_parts k)

parse-escaped :
    (k : ObjectKey)
    → IsComplete k
    → parse_object_key_parts (join (map write_object_key_part (key_parts k))) true ≡ ok k
unfolding parse_object_key_parts
parse-escaped k c =
    ap (parse_raw true) (split-join _ _ (All-contains-write (key_parts k)))
    ∙ parse_raw_lem true (map write_object_key_part (key_parts k)) (key_parts k) k
        (has_written_length k) (any-is_empty-write (key_parts k) ∙ c)
        (traverse-decode-write (key_parts k)) c (key_of_parts-key_parts k)

parse_key-plain :
    (value : Str) → strip_v2 value ≡ none → parse_key value ≡ parse_object_key_parts value false
unfolding parse_key
parse_key-plain value h = rw (h, parse_key)

strip_v2-join :
    (k : ObjectKey)
    → contains b':' k.source_kind ≡ false
    → k.source_kind ≢ codes "v2"
    → strip_v2 (join (key_parts k)) ≡ none
unfolding join
strip_v2-join k p n = strip_v2-none k.source_kind _ p n

-- A complete key reads back from its printed form, if a part holds ':' or '%' (the escaped form)
-- or the source kind is not the text "v2".
pub parse_key-display_key :
    (k : ObjectKey)
    → IsComplete k
    → (versioned k ≡ true) ⊎ (k.source_kind ≢ codes "v2")
    → parse_key (display_key k) ≡ ok k
unfolding parse_key display_key versioned
parse_key-display_key k c h = elim (Bool-cases (versioned k)) [
  | inl v ↦ rw v (parse-escaped k c)
  | inr plain ↦
      let n : k.source_kind ≢ codes "v2" = ground arith in
      rw plain (
        parse_key-plain _ (strip_v2-join k (All-plain (key_parts k) plain).0 n)
        ∙ parse-plain k c plain)
]
