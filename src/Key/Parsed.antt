-- ===== src/Key/Parsed.antt =====
-- What a key that was read is known to be, and the keys whose printed form is read as another.
use rdb_memory_mcp.Base.{
  ◌≡◌, ◌≢◌, ◌⊎◌, ◌↔◌, inl, inr, Bool, true, false, List, [], ◌∷◌, Str, codes, any, is_empty, length,
  ok, arith, Bool-cases, ap, ◌∙◌, Option-cases, sym, ok-injective, err-ne-ok, >>=-eq-ok,
  if_err-eq-ok, length-traverse,
}
use rdb_memory_mcp.Key.Kind.{parse_kind, display_kind-parse_kind, invalid_key}
use rdb_memory_mcp.Key.Codec.{
  ObjectKey, key_parts, versioned, join, display_key, split, key_of_parts, parse_object_key_parts,
  strip_v2, parse_key,
}
use rdb_memory_mcp.Key.Split.{split-join}
use rdb_memory_mcp.Key.Roundtrip.{IsComplete, All-plain, parse_raw, parse_key-display_key}

key_parts-key_of_parts :
    (parts : List Str) (k : ObjectKey) → key_of_parts parts ≡ ok k → key_parts k ≡ parts
unfolding key_of_parts
key_parts-key_of_parts (a ∷ b ∷ c ∷ d ∷ e ∷ f ∷ []) k h =
    let (kind, e', h') = >>=-eq-ok (parse_kind e) _ h in
    rw (display_kind-parse_kind e e') (ap key_parts (sym (ok-injective h')))
key_parts-key_of_parts (a ∷ b ∷ c ∷ d ∷ e ∷ f ∷ g ∷ []) k h =
    let (kind, e', h') = >>=-eq-ok (parse_kind e) _ h in
    rw (display_kind-parse_kind e e') (ap key_parts (sym (ok-injective h')))
key_parts-key_of_parts _ k h = absurd (err-ne-ok h)

parse_raw-eq-ok :
    (encoded : Bool) (raw : List Str) (k : ObjectKey)
    → parse_raw encoded raw ≡ ok k
    → IsComplete k × (length (key_parts k) ≡ length raw)
parse_raw-eq-ok encoded raw k h =
    let (lengths, h₁) = if_err-eq-ok _ invalid_key _ h in
    let (parts, t, h₂) = >>=-eq-ok _ _ h₁ in
    let (full, h₃) = if_err-eq-ok _ invalid_key _ h₂ in
    let same : key_parts k ≡ parts = key_parts-key_of_parts parts k h₃ in
    (ap (any is_empty) same ∙ full, ap length same ∙ length-traverse _ raw parts t)

parse_parts-eq-ok :
    (value : Str) (encoded : Bool) (k : ObjectKey)
    → parse_object_key_parts value encoded ≡ ok k
    → IsComplete k × (length (key_parts k) ≡ length (split value))
unfolding parse_object_key_parts
parse_parts-eq-ok value encoded k h = parse_raw-eq-ok encoded (split value) k h

-- Every key that is read, from either form, has all its components.
pub parse_key-IsComplete : (value : Str) (k : ObjectKey) → parse_key value ≡ ok k → IsComplete k
unfolding parse_key
parse_key-IsComplete value k h = elim (Option-cases (strip_v2 value)) [
  | inl e ↦ (parse_parts-eq-ok value false k (rw (e, parse_key) at h)).0
  | inr (rest, e) ↦ (parse_parts-eq-ok rest true k (rw (e, parse_key) at h)).0
]

-- The parts behind the source kind.
abbrev later_parts : ObjectKey → List Str
later_parts k = elim (key_parts k) [ [] ↦ [] | _ ∷ ps ↦ ps ]

parse_key-v2 :
    (k : ObjectKey)
    → k.source_kind ≡ codes "v2"
    → versioned k ≡ false
    → parse_key (display_key k) ≡ parse_object_key_parts (join (later_parts k)) true
unfolding parse_key display_key join
parse_key-v2 k e v = rw (v, e)

-- With the source kind "v2" the plain form starts with the prefix of the escaped form, and the
-- part after it has one piece too few.
parse_key-collision :
    (k : ObjectKey)
    → k.source_kind ≡ codes "v2"
    → versioned k ≡ false
    → parse_key (display_key k) ≢ ok k
unfolding versioned
parse_key-collision k e v h =
    let (_, l) = parse_parts-eq-ok _ true k (sym (parse_key-v2 k e v) ∙ h) in
    let pieces = split-join k.connection_alias _ (All-plain (key_parts k) v).1 in
    absurd (omega (arith, l ∙ ap length pieces))

-- A complete key reads back from its printed form exactly if a part holds ':' or '%' (then the
-- form is the escaped one) or the source kind is not the text "v2".
pub parse_key-display_key_iff :
    (k : ObjectKey)
    → IsComplete k
    → (parse_key (display_key k) ≡ ok k) ↔ ((versioned k ≡ true) ⊎ (k.source_kind ≢ codes "v2"))
parse_key-display_key_iff k c = (
  λ h. elim (Bool-cases (versioned k)) [
    | inl v ↦ inl v
    | inr v ↦ inr (λ e. parse_key-collision k e v h)
  ],
  parse_key-display_key k c,
)
