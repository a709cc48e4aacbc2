-- ===== src/Key/Kind.antt =====
-- `enum ObjectKind`, its printed names, and the match that reads them back.
use rdb_memory_mcp.Base.{
  ◌≡◌, refl, ap, ◌∙◌, ◌↔◌, List, [], ◌∷◌, Str, codes, str_eq, eq_of_str_eq, Bool, true, ◌&&◌,
  if◌then◌else◌, Result, ok, err, arith,
}

pub data ObjectKind : Type 0 where
  database schema table column primary_key foreign_key unique_constraint check_constraint :
      ObjectKind
  index view view_column trigger routine materialized_view sequence routine_parameter : ObjectKind
  user_defined_type domain enum_value synonym exclusion_constraint event package_kind : ObjectKind
  principal policy extension : ObjectKind

-- `struct ObjectKeyParseError`.
pub data ObjectKeyParseError : Type 0 where
  invalid_key : ObjectKeyParseError

-- `<ObjectKind as Display>::fmt`.
abbrev pub display_kind : ObjectKind → Str
display_kind database = codes "database"
display_kind schema = codes "schema"
display_kind table = codes "table"
display_kind column = codes "column"
display_kind primary_key = codes "primary_key"
display_kind foreign_key = codes "foreign_key"
display_kind unique_constraint = codes "unique_constraint"
display_kind check_constraint = codes "check_constraint"
display_kind index = codes "index"
display_kind view = codes "view"
display_kind view_column = codes "view_column"
display_kind trigger = codes "trigger"
display_kind routine = codes "routine"
display_kind materialized_view = codes "materialized_view"
display_kind sequence = codes "sequence"
display_kind routine_parameter = codes "routine_parameter"
display_kind user_defined_type = codes "user_defined_type"
display_kind domain = codes "domain"
display_kind enum_value = codes "enum_value"
display_kind synonym = codes "synonym"
display_kind exclusion_constraint = codes "exclusion_constraint"
display_kind event = codes "event"
display_kind package_kind = codes "package"
display_kind principal = codes "principal"
display_kind policy = codes "policy"
display_kind extension = codes "extension"

-- The arms of the match in `<ObjectKind as FromStr>::from_str`, in the order of the source.
abbrev kind_arms : List (Str × ObjectKind)
kind_arms =
    (codes "database", database)
    ∷ (codes "schema", schema)
    ∷ (codes "table", table)
    ∷ (codes "column", column)
    ∷ (codes "primary_key", primary_key)
    ∷ (codes "foreign_key", foreign_key)
    ∷ (codes "unique_constraint", unique_constraint)
    ∷ (codes "check_constraint", check_constraint)
    ∷ (codes "index", index)
    ∷ (codes "view", view)
    ∷ (codes "view_column", view_column)
    ∷ (codes "trigger", trigger)
    ∷ (codes "routine", routine)
    ∷ (codes "materialized_view", materialized_view)
    ∷ (codes "sequence", sequence)
    ∷ (codes "routine_parameter", routine_parameter)
    ∷ (codes "user_defined_type", user_defined_type)
    ∷ (codes "domain", domain)
    ∷ (codes "enum_value", enum_value)
    ∷ (codes "synonym", synonym)
    ∷ (codes "exclusion_constraint", exclusion_constraint)
    ∷ (codes "event", event)
    ∷ (codes "package", package_kind)
    ∷ (codes "principal", principal)
    ∷ (codes "policy", policy)
    ∷ (codes "extension", extension)
    ∷ []

-- A match on a text: the first arm whose literal is the text, else the error arm.
match_arms : List (Str × ObjectKind) → Str → Result ObjectKeyParseError ObjectKind
match_arms [] s = err invalid_key
match_arms ((literal, kind) ∷ arms) s = if str_eq s literal then ok kind else match_arms arms s

-- `<ObjectKind as FromStr>::from_str`.
unfoldable pub parse_kind : Str → Result ObjectKeyParseError ObjectKind
unfolding match_arms str_eq
parse_kind s = match_arms kind_arms s

pub parse_kind-display_kind : (k : ObjectKind) → parse_kind (display_kind k) ≡ ok k
unfolding parse_kind
parse_kind-display_kind database = refl
parse_kind-display_kind _ = refl

-- Each arm's literal is the text that `name` gives to its kind.
abbrev named : (ObjectKind → Str) → List (Str × ObjectKind) → Bool
named name [] = true
named name ((literal, kind) ∷ arms) = str_eq literal (name kind) && named name arms

match_arms_sound :
    (name : ObjectKind → Str) (arms : List (Str × ObjectKind)) (s : Str) (k : ObjectKind)
    → named name arms ≡ true
    → match_arms arms s ≡ ok k
    → s ≡ name k
unfolding match_arms
match_arms_sound name [] s k a h = absurd (ground arith)
match_arms_sound name ((literal, kind) ∷ arms) s k a h = ground (
  arith,
  eq_of_str_eq s literal,
  eq_of_str_eq literal (name kind),
  match_arms_sound name arms s k,
)

named-kind_arms : named display_kind kind_arms ≡ true
unfolding str_eq
named-kind_arms = refl

-- The only text that reads as a kind is the name that the kind prints.
pub display_kind-parse_kind : (s : Str) {k : ObjectKind} → parse_kind s ≡ ok k → s ≡ display_kind k
unfolding parse_kind
display_kind-parse_kind s {k} h = match_arms_sound display_kind kind_arms s k named-kind_arms h

-- A text reads as a kind exactly if it is the name that the kind prints.
pub parse_kind_iff : (s : Str) (k : ObjectKind) → (parse_kind s ≡ ok k) ↔ (s ≡ display_kind k)
parse_kind_iff s k = (display_kind-parse_kind s, λ e. ap parse_kind e ∙ parse_kind-display_kind k)
