-- ===== src/Key/Split.antt =====
-- Splitting at the separator undoes joining.
use rdb_memory_mcp.Base.{
  ◌≡◌, refl, false, none, List, [], ◌∷◌, ◌++◌, Str, codes, contains, All, arith, ap, ◌≢◌, ◌∙◌,
}
use rdb_memory_mcp.Key.Codec.{split, join, strip_v2}

split-append :
    (p rest : Str) → contains b':' p ≡ false → split (p ++ (b':' ∷ rest)) ≡ p ∷ split rest
unfolding split
split-append [] rest h = refl
split-append (c ∷ p) rest h = ground (arith, split-append p rest)

split_single : (p : Str) → contains b':' p ≡ false → split p ≡ p ∷ []
unfolding split
split_single [] h = refl
split_single (c ∷ p) h = ground (arith, split_single p)

-- A list of pieces with no separator inside is what the joined text splits into.
pub split-join :
    (p : Str) (ps : List Str)
    → All (λ q. contains b':' q ≡ false) (p ∷ ps)
    → split (join (p ∷ ps)) ≡ p ∷ ps
unfolding join
split-join p [] h = split_single p h.0
split-join p (q ∷ ps) h = split-append p (join (q ∷ ps)) h.0 ∙ ap (λ r. p ∷ r) (split-join q ps h.1)

-- Only a text whose first piece is "v2" has the prefix of the escaped form.
pub strip_v2-none :
    (p rest : Str) → contains b':' p ≡ false → p ≢ codes "v2" → strip_v2 (p ++ (b':' ∷ rest)) ≡ none
strip_v2-none [] [] h n = refl
strip_v2-none [] (r ∷ []) h n = refl
strip_v2-none [] (r ∷ s ∷ rest) h n = refl
strip_v2-none (a ∷ []) [] h n = refl
strip_v2-none (a ∷ []) (r ∷ rest) h n = ground arith
strip_v2-none (a ∷ b ∷ []) rest h n = ground arith
strip_v2-none (a ∷ b ∷ c ∷ p) rest h n = ground arith
