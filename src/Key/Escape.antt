-- ===== src/Key/Escape.antt =====
-- Escaping one part of a key: decoding undoes it, and it leaves no separator.
use rdb_memory_mcp.Base.{
  ℕ, ◌≡◌, refl, false, List, [], ◌∷◌, map, Str, contains, is_empty, All, traverse, ◌==◌, ok, ◌>>=◌,
  arith, Bool-cases, inl, inr,
}
use rdb_memory_mcp.Key.Codec.{write_object_key_part, decode_object_key_part}

decode_plain :
    (c : ℕ) (s : Str)
    → (c == b'%') ≡ false
    → decode_object_key_part (c ∷ s) ≡ (decode_object_key_part s >>= λ r. ok (c ∷ r))
unfolding decode_object_key_part
decode_plain c [] h = rw h
decode_plain c (d ∷ []) h = rw h
decode_plain c (d ∷ e ∷ s) h = rw h

decode_percent :
    (s : Str)
    → decode_object_key_part (b'%' ∷ b'2' ∷ b'5' ∷ s)
      ≡ (decode_object_key_part s >>= λ r. ok (b'%' ∷ r))
unfolding decode_object_key_part
decode_percent s = refl

decode_colon :
    (s : Str)
    → decode_object_key_part (b'%' ∷ b'3' ∷ b'A' ∷ s)
      ≡ (decode_object_key_part s >>= λ r. ok (b':' ∷ r))
unfolding decode_object_key_part
decode_colon s = refl

pub decode-write : (p : Str) → decode_object_key_part (write_object_key_part p) ≡ ok p
unfolding write_object_key_part
decode-write [] = unfold decode_object_key_part in refl
decode-write (c ∷ p) = elim (Bool-cases (c == b'%')) [
  | inl percent ↦ rw percent (rw (decode_percent, decode-write p) (ground arith))
  | inr other ↦ elim (Bool-cases (c == b':')) [
    | inl colon ↦ rw (other, colon) (rw (decode_colon, decode-write p) (ground arith))
    | inr plain ↦ rw (other, plain) (rw (decode_plain c _ other, decode-write p))
  ]
]

pub contains-write : (p : Str) → contains b':' (write_object_key_part p) ≡ false
unfolding write_object_key_part
contains-write [] = refl
contains-write (c ∷ p) = ground (arith, contains-write p)

pub is_empty-write : (p : Str) → is_empty (write_object_key_part p) ≡ is_empty p
unfolding write_object_key_part
is_empty-write [] = refl
is_empty-write (c ∷ p) = ground arith

pub traverse-decode-write :
    (ps : List Str) → traverse decode_object_key_part (map write_object_key_part ps) ≡ ok ps
traverse-decode-write [] = refl
traverse-decode-write (p ∷ ps) = rw (decode-write p) (rw (traverse-decode-write ps))

pub All-contains-write :
    (ps : List Str) → All (λ q. contains b':' q ≡ false) (map write_object_key_part ps)
All-contains-write [] = tt
All-contains-write (p ∷ ps) = (contains-write p, All-contains-write ps)
