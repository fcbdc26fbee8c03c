-- ===== src/Kafka/Wire/Prefix.antt =====
-- The prefix of a message: magic byte, schema id and message indexes.
use mathlib.Core.List.{append_assoc}
use agora_etl_plugins.Common.Bits.{low_bits, shr, shl}
use agora_etl_plugins.Common.{
  ℕ, zero, suc, ◌+◌, ◌-◌, Bool-cases, inl, inr, lt→ltb, ◌^◌, ◌<◌, ◌≤◌, ◌≡◌, List, [], ◌∷◌, ◌++◌,
  length, map, ok, raise, arith, ℤ, pos, Bool, true, false, Option, none, some, >>=-eq-ok, drop,
  length-drop, ◌==◌, nat_eq,
}
use mathlib.Core.Option
use agora_etl_plugins.Kafka.Wire.Indexes.{decode-encode_indexes, read_back}
use agora_etl_plugins.Kafka.Wire.Varint.{decode_unsigned_bounds}
use agora_etl_plugins.Kafka.Wire.{
  decode_message_indexes, decode_items, decode_indexes_at, decode_zigzag_varint,
  decode_unsigned_varint, pack_u32, encode_optional_indexes, encode_confluent_prefix,
  decode_optional_indexes, decode_confluent_prefix, schema_id_range, confluent_magic_byte,
}

-- `struct.unpack(">I", …)` takes the four bytes together again.
unpack-pack :
    (n : ℕ)
    → n < 2 ^ 32
    → shl (shr n 24) 24
        + shl (low_bits (shr n 16) 8) 16
        + shl (low_bits (shr n 8) 8) 8
        + low_bits n 8
      ≡ n
unpack-pack n h = omega arith

abbrev pub expects : Option (List ℕ) → Bool
expects none = false
expects (some ns) = true

-- The magic byte and the id.
abbrev fixed_bytes : ℕ → List ℕ
fixed_bytes id = 0 ∷ shr id 24 ∷ low_bits (shr id 16) 8 ∷ low_bits (shr id 8) 8 ∷ low_bits id 8 ∷ []

-- A schema id of 32 bits with any message indexes, or none, is encoded, and in front of any
-- payload it is read back, the payload beginning at the offset that is returned. A list of no
-- index reads as the single index 0.
pub decode-encode_prefix :
    (id : ℕ) (indexes : Option (List ℕ)) (payload : List ℕ)
    → id < 2 ^ 32
    → (bytes : List ℕ) × (encode_confluent_prefix (pos id) (Option.map (map pos) indexes)
        ≡ ok bytes)
      × (decode_confluent_prefix (bytes ++ payload) (expects indexes)
          ≡ ok (id, length bytes, Option.map read_back indexes))
unfolding encode_confluent_prefix decode_confluent_prefix pack_u32 encode_optional_indexes
    decode_optional_indexes
decode-encode_prefix id none payload h =
    (fixed_bytes id, rw (lt→ltb id (2 ^ 32) h), ground (arith, unpack-pack id h))
decode-encode_prefix id (some ns) payload h =
    let (bytes, encoded, decoded) = decode-encode_indexes ns (fixed_bytes id) payload in
    (
      fixed_bytes id ++ bytes,
      rw (lt→ltb id (2 ^ 32) h, encoded),
      rw (append_assoc (fixed_bytes id) bytes payload, decoded) (ground (arith, unpack-pack id h)),
    )

-- An id outside of 32 bits is refused.
pub encode_prefix-range :
    (id : ℕ) (indexes : Option (List ℤ))
    → 2 ^ 32 ≤ id
    → encode_confluent_prefix (pos id) indexes ≡ raise schema_id_range
unfolding encode_confluent_prefix pack_u32
encode_prefix-range id indexes h = ground arith

zigzag_bounds :
    (value : List ℕ) (offset v end : ℕ)
    → decode_zigzag_varint value offset ≡ ok (v, end)
    → (offset < end) × (end ≤ length value)
unfolding decode_zigzag_varint
zigzag_bounds value offset v end h =
    let ((e, c), first, rest) = >>=-eq-ok (decode_unsigned_varint value offset) _ h in
    ground (arith, decode_unsigned_bounds value offset e c first)

items_bounds :
    (n : ℕ) (value : List ℕ) (offset : ℕ) (vs : List ℕ) (end : ℕ)
    → offset ≤ length value
    → decode_items n value offset ≡ ok (vs, end)
    → (offset ≤ end) × (end ≤ length value) × (length vs ≡ n)
unfolding decode_items
items_bounds zero value offset vs end fits h = ground arith
items_bounds (suc n) value offset vs end fits h =
    let ((item, next), read, more) = >>=-eq-ok (decode_zigzag_varint value offset) _ h in
    let ((items, stop), inner, done) = >>=-eq-ok (decode_items n value next) _ more in
    ground (
      arith,
      zigzag_bounds value offset item next read,
      items_bounds n value next items stop (zigzag_bounds value offset item next read).1 inner,
    )

-- At a first byte, which is there.
indexes_at_bounds :
    (first : ℕ) (rest value : List ℕ) (offset : ℕ) (vs : List ℕ) (end : ℕ)
    → offset < length value
    → decode_indexes_at (first ∷ rest) value offset ≡ ok (vs, end)
    → (offset < end) × (end ≤ length value)
unfolding decode_indexes_at
indexes_at_bounds first rest value offset vs end fits h = elim (Bool-cases (first == 0)) [
  | inl none_given ↦ let h' = rw none_given at h in ground arith
  | inr given ↦
      let ((count, next), read, more) =
        >>=-eq-ok (decode_zigzag_varint value offset) _ (rw given at h) in
      let counted = zigzag_bounds value offset count next read in
      ground (arith, counted, items_bounds count value next vs end counted.1 more)
]

indexes_bounds :
    (value : List ℕ) (offset : ℕ) (vs : List ℕ) (end : ℕ)
    → decode_message_indexes value offset ≡ ok (vs, end)
    → (offset < end) × (end ≤ length value)
unfolding decode_message_indexes
indexes_bounds value offset vs end h = cases (drop offset value) (length-drop offset value) h
  where
    cases :
        (bytes : List ℕ)
        → length bytes ≡ length value - offset
        → decode_indexes_at bytes value offset ≡ ok (vs, end)
        → (offset < end) × (end ≤ length value)
    cases [] e g = unfold decode_indexes_at in cc
    cases (first ∷ rest) e g = indexes_at_bounds first rest value offset vs end (omega arith) g

-- Whatever the bytes are, an accepted prefix ends between 5 and the end of the bytes.
pub decode_prefix_bounds :
    (value : List ℕ) (expect : Bool) (id offset : ℕ) (indexes : Option (List ℕ))
    → decode_confluent_prefix value expect ≡ ok (id, offset, indexes)
    → (5 ≤ offset) × (offset ≤ length value)
unfolding decode_confluent_prefix decode_optional_indexes
decode_prefix_bounds (m ∷ a ∷ b ∷ c ∷ d ∷ rest) false id offset indexes h = ground arith
decode_prefix_bounds (m ∷ a ∷ b ∷ c ∷ d ∷ rest) true id offset indexes h =
    elim (Bool-cases (m == confluent_magic_byte)) [
      | inl magic ↦
          let value = m ∷ a ∷ b ∷ c ∷ d ∷ rest in
          let ((found, end), first, done) =
            >>=-eq-ok (decode_optional_indexes true value 5) _ (rw magic at h) in
          let ((ns, stop), read, last) = >>=-eq-ok (decode_message_indexes value 5) _ first in
          ground (arith, indexes_bounds value 5 ns stop read)
      | inr other ↦ let h' = rw other at h in cc
    ]
decode_prefix_bounds value expect id offset indexes h = cc
