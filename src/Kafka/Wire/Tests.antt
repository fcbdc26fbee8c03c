-- ===== src/Kafka/Wire/Tests.antt =====
-- Runs of the wire format, and its theorems at concrete inputs.
use native.Mathlib.Decide.{dec_lt}
use agora_etl_plugins.Common.{
  ℕ, ◌+◌, ◌≤◌, ◌≡◌, refl, List, [], ◌∷◌, ◌++◌, length, map, ok, raise, arith, pos, negsuc, true,
  some, lt_wf,
}
use agora_etl_plugins.Kafka.Wire.Indexes.{decode-encode_indexes, read_back, encode_indexes-negative}
use agora_etl_plugins.Kafka.Wire.Prefix.{decode-encode_prefix, decode_prefix_bounds}
use agora_etl_plugins.Kafka.Wire.{
  truncated_varint, negative_index, encode_unsigned_varint, decode_unsigned_varint,
  encode_zigzag_varint, encode_message_indexes, decode_message_indexes, encode_confluent_prefix,
  decode_confluent_prefix, varint_loop, scan_varint, encode_index, encode_indexes, is_single_zero,
  decode_indexes_at, decode_optional_indexes,
}

encode_300 : encode_unsigned_varint 300 ≡ 172 ∷ 2 ∷ []
unfolding encode_unsigned_varint varint_loop lt_wf dec_lt
encode_300 = refl

decode_truncated : decode_unsigned_varint (7 ∷ 172 ∷ []) 1 ≡ raise truncated_varint
unfolding decode_unsigned_varint scan_varint
decode_truncated = refl

encode_indexes_run : encode_message_indexes (pos 1 ∷ pos 0 ∷ []) ≡ ok (4 ∷ 2 ∷ 0 ∷ [])
unfolding encode_message_indexes encode_zigzag_varint encode_indexes encode_index is_single_zero
    encode_unsigned_varint varint_loop lt_wf dec_lt
encode_indexes_run = refl

prefix_run :
    decode_confluent_prefix (0 ∷ 0 ∷ 0 ∷ 1 ∷ 2 ∷ 0 ∷ 9 ∷ []) true ≡ ok (258, 6, some (0 ∷ []))
unfolding decode_confluent_prefix decode_optional_indexes decode_message_indexes decode_indexes_at
prefix_run = refl

decode-encode_indexes_example :
    (bytes : List ℕ) × (encode_message_indexes (map pos (1 ∷ 0 ∷ [])) ≡ ok bytes)
    × (decode_message_indexes ((9 ∷ []) ++ (bytes ++ (5 ∷ []))) 1
        ≡ ok (read_back (1 ∷ 0 ∷ []), 1 + length bytes))
decode-encode_indexes_example = decode-encode_indexes (1 ∷ 0 ∷ []) (9 ∷ []) (5 ∷ [])

encode_indexes-negative_example :
    encode_message_indexes (pos 3 ∷ negsuc 0 ∷ pos 1 ∷ []) ≡ raise negative_index
encode_indexes-negative_example = encode_indexes-negative (pos 3 ∷ []) (pos 1 ∷ []) 0

decode-encode_prefix_example :
    (bytes : List ℕ) × (encode_confluent_prefix (pos 258) (some (pos 2 ∷ [])) ≡ ok bytes)
    × (decode_confluent_prefix (bytes ++ (65 ∷ [])) true ≡ ok (258, length bytes, some (2 ∷ [])))
decode-encode_prefix_example = decode-encode_prefix 258 (some (2 ∷ [])) (65 ∷ []) (omega arith)

decode_prefix_bounds_example : (5 ≤ 6) × (6 ≤ 7)
decode_prefix_bounds_example =
    decode_prefix_bounds (0 ∷ 0 ∷ 0 ∷ 1 ∷ 2 ∷ 0 ∷ 9 ∷ []) true 258 6 (some (0 ∷ [])) prefix_run
