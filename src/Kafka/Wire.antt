-- ===== src/Kafka/Wire.antt =====
-- kafka/_schema_registry_wire.py: the Confluent wire format, a magic byte, the schema id in four
-- bytes, and for Protobuf the message indexes as zigzag varints. A byte string is a list of
-- numbers; a decoder keeps the source's cursor beside the bytes that the cursor has not passed.
use mathlib.Core.Logic.{dite}
use mathlib.Core.WellFounded.{Acc}
use Prim.Native.Nat.{bit_or}
use native.Mathlib.Decide.{dec_lt}
use agora_etl_plugins.Common.Bits.{low_bits, shr, shl, bit}
use agora_etl_plugins.Common.{
  ℕ, zero, suc, ◌+◌, ◌*◌, ◌/◌, ◌^◌, ◌<◌, ◌%◌, Bool, true, false, not, ◌&&◌, List, [], ◌∷◌, ◌++◌,
  Option, none, some, length, drop, lt_wf, leb, ltb, if◌then◌else◌, ◌==◌, nat_eq, Result, ok, raise,
  raise_if, ◌>>=◌, ◌>>◌, ℤ, pos, negsuc, arith,
}
pub mod Varint
pub mod Indexes
pub mod Prefix
mod Tests

pub data WireError : Type 0 where
  too_short bad_magic missing_indexes negative_index negative_varint : WireError
  odd_varint truncated_varint schema_id_range : WireError

abbrev pub confluent_magic_byte : ℕ
confluent_magic_byte = 0

-- `remaining >> 7` is smaller as long as it is not 0.
pub shr-lt : (v : ℕ) → 0 < shr v 7 → shr v 7 < v
shr-lt v h = omega arith

-- `while True`, ended when nothing remains above the seven low bits
pub varint_loop : (remaining : ℕ) → Acc ◌<◌ remaining → List ℕ
unfolding dec_lt
varint_loop remaining (Acc.intro _ smaller) =
    let bits = low_bits remaining 7 in
    dite (dec_lt 0 (shr remaining 7))
      (λ more. bit_or bits 0x80 ∷ varint_loop (shr remaining 7) (smaller _ (shr-lt remaining more)))
      (λ _. bits ∷ [])

pub encode_unsigned_varint : ℕ → List ℕ
unfolding varint_loop lt_wf
encode_unsigned_varint value = varint_loop value (lt_wf.apply value)

-- `while cursor < len(value)`; the list is `value[cursor:]`
pub scan_varint : List ℕ → ℕ → ℕ → ℕ → Result WireError (ℕ × ℕ)
scan_varint [] cursor shift decoded = raise truncated_varint
scan_varint (item ∷ rest) cursor shift decoded =
    let decoded' = bit_or decoded (shl (low_bits item 7) shift) in
    let more = scan_varint rest (cursor + 1) (shift + 7) decoded' in
    if bit item 7 == 0 then ok (decoded', cursor + 1) else more

pub decode_unsigned_varint : List ℕ → ℕ → Result WireError (ℕ × ℕ)
unfolding scan_varint
decode_unsigned_varint value offset = scan_varint (drop offset value) offset 0 0

pub encode_zigzag_varint : ℤ → Result WireError (List ℕ)
encode_zigzag_varint (negsuc n) = raise negative_varint
encode_zigzag_varint (pos n) = ok (encode_unsigned_varint (shl n 1))

-- `(encoded >> 1) ^ -(encoded & 1)`: all bits flip if the lowest is set
pub unzigzag : ℕ → ℤ
unzigzag encoded = if low_bits encoded 1 == 0 then pos (shr encoded 1) else negsuc (shr encoded 1)

pub non_negative : ℤ → Result WireError ℕ
non_negative (pos n) = ok n
non_negative (negsuc n) = raise odd_varint

pub decode_zigzag_varint : List ℕ → ℕ → Result WireError (ℕ × ℕ)
unfolding unzigzag non_negative
decode_zigzag_varint value offset = do
  (encoded, cursor) ← decode_unsigned_varint value offset
  decoded ← non_negative (unzigzag encoded)
  ok (decoded, cursor)

pub encode_index : ℤ → Result WireError (List ℕ)
encode_index (negsuc n) = raise negative_index
encode_index (pos n) = encode_zigzag_varint (pos n)

pub encode_indexes : List ℤ → Result WireError (List ℕ)
encode_indexes [] = ok []
encode_indexes (index ∷ rest) = do
  head ← encode_index index
  tail ← encode_indexes rest
  ok (head ++ tail)

pub is_single_zero : List ℤ → Bool
is_single_zero (pos zero ∷ []) = true
is_single_zero _ = false

pub encode_message_indexes : List ℤ → Result WireError (List ℕ)
unfolding is_single_zero
encode_message_indexes indexes = if is_single_zero indexes then ok (0 ∷ []) else do
  count ← encode_zigzag_varint (pos (length indexes))
  encoded ← encode_indexes indexes
  ok (count ++ encoded)

-- `for _ in range(length)`
pub decode_items : ℕ → List ℕ → ℕ → Result WireError (List ℕ × ℕ)
decode_items zero value offset = ok ([], offset)
decode_items (suc n) value offset = do
  (item, next) ← decode_zigzag_varint value offset
  (items, end) ← decode_items n value next
  ok (item ∷ items, end)

-- `value[offset]` after the test that it exists
pub decode_indexes_at : List ℕ → List ℕ → ℕ → Result WireError (List ℕ × ℕ)
decode_indexes_at [] value offset = raise missing_indexes
decode_indexes_at (first ∷ rest) value offset =
    if first == 0
    then ok (0 ∷ [], offset + 1)
    else do (count, next) ← decode_zigzag_varint value offset; decode_items count value next

pub decode_message_indexes : List ℕ → ℕ → Result WireError (List ℕ × ℕ)
unfolding decode_indexes_at
decode_message_indexes value offset = decode_indexes_at (drop offset value) value offset

-- `struct.pack(">I", schema_id)`, which raises outside of 32 bits
pub pack_u32 : ℤ → Result WireError (List ℕ)
pack_u32 (negsuc n) = raise schema_id_range
pack_u32 (pos n) =
    if ltb n (2 ^ 32)
    then ok (shr n 24 ∷ low_bits (shr n 16) 8 ∷ low_bits (shr n 8) 8 ∷ low_bits n 8 ∷ [])
    else raise schema_id_range

pub encode_optional_indexes : Option (List ℤ) → Result WireError (List ℕ)
encode_optional_indexes none = ok []
encode_optional_indexes (some indexes) = encode_message_indexes indexes

pub encode_confluent_prefix : ℤ → Option (List ℤ) → Result WireError (List ℕ)
unfolding pack_u32 encode_optional_indexes
encode_confluent_prefix schema_id message_indexes = do
  id ← pack_u32 schema_id
  indexes ← encode_optional_indexes message_indexes
  ok (confluent_magic_byte ∷ id ++ indexes)

pub decode_optional_indexes : Bool → List ℕ → ℕ → Result WireError (Option (List ℕ) × ℕ)
decode_optional_indexes false value offset = ok (none, offset)
decode_optional_indexes true value offset = do
  (indexes, next) ← decode_message_indexes value offset
  ok (some indexes, next)

pub decode_confluent_prefix : List ℕ → Bool → Result WireError (ℕ × ℕ × Option (List ℕ))
unfolding decode_optional_indexes
decode_confluent_prefix (magic ∷ a ∷ b ∷ c ∷ d ∷ rest) expect_message_indexes =
    if magic == confluent_magic_byte
    then (do
      (indexes, offset) ←
          decode_optional_indexes expect_message_indexes (magic ∷ a ∷ b ∷ c ∷ d ∷ rest) 5
      ok (shl a 24 + shl b 16 + shl c 8 + d, offset, indexes))
    else raise bad_magic
decode_confluent_prefix value expect_message_indexes = raise too_short
