-- ===== src/Kafka/Wire/Indexes.antt =====
-- The zigzag varints and the Protobuf message indexes: what is encoded is decoded.
use mathlib.Core.List.{append_assoc}
use native.Mathlib.Decide.{dec_lt}
use agora_etl_plugins.Common.Bits.{low_bits, shr, shl}
use agora_etl_plugins.Common.{
  ℕ, zero, suc, ◌+◌, ◌<◌, ◌≡◌, refl, ap, List, [], ◌∷◌, ◌++◌, length, drop-length-append, lt_wf,
  length-append, map, ok, raise, arith, ℤ, pos, negsuc, nat_eq, true, false, Bool-cases, inl, inr,
  ◌>>=◌, length-map,
}
use agora_etl_plugins.Kafka.Wire.Varint.{decode-encode_unsigned, encode_unsigned-head}
use agora_etl_plugins.Kafka.Wire.{
  encode_unsigned_varint, encode_zigzag_varint, decode_zigzag_varint, unzigzag, non_negative,
  varint_loop, negative_index, encode_index, encode_indexes, is_single_zero, encode_message_indexes,
  decode_items, decode_indexes_at, decode_message_indexes,
}

-- The bytes of one number and of several.
abbrev pub zigzag_bytes : ℕ → List ℕ
zigzag_bytes n = encode_unsigned_varint (shl n 1)

abbrev pub item_bytes : List ℕ → List ℕ
item_bytes [] = []
item_bytes (n ∷ ns) = zigzag_bytes n ++ item_bytes ns

unzigzag-even : (n : ℕ) → unzigzag (shl n 1) ≡ pos n
unfolding unzigzag
unzigzag-even n =
    let low : low_bits (shl n 1) 1 ≡ 0 = omega arith in
    let high : shr (shl n 1) 1 ≡ n = omega arith in rw (low, high)

-- A number between any bytes is read back, and the cursor ends behind it.
pub decode-encode_zigzag :
    (n : ℕ) (before after : List ℕ)
    → decode_zigzag_varint (before ++ (zigzag_bytes n ++ after)) (length before)
      ≡ ok (n, length before + length (zigzag_bytes n))
unfolding decode_zigzag_varint non_negative
decode-encode_zigzag n before after =
    rw (decode-encode_unsigned (shl n 1) before after) (rw (unzigzag-even n))

encode_indexes-items : (ns : List ℕ) → encode_indexes (map pos ns) ≡ ok (item_bytes ns)
unfolding encode_indexes encode_index encode_zigzag_varint
encode_indexes-items [] = refl
encode_indexes-items (n ∷ ns) = rw (encode_indexes-items ns)

-- `before` is what the cursor has passed.
decode_items-items :
    (ns before after : List ℕ)
    → decode_items (length ns) (before ++ (item_bytes ns ++ after)) (length before)
      ≡ ok (ns, length before + length (item_bytes ns))
unfolding decode_items
decode_items-items [] before after = ground arith
decode_items-items (n ∷ ns) before after =
    rw
      (
        append_assoc (zigzag_bytes n) (item_bytes ns) after,
        decode-encode_zigzag n before (item_bytes ns ++ after),
      )
      (rw
        (
          ← append_assoc before (zigzag_bytes n) (item_bytes ns ++ after),
          ← length-append before (zigzag_bytes n),
        )
        (rw (decode_items-items ns (before ++ zigzag_bytes n) after) (
          ground (
            arith,
            length-append before (zigzag_bytes n),
            length-append (zigzag_bytes n) (item_bytes ns),
          ))))

items_behind :
    (ns before passed after : List ℕ)
    → decode_items
        (length ns)
        (before ++ (passed ++ (item_bytes ns ++ after)))
        (length before + length passed)
      ≡ ok (ns, length before + length (passed ++ item_bytes ns))
items_behind ns before passed after =
    rw (← append_assoc before passed (item_bytes ns ++ after), ← length-append before passed)
      (rw (decode_items-items ns (before ++ passed) after)
        (ground (arith, length-append before passed, length-append passed (item_bytes ns))))

-- What a decoder makes of the indexes: no index at all reads as the index 0.
abbrev pub read_back : List ℕ → List ℕ
read_back [] = 0 ∷ []
read_back ns = ns

-- A first byte other than 0 is the start of the count.
indexes_at-nonzero :
    (bytes : List ℕ) (b : ℕ) (bs value : List ℕ) (offset : ℕ)
    → bytes ≡ b ∷ bs
    → 0 < b
    → decode_indexes_at bytes value offset
      ≡ (decode_zigzag_varint value offset >>= λ c. decode_items c.0 value c.1)
unfolding decode_indexes_at
indexes_at-nonzero bytes b bs value offset e h = rw e (ground arith)

decode_counted :
    (n : ℕ) (ns before after : List ℕ)
    → let bytes = zigzag_bytes (length (n ∷ ns)) ++ item_bytes (n ∷ ns) in
      decode_message_indexes (before ++ (bytes ++ after)) (length before)
      ≡ ok (n ∷ ns, length before + length bytes)
unfolding decode_message_indexes
decode_counted n ns before after =
    let count = zigzag_bytes (length (n ∷ ns)) in
    let items = item_bytes (n ∷ ns) in
    let (b, bs, starts, positive) = encode_unsigned-head (shl (length (n ∷ ns)) 1) in
    rw (append_assoc count items after, drop-length-append before (count ++ (items ++ after)))
      (rw
        (
          indexes_at-nonzero _ b (bs ++ (items ++ after)) _ _
              (ap (λ (t : List ℕ). t ++ (items ++ after)) starts) (positive (omega arith)),
          decode-encode_zigzag (length (n ∷ ns)) before (items ++ after),
        )
        (items_behind (n ∷ ns) before count after))

encode_counted :
    (ns : List ℕ)
    → is_single_zero (map pos ns) ≡ false
    → encode_message_indexes (map pos ns) ≡ ok (zigzag_bytes (length ns) ++ item_bytes ns)
unfolding encode_message_indexes encode_zigzag_varint
encode_counted ns h = rw (h, encode_indexes-items ns, length-map pos ns)

single_zero-ne : (ns : List ℕ) → is_single_zero (map pos ns) ≡ true → ns ≡ 0 ∷ []
unfolding is_single_zero
single_zero-ne [] h = cc
single_zero-ne (zero ∷ []) h = refl
single_zero-ne (suc n ∷ []) h = cc
single_zero-ne (zero ∷ m ∷ ns) h = cc
single_zero-ne (suc n ∷ m ∷ ns) h = cc

encode_single :
    (ns : List ℕ)
    → is_single_zero (map pos ns) ≡ true
    → encode_message_indexes (map pos ns) ≡ ok (0 ∷ [])
unfolding encode_message_indexes
encode_single ns h = rw h

zero_byte :
    (before after : List ℕ)
    → decode_message_indexes (before ++ (0 ∷ after)) (length before)
      ≡ ok (0 ∷ [], length before + 1)
unfolding decode_message_indexes decode_indexes_at
zero_byte before after = rw (drop-length-append before (0 ∷ after))

encode_nil : encode_message_indexes [] ≡ ok (0 ∷ [])
unfolding encode_message_indexes is_single_zero encode_zigzag_varint encode_indexes
    encode_unsigned_varint varint_loop dec_lt lt_wf
encode_nil = refl

-- Message indexes that are not negative are encoded, and between any bytes they are read back,
-- with the cursor behind them; but no index at all reads as the single index 0.
pub decode-encode_indexes :
    (ns before after : List ℕ)
    → (bytes : List ℕ) × (encode_message_indexes (map pos ns) ≡ ok bytes)
      × (decode_message_indexes (before ++ (bytes ++ after)) (length before)
          ≡ ok (read_back ns, length before + length bytes))
decode-encode_indexes [] before after = (0 ∷ [], encode_nil, zero_byte before after)
decode-encode_indexes (n ∷ ns) before after =
    elim (Bool-cases (is_single_zero (map pos (n ∷ ns)))) [
      | inl single ↦ (
        0 ∷ [],
        encode_single (n ∷ ns) single,
        rw (single_zero-ne (n ∷ ns) single) (zero_byte before after),
      )
      | inr many ↦ (_, encode_counted (n ∷ ns) many, decode_counted n ns before after)
    ]

items-negative :
    (front back : List ℤ) (k : ℕ)
    → encode_indexes (front ++ (negsuc k ∷ back)) ≡ raise negative_index
unfolding encode_indexes encode_index encode_zigzag_varint
items-negative [] back k = refl
items-negative (pos n ∷ front) back k = rw (items-negative front back k)
items-negative (negsuc n ∷ front) back k = refl

single_zero-negative :
    (front back : List ℤ) (k : ℕ) → is_single_zero (front ++ (negsuc k ∷ back)) ≡ false
unfolding is_single_zero
single_zero-negative [] back k = refl
single_zero-negative (pos zero ∷ []) back k = refl
single_zero-negative (pos zero ∷ x ∷ front) back k = refl
single_zero-negative (pos (suc n) ∷ front) back k = refl
single_zero-negative (negsuc n ∷ front) back k = refl

-- A negative index is refused, wherever it stands.
pub encode_indexes-negative :
    (front back : List ℤ) (k : ℕ)
    → encode_message_indexes (front ++ (negsuc k ∷ back)) ≡ raise negative_index
unfolding encode_message_indexes encode_zigzag_varint
encode_indexes-negative front back k =
    rw (single_zero-negative front back k, items-negative front back k)
