-- ===== src/Kafka/Wire/Varint.antt =====
-- The varints of kafka/_schema_registry_wire.py: what is encoded is decoded.
use mathlib.Core.WellFounded.{Acc}
use mathlib.Core.Logic.{dif_pos, dif_neg}
use Prim.Native.Nat.{bit_or}
use native.Mathlib.Decide.{dec_lt}
use native.Mathlib.Nat.{div-add-mod}
use native.Mathlib.Numerals.{towards_suc}
use native.Mathlib.Bridge.{le_prop}
use agora_etl_plugins.Common.Bits.{low_bits, shr, shl, bit_or-shl}
use agora_etl_plugins.Common.{
  ℕ, ◌+◌, ◌*◌, ◌/◌, ◌^◌, ◌<◌, ◌≤◌, ◌≡◌, ap, List, [], ◌∷◌, ◌++◌, length, drop, drop-length-append,
  length-drop, lt_wf, ok, arith, All,
}
use agora_etl_plugins.Kafka.Wire.{
  shr-lt, varint_loop, encode_unsigned_varint, scan_varint, decode_unsigned_varint,
}

pow_seven : (s : ℕ) → 2 ^ (s + 7) ≡ 128 * 2 ^ s
pow_seven s = simp towards_suc (omega arith)

-- The lowest seven bits and the rest, both shifted by `s`.
split_bits : (v s : ℕ) → shl v s ≡ shl (low_bits v 7) s + shl (shr v 7) (s + 7)
split_bits v s = omega (
  arith,
  ap (λ (t : ℕ). t * 2 ^ s) (div-add-mod v 128),
  ap (λ (t : ℕ). v / 128 * t) (pow_seven s),
)

fits-shl : (d s b : ℕ) → d < 2 ^ s → b < 128 → d + shl b s < 2 ^ (s + 7)
fits-shl d s b h k = rw pow_seven (grind arith)

-- One round of the decoder, on a last byte and on a byte with its top bit set.
scan_last :
    (b : ℕ) (rest : List ℕ) (cursor shift decoded : ℕ)
    → b < 128
    → decoded < 2 ^ shift
    → scan_varint (b ∷ rest) cursor shift decoded ≡ ok (decoded + shl b shift, cursor + 1)
unfolding scan_varint
scan_last b rest cursor shift decoded h fits =
    let low : low_bits b 7 ≡ b = omega arith in
    rw low (ground (arith, bit_or-shl shift decoded b fits))

scan_more :
    (b : ℕ) (rest : List ℕ) (cursor shift decoded : ℕ)
    → b < 128
    → decoded < 2 ^ shift
    → scan_varint (bit_or b 0x80 ∷ rest) cursor shift decoded
      ≡ scan_varint rest (cursor + 1) (shift + 7) (decoded + shl b shift)
unfolding scan_varint
scan_more b rest cursor shift decoded h fits =
    let low : low_bits (b + 128) 7 ≡ b = omega arith in
    rw (bit_or-shl 7 b 1 h, low, bit_or-shl shift decoded b fits) (ground arith)

varint_loop-scan :
    (v : ℕ) (w : Acc ◌<◌ v) (rest : List ℕ) (cursor shift decoded : ℕ)
    → decoded < 2 ^ shift
    → scan_varint (varint_loop v w ++ rest) cursor shift decoded
      ≡ ok (decoded + shl v shift, cursor + length (varint_loop v w))
unfolding varint_loop
varint_loop-scan v (Acc.intro _ smaller) rest cursor shift decoded fits =
    elim (dec_lt 0 (shr v 7)) [
      | yes more ↦
          rw
            (
              dif_pos _ le_prop more,
              scan_more (low_bits v 7) _ cursor shift decoded (omega arith) fits,
            )
            (rw
              (varint_loop-scan (shr v 7) (smaller _ (shr-lt v more)) rest (cursor + 1) (shift + 7)
                _ (fits-shl decoded shift (low_bits v 7) fits (omega arith)))
              (ground (arith, split_bits v shift)))
      | no last ↦
          let whole : low_bits v 7 ≡ v = omega arith in
          rw (dif_neg _ last, whole) (scan_last v rest cursor shift decoded (omega arith) fits)
    ]

-- An unsigned varint between any bytes is read back, and the cursor ends behind it.
pub decode-encode_unsigned :
    (v : ℕ) (before after : List ℕ)
    → decode_unsigned_varint (before ++ (encode_unsigned_varint v ++ after)) (length before)
      ≡ ok (v, length before + length (encode_unsigned_varint v))
unfolding decode_unsigned_varint encode_unsigned_varint
decode-encode_unsigned v before after =
    rw (drop-length-append before (encode_unsigned_varint v ++ after)) (
      rw (varint_loop-scan v (lt_wf.apply v) after (length before) 0 0 (omega arith))
        (ground arith))

-- Every byte that is written fits a byte.
varint_loop-bytes : (v : ℕ) (w : Acc ◌<◌ v) → All (λ b. b < 256) (varint_loop v w)
unfolding varint_loop
varint_loop-bytes v (Acc.intro _ smaller) = elim (dec_lt 0 (shr v 7)) [
  | yes more ↦
      rw (dif_pos _ le_prop more, bit_or-shl 7 (low_bits v 7) 1 (omega arith))
        (omega arith, varint_loop-bytes (shr v 7) (smaller _ (shr-lt v more)))
  | no last ↦ rw (dif_neg _ last) (omega arith)
]

pub encode_unsigned-bytes : (v : ℕ) → All (λ b. b < 256) (encode_unsigned_varint v)
unfolding encode_unsigned_varint
encode_unsigned-bytes v = varint_loop-bytes v (lt_wf.apply v)

varint_loop-head :
    (v : ℕ) (w : Acc ◌<◌ v) → (b : ℕ) × (bs : List ℕ) × (varint_loop v w ≡ b ∷ bs) × (0 < v → 0 < b)
unfolding varint_loop
varint_loop-head v (Acc.intro _ smaller) = elim (dec_lt 0 (shr v 7)) [
  | yes more ↦ (
    bit_or (low_bits v 7) 0x80,
    varint_loop (shr v 7) (smaller _ (shr-lt v more)),
    (rw (dif_pos _ le_prop more)),
    λ h. omega (arith, bit_or-shl 7 (low_bits v 7) 1 (omega arith)),
  )
  | no last ↦ (low_bits v 7, [], (rw (dif_neg _ last)), λ h. omega arith)
]

-- The first byte of an encoded number is 0 for the number 0 only.
pub encode_unsigned-head :
    (v : ℕ) → (b : ℕ) × (bs : List ℕ) × (encode_unsigned_varint v ≡ b ∷ bs) × (0 < v → 0 < b)
unfolding encode_unsigned_varint
encode_unsigned-head v = varint_loop-head v (lt_wf.apply v)

-- A successful read takes a byte at least, and ends within the bytes.
scan_bounds :
    (bs : List ℕ) (cursor shift decoded v end : ℕ)
    → scan_varint bs cursor shift decoded ≡ ok (v, end)
    → (cursor < end) × (end ≤ cursor + length bs)
unfolding scan_varint
scan_bounds [] cursor shift decoded v end h = cc
scan_bounds (b ∷ bs) cursor shift decoded v end h = ground (
  arith,
  scan_bounds bs (cursor + 1) (shift + 7) (bit_or decoded (shl (low_bits b 7) shift)) v end,
)

pub decode_unsigned_bounds :
    (value : List ℕ) (offset v end : ℕ)
    → decode_unsigned_varint value offset ≡ ok (v, end)
    → (offset < end) × (end ≤ length value)
unfolding decode_unsigned_varint
decode_unsigned_bounds value offset v end h =
    omega (arith, scan_bounds (drop offset value) offset 0 0 v end h, length-drop offset value)
