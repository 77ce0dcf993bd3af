-- ===== src/Mqtt/Length.antt =====
-- The remaining length of mqtt_encoder.c and mqtt_decoder.c: one to four groups of seven bits.
use cursor_embed_cus_mqtt_su.Base.{
  ℕ, suc, ◌+◌, ◌*◌, ◌/◌, ◌%◌, ◌^◌, ◌≤◌, ◌<◌, ◌≡◌, refl, arith, bit_or, bit_and, ◌==◌, Bool-cases,
  List, [], ◌∷◌, ◌++◌, if◌then◌else◌, ltb, ltb-false, ◌⊎◌, inl, inr, length, All, IsByte, low_seven,
  top_bit, set_top_bit, Outcome, ok, rejected, fault,
}
use cursor_embed_cus_mqtt_su.Mqtt.Encoder.{encode_remaining_length}
use cursor_embed_cus_mqtt_su.Mqtt.Decoder.{decode_rounds, decode_remaining_length}

-- One round of the decoder on a last byte, and on a byte with the top bit set.
last_group :
    (g decoded multiplier len : ℕ) (rest : List ℕ)
    → g < 128
    → multiplier ≤ 16384
    → decode_rounds (g ∷ rest) decoded multiplier len
      ≡ ok ((len + g * multiplier) % 2 ^ 32, decoded + 1)
unfolding decode_rounds
last_group g decoded multiplier len rest hg hm = ground (arith, low_seven g, top_bit g)

inner_group :
    (g decoded multiplier len : ℕ) (rest : List ℕ)
    → g < 128
    → multiplier ≤ 16384
    → decode_rounds (bit_or g 128 ∷ rest) decoded multiplier len
      ≡ decode_rounds rest (decoded + 1) (multiplier * 128) ((len + g * multiplier) % 2 ^ 32)
unfolding decode_rounds
inner_group g decoded multiplier len rest hg hm =
    ground (arith, set_top_bit g, low_seven (g + 128), top_bit (g + 128))

-- The fourth byte is refused, whatever it is.
fourth_byte :
    (b decoded len : ℕ) (rest : List ℕ) → decode_rounds (b ∷ rest) decoded 2097152 len ≡ rejected
unfolding decode_rounds
fourth_byte b decoded len rest = refl

-- The encoding, group by group.
one_group : (n : ℕ) → n < 128 → encode_remaining_length n ≡ n ∷ []
unfolding encode_remaining_length
one_group n h = ground arith

two_groups :
    (n : ℕ)
    → 128 ≤ n
    → n < 16384
    → encode_remaining_length n ≡ bit_or (n % 128) 128 ∷ (n / 128 ∷ [])
unfolding encode_remaining_length
two_groups n l h = ground arith

three_groups :
    (n : ℕ)
    → 16384 ≤ n
    → n < 2097152
    → encode_remaining_length n
      ≡ bit_or (n % 128) 128 ∷ (bit_or (n / 128 % 128) 128 ∷ (n / 128 / 128 ∷ []))
unfolding encode_remaining_length
three_groups n l h = ground arith

four_groups :
    (n : ℕ)
    → 2097152 ≤ n
    → (b : ℕ) × (encode_remaining_length n
        ≡ bit_or (n % 128) 128
          ∷ (bit_or (n / 128 % 128) 128 ∷ (bit_or (n / 128 / 128 % 128) 128 ∷ (b ∷ []))))
unfolding encode_remaining_length
four_groups n l = (
  if ltb 0 (n / 128 / 128 / 128 / 128)
      then bit_or (n / 128 / 128 / 128 % 128) 128
      else n / 128 / 128 / 128 % 128,
  ground arith,
)

length-cases :
    (n : ℕ) → (n < 128) ⊎ ((128 ≤ n) × (n < 16384)) ⊎ ((16384 ≤ n) × (n < 2097152)) ⊎ (2097152 ≤ n)
length-cases n = ground arith

-- The encoding takes one to four bytes.
pub encode_remaining_length_size :
    (n : ℕ) → (1 ≤ length (encode_remaining_length n)) × (length (encode_remaining_length n) ≤ 4)
unfolding encode_remaining_length
encode_remaining_length_size n = ground arith

-- What the encoder writes for a length below 128 ^ 3 is read back, with its size in bytes, whatever
-- follows it.
pub decode-encode_remaining_length :
    (n : ℕ) (rest : List ℕ)
    → n < 128 ^ 3
    → decode_remaining_length (encode_remaining_length n ++ rest)
      ≡ ok (n, length (encode_remaining_length n))
unfolding decode_remaining_length
decode-encode_remaining_length n rest h = elim (length-cases n) [
  | inl a ↦ rw (one_group n a) (ground (arith, last_group n 0 1 0 rest))
  | inr (inl (l, a)) ↦ rw (two_groups n l a) (
      ground (
        arith,
        inner_group (n % 128) 0 1 0 (n / 128 ∷ rest),
        last_group (n / 128) 1 128 (n % 128) rest,
      ))
  | inr (inr (inl (l, a))) ↦ rw (three_groups n l a) (
      ground (
        arith,
        inner_group (n % 128) 0 1 0 (bit_or (n / 128 % 128) 128 ∷ (n / 128 / 128 ∷ rest)),
        inner_group (n / 128 % 128) 1 128 (n % 128) (n / 128 / 128 ∷ rest),
        last_group (n / 128 / 128) 2 16384 (n % 128 + n / 128 % 128 * 128) rest,
      ))
  | inr (inr (inr l)) ↦ absurd (omega arith)
]

-- What the encoder writes for a length of 128 ^ 3 or more is refused by the decoder.
pub decode_rejects_four_groups :
    (n : ℕ) (rest : List ℕ)
    → 128 ^ 3 ≤ n
    → decode_remaining_length (encode_remaining_length n ++ rest) ≡ rejected
unfolding decode_remaining_length
decode_rejects_four_groups n rest h =
    let (b, e) = four_groups n h in
    rw e (
      ground (
        arith,
        inner_group (n % 128) 0 1 0
            (bit_or (n / 128 % 128) 128 ∷ (bit_or (n / 128 / 128 % 128) 128 ∷ (b ∷ rest))),
        inner_group (n / 128 % 128) 1 128 (n % 128) (bit_or (n / 128 / 128 % 128) 128 ∷ (b ∷ rest)),
        inner_group (n / 128 / 128 % 128) 2 16384 (n % 128 + n / 128 % 128 * 128) (b ∷ rest),
        fourth_byte b 3 (n % 128 + n / 128 % 128 * 128 + n / 128 / 128 % 128 * 16384) rest,
      ))

-- An answer within three groups and `size` bytes, or a refusal.
abbrev pub IsMeasured : ℕ → Outcome (ℕ × ℕ) → Type 0
IsMeasured size (ok (v, k)) = (v < 128 ^ 3) × (1 ≤ k) × (k ≤ 3) × (k ≤ size)
IsMeasured size rejected = Unit
IsMeasured size fault = ⊥

fourth_round : (buf : List ℕ) (len size : ℕ) → IsMeasured size (decode_rounds buf 3 2097152 len)
unfolding decode_rounds
fourth_round [] len size = tt
fourth_round (b ∷ bs) len size = tt

third_round :
    (buf : List ℕ) (len size : ℕ)
    → All IsByte buf
    → len < 128 * 128
    → 2 + length buf ≤ size
    → IsMeasured size (decode_rounds buf 2 16384 len)
unfolding decode_rounds
third_round [] len size h l s = tt
third_round (b ∷ bs) len size h l s = elim (Bool-cases (bit_and b 128 == 0)) [
  | inl e ↦ rw e (omega (arith, low_seven b h.0))
  | inr e ↦ rw e (fourth_round bs _ size)
]

second_round :
    (buf : List ℕ) (len size : ℕ)
    → All IsByte buf
    → len < 128
    → 1 + length buf ≤ size
    → IsMeasured size (decode_rounds buf 1 128 len)
unfolding decode_rounds
second_round [] len size h l s = tt
second_round (b ∷ bs) len size h l s = elim (Bool-cases (bit_and b 128 == 0)) [
  | inl e ↦ rw e (omega (arith, low_seven b h.0))
  | inr e ↦ rw e (third_round bs _ size h.1 (omega (arith, low_seven b h.0)) (omega arith))
]

first_round :
    (b : ℕ) (bs : List ℕ)
    → All IsByte (b ∷ bs)
    → IsMeasured (suc (length bs)) (decode_rounds (b ∷ bs) 0 1 0)
unfolding decode_rounds
first_round b bs h = elim (Bool-cases (bit_and b 128 == 0)) [
  | inl e ↦ rw e (omega (arith, low_seven b h.0))
  | inr e ↦ rw e (second_round bs _ _ h.1 (omega (arith, low_seven b h.0)) (omega arith))
]

-- On any bytes the decoder stays inside the buffer: it takes one to three bytes that are there and
-- gives a length of at most three groups, or it refuses.
pub decode_remaining_length-IsMeasured :
    (buf : List ℕ) → All IsByte buf → IsMeasured (length buf) (decode_remaining_length buf)
unfolding decode_remaining_length
decode_remaining_length-IsMeasured [] h = tt
decode_remaining_length-IsMeasured (b ∷ bs) h =
    rw (ltb-false (suc (length bs)) 1 (omega arith)) (first_round b bs h)
