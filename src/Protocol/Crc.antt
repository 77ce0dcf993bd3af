-- ===== src/Protocol/Crc.antt =====
-- The checksum of the protocol, with the table as the source has it.
use cursor_embed_cus_mqtt_su.Base.{
  ℕ, ◌-◌, ◌≤◌, ◌<◌, ◌≡◌, refl, arith, List, [], ◌∷◌, length, All, xor_ones, xor_zero,
  get_elem?-none,
}
use cursor_embed_cus_mqtt_su.Protocol.{crc16_entries, crc16_table, crc16_from, calculate_crc16}

-- Every letter, digit and punctuation mark of ASCII is such a byte.
abbrev pub IsPlain : ℕ → Type 0
IsPlain b = (16 ≤ b) × (b < 240)

table_zero : (i : ℕ) → 16 ≤ i → crc16_table i ≡ 0
unfolding crc16_table
table_zero i h = rw (get_elem?-none crc16_entries i h) refl

stays_zero : (bs : List ℕ) → All IsPlain bs → crc16_from 0 bs ≡ 0
unfolding crc16_from
stays_zero [] h = refl
stays_zero (b ∷ bs) h =
    rw (xor_zero b (omega (arith, h.0.1)), table_zero b h.0.0) (stays_zero bs h.1)

-- The checksum of two or more bytes from 16 to 239 is 0, whatever they are.
pub crc16_blind :
    (bytes : List ℕ) → All IsPlain bytes → 2 ≤ length bytes → calculate_crc16 bytes ≡ 0
unfolding calculate_crc16 crc16_from
crc16_blind [] h l = absurd (omega arith)
crc16_blind (a ∷ []) h l = absurd (omega arith)
crc16_blind (a ∷ (b ∷ bs)) h l =
    rw
      (
        xor_ones a (omega (arith, h.0.1)),
        table_zero (255 - a) (omega (arith, h.0.1)),
        xor_ones b (omega (arith, h.1.0.1)),
        table_zero (255 - b) (omega (arith, h.1.0.1)),
      )
      (stays_zero bs h.1.1)
