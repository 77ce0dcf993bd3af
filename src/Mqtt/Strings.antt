-- ===== src/Mqtt/Strings.antt =====
-- The length-prefixed strings and the fixed header: what the encoder writes, and what the decoder
-- reads back from it.
use cursor_embed_cus_mqtt_su.Base.{
  ℕ, suc, ◌+◌, ◌/◌, ◌%◌, ◌^◌, ◌≤◌, ◌<◌, ◌≡◌, ◌≢◌, refl, ap, arith, true, List, [], ◌∷◌, ◌++◌, some,
  length, length-append, take-length_append, ltb-false, take, All, IsByte, low_nibble, low_two,
  low_bit, bit_or_byte, ok,
}
use cursor_embed_cus_mqtt_su.Mqtt.Types.{FixedHeader}
use cursor_embed_cus_mqtt_su.Mqtt.Encoder.{encode_string, encode_remaining_length}
use cursor_embed_cus_mqtt_su.Mqtt.Decoder.{decode_string, mqtt_decode_fixed_header, c_string}
use cursor_embed_cus_mqtt_su.Mqtt.Length.{
  decode-encode_remaining_length, encode_remaining_length_size,
}

take_all : (s : List ℕ) → take (length s) s ≡ s
take_all [] = refl
take_all (c ∷ s) = ap (λ l. c ∷ l) (take_all s)

-- A string that 16 bits can count is written whole.
pub encode_string_short :
    (s : List ℕ) → length s < 2 ^ 16 → encode_string s ≡ length s / 256 ∷ (length s % 256 ∷ s)
unfolding encode_string
encode_string_short s h = let e : length s % 2 ^ 16 ≡ length s = omega arith in rw (e, take_all s)

pub length-encode_string :
    (s : List ℕ) → length s < 2 ^ 16 → length (encode_string s) ≡ length s + 2
length-encode_string s h = rw (encode_string_short s h) (omega arith)

pub decode_string-encode_string :
    (s rest : List ℕ) (room : ℕ)
    → length s < room
    → room ≤ 2 ^ 16
    → decode_string (encode_string s ++ rest) room ≡ ok (s, length s + 2)
unfolding decode_string
decode_string-encode_string s rest room h k = rw (encode_string_short s (omega arith)) (
    ground (
      arith,
      bit_or_byte (length s / 256) (length s % 256),
      length-append s rest,
      take-length_append s rest,
    ))

-- The fields of the first byte, as numbers.
abbrev pub header_of : ℕ → ℕ → FixedHeader
header_of first n = record {
  type = first / 16;
  dup_flag = first / 8 % 2;
  qos_level = first / 2 % 4;
  retain = first % 2;
  remaining_length = n;
}

pub decode_fixed_header-encode :
    (first n : ℕ) (body : List ℕ)
    → IsByte first
    → n < 128 ^ 3
    → mqtt_decode_fixed_header (some (first ∷ (encode_remaining_length n ++ body))) true
      ≡ ok (header_of first n, length (encode_remaining_length n) + 1)
unfolding mqtt_decode_fixed_header
decode_fixed_header-encode first n body hf hn =
    rw
      (
        ltb-false (suc (length (encode_remaining_length n ++ body))) 2 (
            omega (
              arith,
              length-append (encode_remaining_length n) body,
              encode_remaining_length_size n,
            )),
        decode-encode_remaining_length n body hn,
      )
      (ground
        (arith, low_nibble (first / 16), low_bit (first / 8), low_two (first / 2), low_bit first))

pub c_string_lem : (s : List ℕ) → All (λ c. c ≢ 0) s → c_string s ≡ s
unfolding c_string
c_string_lem [] h = refl
c_string_lem (c ∷ s) h = ground (arith, c_string_lem s h.1, h.0)
