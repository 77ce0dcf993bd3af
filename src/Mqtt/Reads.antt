-- ===== src/Mqtt/Reads.antt =====
-- Which reads of mqtt_decoder.c stay inside the buffer.
use cursor_embed_cus_mqtt_su.Base.{
  ℕ, ◌+◌, ◌-◌, ◌/◌, ◌≤◌, ◌<◌, ◌≡◌, ◌≢◌, refl, arith, Bool, true, List, [], ◌∷◌, some, length, drop,
  ltb, lt→ltb, ltb-false, leb-false, ◌==◌, inl, inr, Bool-cases, not, ◌||◌, All, IsByte, low_nibble,
  Outcome, ok, rejected, fault, ◌>>=◌, read-lt,
}
use cursor_embed_cus_mqtt_su.Mqtt.Types.{FixedHeader}
use cursor_embed_cus_mqtt_su.Mqtt.PacketType
use cursor_embed_cus_mqtt_su.Mqtt.Decoder.{
  decode_rounds, decode_remaining_length, decode_string, mqtt_decode_fixed_header,
  mqtt_decode_connack, mqtt_decode_publish, skip_packet_id, copy_payload,
}
use cursor_embed_cus_mqtt_su.Mqtt.Length.{decode_remaining_length-IsMeasured}

>>=-ne-fault {ℓ κ} :
    {A : Type ℓ} {B : Type κ} (m : Outcome A) (f : A → Outcome B)
    → m ≢ fault
    → ((a : A) → f a ≢ fault)
    → (m >>= f) ≢ fault
>>=-ne-fault (ok a) f h k = k a
>>=-ne-fault rejected f h k = λ e. cc
>>=-ne-fault fault f h k = absurd (h refl)

ok-ne-fault {ℓ} : {A : Type ℓ} (a : A) → ok a ≢ fault
ok-ne-fault a e = cc

pub decode_string-ne-fault : (buf : List ℕ) (room : ℕ) → decode_string buf room ≢ fault
unfolding decode_string
decode_string-ne-fault [] room = λ e. cc
decode_string-ne-fault (a ∷ []) room = λ e. cc
decode_string-ne-fault (a ∷ (b ∷ buf)) room = ground arith

skip_packet_id-ne-fault : (buf : List ℕ) (pos q : ℕ) → skip_packet_id buf pos q ≢ fault
unfolding skip_packet_id
skip_packet_id-ne-fault buf pos q = elim (Bool-cases (ltb (length buf) (pos + 2))) [
  | inl e ↦ rw e (ground arith)
  | inr e ↦
      let (a, ha) = read-lt buf pos (ground arith) in
      let (b, hb) = read-lt buf (pos + 1) (ground arith) in rw (e, ha, hb) (ground arith)
]

copy_payload-ne-fault :
    (malloc : ℕ → Bool) (buf : List ℕ) (pos n : ℕ)
    → ((0 < n) → pos + n ≤ length buf)
    → copy_payload malloc buf pos n ≢ fault
unfolding copy_payload
copy_payload-ne-fault malloc buf pos n h = ground arith

pub decode_fixed_header-ne-fault :
    (buf : List ℕ) → All IsByte buf → mqtt_decode_fixed_header (some buf) true ≢ fault
unfolding mqtt_decode_fixed_header
decode_fixed_header-ne-fault [] h = λ e. cc
decode_fixed_header-ne-fault (b ∷ bs) h = ground (arith, decode_remaining_length-IsMeasured bs h.1)

-- Where the fixed header is decoded and the buffer holds the remaining length that it claims,
-- `mqtt_decode_publish` reads nothing past the buffer, whatever the packet and the heap.
pub decode_publish_complete :
    (malloc : ℕ → Bool) (buf : List ℕ) (header : FixedHeader) (start : ℕ)
    → mqtt_decode_fixed_header (some buf) true ≡ ok (header, start)
    → start + header.remaining_length ≤ length buf
    → mqtt_decode_publish malloc (some buf) true ≢ fault
unfolding mqtt_decode_publish
decode_publish_complete malloc buf header start e h = elim (Bool-cases (ltb (length buf) 4)) [
  | inl short ↦ rw short (λ q. cc)
  | inr long ↦
      rw (long, e)
        (elim (Bool-cases (header.type == PacketType.publish)) [
          | inr other ↦ rw other (λ q. cc)
          | inl publish ↦ rw publish (
              >>=-ne-fault _ _ (decode_string-ne-fault (drop start buf) 256) λ t.
                >>=-ne-fault _ _ (skip_packet_id-ne-fault buf (start + t.1) header.qos_level) λ k.
                  >>=-ne-fault _ _
                    (copy_payload-ne-fault malloc buf (start + t.1 + k)
                      (header.remaining_length - (t.1 + k)) (λ p. omega arith))
                    (λ payload. ok-ne-fault _))
        ])
]

-- A PUBLISH of at least 4 bytes, with a topic and an identifier that are decoded, that claims a payload
-- past the end of the buffer is not refused: the decoder copies bytes that are not there, if `malloc`
-- gives the room.
pub decode_publish_overread :
    (malloc : ℕ → Bool) (buf topic : List ℕ) (header : FixedHeader) (start topic_len id_len : ℕ)
    → 4 ≤ length buf
    → mqtt_decode_fixed_header (some buf) true ≡ ok (header, start)
    → header.type ≡ PacketType.publish
    → decode_string (drop start buf) 256 ≡ ok (topic, topic_len)
    → skip_packet_id buf (start + topic_len) header.qos_level ≡ ok id_len
    → topic_len + id_len < header.remaining_length
    → malloc (header.remaining_length - (topic_len + id_len)) ≡ true
    → length buf < start + header.remaining_length
    → mqtt_decode_publish malloc (some buf) true ≡ fault
unfolding mqtt_decode_publish copy_payload
decode_publish_overread malloc buf topic header start topic_len id_len h4 e t es ei hl hm hb = rw (
  ltb-false (length buf) 4 h4,
  e,
  t,
  es,
  ei,
  lt→ltb 0 (header.remaining_length - (topic_len + id_len)) (omega arith),
  hm,
  leb-false (start + topic_len + id_len + (header.remaining_length - (topic_len + id_len)))
      (length buf) (omega arith),
)

-- Four bytes are not enough for a CONNACK whose remaining length, 2, is written in two groups: the
-- return code is read behind the buffer.
pub decode_connack_overread :
    (first x : ℕ)
    → IsByte first
    → first / 16 ≡ PacketType.connack
    → mqtt_decode_connack (some (first ∷ (0x82 ∷ (0x00 ∷ (x ∷ []))))) true ≡ fault
unfolding mqtt_decode_connack mqtt_decode_fixed_header decode_remaining_length decode_rounds
decode_connack_overread first x h t = rw (low_nibble (first / 16) (omega arith), t)

-- Where the fixed header is decoded and the buffer holds the remaining length that it claims,
-- `mqtt_decode_connack` reads nothing past the buffer.
pub decode_connack_complete :
    (buf : List ℕ) (header : FixedHeader) (start : ℕ)
    → mqtt_decode_fixed_header (some buf) true ≡ ok (header, start)
    → start + header.remaining_length ≤ length buf
    → mqtt_decode_connack (some buf) true ≢ fault
unfolding mqtt_decode_connack
decode_connack_complete buf header start e h = elim (Bool-cases (ltb (length buf) 4)) [
  | inl short ↦ rw short (λ q. cc)
  | inr long ↦
      rw (long, e)
        (elim (Bool-cases
          (not (header.type == PacketType.connack) || not (header.remaining_length == 2))) [
            | inl other ↦ rw other (λ q. cc)
            | inr connack ↦
                let two : header.remaining_length ≡ 2 = ground (arith, connack) in
                let (flags, hf) = read-lt buf start (omega (arith, two)) in
                let (code, hc) = read-lt buf (start + 1) (omega (arith, two)) in
                rw (connack, hf, hc) (ok-ne-fault _)
          ])
]
