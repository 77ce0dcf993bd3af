-- ===== src/Mqtt/Cut.antt =====
-- A PUBLISH packet of which the end has not arrived, in `mqtt_decode_publish`.
use cursor_embed_cus_mqtt_su.Base.{
  ℕ, ◌+◌, ◌^◌, ◌≤◌, ◌<◌, ◌≡◌, refl, arith, Bool, true, List, [], ◌++◌, append_assoc, append-nil,
  some, length, length-append, ltb-false, ok, fault,
}
use cursor_embed_cus_mqtt_su.Mqtt.Types.{Message}
use cursor_embed_cus_mqtt_su.Mqtt.Encoder.{
  encode_string, encode_remaining_length, publish_header, packet_id_field, mqtt_encode_publish,
}
use cursor_embed_cus_mqtt_su.Mqtt.Decoder.{mqtt_decode_publish}
use cursor_embed_cus_mqtt_su.Mqtt.Strings.{
  decode_fixed_header-encode, decode_string-encode_string, length-encode_string,
}
use cursor_embed_cus_mqtt_su.Mqtt.Length.{encode_remaining_length_size}
use cursor_embed_cus_mqtt_su.Mqtt.Reads.{decode_publish_overread}
use cursor_embed_cus_mqtt_su.Mqtt.Publish.{
  id_size, header_fields, publish_header_sum, packet_tail, packet_body, packet_bytes, start,
  drop_header, skipped, length-packet_id_field,
}

-- The packet without its last bytes has fewer than its length claims.
length-packet_bytes :
    (topic kept : List ℕ) (first q id n : ℕ)
    → length topic < 2 ^ 16
    → length (packet_bytes topic kept [] first q id n)
      ≡ start topic kept [] first q id n + (2 + length topic + id_size q + length kept)
length-packet_bytes topic kept first q id n h = omega (
  arith,
  length-append (encode_remaining_length n) (packet_body topic kept [] first q id n),
  length-append (encode_string topic) (packet_tail topic kept [] first q id n),
  length-append (packet_id_field q id) (kept ++ []),
  length-append kept [],
  length-packet_id_field q id,
  length-encode_string topic h,
)

-- If a part of the payload of a PUBLISH that `mqtt_encode_publish` wrote is missing at the end of the
-- buffer, be it one byte or all of the payload, `mqtt_decode_publish` does not refuse the packet but
-- copies bytes from behind the buffer. The topic is shorter than 256 bytes, the QoS below 4, `buf_len`
-- at least 2, the packet fits three groups of length, and every `malloc` succeeds.
pub cut_publish_faults :
    (malloc : ℕ → Bool) (topic kept cut : List ℕ) (q id buf_len : ℕ) (retain dup : Bool)
    → ((k : ℕ) → malloc k ≡ true)
    → length topic < 256
    → q < 4
    → 2 ≤ buf_len
    → 4 + length topic + length (kept ++ cut) < 128 ^ 3
    → 0 < length cut
    → let m : Message = record {
      topic = some topic;
      payload = kept ++ cut;
      qos = q;
      retain = retain;
      dup = dup;
    } in
      (front : List ℕ) × (mqtt_encode_publish (some m) id true buf_len ≡ ok (front ++ cut))
      × (mqtt_decode_publish malloc (some front) true ≡ fault)
unfolding mqtt_encode_publish
cut_publish_faults malloc topic kept cut q id buf_len retain dup hm hl hq hb hs hc =
    let n = 2 + length topic + id_size q + length (kept ++ cut) in
    let header =
      publish_header (record {
        topic = some topic;
        payload = kept ++ cut;
        qos = q;
        retain = retain;
        dup = dup;
      }) in
    let (byte, type, grade, r, d) =
      header_fields header q retain dup hq
        (publish_header_sum (some topic) (kept ++ cut) retain dup q hq) in
    let few : id_size q ≤ 2 = ground arith in
    let buf = packet_bytes topic kept [] header q id n in
    let size = length-packet_bytes topic kept header q id n (omega arith) in
    (
      buf,
      rw (ltb-false buf_len 2 hb) (simp (append_assoc, append-nil) refl),
      decode_publish_overread malloc buf topic _ (start topic kept [] header q id n)
          (length topic + 2) (id_size q) (omega (arith, size, encode_remaining_length_size n))
          (decode_fixed_header-encode header n (packet_body topic kept [] header q id n) byte
            (omega arith))
          type
          (rw (drop_header topic kept [] header q id n) (
            decode_string-encode_string topic (packet_tail topic kept [] header q id n) 256 hl
              (omega arith)))
          (rw grade (skipped topic kept [] header q id n (omega arith)))
          (omega (arith, length-append kept cut)) (hm _)
          (omega (arith, size, length-append kept cut)),
    )
