-- ===== src/Mqtt/Publish.antt =====
-- PUBLISH packets: `mqtt_decode_publish` on what `mqtt_encode_publish` writes, and what the decoder
-- does with a packet that claims more bytes than there are.
use cursor_embed_cus_mqtt_su.Base.{
  ℕ, zero, suc, ◌+◌, ◌-◌, ◌*◌, ◌/◌, ◌%◌, ◌^◌, ◌≤◌, ◌<◌, ◌≡◌, ◌≢◌, refl, ap, ◌∙◌, arith, Bool, true,
  false, not, ◌==◌, Option, List, [], ◌∷◌, ◌++◌, append_assoc, some, length, length-append,
  take-length_append, drop-length_append, drop, ltb, lt→ltb, ltb-false, if◌then◌else◌, All, IsByte,
  ok, read,
}
use cursor_embed_cus_mqtt_su.Mqtt.Types.{Message}
use cursor_embed_cus_mqtt_su.Mqtt.Encoder.{
  encode_string, encode_remaining_length, publish_header, packet_id_field, encode_u16,
  mqtt_encode_publish,
}
use cursor_embed_cus_mqtt_su.Mqtt.Decoder.{mqtt_decode_publish, skip_packet_id, copy_payload}
use cursor_embed_cus_mqtt_su.Mqtt.Strings.{
  decode_fixed_header-encode, decode_string-encode_string, c_string_lem, length-encode_string,
}
use cursor_embed_cus_mqtt_su.Mqtt.Length.{encode_remaining_length_size}

abbrev bit : Bool → ℕ
bit b = if b then 1 else 0

-- The first byte of a PUBLISH, as a sum.
pub publish_header_sum :
    (topic : Option (List ℕ)) (payload : List ℕ) (retain dup : Bool) (q : ℕ)
    → q < 4
    → publish_header
        (record { topic = topic; payload = payload; qos = q; retain = retain; dup = dup })
      ≡ 48 + 8 * bit dup + 2 * q + bit retain
unfolding publish_header
publish_header_sum topic payload retain dup zero h = ground arith
publish_header_sum topic payload retain dup (suc zero) h = ground arith
publish_header_sum topic payload retain dup (suc (suc zero)) h = ground arith
publish_header_sum topic payload retain dup (suc (suc (suc zero))) h = ground arith
publish_header_sum topic payload retain dup (suc (suc (suc (suc q)))) h = absurd (omega arith)

pub header_fields :
    (first q : ℕ) (retain dup : Bool)
    → q < 4
    → first ≡ 48 + 8 * bit dup + 2 * q + bit retain
    → IsByte first
      × (first / 16 ≡ 3)
      × (first / 2 % 4 ≡ q)
      × (not (first % 2 == 0) ≡ retain)
      × (not (first / 8 % 2 == 0) ≡ dup)
header_fields first q true true h e = ground arith
header_fields first q true false h e = ground arith
header_fields first q false true h e = ground arith
header_fields first q false false h e = ground arith

abbrev pub id_size : ℕ → ℕ
id_size q = if ltb 0 q then 2 else 0

get_first : (pre more : List ℕ) (b : ℕ) → read (pre ++ (b ∷ more)) (length pre) ≡ ok b
get_first [] more b = refl
get_first (x ∷ pre) more b = get_first pre more b

get_second :
    (pre more : List ℕ) (a b : ℕ) → read (pre ++ (a ∷ (b ∷ more))) (suc (length pre)) ≡ ok b
get_second [] more a b = refl
get_second (x ∷ pre) more a b = get_second pre more a b

skip_packet_id_lem :
    (pre more : List ℕ) (pos q id : ℕ)
    → pos ≡ length pre
    → skip_packet_id (pre ++ (packet_id_field q id ++ more)) pos q ≡ ok (id_size q)
unfolding skip_packet_id
skip_packet_id_lem pre more pos zero id e = refl
skip_packet_id_lem pre more pos (suc q) id e =
    let there : pos + 1 ≡ suc (length pre) = omega arith in
    rw (
      lt→ltb 0 (suc q) (omega arith),
      ltb-false (length (pre ++ (encode_u16 id ++ more))) (pos + 2)
          (omega (arith, length-append pre (encode_u16 id ++ more))),
      there,
      e,
      get_first pre (id % 256 ∷ more) (id / 256),
      get_second pre more (id / 256) (id % 256),
    )

copy_payload_lem :
    (malloc : ℕ → Bool) (pre payload rest : List ℕ) (pos : ℕ)
    → pos ≡ length pre
    → ((n : ℕ) → malloc n ≡ true)
    → copy_payload malloc (pre ++ (payload ++ rest)) pos (length payload) ≡ ok payload
unfolding copy_payload
copy_payload_lem malloc pre [] rest pos e m = refl
copy_payload_lem malloc pre (x ∷ xs) rest pos e m =
    rw (e, m (suc (length xs)))
      (ground (
        arith,
        length-append pre (x ∷ (xs ++ rest)),
        length-append xs rest,
        drop-length_append pre (x ∷ (xs ++ rest)),
        take-length_append xs rest,
      ))

pub length-packet_id_field : (q id : ℕ) → length (packet_id_field q id) ≡ id_size q
length-packet_id_field q id = ground arith

-- A PUBLISH packet by its parts, with what follows it.
module _ (topic payload rest : List ℕ) (first q id n : ℕ) where
  abbrev pub packet_tail : List ℕ
  packet_tail = packet_id_field q id ++ (payload ++ rest)

  abbrev pub packet_body : List ℕ
  packet_body = encode_string topic ++ packet_tail

  abbrev pub packet_bytes : List ℕ
  packet_bytes = first ∷ (encode_remaining_length n ++ packet_body)

  abbrev pub start : ℕ
  start = length (encode_remaining_length n) + 1

  pub drop_header : drop start packet_bytes ≡ packet_body
  drop_header =
      let e : start ≡ suc (length (encode_remaining_length n)) = omega arith in
      rw e (drop-length_append (encode_remaining_length n) packet_body)

  module _ (short : length topic < 2 ^ 16) where
    pub skipped : skip_packet_id packet_bytes (start + (length topic + 2)) q ≡ ok (id_size q)
    skipped = rw (← append_assoc (encode_remaining_length n) (encode_string topic) packet_tail) (
        skip_packet_id_lem (first ∷ (encode_remaining_length n ++ encode_string topic))
          (payload ++ rest) _ q id
          (omega (
            arith,
            length-append (encode_remaining_length n) (encode_string topic),
            length-encode_string topic short,
          )))

    copied :
        (malloc : ℕ → Bool)
        → ((k : ℕ) → malloc k ≡ true)
        → copy_payload malloc packet_bytes (start + (length topic + 2) + id_size q) (length payload)
          ≡ ok payload
    copied malloc hm =
        rw
          (
            ← append_assoc (encode_string topic) (packet_id_field q id) (payload ++ rest),
            ← append_assoc (encode_remaining_length n) (encode_string topic ++ packet_id_field q id)
                (payload ++ rest),
          )
          (copy_payload_lem malloc
            (first ∷ (encode_remaining_length n ++ (encode_string topic ++ packet_id_field q id)))
            payload rest _
            (omega (
              arith,
              length-append (encode_remaining_length n)
                  (encode_string topic ++ packet_id_field q id),
              length-append (encode_string topic) (packet_id_field q id),
              length-packet_id_field q id,
              length-encode_string topic short,
            ))
            hm)

  module _ (malloc : ℕ → Bool) (hm : (k : ℕ) → malloc k ≡ true) where
    decoded :
        length topic < 256
        → All (λ c. c ≢ 0) topic
        → IsByte first
        → first / 16 ≡ 3
        → first / 2 % 4 ≡ q
        → n < 128 ^ 3
        → n ≡ 2 + length topic + id_size q + length payload
        → mqtt_decode_publish malloc (some packet_bytes) true
          ≡ ok (
            record {
              topic = some topic;
              payload = payload;
              qos = q;
              retain = not (first % 2 == 0);
              dup = not (first / 8 % 2 == 0);
            },
            start + n,
          )
    unfolding mqtt_decode_publish
    decoded hl hz hb ht hq hn e =
        rw
          (
            ltb-false (length packet_bytes) 4 (
                omega (
                  arith,
                  length-append (encode_remaining_length n) packet_body,
                  length-append (encode_string topic) packet_tail,
                  length-encode_string topic (omega arith),
                  encode_remaining_length_size n,
                )),
            decode_fixed_header-encode first n packet_body hb hn,
            ht,
            drop_header,
            decode_string-encode_string topic packet_tail 256 hl (omega arith),
            hq,
            skipped (omega arith),
            size,
            copied (omega arith) malloc hm,
            c_string_lem topic hz,
            hm (length topic + 1),
          )
          (ap
            (λ k. ok (
              record {
                topic = some topic;
                payload = payload;
                qos = q;
                retain = not (first % 2 == 0);
                dup = not (first / 8 % 2 == 0);
              },
              k,
            ))
            (omega arith))
      where
        size : n - (length topic + 2 + id_size q) ≡ length payload
        size = omega arith

-- `mqtt_decode_publish` gets back the message that `mqtt_encode_publish` wrote and the size of the
-- packet, whatever follows it, if the topic has no NUL and is shorter than 256 bytes, the QoS is
-- below 4, `buf_len` is at least 2, the packet fits three groups of length, and every `malloc`
-- succeeds.
pub decode-encode_publish :
    (malloc : ℕ → Bool) (topic payload rest : List ℕ) (q id buf_len : ℕ) (retain dup : Bool)
    → ((k : ℕ) → malloc k ≡ true)
    → All (λ c. c ≢ 0) topic
    → length topic < 256
    → q < 4
    → 2 ≤ buf_len
    → 4 + length topic + length payload < 128 ^ 3
    → let m : Message = record {
      topic = some topic;
      payload = payload;
      qos = q;
      retain = retain;
      dup = dup;
    } in
      (packet : List ℕ) × (mqtt_encode_publish (some m) id true buf_len ≡ ok packet)
      × (mqtt_decode_publish malloc (some (packet ++ rest)) true ≡ ok (m, length packet))
unfolding mqtt_encode_publish
decode-encode_publish malloc topic payload rest q id buf_len retain dup hm hz hl hq hb hs =
    let n = 2 + length topic + id_size q + length payload in
    let header =
      publish_header
        (record { topic = some topic; payload = payload; qos = q; retain = retain; dup = dup }) in
    let (byte, type, grade, kept, again) =
      header_fields header q retain dup hq
        (publish_header_sum (some topic) payload retain dup q hq) in
    (
      header
          ∷ (encode_remaining_length n
              ++ (encode_string topic ++ (packet_id_field q id ++ payload))),
      rw (ltb-false buf_len 2 hb) refl,
      rw
          (
            append_assoc (encode_remaining_length n)
                (encode_string topic ++ (packet_id_field q id ++ payload)) rest,
            append_assoc (encode_string topic) (packet_id_field q id ++ payload) rest,
            append_assoc (packet_id_field q id) payload rest,
          )
          (decoded topic payload rest header q id n malloc hm hl hz byte type grade (ground arith)
              refl
            ∙ rw (kept, again)
                (ap
                  (λ k. ok (
                    record {
                      topic = some topic;
                      payload = payload;
                      qos = q;
                      retain = retain;
                      dup = dup;
                    },
                    k,
                  ))
                  (omega (
                    arith,
                    length-append (encode_remaining_length n)
                        (encode_string topic ++ (packet_id_field q id ++ payload)),
                    length-append (encode_string topic) (packet_id_field q id ++ payload),
                    length-append (packet_id_field q id) payload,
                    length-packet_id_field q id,
                    length-encode_string topic (omega arith),
                  )))),
    )
