-- ===== src/Mqtt/Tests.antt =====
-- The theorems on the MQTT codec at concrete inputs, and runs.
use cursor_embed_cus_mqtt_su.Base.{
  ℕ, ◌≡◌, ◌≢◌, refl, arith, true, false, none, some, List, [], ◌∷◌, ◌++◌, length, ok, rejected,
  fault,
}
use cursor_embed_cus_mqtt_su.Mqtt.Types.{ConnectOptions, Message}
use cursor_embed_cus_mqtt_su.Mqtt.Encoder.{
  encode_remaining_length, mqtt_encode_connect, mqtt_encode_publish, encode_string, connect_flags,
  will_fields, credentials_fields,
}
use cursor_embed_cus_mqtt_su.Mqtt.Decoder.{
  decode_remaining_length, mqtt_decode_fixed_header, mqtt_decode_publish, decode_rounds,
}
use cursor_embed_cus_mqtt_su.Mqtt.Length.{
  decode-encode_remaining_length, decode_rejects_four_groups,
}
use cursor_embed_cus_mqtt_su.Mqtt.Publish.{decode-encode_publish}
use cursor_embed_cus_mqtt_su.Mqtt.Reads.{decode_publish_complete}
use cursor_embed_cus_mqtt_su.Mqtt.Cut.{cut_publish_faults}
use cursor_embed_cus_mqtt_su.Mqtt.Packets.{encode_connect-IsFramed, Emits}

decode-encode_remaining_length_example :
    decode_remaining_length (encode_remaining_length 321 ++ 7 ∷ [])
    ≡ ok (321, length (encode_remaining_length 321))
decode-encode_remaining_length_example = decode-encode_remaining_length 321 (7 ∷ []) (omega arith)

decode_rejects_four_groups_example :
    decode_remaining_length (encode_remaining_length 2097152 ++ []) ≡ rejected
decode_rejects_four_groups_example = decode_rejects_four_groups 2097152 [] (omega arith)

abbrev topic_a : List ℕ
topic_a = b'a' ∷ []

abbrev hello : Message
hello = record { topic = some topic_a; payload = 1 ∷ 2 ∷ []; qos = 1; retain = true; dup = false }

decode-encode_publish_example :
    (packet : List ℕ) × (mqtt_encode_publish (some hello) 300 true 1024 ≡ ok packet)
    × (mqtt_decode_publish (λ k. true) (some (packet ++ 9 ∷ [])) true ≡ ok (hello, length packet))
decode-encode_publish_example =
    decode-encode_publish (λ k. true) topic_a (1 ∷ 2 ∷ []) (9 ∷ []) 1 300 1024 true false
      (λ k. refl) ((λ e. absurd (omega arith)), tt) (omega arith) (omega arith) (omega arith)
      (omega arith)

abbrev options : ConnectOptions
options = record {
  client_id = some topic_a;
  username = some topic_a;
  password = none;
  keep_alive = 60;
  clean_session = true;
  will_topic = some topic_a;
  will_message = some [];
  will_qos = 1;
  will_retain = false;
}

connect_run :
    mqtt_encode_connect (some options) true 64
    ≡ ok (
        16 ∷ 21 ∷ 0 ∷ 4 ∷ b'M' ∷ b'Q' ∷ b'T' ∷ b'T' ∷ 4 ∷ 0x8e ∷ 0 ∷ 60 ∷ 0 ∷ 1 ∷ b'a' ∷ 0 ∷ 1
        ∷ b'a' ∷ 0 ∷ 0 ∷ 0 ∷ 1 ∷ b'a' ∷ [])
unfolding mqtt_encode_connect encode_remaining_length encode_string connect_flags will_fields
    credentials_fields
connect_run = refl

encode_connect-IsFramed_example : Emits 16 (mqtt_encode_connect (some options) true 64)
encode_connect-IsFramed_example =
    encode_connect-IsFramed options topic_a 64 refl (omega arith) (omega arith) (omega arith)
      (omega arith) tt (omega arith)

decode_publish_complete_example :
    mqtt_decode_publish (λ k. true) (some (0x30 ∷ 3 ∷ 0 ∷ 1 ∷ b'a' ∷ [])) true ≢ fault
unfolding mqtt_decode_fixed_header decode_remaining_length decode_rounds
decode_publish_complete_example =
    decode_publish_complete (λ k. true) (0x30 ∷ 3 ∷ 0 ∷ 1 ∷ b'a' ∷ [])
      (record { type = 3; dup_flag = 0; qos_level = 0; retain = 0; remaining_length = 3 }) 2 refl
      (omega arith)

-- Of a payload of three bytes two are missing.
cut_publish_faults_example :
    (front : List ℕ) × (mqtt_encode_publish
        (some (record {
          topic = some topic_a;
          payload = (7 ∷ []) ++ (8 ∷ (9 ∷ []));
          qos = 1;
          retain = false;
          dup = false;
        }))
        5
        true
        64
      ≡ ok (front ++ (8 ∷ (9 ∷ []))))
    × (mqtt_decode_publish (λ k. true) (some front) true ≡ fault)
cut_publish_faults_example =
    cut_publish_faults (λ k. true) topic_a (7 ∷ []) (8 ∷ (9 ∷ [])) 1 5 64 false false (λ k. refl)
      (omega arith) (omega arith) (omega arith) (omega arith) (omega arith)
