-- ===== src/Mqtt/Client/Tests.antt =====
-- The theorems on the client at concrete inputs.
use cursor_embed_cus_mqtt_su.Base.{
  ℕ, ◌≡◌, ◌≢◌, ◌<◌, refl, arith, inl, inr, true, false, List, [], ◌∷◌, none, some, length, ok,
}
use cursor_embed_cus_mqtt_su.Mqtt.Types.{Message}
use cursor_embed_cus_mqtt_su.Mqtt.Encoder.{
  mqtt_encode_publish, encode_remaining_length, encode_rounds, encode_string, publish_header,
}
use cursor_embed_cus_mqtt_su.Mqtt.Decoder.{mqtt_decode_publish}
use cursor_embed_cus_mqtt_su.Mqtt.Client.{
  disconnected, connected, Client, null, live, mqtt_client_init, get_next_packet_id, buffer_size,
  done, mqtt_send_packet, wire, publish, Given, goes, mqtt_client_task, run,
}
use cursor_embed_cus_mqtt_su.Mqtt.Client.Ids.{after_calls, ids_distinct}
use cursor_embed_cus_mqtt_su.Mqtt.Client.Socket.{send_packet_whole}
use cursor_embed_cus_mqtt_su.Mqtt.Client.Rounds.{init_never_connects, publish_round}

ids_distinct_example :
    (after_calls 2 65533 ≢ after_calls 6 65533)
    × (after_calls 2 65533 ≢ 0)
    × (after_calls 2 65533 < 65536)
ids_distinct_example = ids_distinct 65533 1 5 (omega arith) (omega arith) (omega arith)

send_packet_whole_example :
    mqtt_send_packet (some 2 ∷ some 1 ∷ some 0 ∷ []) (7 ∷ 8 ∷ 9 ∷ []) ≡ (7 ∷ 8 ∷ 9 ∷ [], done)
send_packet_whole_example =
    send_packet_whole (some 2 ∷ some 1 ∷ some 0 ∷ []) (7 ∷ 8 ∷ 9 ∷ [])
      (inr (omega arith, omega arith, inr (omega arith, omega arith, inl refl))) (omega arith)

abbrev hello : Message
hello = record {
  topic = some (97 ∷ 98 ∷ []);
  payload = 7 ∷ [];
  qos = 1;
  retain = false;
  dup = false;
}

abbrev hello_packet : List ℕ
hello_packet = 0x32 ∷ 7 ∷ 0 ∷ 2 ∷ 97 ∷ 98 ∷ 0 ∷ 1 ∷ 7 ∷ []

abbrev hello_given : Given
hello_given = record {
  queued = some (publish hello);
  sends = some 4 ∷ some 5 ∷ some 0 ∷ none ∷ none ∷ none ∷ none ∷ none ∷ none ∷ [];
  readable = false;
  receives = [];
  malloc = λ k. true;
}

abbrev fresh : Client
fresh = record { state = disconnected; next_packet_id = 0; callback = true }

abbrev online : Client
online = record fresh { state = connected }

init_run : mqtt_client_init null true true true true true true ≡ some (none, live fresh)
unfolding mqtt_client_init
init_run = refl

init_never_connects_example : run (hello_given ∷ hello_given ∷ []) fresh ≡ goes [] fresh
init_never_connects_example =
    init_never_connects true true fresh (hello_given ∷ hello_given ∷ []) init_run

packet_run :
    mqtt_encode_publish (some hello) (get_next_packet_id 0) true buffer_size ≡ ok hello_packet
unfolding mqtt_encode_publish encode_remaining_length encode_rounds encode_string publish_header
    get_next_packet_id
packet_run = refl

publish_round_example :
    (mqtt_client_task hello_given online
      ≡ goes (wire hello_packet ∷ []) (record online { next_packet_id = get_next_packet_id 0 }))
    × (mqtt_decode_publish (λ k. true) (some hello_packet) true ≡ ok (hello, length hello_packet))
publish_round_example =
    publish_round (λ k. true) hello_given online (97 ∷ 98 ∷ []) (7 ∷ []) hello_packet 1 false false
      (λ k. refl) (omega arith, (omega arith, tt)) (omega arith) (omega arith) refl refl refl
      packet_run (omega arith)
      (inr (omega arith, omega arith, inr (omega arith, omega arith, inl refl))) (omega arith)
