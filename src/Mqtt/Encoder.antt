-- ===== src/Mqtt/Encoder.antt =====
-- main/mqtt/mqtt_encoder.c. A result is what the routine writes from `buf[0]` on, and the position
-- that the source returns is its length: each write stands at `pos`, which then moves past it.
-- The routines test `buf_len` once, at the start, and so does the model. Sums of lengths are taken
-- not to pass INT_MAX, and an `int` below 0 is refused like 0.
use cursor_embed_cus_mqtt_su.Base.{
  ℕ, zero, suc, ◌+◌, ◌*◌, ◌/◌, ◌%◌, ◌^◌, bit_or, Bool, not, ◌||◌, List, [], ◌∷◌, ◌++◌, Option, none,
  some, length, take, ltb, ◌==◌, if◌then◌else◌, Outcome, ok, rejected, ◌>>=◌, or_fault,
}
use cursor_embed_cus_mqtt_su.Mqtt.Types.{ConnectOptions, TopicFilter, Message}
use cursor_embed_cus_mqtt_su.Mqtt.PacketType

-- The `do` loop; the first argument is 4 - encoded, and the body runs while it is not 0.
unfoldable pub encode_rounds : ℕ → ℕ → List ℕ
encode_rounds zero n = []
encode_rounds (suc k) n =
    let rest = encode_rounds k (n / 128) in
    if ltb 0 (n / 128) then bit_or (n % 128) 128 ∷ rest else n % 128 ∷ []

unfoldable pub encode_remaining_length : ℕ → List ℕ
unfolding encode_rounds
encode_remaining_length n = encode_rounds 4 n

-- `strlen` is cut to 16 bits.
unfoldable pub encode_string : List ℕ → List ℕ
encode_string str = let len = length str % 2 ^ 16 in len / 256 ∷ (len % 256 ∷ take len str)

-- The protocol name "MQTT" with its length, and the protocol level 4.
abbrev pub protocol_name : List ℕ
protocol_name = 0 ∷ 4 ∷ b'M' ∷ b'Q' ∷ b'T' ∷ b'T' ∷ 4 ∷ []

-- What the will and the credentials add to the remaining length.
unfoldable pub will_length : Option (List ℕ) → Option (List ℕ) → ℕ
will_length (some t) (some m) = 2 + length t + (2 + length m)
will_length _ _ = 0

unfoldable pub credentials_length : Option (List ℕ) → Option (List ℕ) → ℕ
credentials_length none p = 0
credentials_length (some u) none = 2 + length u
credentials_length (some u) (some p) = 2 + length u + (2 + length p)

unfoldable pub will_fields : Option (List ℕ) → Option (List ℕ) → List ℕ
will_fields (some t) (some m) = encode_string t ++ encode_string m
will_fields _ _ = []

unfoldable pub credentials_fields : Option (List ℕ) → Option (List ℕ) → List ℕ
credentials_fields none p = []
credentials_fields (some u) none = encode_string u
credentials_fields (some u) (some p) = encode_string u ++ encode_string p

-- The steps of the flag byte: clean session, then the will, then the credentials.
unfoldable pub will_bits : Option (List ℕ) → Option (List ℕ) → ℕ → Bool → ℕ → ℕ
will_bits (some t) (some m) qos retain flags =
    let set = bit_or (bit_or flags 0x04) (qos * 8) % 256 in if retain then bit_or set 0x20 else set
will_bits _ _ qos retain flags = flags

unfoldable pub credentials_bits : Option (List ℕ) → Option (List ℕ) → ℕ → ℕ
credentials_bits none p flags = flags
credentials_bits (some u) none flags = bit_or flags 0x80
credentials_bits (some u) (some p) flags = bit_or (bit_or flags 0x80) 0x40

unfoldable pub connect_flags : ConnectOptions → ℕ
unfolding will_bits credentials_bits
connect_flags o =
    let clean = if o.clean_session then bit_or 0 0x02 else 0 in
    credentials_bits o.username o.password
      (will_bits o.will_topic o.will_message o.will_qos o.will_retain clean)

-- `options` and `buf` are pointers that may be NULL; `strlen` of a NULL client identifier faults.
unfoldable pub mqtt_encode_connect : Option ConnectOptions → Bool → ℕ → Outcome (List ℕ)
unfolding will_length credentials_length
mqtt_encode_connect none buf buf_len = rejected
mqtt_encode_connect (some o) buf buf_len = if not buf || ltb buf_len 10 then rejected else do
  client_id ← or_fault o.client_id
  let remaining_length =
      10
      + (2 + length client_id)
      + will_length o.will_topic o.will_message
      + credentials_length o.username o.password
  ok (
      PacketType.connect * 16
      ∷ (encode_remaining_length remaining_length
          ++ (protocol_name
              ++ (connect_flags o
                  ∷ (o.keep_alive / 256
                      ∷ (o.keep_alive % 256
                          ∷ (encode_string client_id
                              ++ (will_fields o.will_topic o.will_message
                                  ++ credentials_fields o.username o.password))))))))

-- The first byte of a PUBLISH packet.
unfoldable pub publish_header : Message → ℕ
publish_header m =
    let typed = PacketType.publish * 16 in
    let marked = if m.dup then bit_or typed 0x08 else typed in
    let graded = bit_or marked (m.qos * 2) % 256 in if m.retain then bit_or graded 0x01 else graded

-- Two bytes, the high one first.
abbrev pub encode_u16 : ℕ → List ℕ
encode_u16 n = n / 256 ∷ (n % 256 ∷ [])

abbrev pub packet_id_field : ℕ → ℕ → List ℕ
packet_id_field qos packet_id = if ltb 0 qos then encode_u16 packet_id else []

unfoldable pub mqtt_encode_publish : Option Message → ℕ → Bool → ℕ → Outcome (List ℕ)
mqtt_encode_publish none packet_id buf buf_len = rejected
mqtt_encode_publish (some m) packet_id buf buf_len =
    if not buf || ltb buf_len 2 then rejected else do
      topic ← or_fault m.topic
      let remaining_length = 2 + length topic + (if ltb 0 m.qos then 2 else 0) + length m.payload
      ok (
          publish_header m
          ∷ (encode_remaining_length remaining_length
              ++ (encode_string topic ++ (packet_id_field m.qos packet_id ++ m.payload))))

-- The loops over `topics`, for the length and for the bytes.
unfoldable pub filters_length : List TopicFilter → ℕ
filters_length [] = 0
filters_length (t ∷ ts) = 2 + length t.topic + 1 + filters_length ts

unfoldable pub encode_filters : List TopicFilter → List ℕ
encode_filters [] = []
encode_filters (t ∷ ts) = encode_string t.topic ++ (t.qos ∷ encode_filters ts)

-- `topics` is `none` if it is NULL, and `topic_count` is the number of its entries.
unfoldable pub mqtt_encode_subscribe : ℕ → Option (List TopicFilter) → Bool → ℕ → Outcome (List ℕ)
mqtt_encode_subscribe packet_id none buf buf_len = rejected
mqtt_encode_subscribe packet_id (some topics) buf buf_len =
    if not buf || (ltb buf_len 2 || length topics == 0)
    then rejected
    else ok (
        bit_or (PacketType.subscribe * 16) 0x02
        ∷ (encode_remaining_length (2 + filters_length topics)
            ++ (encode_u16 packet_id ++ encode_filters topics)))

unfoldable pub topics_length : List (List ℕ) → ℕ
topics_length [] = 0
topics_length (t ∷ ts) = 2 + length t + topics_length ts

unfoldable pub encode_topics : List (List ℕ) → List ℕ
encode_topics [] = []
encode_topics (t ∷ ts) = encode_string t ++ encode_topics ts

unfoldable pub mqtt_encode_unsubscribe : ℕ → Option (List (List ℕ)) → Bool → ℕ → Outcome (List ℕ)
mqtt_encode_unsubscribe packet_id none buf buf_len = rejected
mqtt_encode_unsubscribe packet_id (some topics) buf buf_len =
    if not buf || (ltb buf_len 2 || length topics == 0)
    then rejected
    else ok (
        bit_or (PacketType.unsubscribe * 16) 0x02
        ∷ (encode_remaining_length (2 + topics_length topics)
            ++ (encode_u16 packet_id ++ encode_topics topics)))

-- PINGREQ, PINGRESP and DISCONNECT.
unfoldable pub mqtt_encode_simple_packet : ℕ → Bool → ℕ → Outcome (List ℕ)
mqtt_encode_simple_packet type buf buf_len =
    if not buf || ltb buf_len 2 then rejected else ok (type * 16 % 256 ∷ (0 ∷ []))
