-- ===== src/Mqtt/Decoder.antt =====
-- main/mqtt/mqtt_decoder.c. `buf` is the list of its `buf_len` bytes, `none` if NULL; `outs` says
-- that no pointer for a result is NULL. A read past `buf_len` is a `fault`, and -1 is `rejected`.
use cursor_embed_cus_mqtt_su.Base.{
  ℕ, ◌+◌, ◌-◌, ◌*◌, ◌/◌, ◌%◌, ◌^◌, bit_and, bit_or, Bool, true, not, ◌||◌, List, [], ◌∷◌, Option,
  none, some, length, drop, ltb, leb, ◌==◌, if◌then◌else◌, Outcome, ok, rejected, ◌>>=◌, read,
  read_block,
}
use cursor_embed_cus_mqtt_su.Mqtt.Types.{FixedHeader, Message}
use cursor_embed_cus_mqtt_su.Mqtt.PacketType

-- The loop on the bytes not read yet; `length` is a uint32_t.
unfoldable pub decode_rounds : List ℕ → ℕ → ℕ → ℕ → Outcome (ℕ × ℕ)
decode_rounds [] decoded multiplier len = rejected
decode_rounds (byte ∷ rest) decoded multiplier len =
    let len' = (len + bit_and byte 127 * multiplier) % 2 ^ 32 in
    let multiplier' = multiplier * 128 in
    let more = decode_rounds rest (decoded + 1) multiplier' len' in
    if ltb (128 * 128 * 128) multiplier'
    then rejected
    else (if bit_and byte 128 == 0 then ok (len', decoded + 1) else more)

-- The value and the number of bytes that it took.
unfoldable pub decode_remaining_length : List ℕ → Outcome (ℕ × ℕ)
decode_remaining_length buf = if ltb (length buf) 1 then rejected else decode_rounds buf 0 1 0

-- What `str` holds before its terminator, and the bytes taken. `str_len` is the room in `str`.
unfoldable pub decode_string : List ℕ → ℕ → Outcome (List ℕ × ℕ)
decode_string buf str_len = if ltb (length buf) 2 then rejected else do
  high ← read buf 0
  low ← read buf 1
  let len = bit_or (high * 256) low
  if ltb (length buf) (len + 2) || leb str_len len
      then rejected
      else do str ← read_block buf 2 len; ok (str, len + 2)

unfoldable pub mqtt_decode_fixed_header : Option (List ℕ) → Bool → Outcome (FixedHeader × ℕ)
mqtt_decode_fixed_header none outs = rejected
mqtt_decode_fixed_header (some buf) outs = if not outs || ltb (length buf) 2 then rejected else do
  first ← read buf 0
  (remaining_length, decoded) ← decode_remaining_length (drop 1 buf)
  ok (
    record {
      type = bit_and (first / 16) 15;
      dup_flag = bit_and (first / 8) 1;
      qos_level = bit_and (first / 2) 3;
      retain = bit_and first 1;
      remaining_length = remaining_length;
    },
    decoded + 1,
  )

-- (session_present, return_code), and the bytes taken.
unfoldable pub mqtt_decode_connack : Option (List ℕ) → Bool → Outcome (ℕ × ℕ × ℕ)
mqtt_decode_connack none outs = rejected
mqtt_decode_connack (some buf) outs = if not outs || ltb (length buf) 4 then rejected else do
  (header, pos) ← mqtt_decode_fixed_header (some buf) true
  if not (header.type == PacketType.connack) || not (header.remaining_length == 2)
      then rejected
      else do
        flags ← read buf pos
        return_code ← read buf (pos + 1)
        ok (bit_and flags 1, return_code, pos + 2)

-- What `strdup` copies: the bytes before the first NUL.
unfoldable pub c_string : List ℕ → List ℕ
c_string [] = []
c_string (c ∷ cs) = if c == 0 then [] else c ∷ c_string cs

-- The packet identifier is read and dropped.
unfoldable pub skip_packet_id : List ℕ → ℕ → ℕ → Outcome ℕ
skip_packet_id buf pos qos =
    if ltb 0 qos
    then (if ltb (length buf) (pos + 2)
        then rejected
        else do high ← read buf pos; low ← read buf (pos + 1); ok 2)
    else ok 0

-- `payload_len` bytes at `pos`, if the `int` is positive and `malloc` gives the room.
unfoldable pub copy_payload : (ℕ → Bool) → List ℕ → ℕ → ℕ → Outcome (List ℕ)
copy_payload malloc buf pos payload_len =
    if ltb 0 payload_len
    then (if malloc payload_len then read_block buf pos payload_len else rejected)
    else ok []

-- `malloc n` says whether the allocation of n bytes succeeds; `strdup` asks for the string and its
-- terminator. `payload_len` is negative where the truncated difference below is 0, and the returned
-- `pos + payload_len` is the header's length and the remaining length in each case.
unfoldable pub mqtt_decode_publish : (ℕ → Bool) → Option (List ℕ) → Bool → Outcome (Message × ℕ)
unfolding skip_packet_id copy_payload
mqtt_decode_publish malloc none outs = rejected
mqtt_decode_publish malloc (some buf) outs = if not outs || ltb (length buf) 4 then rejected else do
  (header, start) ← mqtt_decode_fixed_header (some buf) true
  if not (header.type == PacketType.publish) then rejected else do
    (topic, topic_len) ← decode_string (drop start buf) 256
    id_len ← skip_packet_id buf (start + topic_len) header.qos_level
    payload ←
        copy_payload malloc buf (start + topic_len + id_len)
          (header.remaining_length - (topic_len + id_len))
    ok (
      record {
        topic = if malloc (length (c_string topic) + 1) then some (c_string topic) else none;
        payload = payload;
        qos = header.qos_level;
        retain = not (header.retain == 0);
        dup = not (header.dup_flag == 0);
      },
      start + topic_len + id_len + header.remaining_length - (topic_len + id_len),
    )

-- (packet_id, return_codes), and the bytes taken; `return_codes` is taken to have the room.
unfoldable pub mqtt_decode_suback : Option (List ℕ) → Bool → Outcome (ℕ × List ℕ × ℕ)
mqtt_decode_suback none outs = rejected
mqtt_decode_suback (some buf) outs = if not outs || ltb (length buf) 4 then rejected else do
  (header, start) ← mqtt_decode_fixed_header (some buf) true
  if not (header.type == PacketType.suback) then rejected else do
    high ← read buf start
    low ← read buf (start + 1)
    if leb header.remaining_length 2 then rejected else do
      codes ← read_block buf (start + 2) (header.remaining_length - 2)
      ok (bit_or (high * 256) low, codes, start + 2 + (header.remaining_length - 2))
