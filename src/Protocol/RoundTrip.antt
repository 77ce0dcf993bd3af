-- ===== src/Protocol/RoundTrip.antt =====
-- `protocol_unpack_message` on what `protocol_pack_message` makes, and on the same message with
-- another payload.
use cursor_embed_cus_mqtt_su.Base.{
  ℕ, zero, suc, ◌+◌, ◌*◌, ◌/◌, ◌%◌, ◌≤◌, ◌<◌, ◌≡◌, refl, ap, arith, true, List, [], ◌++◌,
  append_assoc, append-nil, some, length, length-append, take-length, take-length_append,
  drop-length_append, lt→ltb, ltb-false, le→leb, ==_iff, All,
}
use cursor_embed_cus_mqtt_su.Base.Esp.{ok, read_block}
use cursor_embed_cus_mqtt_su.Protocol.{
  Header, u16, u32, protocol_version, checksum_of, low_bytes, header_front, payload_bytes,
  protocol_pack_message, read16, read32, read_header, protocol_unpack_message,
}
use cursor_embed_cus_mqtt_su.Protocol.Crc.{IsPlain, crc16_blind}

-- The header that a message of `n` bytes gets.
abbrev pub header_of : ℕ → ℕ → ℕ → ℕ → ℕ → Header
header_of msg_type n seq time sum = record {
  version = protocol_version;
  msg_type = msg_type;
  length_field = n;
  sequence = seq;
  timestamp = time / 1000 % u32;
  checksum = sum;
}

-- A packed message, with whatever follows it.
abbrev pub message : ℕ → ℕ → ℕ → ℕ → ℕ → List ℕ → List ℕ
message msg_type n seq time sum tail = header_front msg_type n seq time ++ (low_bytes 2 sum ++ tail)

checksum_bound : (front payload : List ℕ) → checksum_of front payload < u16
unfolding checksum_of
checksum_bound front payload = ground arith

two : (x : ℕ) → x < u16 → x % 256 + 256 * (x / 256 % 256) ≡ x
two x h = omega arith

four :
    (x : ℕ)
    → x < u32
    → x % 256
        + 256 * (x / 256 % 256)
        + 65536 * (x / 256 / 256 % 256 + 256 * (x / 256 / 256 / 256 % 256))
      ≡ x
four x h = omega arith

small16 : (x : ℕ) → x < u16 → x % u16 ≡ x
small16 x h = omega arith

small8 : (x : ℕ) → x < 256 → x % 256 ≡ x
small8 x h = omega arith

read_front :
    (msg_type n seq time sum : ℕ) (tail : List ℕ)
    → msg_type < 256
    → n < u16
    → seq < u32
    → sum < u16
    → read_header (message msg_type n seq time sum tail) ≡ ok (header_of msg_type n seq time sum)
unfolding header_front low_bytes read_header read16 read32
read_front msg_type n seq time sum tail ht hn hs hc =
    rw
      (
        small16 n hn,
        two n hn,
        four seq hs,
        four (time / 1000 % u32) (omega arith),
        two sum hc,
        small8 msg_type ht,
      )
      refl

length-header_front : (msg_type n seq time : ℕ) → length (header_front msg_type n seq time) ≡ 12
unfolding header_front low_bytes
length-header_front msg_type n seq time = refl

length-low_bytes : (k n : ℕ) → length (low_bytes k n) ≡ k
unfolding low_bytes
length-low_bytes zero n = refl
length-low_bytes (suc k) n = ap suc (length-low_bytes k (n / 256))

block_at :
    (front payload rest : List ℕ) (i n : ℕ)
    → length front ≡ i
    → length payload ≡ n
    → read_block (front ++ (payload ++ rest)) i n ≡ ok payload
block_at front payload rest i n e f =
    rw (← e, ← f, drop-length_append front (payload ++ rest), take-length_append payload rest)
      (rw
        (le→leb (length front + length payload) (length (front ++ (payload ++ rest)))
          (omega (arith, length-append front (payload ++ rest), length-append payload rest)))
        refl)

-- A message whose checksum is right is unpacked.
unpack_lem :
    (msg_type seq time sum room : ℕ) (payload rest : List ℕ)
    → msg_type < 256
    → length payload < u16
    → seq < u32
    → sum < u16
    → length payload ≤ room
    → checksum_of (header_front msg_type (length payload) seq time) payload ≡ sum
    → protocol_unpack_message
        (some (message msg_type (length payload) seq time sum (payload ++ rest)))
        true
        true
        room
      ≡ ok (header_of msg_type (length payload) seq time sum, payload)
unfolding protocol_unpack_message
unpack_lem msg_type seq time sum room payload rest ht hn hs hc hr good =
    rw
      (
        ltb-false (length buffer) 14 (omega (arith, whole)),
        read_front msg_type n seq time sum (payload ++ rest) ht hn hs hc,
      )
      (rw
        (
          ltb-false (length buffer) (14 + n) (omega (arith, whole)),
          block_at [] front (low_bytes 2 sum ++ (payload ++ rest)) 0 12 refl
              (length-header_front msg_type n seq time),
          body,
          good,
          (==_iff sum sum).1 refl,
          ltb-false room n hr,
        )
        (ground arith))
  where
    n : ℕ
    n = length payload

    front : List ℕ
    front = header_front msg_type (length payload) seq time

    buffer : List ℕ
    buffer = message msg_type (length payload) seq time sum (payload ++ rest)

    whole : length buffer ≡ 14 + length payload + length rest
    whole = omega (
      arith,
      length-append front (low_bytes 2 sum ++ (payload ++ rest)),
      length-append (low_bytes 2 sum) (payload ++ rest),
      length-append payload rest,
      length-low_bytes 2 sum,
      length-header_front msg_type n seq time,
    )

    body : read_block buffer 14 (length payload) ≡ ok payload
    body = rw (← append_assoc front (low_bytes 2 sum) (payload ++ rest)) (
        block_at (front ++ low_bytes 2 sum) payload rest 14 (length payload)
          (omega (
            arith,
            length-append front (low_bytes 2 sum),
            length-header_front msg_type n seq time,
            length-low_bytes 2 sum,
          ))
          refl)

payload_whole : (payload : List ℕ) → payload_bytes (some payload) (length payload) ≡ ok payload
unfolding payload_bytes
payload_whole payload = ground (arith, take-length payload)

-- What `protocol_pack_message` makes of a payload that fits.
pack_lem :
    (counter time msg_type room : ℕ) (payload : List ℕ)
    → length payload < u16
    → 14 + length payload ≤ room
    → let seq = (counter + 1) % u32 in
      let front = header_front msg_type (length payload) seq time in
      protocol_pack_message counter time msg_type (some payload) (length payload) room true
      ≡ ok (front ++ (low_bytes 2 (checksum_of front payload) ++ payload), seq)
unfolding protocol_pack_message
pack_lem counter time msg_type room payload h fits =
    let wraps : (14 + length payload) % u32 ≡ 14 + length payload = omega arith in
    rw (wraps, ltb-false room (14 + length payload) fits, payload_whole payload) refl

-- What `protocol_pack_message` makes is unpacked to the payload, the type, the length, the next
-- number of the counter and the time in milliseconds, whatever follows it, if the payload is
-- shorter than 65536 bytes, the type is a byte, and both buffers have room.
pub unpack-pack :
    (counter time msg_type room limit : ℕ) (payload rest : List ℕ)
    → msg_type < 256
    → length payload < u16
    → 14 + length payload ≤ room
    → length payload ≤ limit
    → let seq = (counter + 1) % u32 in
      (bytes : List ℕ) × (sum : ℕ) × (protocol_pack_message counter time msg_type
          (some payload)
          (length payload)
          room
          true
        ≡ ok (bytes, seq))
      × (protocol_unpack_message (some (bytes ++ rest)) true true limit
          ≡ ok (header_of msg_type (length payload) seq time sum, payload))
unpack-pack counter time msg_type room limit payload rest ht hn fits hl =
    let seq = (counter + 1) % u32 in
    let front = header_front msg_type (length payload) seq time in
    let sum = checksum_of front payload in
    (
      front ++ (low_bytes 2 sum ++ payload),
      sum,
      pack_lem counter time msg_type room payload hn fits,
      rw
          (
            append_assoc front (low_bytes 2 sum ++ payload) rest,
            append_assoc (low_bytes 2 sum) payload rest,
          )
          (unpack_lem msg_type seq time sum limit payload rest ht hn (omega arith)
            (checksum_bound front payload) hl refl),
    )

checksum_blind :
    (front payload other : List ℕ)
    → All IsPlain payload
    → All IsPlain other
    → 2 ≤ length payload
    → 2 ≤ length other
    → checksum_of front other ≡ checksum_of front payload
unfolding checksum_of
checksum_blind front payload other p o l k =
    rw
      (
        lt→ltb 0 (length payload) (omega arith),
        lt→ltb 0 (length other) (omega arith),
        crc16_blind payload p l,
        crc16_blind other o k,
      )
      refl

-- A packed message whose payload is replaced by another of its length is unpacked all the same, with
-- the wrong payload, if both have two or more bytes, from 16 to 239 each, the payload is shorter than
-- 65536 bytes, the type is a byte, and both buffers have room.
pub unpack_accepts_changed :
    (counter time msg_type room limit : ℕ) (payload other : List ℕ)
    → msg_type < 256
    → length payload < u16
    → 14 + length payload ≤ room
    → length payload ≤ limit
    → All IsPlain payload
    → All IsPlain other
    → length other ≡ length payload
    → 2 ≤ length payload
    → let seq = (counter + 1) % u32 in
      (front : List ℕ) × (sum : ℕ) × (protocol_pack_message counter time msg_type
          (some payload)
          (length payload)
          room
          true
        ≡ ok (front ++ payload, seq))
      × (protocol_unpack_message (some (front ++ other)) true true limit
          ≡ ok (header_of msg_type (length payload) seq time sum, other))
unpack_accepts_changed counter time msg_type room limit payload other ht hn fits hl p o same
      two_or_more =
    let seq = (counter + 1) % u32 in
    let front = header_front msg_type (length payload) seq time in
    let sum = checksum_of front payload in
    let good : checksum_of (header_front msg_type (length other) seq time) other ≡ sum =
      rw same (checksum_blind front payload other p o two_or_more (omega arith)) in
    let read =
      unpack_lem msg_type seq time sum limit other [] ht (omega arith) (omega arith)
        (checksum_bound front payload) (omega arith) good in
    (
      front ++ low_bytes 2 sum,
      sum,
      rw (append_assoc front (low_bytes 2 sum) payload)
          (pack_lem counter time msg_type room payload hn fits),
      rw (append_assoc front (low_bytes 2 sum) other) (rw (same, append-nil other) at read),
    )
