-- ===== src/Protocol.antt =====
-- main/protocol/device_protocol.c and .h. A header is 14 bytes, packed, with the processor's byte
-- order, which is the little-endian one; `none` is NULL, and a size_t has 32 bits.
pub mod Crc
pub mod RoundTrip
mod Tests
use cursor_embed_cus_mqtt_su.Base.{
  ℕ, zero, suc, ◌+◌, ◌-◌, ◌*◌, ◌/◌, ◌%◌, ◌^◌, bit_xor, Bool, true, false, not, ◌&&◌, ◌||◌, List, [],
  ◌∷◌, ◌++◌, Option, none, some, length, get_elem?, take, drop, ltb, leb, ◌==◌, if◌then◌else◌,
}
use cursor_embed_cus_mqtt_su.Base.Esp.{Returned, ok, err, fault, EspError, ◌>>=◌, read, read_block}

-- protocol_header_t.
pub record Header : Type 0 where
  pub version : ℕ
  pub msg_type : ℕ
  pub length_field : ℕ
  pub sequence : ℕ
  pub timestamp : ℕ
  pub checksum : ℕ

abbrev pub u16 : ℕ
u16 = 2 ^ 16

abbrev pub u32 : ℕ
u32 = 2 ^ 32

-- PROTOCOL_VERSION.
abbrev pub protocol_version : ℕ
protocol_version = 1

-- The entries of the table that the source writes out.
abbrev pub crc16_entries : List ℕ
crc16_entries =
    0x0000
    ∷ (0x1021
        ∷ (0x2042
            ∷ (0x3063
                ∷ (0x4084
                    ∷ (0x50A5
                        ∷ (0x60C6
                            ∷ (0x70E7
                                ∷ (0x8108
                                    ∷ (0x9129
                                        ∷ (0xA14A
                                            ∷ (0xB16B
                                                ∷ (0xC18C
                                                    ∷ (0xD1AD
                                                        ∷ (0xE1CE ∷ (0xF1EF ∷ [])))))))))))))))

-- The other entries are zero, since the source leaves them out.
pub crc16_table : ℕ → ℕ
crc16_table i = elim (get_elem? crc16_entries i) [ none ↦ 0 | some e ↦ e ]

-- The loop, from a checksum on.
pub crc16_from : ℕ → List ℕ → ℕ
unfolding crc16_table
crc16_from crc [] = crc
crc16_from crc (b ∷ bs) =
    crc16_from (bit_xor (crc * 256) (crc16_table (bit_xor (crc / 256) b)) % u16) bs

pub calculate_crc16 : List ℕ → ℕ
calculate_crc16 bytes = crc16_from 0xFFFF bytes

-- The checksum of a header without its last field, and of a payload.
pub checksum_of : List ℕ → List ℕ → ℕ
checksum_of front payload =
    if ltb 0 (length payload)
    then bit_xor (calculate_crc16 front) (calculate_crc16 payload) % u16
    else calculate_crc16 front % u16

pub low_bytes : ℕ → ℕ → List ℕ
low_bytes zero n = []
low_bytes (suc k) n = n % 256 ∷ low_bytes k (n / 256)

-- The header up to its checksum.
pub header_front : ℕ → ℕ → ℕ → ℕ → List ℕ
unfolding low_bytes
header_front msg_type n seq time =
    protocol_version
    ∷ (msg_type % 256
        ∷ (low_bytes 2 (n % u16) ++ (low_bytes 4 seq ++ low_bytes 4 (time / 1000 % u32))))

-- The payload that is copied behind the header.
pub payload_bytes : Option (List ℕ) → ℕ → Returned (List ℕ)
payload_bytes none n = if ltb 0 n then fault else ok []
payload_bytes (some payload) n = read_block payload 0 n

-- The message and the counter afterwards. `room` is what the caller's `*buffer_len` says of the
-- buffer, and `outs` that neither of them is NULL; `time` is what esp_timer_get_time gives.
pub protocol_pack_message : ℕ → ℕ → ℕ → Option (List ℕ) → ℕ → ℕ → Bool → Returned (List ℕ × ℕ)
protocol_pack_message counter time msg_type payload n room outs =
    let seq = (counter + 1) % u32 in
    if (elim payload [ none ↦ true | some p ↦ false ]) && ltb 0 n || not outs
    then err EspError.invalid_arg
    else (if ltb room ((14 + n) % u32)
        then err EspError.no_mem
        else (if ltb room (14 + n) then fault else do
          bytes ← payload_bytes payload n
          ok (
            header_front msg_type n seq time
                ++ (low_bytes 2 (checksum_of (header_front msg_type n seq time) bytes) ++ bytes),
            seq,
          )))

-- Two bytes, and four.
pub read16 : List ℕ → ℕ → Returned ℕ
read16 buffer i = do a ← read buffer i; b ← read buffer (i + 1); ok (a + 256 * b)

pub read32 : List ℕ → ℕ → Returned ℕ
unfolding read16
read32 buffer i = do a ← read16 buffer i; b ← read16 buffer (i + 2); ok (a + 65536 * b)

pub read_header : List ℕ → Returned Header
unfolding read32
read_header buffer = do
  version ← read buffer 0
  msg_type ← read buffer 1
  n ← read16 buffer 2
  seq ← read32 buffer 4
  time ← read32 buffer 8
  sum ← read16 buffer 12
  ok (record {
    version = version;
    msg_type = msg_type;
    length_field = n;
    sequence = seq;
    timestamp = time;
    checksum = sum;
  })

-- From the header on. `room` is the caller's `*payload_len`.
pub unpack_payload : List ℕ → ℕ → Header → Returned (Header × List ℕ)
unpack_payload buffer room h =
    if not (h.version == protocol_version)
    then err EspError.invalid_version
    else (if ltb (length buffer) (14 + h.length_field) then err EspError.invalid_size else do
      front ← read_block buffer 0 12
      payload ← read_block buffer 14 h.length_field
      if not (checksum_of front payload == h.checksum)
          then err EspError.invalid_crc
          else (if ltb 0 h.length_field && ltb room h.length_field
              then err EspError.no_mem
              else ok (h, payload)))

-- The header and the payload. `outs` says that the header is not NULL, and `holds` that the payload
-- is not; `payload_len`, which the source reads before any test, is not NULL.
pub protocol_unpack_message : Option (List ℕ) → Bool → Bool → ℕ → Returned (Header × List ℕ)
unfolding read_header unpack_payload
protocol_unpack_message none outs holds room = err EspError.invalid_arg
protocol_unpack_message (some buffer) outs holds room =
    if not outs || (not holds && ltb 0 room)
    then err EspError.invalid_arg
    else (if ltb (length buffer) 14
        then err EspError.invalid_size
        else read_header buffer >>= unpack_payload buffer room)
