-- ===== src/WebSocket/Frame.antt =====
-- main/websocket/ws_frame.c, with the message of ws_types.h. A uint64_t wraps at 2 ^ 64 and a size_t
-- at 2 ^ 32. A buffer is the list of its bytes, and `none` is NULL.
pub mod RoundTrip
pub mod Reads
mod Tests
use cursor_embed_cus_mqtt_su.Base.{
  ℕ, zero, suc, ◌+◌, ◌-◌, ◌*◌, ◌/◌, ◌%◌, ◌^◌, bit_and, bit_or, bit_xor, Bool, true, false, not,
  ◌&&◌, ◌||◌, List, [], ◌∷◌, ◌++◌, Option, none, some, length, take, drop, ltb, leb, ◌==◌,
  if◌then◌else◌,
}
use cursor_embed_cus_mqtt_su.Base.Esp.{Returned, ok, err, fault, EspError, ◌>>=◌, read, read_block}

-- ws_message_t. The opcode is the number that the frame carries.
pub record Message : Type 0 where
  pub opcode : ℕ
  pub payload : Option (List ℕ)
  pub payload_len : ℕ
  pub is_final : Bool

abbrev pub u64 : ℕ
u64 = 2 ^ 64

abbrev pub u32 : ℕ
u32 = 2 ^ 32

-- The length of the header without a mask.
pub header_size : ℕ → ℕ
header_size n = if ltb 125 n then (if leb n 0xFFFF then 2 + 2 else 2 + 8) else 2

-- The loop over `(payload_len >> ((7 - i) * 8)) & 0xFF`, with `k` rounds to go.
pub length_bytes : ℕ → ℕ → List ℕ
length_bytes zero n = []
length_bytes (suc k) n = n / 2 ^ (k * 8) % 256 ∷ length_bytes k n

pub length_field : ℕ → List ℕ
length_field n =
    if leb n 125
    then n ∷ []
    else (if leb n 0xFFFF then 126 ∷ (n / 256 % 256 ∷ (n % 256 ∷ [])) else 127 ∷ length_bytes 8 n)

-- What stands behind the header: the payload, or what the buffer held before, if it is NULL.
pub payload_bytes : Option (List ℕ) → List ℕ → ℕ → ℕ → Returned (List ℕ)
payload_bytes none buffer header_len n = ok (take n (drop header_len buffer))
payload_bytes (some payload) buffer header_len n = read_block payload 0 n

-- The first bytes of the buffer afterwards; `frame_len` is their number. `outs` says that
-- `frame_len` is not NULL.
pub ws_encode_frame : Option Message → Option (List ℕ) → Bool → Returned (List ℕ)
unfolding payload_bytes
ws_encode_frame none buffer outs = err EspError.invalid_arg
ws_encode_frame (some m) none outs = err EspError.invalid_arg
ws_encode_frame (some m) (some buffer) outs =
    if not outs
    then err EspError.invalid_arg
    else (if ltb (length buffer) ((header_size m.payload_len + m.payload_len) % u64)
        then err EspError.no_mem
        else do
          payload ← payload_bytes m.payload buffer (header_size m.payload_len) m.payload_len
          ok (
              bit_or (if m.is_final then 0x80 else 0) (bit_and m.opcode 0x0F)
              ∷ (length_field m.payload_len ++ payload)))

-- The loop that reads `k` more bytes of the length, at `i`.
pub read_length : List ℕ → ℕ → ℕ → ℕ → Returned ℕ
read_length buffer zero i n = ok n
read_length buffer (suc k) i n =
    read buffer i >>= λ b. read_length buffer k (i + 1) (bit_or (n * 256 % u64) b)

-- The payload length and the length of the header so far.
unfoldable pub decode_length : List ℕ → ℕ → Returned (ℕ × ℕ)
decode_length buffer n =
    if n == 126
    then (if ltb (length buffer) 4
        then err EspError.invalid_size
        else do high ← read buffer 2; low ← read buffer 3; ok (bit_or (high * 256) low, 2 + 2))
    else (if n == 127
        then (if ltb (length buffer) 10
            then err EspError.invalid_size
            else do long ← read_length buffer 8 2 0; ok (long, 2 + 8))
        else ok (n, 2))

-- The mask, if there is one, and the length of the header with it.
unfoldable pub decode_mask : List ℕ → Bool → ℕ → Returned (Option (List ℕ) × ℕ)
decode_mask buffer masked header_len =
    if masked
    then (if ltb (length buffer) (header_len + 4)
        then err EspError.invalid_size
        else do key ← read_block buffer header_len 4; ok (some key, header_len + 4))
    else ok (none, header_len)

-- The loop `payload[i] ^= mask_key[i % 4]` from index `i` on.
pub apply_mask : List ℕ → ℕ → List ℕ → Returned (List ℕ)
apply_mask key i [] = ok []
apply_mask key i (b ∷ bs) = do
  k ← read key (i % 4)
  rest ← apply_mask key (i + 1) bs
  ok (bit_xor b k ∷ rest)

-- The index of the loop is a size_t, and does not reach a length of 2 ^ 32.
pub unmask : Option (List ℕ) → ℕ → List ℕ → Returned (List ℕ)
unfolding apply_mask
unmask none n bytes = ok bytes
unmask (some key) n bytes = if leb u32 n then fault else apply_mask key 0 bytes

-- `malloc` and `memcpy` take a size_t.
unfoldable pub copy_payload :
    (ℕ → Bool) → List ℕ → ℕ → ℕ → Option (List ℕ) → Returned (Option (List ℕ))
unfolding unmask
copy_payload malloc buffer header_len n key =
    if ltb 0 n
    then (if not (malloc (n % u32)) then err EspError.no_mem else do
      bytes ← read_block buffer header_len (n % u32)
      payload ← unmask key n bytes
      ok (some payload))
    else ok none

-- The message and `frame_len`; `outs` says that neither is NULL.
unfoldable pub ws_decode_frame : (ℕ → Bool) → Option (List ℕ) → Bool → Returned (Message × ℕ)
unfolding decode_length decode_mask copy_payload
ws_decode_frame malloc none outs = err EspError.invalid_arg
ws_decode_frame malloc (some buffer) outs =
    if not outs || ltb (length buffer) 2 then err EspError.invalid_arg else do
      first ← read buffer 0
      second ← read buffer 1
      if not (bit_and (first / 64) 1 == 0)
            || (not (bit_and (first / 32) 1 == 0) || not (bit_and (first / 16) 1 == 0))
          then err EspError.invalid_state
          else do
            (n, short_len) ← decode_length buffer (bit_and second 0x7F)
            (key, header_len) ← decode_mask buffer (not (bit_and (second / 128) 1 == 0)) short_len
            if ltb (length buffer) ((header_len + n) % u64) then err EspError.invalid_size else do
              payload ← copy_payload malloc buffer header_len n key
              ok (
                record {
                  opcode = bit_and first 0x0F;
                  payload = payload;
                  payload_len = n;
                  is_final = not (bit_and (first / 128) 1 == 0);
                },
                (header_len + n) % u64 % u32,
              )
