-- ===== src/WebSocket/Frame/RoundTrip.antt =====
-- `ws_decode_frame` on what `ws_encode_frame` writes, for each of the three forms of the length.
use cursor_embed_cus_mqtt_su.Base.{
  ℕ, zero, suc, ◌+◌, ◌*◌, ◌/◌, ◌%◌, ◌^◌, ◌≤◌, ◌<◌, ◌≡◌, ◌⊎◌, inl, inr, refl, ap, ◌∙◌, arith,
  bit_and, bit_or, Bool, true, false, not, ◌==◌, List, [], ◌∷◌, ◌++◌, append_assoc, Option, none,
  some, length, length-append, take-length, take-length_append, drop-length_append, ltb-false, leb,
  leb-false, if◌then◌else◌, low_bit, low_seven, low_nibble, join_top_bit, join_no_bit, bit_or_byte,
}
use cursor_embed_cus_mqtt_su.Base.Esp.{ok, read, read_block}
use cursor_embed_cus_mqtt_su.WebSocket.Frame.{
  Message, u64, u32, header_size, length_bytes, length_field, ws_encode_frame, read_length,
  decode_length, copy_payload, ws_decode_frame,
}

-- One round of the loop that reads the length: a byte of `a` joins what was read before.
read_length_step :
    (buffer : List ℕ) (k i a v b : ℕ)
    → read buffer i ≡ ok b
    → b ≡ a % 256
    → v ≡ a / 256
    → a < u64
    → read_length buffer (suc k) i v ≡ read_length buffer k (i + 1) a
unfolding read_length
read_length_step buffer k i a v b hr hb hv ha =
    let whole : bit_or (v * 256 % u64) b ≡ a = omega (arith, bit_or_above_byte, small) in
    rw (hr, whole)
  where
    small : v * 256 % u64 ≡ v * 256
    small = omega arith

    bit_or_above_byte : bit_or (v * 256 % u64) b ≡ v * 256 + b
    bit_or_above_byte = rw small (bit_or_byte v b (omega arith))

-- Eight bytes of a length, with two bytes in front.
read_long :
    (first second n : ℕ) (rest : List ℕ)
    → n < u64
    → read_length (first ∷ (second ∷ (length_bytes 8 n ++ rest))) 8 2 0 ≡ ok n
unfolding length_bytes
read_long first second n rest h =
    read_length_step _ 7 2 (n / 2 ^ 56) 0 _ refl refl (omega arith) (omega arith)
    ∙ read_length_step _ 6 3 (n / 2 ^ 48) (n / 2 ^ 56) _ refl refl (omega arith) (omega arith)
    ∙ read_length_step _ 5 4 (n / 2 ^ 40) (n / 2 ^ 48) _ refl refl (omega arith) (omega arith)
    ∙ read_length_step _ 4 5 (n / 2 ^ 32) (n / 2 ^ 40) _ refl refl (omega arith) (omega arith)
    ∙ read_length_step _ 3 6 (n / 2 ^ 24) (n / 2 ^ 32) _ refl refl (omega arith) (omega arith)
    ∙ read_length_step _ 2 7 (n / 2 ^ 16) (n / 2 ^ 24) _ refl refl (omega arith) (omega arith)
    ∙ read_length_step _ 1 8 (n / 2 ^ 8) (n / 2 ^ 16) _ refl refl (omega arith) (omega arith)
    ∙ read_length_step _ 0 9 n (n / 2 ^ 8) _ refl (omega arith) (omega arith) (omega arith)
    ∙ unfold read_length in refl

length-length_bytes : (k n : ℕ) → length (length_bytes k n) ≡ k
unfolding length_bytes
length-length_bytes zero n = refl
length-length_bytes (suc k) n = ap suc (length-length_bytes k n)

-- What the decoder makes of the length that the encoder wrote.
record Header (first n : ℕ) (rest : List ℕ) : Type 0 where
  second : ℕ
  short : second < 128
  at_one : read (first ∷ (length_field n ++ rest)) 1 ≡ ok second
  value : decode_length (first ∷ (length_field n ++ rest)) second ≡ ok (n, header_size n)
  size : 1 + length (length_field n) ≡ header_size n

header_short : (first n : ℕ) (rest : List ℕ) → n ≤ 125 → Header first n rest
unfolding length_field header_size decode_length
header_short first n rest h = record {
  second = n;
  short = omega arith;
  at_one = ground arith;
  value = ground arith;
  size = ground arith;
}

header_medium : (first n : ℕ) (rest : List ℕ) → 125 < n → n ≤ 0xFFFF → Header first n rest
unfolding length_field header_size decode_length
header_medium first n rest l h = record {
  second = 126;
  short = omega arith;
  at_one = ground arith;
  value = ground (arith, bit_or_byte (n / 256 % 256) (n % 256));
  size = ground arith;
}

header_long : (first n : ℕ) (rest : List ℕ) → 0xFFFF < n → n < u64 → Header first n rest
unfolding length_field header_size decode_length
header_long first n rest l h = record {
  second = 127;
  short = omega arith;
  at_one = rw (past, far) refl;
  value =
      rw
        (
          past,
          far,
          ltb-false (suc (suc (length (length_bytes 8 n ++ rest)))) 10
              (omega (arith, length-append (length_bytes 8 n) rest, length-length_bytes 8 n)),
          read_long first 127 n rest h,
        )
        (ground arith);
  size = rw (past, far) (ground (arith, length-length_bytes 8 n));
}
  where
    past : leb n 125 ≡ false
    past = leb-false n 125 (omega arith)

    far : leb n 0xFFFF ≡ false
    far = leb-false n 0xFFFF l

header_any : (first n : ℕ) (rest : List ℕ) → n < u64 → Header first n rest
header_any first n rest h = elim (sizes n) [
  | inl a ↦ header_short first n rest a
  | inr (inl a) ↦ header_medium first n rest a.0 a.1
  | inr (inr a) ↦ header_long first n rest a h
]
  where
    sizes : (n : ℕ) → (n ≤ 125) ⊎ ((125 < n) × (n ≤ 0xFFFF)) ⊎ (0xFFFF < n)
    sizes n = ground arith

-- The first byte.
first_byte :
    (opcode : ℕ) (fin : Bool)
    → opcode < 16
    → bit_or (if fin then 0x80 else 0) (bit_and opcode 0x0F) ≡ (if fin then 128 else 0) + opcode
first_byte opcode true h = join_top_bit opcode h
first_byte opcode false h = omega (arith, join_no_bit opcode h)

first_bits :
    (first opcode : ℕ) (fin : Bool)
    → first ≡ (if fin then 128 else 0) + opcode
    → opcode < 16
    → (bit_and (first / 64) 1 ≡ 0)
      × (bit_and (first / 32) 1 ≡ 0)
      × (bit_and (first / 16) 1 ≡ 0)
      × (bit_and first 15 ≡ opcode)
      × (not (bit_and (first / 128) 1 == 0) ≡ fin)
first_bits first opcode true e h = ground (
  arith,
  low_bit (first / 128),
  low_bit (first / 64),
  low_bit (first / 32),
  low_bit (first / 16),
  low_nibble first,
)
first_bits first opcode false e h = ground (
  arith,
  low_bit (first / 128),
  low_bit (first / 64),
  low_bit (first / 32),
  low_bit (first / 16),
  low_nibble first,
)

-- The payload of a decoded frame: NULL where it is empty.
abbrev pub kept : List ℕ → Option (List ℕ)
kept [] = none
kept (b ∷ bs) = some (b ∷ bs)

copied :
    (malloc : ℕ → Bool) (front payload rest : List ℕ) (k : ℕ)
    → ((j : ℕ) → malloc j ≡ true)
    → k ≡ length front
    → length payload < u32
    → copy_payload malloc (front ++ (payload ++ rest)) k (length payload) none ≡ ok (kept payload)
unfolding copy_payload
copied malloc front [] rest k hm e h = refl
copied malloc front (b ∷ bs) rest k hm e h =
    let fits : suc (length bs) % u32 ≡ suc (length bs) = omega arith in
    rw (fits, hm (suc (length bs)), e)
      (ground (
        arith,
        length-append front (b ∷ (bs ++ rest)),
        length-append bs rest,
        drop-length_append front (b ∷ (bs ++ rest)),
        take-length_append bs rest,
      ))

header_size_bounds : (n : ℕ) → (2 ≤ header_size n) × (header_size n ≤ 10)
unfolding header_size
header_size_bounds n = ground arith

length-length_field : (n : ℕ) → 1 + length (length_field n) ≡ header_size n
unfolding length_field header_size
length-length_field n = ground (arith, length-length_bytes 8 n)

second_low : (b : ℕ) → b < 128 → b % 128 ≡ b
second_low b h = omega arith

second_high : (b : ℕ) → b < 128 → bit_and (b / 128) 1 ≡ 0
second_high b h = ground (arith, low_bit (b / 128))

read_whole : (payload : List ℕ) → read_block payload 0 (length payload) ≡ ok payload
read_whole payload = ground (arith, take-length payload)

encoded :
    (payload buffer : List ℕ) (opcode : ℕ) (fin : Bool)
    → length payload + 14 < u32
    → header_size (length payload) + length payload ≤ length buffer
    → ws_encode_frame
        (some (record {
          opcode = opcode;
          payload = some payload;
          payload_len = length payload;
          is_final = fin;
        }))
        (some buffer)
        true
      ≡ ok (
          bit_or (if fin then 0x80 else 0) (bit_and opcode 0x0F)
          ∷ (length_field (length payload) ++ payload))
unfolding ws_encode_frame
encoded payload buffer opcode fin small room =
    rw
      (
        wraps,
        ltb-false (length buffer) (header_size (length payload) + length payload) room,
        read_whole payload,
      )
      refl
  where
    wraps :
        (header_size (length payload) + length payload) % u64
        ≡ header_size (length payload) + length payload
    wraps = omega (arith, header_size_bounds (length payload))

-- A frame by its first byte, with what follows it.
module _ (malloc : ℕ → Bool) (payload rest : List ℕ) (opcode : ℕ) (fin : Bool)
    (hm : (j : ℕ) → malloc j ≡ true) (small : length payload + 14 < u32) where
  abbrev n : ℕ
  n = length payload

  abbrev frame : ℕ → List ℕ
  frame first = first ∷ (length_field n ++ (payload ++ rest))

  decoded :
      (first : ℕ)
      → first ≡ (if fin then 128 else 0) + opcode
      → opcode < 16
      → ws_decode_frame malloc (some (frame first)) true
        ≡ ok (
          record { opcode = opcode; payload = kept payload; payload_len = n; is_final = fin },
          header_size n + n,
        )
  unfolding ws_decode_frame
  decoded first e ho =
      let h = header_any first n (payload ++ rest) (omega arith) in
      let (b64, b32, b16, b15, b128) = first_bits first opcode fin e ho in
      rw (
        ltb-false (length (frame first)) 2 (
            omega (
              arith,
              h.size,
              length-append (length_field n) (payload ++ rest),
              header_size_bounds n,
            )),
        h.at_one,
        b64,
        b32,
        b16,
        low_seven h.second (omega (arith, h.short)),
        second_low h.second h.short,
        h.value,
        second_high h.second h.short,
        wraps,
        ltb-false (length (frame first)) (header_size n + n) (
            omega (
              arith,
              h.size,
              length-append (length_field n) (payload ++ rest),
              length-append payload rest,
            )),
        copied malloc (first ∷ length_field n) payload rest (header_size n) hm
            (omega (arith, h.size)) (omega arith),
        b15,
        b128,
        wraps_again,
      )
    where
      wraps : (header_size n + n) % u64 ≡ header_size n + n
      wraps = omega (arith, header_size_bounds n)

      wraps_again : (header_size n + n) % u32 ≡ header_size n + n
      wraps_again = omega (arith, header_size_bounds n)

-- `ws_decode_frame` gets back the message that `ws_encode_frame` wrote and the size of the frame,
-- whatever follows it, if the opcode is below 16, the frame fits the buffer and a size_t, and every
-- `malloc` succeeds. An empty payload comes back as NULL.
pub decode-encode_frame :
    (malloc : ℕ → Bool) (payload rest buffer : List ℕ) (opcode : ℕ) (fin : Bool)
    → ((j : ℕ) → malloc j ≡ true)
    → length payload + 14 < u32
    → opcode < 16
    → header_size (length payload) + length payload ≤ length buffer
    → let m : Message = record {
      opcode = opcode;
      payload = some payload;
      payload_len = length payload;
      is_final = fin;
    } in
      (frame : List ℕ) × (ws_encode_frame (some m) (some buffer) true ≡ ok frame)
      × (ws_decode_frame malloc (some (frame ++ rest)) true
          ≡ ok (record m { payload = kept payload }, length frame))
decode-encode_frame malloc payload rest buffer opcode fin hm small ho room =
    let first = bit_or (if fin then 0x80 else 0) (bit_and opcode 0x0F) in
    (
      first ∷ (length_field (length payload) ++ payload),
      encoded payload buffer opcode fin small room,
      rw (append_assoc (length_field (length payload)) payload rest) (
          decoded malloc payload rest opcode fin hm small first (first_byte opcode fin ho) ho
          ∙ ap
              (λ k. ok (
                record {
                  opcode = opcode;
                  payload = kept payload;
                  payload_len = length payload;
                  is_final = fin;
                },
                k,
              ))
              (omega (
                arith,
                length-append (length_field (length payload)) payload,
                length-length_field (length payload),
              ))),
    )
