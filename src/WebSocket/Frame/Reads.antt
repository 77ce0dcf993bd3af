-- ===== src/WebSocket/Frame/Reads.antt =====
-- The reads of `ws_decode_frame` stay inside the buffer.
use cursor_embed_cus_mqtt_su.Base.{
  ℕ, zero, suc, ◌+◌, ◌-◌, ◌*◌, ◌%◌, ◌^◌, ◌≤◌, ◌<◌, ◌≡◌, ◌≢◌, inl, inr, arith, bit_and, bit_or, Bool,
  true, false, not, ◌==◌, ◌||◌, List, [], ◌∷◌, Option, none, some, length, length-take, length-drop,
  drop, ltb, le→leb, leb-false, if◌then◌else◌, All, IsByte, low_seven, bit_or_byte, Bool-cases,
}
use cursor_embed_cus_mqtt_su.Base.Esp.{Returned, ok, err, fault, EspError, ◌>>=◌, read, read_block}
use cursor_embed_cus_mqtt_su.WebSocket.Frame.{
  Message, u64, u32, read_length, decode_length, decode_mask, apply_mask, unmask, copy_payload,
  ws_decode_frame,
}

-- No fault, and what a result satisfies.
abbrev Holds {ℓ} : {A : Type ℓ} → (A → Type 0) → Returned A → Type 0
Holds P (ok a) = P a
Holds P (err e) = Unit
Holds P fault = ⊥

Holds-bind {ℓ κ} :
    {A : Type ℓ} {B : Type κ} (P : A → Type 0) (Q : B → Type 0) (m : Returned A)
    (f : A → Returned B)
    → Holds P m
    → ((a : A) → P a → Holds Q (f a))
    → Holds Q (m >>= f)
Holds-bind P Q (ok a) f h k = k a h
Holds-bind P Q (err e) f h k = tt
Holds-bind P Q fault f h k = elim h [ ]

read-Holds :
    (buffer : List ℕ) (i : ℕ) → All IsByte buffer → i < length buffer → Holds IsByte (read buffer i)
read-Holds [] i h l = absurd (omega arith)
read-Holds (x ∷ xs) zero h l = h.0
read-Holds (x ∷ xs) (suc i) h l = read-Holds xs i h.1 (omega arith)

joined-lt : (n b : ℕ) → IsByte b → bit_or (n * 256 % u64) b < u64
joined-lt n b h =
    let e : n * 256 % u64 ≡ n % 2 ^ 56 * 256 = omega arith in
    rw e (omega (arith, bit_or_byte (n % 2 ^ 56) b h))

read_length-Holds :
    (buffer : List ℕ) (k i n : ℕ)
    → All IsByte buffer
    → i + k ≤ length buffer
    → n < u64
    → Holds (λ m. m < u64) (read_length buffer k i n)
unfolding read_length
read_length-Holds buffer zero i n h l s = s
read_length-Holds buffer (suc k) i n h l s =
    Holds-bind IsByte (λ m. m < u64) (read buffer i) _ (read-Holds buffer i h (omega arith))
      (λ b hb.
        read_length-Holds buffer k (i + 1) (bit_or (n * 256 % u64) b) h (omega arith)
          (joined-lt n b hb))

abbrev IsLength : ℕ × ℕ → Type 0
IsLength p = (p.0 < u64) × (p.1 ≤ 10)

decode_length-Holds :
    (buffer : List ℕ) (n : ℕ)
    → All IsByte buffer
    → n < 128
    → Holds IsLength (decode_length buffer n)
unfolding decode_length
decode_length-Holds buffer n h s = elim (Bool-cases (n == 126)) [
  | inl e ↦
      rw (e, Holds)
        (elim (Bool-cases (ltb (length buffer) 4)) [
          | inl l ↦ rw (l, Holds) tt
          | inr l ↦
              rw (l, Holds)
                (Holds-bind IsByte IsLength (read buffer 2) _ (read-Holds buffer 2 h (ground arith))
                  λ a ha.
                    Holds-bind IsByte IsLength (read buffer 3) _
                      (read-Holds buffer 3 h (ground arith))
                      λ b hb. (omega (arith, bit_or_byte a b hb), omega arith))
        ])
  | inr e ↦
      rw (e, Holds)
        (elim (Bool-cases (n == 127)) [
          | inr f ↦ rw (f, Holds) (omega arith, omega arith)
          | inl f ↦
              rw (f, Holds)
                (elim (Bool-cases (ltb (length buffer) 10)) [
                  | inl l ↦ rw (l, Holds) tt
                  | inr l ↦
                      rw (l, Holds)
                        (Holds-bind (λ m. m < u64) IsLength (read_length buffer 8 2 0) _
                          (read_length-Holds buffer 8 2 0 h (ground arith) (omega arith))
                          λ m hm. (hm, omega arith))
                ])
        ])
]

read_block-Holds :
    (buffer : List ℕ) (i n : ℕ)
    → i + n ≤ length buffer
    → Holds (λ bs. length bs ≡ n) (read_block buffer i n)
read_block-Holds buffer i n h =
    rw (le→leb (i + n) (length buffer) h, Holds)
      (length-take n (drop i buffer) (omega (arith, length-drop i buffer)))

-- A mask has four bytes.
abbrev IsKey : Option (List ℕ) → Type 0
IsKey none = Unit
IsKey (some key) = length key ≡ 4

decode_mask-Holds :
    (buffer : List ℕ) (masked : Bool) (header_len : ℕ)
    → header_len ≤ 10
    → Holds (λ p. IsKey p.0 × (p.1 ≤ 14)) (decode_mask buffer masked header_len)
unfolding decode_mask
decode_mask-Holds buffer false header_len h = (tt, omega arith)
decode_mask-Holds buffer true header_len h =
    elim (Bool-cases (ltb (length buffer) (header_len + 4))) [
      | inl e ↦ rw (e, Holds) tt
      | inr e ↦
          rw (e, Holds)
            (Holds-bind (λ bs. length bs ≡ 4) (λ p. IsKey p.0 × (p.1 ≤ 14))
              (read_block buffer header_len 4) _
              (read_block-Holds buffer header_len 4 (ground arith)) λ key hk. (hk, omega arith))
    ]

read-any : (buffer : List ℕ) (i : ℕ) → i < length buffer → Holds (λ b. Unit) (read buffer i)
read-any [] i l = absurd (omega arith)
read-any (x ∷ xs) zero l = tt
read-any (x ∷ xs) (suc i) l = read-any xs i (omega arith)

apply_mask-Holds :
    (key bytes : List ℕ) (i : ℕ) → length key ≡ 4 → Holds (λ bs. Unit) (apply_mask key i bytes)
unfolding apply_mask
apply_mask-Holds key [] i h = tt
apply_mask-Holds key (b ∷ bs) i h =
    Holds-bind (λ k. Unit) (λ bs. Unit) (read key (i % 4)) _ (read-any key (i % 4) (omega arith))
      λ k u.
        Holds-bind (λ k. Unit) (λ bs. Unit) (apply_mask key (i + 1) bs) _
          (apply_mask-Holds key bs (i + 1) h) λ rest v. tt

unmask-Holds :
    (key : Option (List ℕ)) (n : ℕ) (bytes : List ℕ)
    → IsKey key
    → n < u32
    → Holds (λ bs. Unit) (unmask key n bytes)
unfolding unmask
unmask-Holds none n bytes h l = tt
unmask-Holds (some key) n bytes h l = rw (leb-false u32 n l, Holds) (apply_mask-Holds key bytes 0 h)

-- A payload whose size wraps is one that `malloc` refuses.
granted-fits :
    (malloc : ℕ → Bool) (h n l : ℕ)
    → ((j : ℕ) → u32 - 14 ≤ j → malloc j ≡ false)
    → l < u32
    → n < u64
    → h ≤ 14
    → (h + n) % u64 ≤ l
    → malloc (n % u32) ≡ true
    → (h + n ≤ l) × (n < u32)
granted-fits malloc h n l refuses hl hn hh fits got = elim (Bool-cases (ltb n (u64 - 14))) [
  | inl a ↦ (ground arith, ground arith)
  | inr a ↦ absurd (cc (refuses (n % u32) (ground arith)))
]

copy_payload-Holds :
    (malloc : ℕ → Bool) (buffer : List ℕ) (h n : ℕ) (key : Option (List ℕ))
    → ((j : ℕ) → u32 - 14 ≤ j → malloc j ≡ false)
    → length buffer < u32
    → n < u64
    → h ≤ 14
    → IsKey key
    → (h + n) % u64 ≤ length buffer
    → Holds (λ p. Unit) (copy_payload malloc buffer h n key)
unfolding copy_payload
copy_payload-Holds malloc buffer h n key refuses hl hn hh hk fits = elim (Bool-cases (ltb 0 n)) [
  | inr e ↦ rw (e, Holds) tt
  | inl e ↦
      rw (e, Holds)
        (elim (Bool-cases (malloc (n % u32))) [
          | inr f ↦ rw (f, Holds) tt
          | inl f ↦
              let (room, small) = granted-fits malloc h n (length buffer) refuses hl hn hh fits f in
              rw (f, Holds)
                (Holds-bind (λ bs. length bs ≡ n % u32) (λ p. Unit) (read_block buffer h (n % u32))
                  _ (read_block-Holds buffer h (n % u32) (omega arith))
                  λ bytes hb.
                    Holds-bind (λ bs. Unit) (λ p. Unit) (unmask key n bytes) _
                      (unmask-Holds key n bytes hk small) λ payload u. tt)
        ])
]

no_fault : {A : Type 0} (r : Returned A) → Holds (λ a. Unit) r → r ≢ fault
no_fault (ok a) h e = cc
no_fault (err x) h e = cc
no_fault fault h e = elim h [ ]

module _ (malloc : ℕ → Bool) (buffer : List ℕ) (refuses : (j : ℕ) → u32 - 14 ≤ j → malloc j ≡ false)
    (bytes : All IsByte buffer) (hl : length buffer < u32) where
  abbrev Safe : Returned (Message × ℕ) → Type 0
  Safe r = Holds (λ p. Unit) r

  payload_lem :
      (n header_len : ℕ) (key : Option (List ℕ)) (f : Option (List ℕ) → Message)
      → n < u64
      → IsKey key × (header_len ≤ 14)
      → Safe (
          if ltb (length buffer) ((header_len + n) % u64)
          then err EspError.invalid_size
          else (copy_payload malloc buffer header_len n key >>= λ payload.
              ok (f payload, (header_len + n) % u64 % u32)))
  payload_lem n header_len key f hn hk =
      elim (Bool-cases (ltb (length buffer) ((header_len + n) % u64))) [
        | inl e ↦ rw (e, Holds) tt
        | inr e ↦
            rw (e, Holds)
              (Holds-bind (λ p. Unit) (λ p. Unit) (copy_payload malloc buffer header_len n key) _
                (copy_payload-Holds malloc buffer header_len n key refuses hl hn hk.1 hk.0
                  (ground arith))
                λ p u. tt)
      ]

  header_lem :
      (masked : Bool) (short : ℕ) (f : ℕ → Option (List ℕ) → Message)
      → short < 128
      → Safe (
          decode_length buffer short >>= λ p. decode_mask buffer masked p.1 >>= λ q.
          if ltb (length buffer) ((q.1 + p.0) % u64)
          then err EspError.invalid_size
          else (copy_payload malloc buffer q.1 p.0 q.0 >>= λ payload.
              ok (f p.0 payload, (q.1 + p.0) % u64 % u32)))
  header_lem masked short f hs =
      Holds-bind IsLength (λ r. Unit) (decode_length buffer short) _
        (decode_length-Holds buffer short bytes hs)
        λ p hp.
          Holds-bind (λ q. IsKey q.0 × (q.1 ≤ 14)) (λ r. Unit) (decode_mask buffer masked p.1) _
            (decode_mask-Holds buffer masked p.1 hp.1)
            λ q hq. payload_lem p.0 q.1 q.0 (f p.0) hp.0 hq

  reserved_lem :
      (reserved : Bool) (rest : Returned (Message × ℕ))
      → Safe rest
      → Safe (if reserved then err EspError.invalid_state else rest)
  reserved_lem true rest h = tt
  reserved_lem false rest h = h

  holds : (outs : Bool) → Safe (ws_decode_frame malloc (some buffer) outs)
  unfolding ws_decode_frame
  holds outs = elim (Bool-cases (not outs || ltb (length buffer) 2)) [
    | inl e ↦ rw (e, Holds) tt
    | inr e ↦
        rw (e, Holds)
          (Holds-bind IsByte (λ r. Unit) (read buffer 0) _
            (read-Holds buffer 0 bytes (ground arith))
            λ first hf.
              Holds-bind IsByte (λ r. Unit) (read buffer 1) _
                (read-Holds buffer 1 bytes (ground arith))
                λ second hs.
                  reserved_lem _ _
                    (header_lem _ (bit_and second 0x7F) _ (omega (arith, low_seven second hs))))
  ]

-- On any bytes, `ws_decode_frame` reads nothing outside the buffer and the mask, and does not write
-- outside the payload, if the buffer is shorter than 2 ^ 32 bytes and `malloc` refuses sizes from
-- 2 ^ 32 - 14 on: the sum of the two lengths that wraps in the test of the size does no harm then.
pub decode_frame-ne-fault :
    (malloc : ℕ → Bool) (buffer : List ℕ) (outs : Bool)
    → ((j : ℕ) → u32 - 14 ≤ j → malloc j ≡ false)
    → All IsByte buffer
    → length buffer < u32
    → ws_decode_frame malloc (some buffer) outs ≢ fault
decode_frame-ne-fault malloc buffer outs refuses h hl =
    no_fault _ (holds malloc buffer refuses h hl outs)
