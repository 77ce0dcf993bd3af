-- ===== src/WebSocket/Handshake/Key.antt =====
-- The key and the request, for a library that keeps to its documentation.
use cursor_embed_cus_mqtt_su.Base.{
  ℕ, zero, suc, ◌+◌, ◌-◌, ◌*◌, ◌/◌, ◌≤◌, ◌<◌, ◌≡◌, refl, ap, ◌∙◌, arith, List, [], ◌∷◌, ◌++◌,
  append-nil, Option, none, some, length, length-append, take, lt→ltb, ltb-false,
}
use cursor_embed_cus_mqtt_su.WebSocket.Handshake.{
  Library, Config, key_length, generate_websocket_key, print_at, print_if, request_front,
  print_request, ws_generate_handshake_request,
}
use cursor_embed_cus_mqtt_su.WebSocket.Handshake.Texts.{origin_text, protocol_text, line_end}

-- The length of the base64 text of `n` bytes.
abbrev pub encoded_length : ℕ → ℕ
encoded_length n = 4 * ((n + 2) / 3)

-- What mbedTLS documents: the text is written with a zero behind it where the buffer has room for both, and
-- nothing else is. A digest has 20 bytes.
pub record IsLibrary (lib : Library) : Type 0 where
  pub too_small :
      (n : ℕ) (bytes : List ℕ)
      → n ≤ encoded_length (length bytes)
      → lib.base64_encode n bytes ≡ none
  pub encoded :
      (n : ℕ) (bytes : List ℕ)
      → encoded_length (length bytes) < n
      → (text : List ℕ) × (lib.base64_encode n bytes ≡ some text)
        × (length text ≡ encoded_length (length bytes))
  pub digest : (bytes : List ℕ) → length (lib.sha1 bytes) ≡ 20

-- The key is never written: the 24 characters of the text of 16 bytes have no room in a buffer of 24 with the
-- zero behind them, so whatever the random bytes are the buffer holds what it held.
pub key_never_written :
    (lib : Library) (random before : List ℕ)
    → IsLibrary lib
    → length random ≡ 16
    → generate_websocket_key lib key_length random before ≡ before
unfolding generate_websocket_key
key_never_written lib random before law h =
    rw (law.too_small key_length random (omega arith), generate_websocket_key) refl

-- An optional line of the request.
abbrev pub line : List ℕ → Option (List ℕ) → List ℕ
line name none = []
line name (some value) = name ++ (value ++ line_end)

-- Text that fits is written whole.
print_at-fits :
    (buffer_len : ℕ) (held text : List ℕ)
    → length held + length text < buffer_len
    → print_at buffer_len (some (held, length held)) text
      ≡ some (held ++ text, length (held ++ text))
unfolding print_at
print_at-fits buffer_len held text h =
    rw
      (
        ltb-false buffer_len (length held) (omega arith),
        take_whole (buffer_len - length held - 1) text (omega arith),
        length-append held text,
      )
      refl
  where
    take_whole : (n : ℕ) (xs : List ℕ) → length xs ≤ n → take n xs ≡ xs
    take_whole zero [] l = refl
    take_whole zero (x ∷ xs) l = absurd (omega arith)
    take_whole (suc n) [] l = refl
    take_whole (suc n) (x ∷ xs) l = ap (λ r. x ∷ r) (take_whole n xs (omega arith))

print_if-fits :
    (buffer_len : ℕ) (held name : List ℕ) (value : Option (List ℕ))
    → length held + length (line name value) < buffer_len
    → print_if buffer_len (some (held, length held)) name value
      ≡ some (held ++ line name value, length (held ++ line name value))
unfolding print_if
print_if-fits buffer_len held name none h = rw (append-nil held) refl
print_if-fits buffer_len held name (some value) h =
    print_at-fits buffer_len held (name ++ (value ++ line_end)) h

-- A request that fits the buffer with its zero is written whole: the request line and the headers with the
-- key that the buffer of the key held before, the lines of the origin and of the protocols where they are
-- configured, and the empty line.
pub request_fits :
    (lib : Library) (c : Config) (buffer_len : ℕ) (random before : List ℕ)
    → IsLibrary lib
    → length random ≡ 16
    → length (request_front lib c before)
        + length (line origin_text c.origin)
        + length (line protocol_text c.protocols)
        + 2
      < buffer_len
    → ws_generate_handshake_request lib c buffer_len random before
      ≡ some (
        ((request_front lib c before ++ line origin_text c.origin)
              ++ line protocol_text c.protocols)
            ++ line_end,
        before,
      )
unfolding ws_generate_handshake_request print_request
request_fits lib c buffer_len random before law h fits =
    let front = request_front lib c before in
    let first : print_at buffer_len (some ([], 0)) front ≡ some (front, length front) =
      print_at-fits buffer_len [] front (omega arith) in
    let origin = line origin_text c.origin in
    let protocols = line protocol_text c.protocols in
    let second = print_if-fits buffer_len front origin_text c.origin (omega arith) in
    let third =
      print_if-fits buffer_len (front ++ origin) protocol_text c.protocols
        (omega (arith, length-append front origin)) in
    let last =
      print_at-fits buffer_len ((front ++ origin) ++ protocols) line_end
        (omega (arith, length-append front origin, length-append (front ++ origin) protocols)) in
    let all =
      ap
        (λ o.
          print_at buffer_len
            (print_if buffer_len (print_if buffer_len o origin_text c.origin) protocol_text
              c.protocols)
            line_end)
        first
      ∙ ap (λ o. print_at buffer_len (print_if buffer_len o protocol_text c.protocols) line_end)
          second
      ∙ ap (λ o. print_at buffer_len o line_end) third
      ∙ last in
    ap (print_request lib c buffer_len) (key_never_written lib random before law h)
    ∙ rw (all, print_request) refl

-- What was to be written passes the buffer, or a write went outside already.
abbrev Past : ℕ → Option (List ℕ × ℕ) → Type 0
Past buffer_len none = Unit
Past buffer_len (some (held, len)) = buffer_len < len

print_at-Past :
    (buffer_len : ℕ) (printed : Option (List ℕ × ℕ)) (text : List ℕ)
    → Past buffer_len printed
    → print_at buffer_len printed text ≡ none
unfolding print_at
print_at-Past buffer_len none text p = refl
print_at-Past buffer_len (some (held, len)) text p = rw (lt→ltb buffer_len len p) refl

print_if-Past :
    (buffer_len : ℕ) (printed : Option (List ℕ × ℕ)) (name : List ℕ) (value : Option (List ℕ))
    → Past buffer_len printed
    → Past buffer_len (print_if buffer_len printed name value)
unfolding print_if
print_if-Past buffer_len printed name none p = p
print_if-Past buffer_len printed name (some value) p =
    rw (print_at-Past buffer_len printed (name ++ (value ++ line_end)) p) tt

first-Past :
    (buffer_len : ℕ) (text : List ℕ)
    → buffer_len < length text
    → Past buffer_len (print_at buffer_len (some ([], 0)) text)
unfolding print_at
first-Past buffer_len text h = rw (ltb-false buffer_len 0 (omega arith)) (omega arith)

-- A request line with its headers that is longer than the buffer makes the next write go outside of it.
pub request_overflows :
    (lib : Library) (c : Config) (buffer_len : ℕ) (random before : List ℕ)
    → buffer_len
      < length (request_front lib c (generate_websocket_key lib key_length random before))
    → ws_generate_handshake_request lib c buffer_len random before ≡ none
unfolding ws_generate_handshake_request print_request
request_overflows lib c buffer_len random before h =
    let front = request_front lib c (generate_websocket_key lib key_length random before) in
    let first = print_at buffer_len (some ([], 0)) front in
    rw
      (
        print_at-Past buffer_len
            (print_if buffer_len (print_if buffer_len first origin_text c.origin) protocol_text
              c.protocols)
            line_end
            (print_if-Past buffer_len (print_if buffer_len first origin_text c.origin) protocol_text
              c.protocols
              (print_if-Past buffer_len first origin_text c.origin
                (first-Past buffer_len front h))),
        ws_generate_handshake_request,
        print_request,
      )
      refl
