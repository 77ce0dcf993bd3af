-- ===== src/WebSocket/Handshake.antt =====
-- main/websocket/ws_handshake.c: the key, the request, and the test of the response. Base64 and SHA-1 of
-- mbedTLS and the printing of a number are parameters, and so are the random bytes. A response is a C
-- string.
pub mod Texts
pub mod Key
pub mod Response
mod Tests
use cursor_embed_cus_mqtt_su.Base.{
  ℕ, ◌+◌, ◌-◌, Bool, true, false, not, ◌&&◌, ◌||◌, List, [], ◌∷◌, ◌++◌, Option, none, some, length,
  take, drop, ltb, ◌==◌, if◌then◌else◌,
}
use cursor_embed_cus_mqtt_su.Base.Esp.{EspError}
use cursor_embed_cus_mqtt_su.WebSocket.Handshake.Texts.{
  guid, get_text, host_text, colon, upgrade_text, version_text, origin_text, protocol_text,
  line_end, status_101, upgrade_header, connection_header, accept_header,
}

-- The library: base64 into a buffer of a length, `none` where it is too small and nothing is written,
-- SHA-1, and the decimal digits of a number.
pub record Library : Type 0 where
  pub base64_encode : ℕ → List ℕ → Option (List ℕ)
  pub sha1 : List ℕ → List ℕ
  pub decimal : ℕ → List ℕ

-- The fields of ws_config_t that the request has; `none` is NULL.
pub record Config : Type 0 where
  pub host : List ℕ
  pub port : ℕ
  pub path : List ℕ
  pub origin : Option (List ℕ)
  pub protocols : Option (List ℕ)

abbrev pub key_length : ℕ
key_length = 24

-- From the random bytes, what the buffer of the key holds behind the call, and before it.
pub generate_websocket_key : Library → ℕ → List ℕ → List ℕ → List ℕ
generate_websocket_key lib key_len random before = elim (lib.base64_encode key_len random) [
  | none ↦ before
  | some text ↦ text
]

-- `none` where the buffer of the accept key is left as it was.
pub calculate_accept_key : Library → List ℕ → ℕ → Option (List ℕ)
calculate_accept_key lib key accept_key_len =
    lib.base64_encode accept_key_len (lib.sha1 (take 127 (key ++ guid)))

-- `snprintf` at the end of what the buffer of `buffer_len` bytes holds, where `len` counts all that was to
-- be written so far. Behind the end of the buffer the room wraps around, and the write goes outside.
pub print_at : ℕ → Option (List ℕ × ℕ) → List ℕ → Option (List ℕ × ℕ)
print_at buffer_len none text = none
print_at buffer_len (some (held, len)) text =
    if ltb buffer_len len
    then none
    else some (held ++ take (buffer_len - len - 1) text, len + length text)

pub print_if : ℕ → Option (List ℕ × ℕ) → List ℕ → Option (List ℕ) → Option (List ℕ × ℕ)
unfolding print_at
print_if buffer_len printed name none = printed
print_if buffer_len printed name (some value) =
    print_at buffer_len printed (name ++ (value ++ line_end))

-- The first piece.
pub request_front : Library → Config → List ℕ → List ℕ
request_front lib c key =
    get_text
    ++ (c.path
        ++ (host_text
            ++ (c.host
                ++ (colon ++ (lib.decimal c.port ++ (upgrade_text ++ (key ++ version_text)))))))

-- The buffer, for a key, behind all the writes.
pub print_request : Library → Config → ℕ → List ℕ → Option (List ℕ × List ℕ)
unfolding print_if request_front
print_request lib c buffer_len key =
    let first = print_at buffer_len (some ([], 0)) (request_front lib c key) in
    let more =
      print_if buffer_len (print_if buffer_len first origin_text c.origin) protocol_text
        c.protocols in
    elim (print_at buffer_len more line_end) [ none ↦ none | some (held, len) ↦ some (held, key) ]

-- For pointers that are not NULL: the buffer and the key behind the call, from the random bytes and the
-- key's buffer before it. `none` is a write outside the buffer.
pub ws_generate_handshake_request :
    Library → Config → ℕ → List ℕ → List ℕ → Option (List ℕ × List ℕ)
unfolding print_request
ws_generate_handshake_request lib c buffer_len random before =
    print_request lib c buffer_len (generate_websocket_key lib key_length random before)

-- `strncmp(text, prefix, strlen(prefix)) == 0`.
pub is_prefix : List ℕ → List ℕ → Bool
is_prefix [] text = true
is_prefix (p ∷ ps) [] = false
is_prefix (p ∷ ps) (x ∷ xs) = p == x && is_prefix ps xs

-- What `strstr` points to.
pub strstr : List ℕ → List ℕ → Option (List ℕ)
strstr [] wanted = if is_prefix wanted [] then some [] else none
strstr (x ∷ xs) wanted =
    let rest = strstr xs wanted in if is_prefix wanted (x ∷ xs) then some (x ∷ xs) else rest

pub has_text : List ℕ → List ℕ → Bool
unfolding strstr
has_text text wanted = elim (strstr text wanted) [ none ↦ false | some found ↦ true ]

-- The test of the accept key, from where its header is found. `none` reads the expected key's buffer though
-- nothing was written to it.
pub check_accept : Library → List ℕ → List ℕ → Option (Option EspError)
unfolding calculate_accept_key is_prefix
check_accept lib key found = elim (calculate_accept_key lib key 32) [
  | none ↦ none
  | some expected ↦
      some (
        if is_prefix expected (drop (length accept_header) found) then none else some EspError.fail)
]

-- `none` is a NULL pointer for the response or the key.
pub ws_verify_handshake_response :
    Library → Option (List ℕ) → Option (List ℕ) → Option (Option EspError)
unfolding check_accept has_text
ws_verify_handshake_response lib none key = some (some EspError.invalid_arg)
ws_verify_handshake_response lib (some response) none = some (some EspError.invalid_arg)
ws_verify_handshake_response lib (some response) (some key) =
    if not (is_prefix status_101 response)
    then some (some EspError.fail)
    else (if not (has_text response upgrade_header)
        then some (some EspError.fail)
        else (if not (has_text response connection_header)
            then some (some EspError.fail)
            else (elim (strstr response accept_header) [
              | none ↦ some (some EspError.fail)
              | some found ↦ check_accept lib key found
            ])))
