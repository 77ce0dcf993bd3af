-- ===== src/WebSocket/Handshake/Tests.antt =====
-- The theorems on the handshake at concrete inputs, with a library whose texts are all the letter A.
use cursor_embed_cus_mqtt_su.Base.{
  ℕ, zero, suc, ◌+◌, ◌<◌, ◌≡◌, ◌↔◌, refl, arith, List, [], ◌∷◌, ◌++◌, none, some, length, ltb,
  lt→ltb, ltb-false, if◌then◌else◌,
}
use cursor_embed_cus_mqtt_su.WebSocket.Handshake.{
  Library, Config, key_length, generate_websocket_key, request_front, ws_generate_handshake_request,
  ws_verify_handshake_response,
}
use cursor_embed_cus_mqtt_su.WebSocket.Handshake.Texts.{
  origin_text, protocol_text, line_end, status_101, upgrade_header, connection_header,
  accept_header,
}
use cursor_embed_cus_mqtt_su.WebSocket.Handshake.Key.{
  encoded_length, IsLibrary, line, key_never_written, request_fits,
}
use cursor_embed_cus_mqtt_su.WebSocket.Handshake.Response.{IsAnswer, verify_iff}

letters : ℕ → List ℕ
letters zero = []
letters (suc n) = b'A' ∷ letters n

length-letters : (n : ℕ) → length (letters n) ≡ n
unfolding letters
length-letters zero = refl
length-letters (suc n) = omega (arith, length-letters n)

abbrev letter_lib : Library
letter_lib = record {
  base64_encode = λ n bytes.
      if ltb (encoded_length (length bytes)) n
      then some (letters (encoded_length (length bytes)))
      else none;
  sha1 = λ bytes. letters 20;
  decimal = λ n. n ∷ [];
}

letter_lib-IsLibrary : IsLibrary letter_lib
letter_lib-IsLibrary = record {
  too_small = λ n bytes h. rw (ltb-false (encoded_length (length bytes)) n h) refl;
  encoded = λ n bytes h. (
    letters (encoded_length (length bytes)),
    rw (lt→ltb (encoded_length (length bytes)) n h) refl,
    length-letters (encoded_length (length bytes)),
  );
  digest = λ bytes. length-letters 20;
}

key_never_written_example : generate_websocket_key letter_lib key_length (letters 16) [] ≡ []
key_never_written_example =
    key_never_written letter_lib (letters 16) [] letter_lib-IsLibrary (length-letters 16)

abbrev config : Config
config = record {
  host = b'h' ∷ [];
  port = 80;
  path = b'/' ∷ [];
  origin = none;
  protocols = some (b'm' ∷ []);
}

request_fits_example :
    ws_generate_handshake_request letter_lib config 1024 (letters 16) (b'k' ∷ [])
    ≡ some (
      ((request_front letter_lib config (b'k' ∷ []) ++ []) ++ line protocol_text (some (b'm' ∷ [])))
          ++ line_end,
      b'k' ∷ [],
    )
request_fits_example =
    request_fits letter_lib config 1024 (letters 16) (b'k' ∷ []) letter_lib-IsLibrary
      (length-letters 16) small
  where
    small :
        length (request_front letter_lib config (b'k' ∷ []))
          + length (line origin_text config.origin)
          + length (line protocol_text config.protocols)
          + 2
        < 1024
    small = unfold request_front in omega arith

abbrev response : List ℕ
response =
    status_101
    ++ (line_end
        ++ (upgrade_header
            ++ (connection_header ++ (accept_header ++ (letters 28 ++ (line_end ++ line_end))))))

verify_iff_example :
    ws_verify_handshake_response letter_lib (some response) (some (b'k' ∷ [])) ≡ some none
    ↔ IsAnswer letter_lib response (b'k' ∷ [])
verify_iff_example = verify_iff letter_lib response (b'k' ∷ [])
