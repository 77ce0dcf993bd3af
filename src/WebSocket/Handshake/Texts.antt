-- ===== src/WebSocket/Handshake/Texts.antt =====
-- The texts of main/websocket/ws_handshake.c, as bytes.
use cursor_embed_cus_mqtt_su.Base.{ℕ, List, [], ◌∷◌}

-- WS_GUID.
abbrev pub guid : List ℕ
guid =
    b'2' ∷ b'5' ∷ b'8' ∷ b'E' ∷ b'A' ∷ b'F' ∷ b'A' ∷ b'5' ∷ b'-' ∷ b'E' ∷ b'9' ∷ b'1' ∷ b'4' ∷ b'-'
    ∷ b'4' ∷ b'7' ∷ b'D' ∷ b'A' ∷ b'-' ∷ b'9' ∷ b'5' ∷ b'C' ∷ b'A' ∷ b'-' ∷ b'C' ∷ b'5' ∷ b'A'
    ∷ b'B' ∷ b'0' ∷ b'D' ∷ b'C' ∷ b'8' ∷ b'5' ∷ b'B' ∷ b'1' ∷ b'1' ∷ []

-- The pieces of the request, where the format has its arguments.
abbrev pub get_text : List ℕ
get_text = b'G' ∷ b'E' ∷ b'T' ∷ 32 ∷ []

abbrev pub host_text : List ℕ
host_text =
    32 ∷ b'H' ∷ b'T' ∷ b'T' ∷ b'P' ∷ b'/' ∷ b'1' ∷ b'.' ∷ b'1' ∷ 13 ∷ 10 ∷ b'H' ∷ b'o' ∷ b's' ∷ b't'
    ∷ b':' ∷ 32 ∷ []

abbrev pub colon : List ℕ
colon = b':' ∷ []

abbrev pub upgrade_text : List ℕ
upgrade_text =
    13 ∷ 10 ∷ b'U' ∷ b'p' ∷ b'g' ∷ b'r' ∷ b'a' ∷ b'd' ∷ b'e' ∷ b':' ∷ 32 ∷ b'w' ∷ b'e' ∷ b'b' ∷ b's'
    ∷ b'o' ∷ b'c' ∷ b'k' ∷ b'e' ∷ b't' ∷ 13 ∷ 10 ∷ b'C' ∷ b'o' ∷ b'n' ∷ b'n' ∷ b'e' ∷ b'c' ∷ b't'
    ∷ b'i' ∷ b'o' ∷ b'n' ∷ b':' ∷ 32 ∷ b'U' ∷ b'p' ∷ b'g' ∷ b'r' ∷ b'a' ∷ b'd' ∷ b'e' ∷ 13 ∷ 10
    ∷ b'S' ∷ b'e' ∷ b'c' ∷ b'-' ∷ b'W' ∷ b'e' ∷ b'b' ∷ b'S' ∷ b'o' ∷ b'c' ∷ b'k' ∷ b'e' ∷ b't'
    ∷ b'-' ∷ b'K' ∷ b'e' ∷ b'y' ∷ b':' ∷ 32 ∷ []

abbrev pub version_text : List ℕ
version_text =
    13 ∷ 10 ∷ b'S' ∷ b'e' ∷ b'c' ∷ b'-' ∷ b'W' ∷ b'e' ∷ b'b' ∷ b'S' ∷ b'o' ∷ b'c' ∷ b'k' ∷ b'e'
    ∷ b't' ∷ b'-' ∷ b'V' ∷ b'e' ∷ b'r' ∷ b's' ∷ b'i' ∷ b'o' ∷ b'n' ∷ b':' ∷ 32 ∷ b'1' ∷ b'3' ∷ 13
    ∷ 10 ∷ []

abbrev pub origin_text : List ℕ
origin_text = b'O' ∷ b'r' ∷ b'i' ∷ b'g' ∷ b'i' ∷ b'n' ∷ b':' ∷ 32 ∷ []

abbrev pub protocol_text : List ℕ
protocol_text =
    b'S' ∷ b'e' ∷ b'c' ∷ b'-' ∷ b'W' ∷ b'e' ∷ b'b' ∷ b'S' ∷ b'o' ∷ b'c' ∷ b'k' ∷ b'e' ∷ b't' ∷ b'-'
    ∷ b'P' ∷ b'r' ∷ b'o' ∷ b't' ∷ b'o' ∷ b'c' ∷ b'o' ∷ b'l' ∷ b':' ∷ 32 ∷ []

abbrev pub line_end : List ℕ
line_end = 13 ∷ 10 ∷ []

-- What is looked for in the response.
abbrev pub status_101 : List ℕ
status_101 = b'H' ∷ b'T' ∷ b'T' ∷ b'P' ∷ b'/' ∷ b'1' ∷ b'.' ∷ b'1' ∷ 32 ∷ b'1' ∷ b'0' ∷ b'1' ∷ []

abbrev pub upgrade_header : List ℕ
upgrade_header =
    b'U' ∷ b'p' ∷ b'g' ∷ b'r' ∷ b'a' ∷ b'd' ∷ b'e' ∷ b':' ∷ 32 ∷ b'w' ∷ b'e' ∷ b'b' ∷ b's' ∷ b'o'
    ∷ b'c' ∷ b'k' ∷ b'e' ∷ b't' ∷ 13 ∷ 10 ∷ []

abbrev pub connection_header : List ℕ
connection_header =
    b'C' ∷ b'o' ∷ b'n' ∷ b'n' ∷ b'e' ∷ b'c' ∷ b't' ∷ b'i' ∷ b'o' ∷ b'n' ∷ b':' ∷ 32 ∷ b'U' ∷ b'p'
    ∷ b'g' ∷ b'r' ∷ b'a' ∷ b'd' ∷ b'e' ∷ 13 ∷ 10 ∷ []

abbrev pub accept_header : List ℕ
accept_header =
    b'S' ∷ b'e' ∷ b'c' ∷ b'-' ∷ b'W' ∷ b'e' ∷ b'b' ∷ b'S' ∷ b'o' ∷ b'c' ∷ b'k' ∷ b'e' ∷ b't' ∷ b'-'
    ∷ b'A' ∷ b'c' ∷ b'c' ∷ b'e' ∷ b'p' ∷ b't' ∷ b':' ∷ 32 ∷ []
