-- ===== src/Protocol/Tests.antt =====
-- The theorems on the device protocol at a concrete message.
use cursor_embed_cus_mqtt_su.Base.{ℕ, ◌≡◌, refl, arith, true, List, [], ◌∷◌, ◌++◌, some}
use cursor_embed_cus_mqtt_su.Base.Esp.{ok}
use cursor_embed_cus_mqtt_su.Protocol.{protocol_pack_message, protocol_unpack_message}
use cursor_embed_cus_mqtt_su.Protocol.RoundTrip.{header_of, unpack-pack, unpack_accepts_changed}

abbrev off : List ℕ
off = 111 ∷ (102 ∷ (102 ∷ []))

abbrev one : List ℕ
one = 111 ∷ (110 ∷ (101 ∷ []))

unpack-pack_example :
    (bytes : List ℕ) × (sum : ℕ) × (protocol_pack_message 4 2000 2 (some off) 3 64 true
      ≡ ok (bytes, 5))
    × (protocol_unpack_message (some (bytes ++ (9 ∷ []))) true true 3
        ≡ ok (header_of 2 3 5 2000 sum, off))
unpack-pack_example =
    unpack-pack 4 2000 2 64 3 off (9 ∷ []) (omega arith) (omega arith) (omega arith) (omega arith)

unpack_accepts_changed_example :
    (front : List ℕ) × (sum : ℕ) × (protocol_pack_message 4 2000 2 (some off) 3 64 true
      ≡ ok (front ++ off, 5))
    × (protocol_unpack_message (some (front ++ one)) true true 3
        ≡ ok (header_of 2 3 5 2000 sum, one))
unpack_accepts_changed_example =
    unpack_accepts_changed 4 2000 2 64 3 off one (omega arith) (omega arith) (omega arith)
      (omega arith) (omega arith) (omega arith) refl (omega arith)
