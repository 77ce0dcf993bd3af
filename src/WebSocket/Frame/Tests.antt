-- ===== src/WebSocket/Frame/Tests.antt =====
-- The theorems on frames at a concrete frame, and runs.
use cursor_embed_cus_mqtt_su.Base.{
  ◌≤◌, false, ℕ, ltb, ltb-false, ◌≢◌, ◌-◌, ◌≡◌, refl, arith, true, List, [], ◌∷◌, ◌++◌, some,
  length,
}
use cursor_embed_cus_mqtt_su.Base.Esp.{ok, fault}
use cursor_embed_cus_mqtt_su.WebSocket.Frame.{
  u32, Message, header_size, length_field, ws_encode_frame, ws_decode_frame,
}
use cursor_embed_cus_mqtt_su.WebSocket.Frame.Reads.{decode_frame-ne-fault}
use cursor_embed_cus_mqtt_su.WebSocket.Frame.RoundTrip.{kept, decode-encode_frame}

abbrev hello : Message
hello = record { opcode = 1; payload = some (104 ∷ (105 ∷ [])); payload_len = 2; is_final = true }

abbrev room : List ℕ
room = 0 ∷ (0 ∷ (0 ∷ (0 ∷ (0 ∷ []))))

encode_run : ws_encode_frame (some hello) (some room) true ≡ ok (129 ∷ (2 ∷ (104 ∷ (105 ∷ []))))
unfolding ws_encode_frame header_size length_field
encode_run = refl

decode-encode_frame_example :
    (frame : List ℕ) × (ws_encode_frame (some hello) (some room) true ≡ ok frame)
    × (ws_decode_frame (λ j. true) (some (frame ++ (7 ∷ []))) true
        ≡ ok (record hello { payload = kept (104 ∷ (105 ∷ [])) }, length frame))
decode-encode_frame_example =
    decode-encode_frame (λ j. true) (104 ∷ (105 ∷ [])) (7 ∷ []) room 1 true (λ j. refl)
      (omega arith) (omega arith) (unfold header_size in omega arith)

-- A frame that claims 2 ^ 64 - 10 bytes: with its header of 10 bytes the sum wraps to 0.
abbrev wrapping : List ℕ
wrapping = 130 ∷ (127 ∷ (255 ∷ (255 ∷ (255 ∷ (255 ∷ (255 ∷ (255 ∷ (255 ∷ (246 ∷ [])))))))))

small_heap : (j : ℕ) → u32 - 14 ≤ j → ltb j 65536 ≡ false
small_heap j h = ltb-false j 65536 (omega arith)

decode_frame-ne-fault_example : ws_decode_frame (λ j. ltb j 65536) (some wrapping) true ≢ fault
decode_frame-ne-fault_example =
    decode_frame-ne-fault (λ j. ltb j 65536) wrapping true small_heap (omega arith) (omega arith)
