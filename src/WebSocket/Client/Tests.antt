-- ===== src/WebSocket/Client/Tests.antt =====
-- The theorem on the client's events at a concrete run.
use cursor_embed_cus_mqtt_su.Base.{◌≡◌, refl, true, false, [], ◌∷◌, none}
use cursor_embed_cus_mqtt_su.Base.Esp.{ok}
use cursor_embed_cus_mqtt_su.WebSocket.Frame.{
  ws_decode_frame, decode_length, decode_mask, copy_payload,
}
use cursor_embed_cus_mqtt_su.WebSocket.Client.{
  disconnected, closing, got, Given, event_connected, send_close, send_queued, receive_data,
  handle_message, then_receive, ws_client_task, run,
}
use cursor_embed_cus_mqtt_su.WebSocket.Client.Trace.{in_order, run-in_order}

-- A round in which all goes well and a close frame comes.
abbrev good : Given
good = record {
  connects = true;
  shakes = true;
  queued = none;
  sends = true;
  received = got (136 ∷ (0 ∷ []));
  malloc = λ j. true;
  buffer = [];
}

closed_run :
    run (good ∷ (good ∷ (good ∷ []))) disconnected
    ≡ ok (event_connected ∷ (send_close ∷ []), closing)
unfolding ws_decode_frame decode_length decode_mask copy_payload run ws_client_task then_receive
    send_queued receive_data handle_message
closed_run = refl

run-in_order_example : in_order false (event_connected ∷ (send_close ∷ [])) ≡ true
run-in_order_example =
    run-in_order (good ∷ (good ∷ (good ∷ []))) (event_connected ∷ (send_close ∷ [])) closing
      closed_run
