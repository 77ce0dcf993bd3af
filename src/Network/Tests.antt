-- ===== src/Network/Tests.antt =====
-- The theorems on the network status at concrete runs.
use cursor_embed_cus_mqtt_su.Base.{◌≡◌, refl, true, false, [], ◌∷◌, ◌++◌, some}
use cursor_embed_cus_mqtt_su.Base.Esp.{ok}
use cursor_embed_cus_mqtt_su.Network.{disconnected, connected, error}
use cursor_embed_cus_mqtt_su.Network.Manager.{
  Config, Manager, wifi_connected, wifi_fail, sta_disconnected, sta_got_ip, report, delay_ms,
  set_bits, clear_bits, do_call, network_manager_init, wifi_event_handler, acts, closing_actions,
  handle_bits, network_monitor_task, Reaches,
}
use cursor_embed_cus_mqtt_su.Network.Manager.Steady.{IsSteady, reaches-IsSteady}
use cursor_embed_cus_mqtt_su.Network.Manager.Reconnect.{rounds, attempts_made, gives_up}
use cursor_embed_cus_mqtt_su.Network.Layer.{
  mqtt_connected, idle, Runs, mqtt_event_handler, last_told, runs-last_told,
}

abbrev config : Config
config = record { reconnect_interval_ms = 500; max_reconnect_attempts = 3; auto_reconnect = true }

abbrev begun : Manager
begun = record {
  config = config;
  current_status = disconnected;
  reconnect_attempts = 0;
  is_running = false;
  event_group = record { connected_bit = false; fail_bit = false };
}

abbrev lost : Manager
lost = record begun {
  is_running = true;
  event_group = record { connected_bit = false; fail_bit = true };
}

begun_run : network_manager_init true true (some config) ≡ ok begun
unfolding network_manager_init
begun_run = refl

-- Between the two calls of an event both bits can be set, and the task sees them so.
abbrev both : Manager
both = record begun {
  is_running = true;
  event_group = record { connected_bit = true; fail_bit = true };
}

abbrev seen : Manager
seen = record both { current_status = connected }

both_run : network_monitor_task true both ≡ acts (report connected ∷ (delay_ms 500 ∷ [])) seen
unfolding network_monitor_task handle_bits closing_actions
both_run = refl

seen-Reaches : Reaches true begun seen (clear_bits wifi_connected ∷ [])
unfolding wifi_event_handler do_call
seen-Reaches =
    Reaches.round (report connected ∷ (delay_ms 500 ∷ [])) (clear_bits wifi_connected ∷ [])
      (Reaches.call (set_bits wifi_fail) (clear_bits wifi_connected ∷ []) (
        Reaches.event sta_disconnected (
          Reaches.call (clear_bits wifi_fail) [] (
            Reaches.call (set_bits wifi_connected) (clear_bits wifi_fail ∷ []) (
              Reaches.running true (set_bits wifi_connected ∷ (clear_bits wifi_fail ∷ []))
                (Reaches.event sta_got_ip Reaches.start))))))
      both_run

reaches-IsSteady_example : IsSteady seen (clear_bits wifi_connected ∷ [])
reaches-IsSteady_example =
    reaches-IsSteady true config begun seen (clear_bits wifi_connected ∷ []) begun_run seen-Reaches

gives_up_example :
    rounds 4 true lost
    ≡ some
        (attempts_made 3 true 500, record lost { current_status = error; reconnect_attempts = 3 })
gives_up_example = gives_up 3 true lost refl refl refl refl refl

runs-last_told_example :
    last_told ((mqtt_event_handler true mqtt_connected idle).0 ++ [])
    ≡ (mqtt_event_handler true mqtt_connected idle).1.current_status
runs-last_told_example =
    runs-last_told (mqtt_event_handler true mqtt_connected idle).1
      ((mqtt_event_handler true mqtt_connected idle).0 ++ []) (Runs.mqtt mqtt_connected Runs.start)
