-- ===== src/Network/Manager/Reconnect.antt =====
-- The rounds of the network manager's task after a loss of the connection.
use cursor_embed_cus_mqtt_su.Base.{
  ℕ, zero, suc, ◌+◌, ◌<◌, ◌≡◌, refl, arith, Bool, true, false, List, [], ◌∷◌, ◌++◌, append_assoc,
  Option, none, some, if◌then◌else◌,
}
use mathlib.Core.Option
use cursor_embed_cus_mqtt_su.Network.{NetworkStatus, disconnected, error}
use cursor_embed_cus_mqtt_su.Network.Manager.{
  Manager, Action, wifi_connect, report, delay_ms, retry, closing_actions, handle_bits, ends, waits,
  acts, network_monitor_task,
}

-- The rounds that the task makes, without an event: their calls, where none of them ends or waits.
pub rounds : ℕ → Bool → Manager → Option (List Action × Manager)
rounds zero callback m = some ([], m)
rounds (suc n) callback m = elim (network_monitor_task callback m) [
  | ends ↦ none
  | waits ↦ none
  | acts actions k ↦ Option.map (λ r. (actions ++ r.0, r.1)) (rounds n callback k)
]

-- What the callback is told, if there is one.
abbrev pub told : Bool → NetworkStatus → List Action
told callback status = if callback then report status ∷ [] else []

-- The calls of so many attempts to reconnect, and of giving up behind them.
unfoldable pub attempts_made : ℕ → Bool → ℕ → List Action
attempts_made zero callback ms = told callback error ++ (delay_ms ms ∷ [])
attempts_made (suc left) callback ms =
    wifi_connect ∷ (told callback disconnected ++ (delay_ms ms ∷ attempts_made left callback ms))

retry_round :
    (callback : Bool) (m : Manager)
    → m.is_running ≡ true
    → m.event_group.connected_bit ≡ false
    → m.event_group.fail_bit ≡ true
    → m.config.auto_reconnect ≡ true
    → m.reconnect_attempts < m.config.max_reconnect_attempts
    → network_monitor_task callback m
      ≡ acts
          (wifi_connect
            ∷ (told callback disconnected ++ (delay_ms m.config.reconnect_interval_ms ∷ [])))
          (record m {
            current_status = disconnected;
            reconnect_attempts = m.reconnect_attempts + 1;
          })
unfolding network_monitor_task handle_bits retry closing_actions
retry_round callback m i c f a l = ground arith

last_round :
    (callback : Bool) (m : Manager)
    → m.is_running ≡ true
    → m.event_group.connected_bit ≡ false
    → m.event_group.fail_bit ≡ true
    → m.config.auto_reconnect ≡ true
    → m.reconnect_attempts ≡ m.config.max_reconnect_attempts
    → network_monitor_task callback m
      ≡ acts (told callback error ++ (delay_ms m.config.reconnect_interval_ms ∷ [])) (record m {
        current_status = error;
        reconnect_attempts = m.config.max_reconnect_attempts;
      })
unfolding network_monitor_task handle_bits retry closing_actions
last_round callback m i c f a l = ground arith

-- After a loss of the connection, while the task runs, with automatic reconnection on and the attempts
-- within their limit, without a further event, the task calls `esp_wifi_connect` exactly as often as
-- attempts are left, each time reports that the network is disconnected and waits for the interval, and
-- gives up in the round after that: it reports an error and waits, the status is an error, and the
-- attempts are used up. The reports are made where there is a callback.
pub gives_up :
    (left : ℕ) (callback : Bool) (m : Manager)
    → m.is_running ≡ true
    → m.event_group.connected_bit ≡ false
    → m.event_group.fail_bit ≡ true
    → m.config.auto_reconnect ≡ true
    → m.reconnect_attempts + left ≡ m.config.max_reconnect_attempts
    → rounds (suc left) callback m
      ≡ some (
        attempts_made left callback m.config.reconnect_interval_ms,
        record m { current_status = error; reconnect_attempts = m.config.max_reconnect_attempts },
      )
unfolding rounds attempts_made
gives_up zero callback m i c f a l =
    rw (last_round callback m i c f a (omega arith), rounds) (simp append_assoc refl)
gives_up (suc left) callback m i c f a l =
    rw (retry_round callback m i c f a (omega arith), rounds)
      (rw
        (gives_up left callback
          (record m {
            current_status = disconnected;
            reconnect_attempts = m.reconnect_attempts + 1;
          })
          i c f a (omega arith))
        (simp append_assoc refl))
