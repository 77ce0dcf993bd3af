-- ===== src/Network/Manager.antt =====
-- main/network_manager.c: the WiFi events and the task that reconnects. An event is a list of calls,
-- which are made one at a time, so that a round of the task can fall between two of them. A round reads
-- the bits once, and is one step. The functions that set `is_running` are declared in the header only.
pub mod Steady
pub mod Reconnect
use cursor_embed_cus_mqtt_su.Base.{
  ℕ, zero, suc, ◌+◌, ◌≤◌, ◌<◌, ◌≡◌, refl, ap, arith, Bool, true, false, not, ◌&&◌, ◌||◌, List, [],
  ◌∷◌, ◌++◌, append_assoc, Option, none, some, ltb, if◌then◌else◌,
}
use mathlib.Core.Option
use cursor_embed_cus_mqtt_su.Base.Esp.{Returned, ok, err, EspError}
use cursor_embed_cus_mqtt_su.Network.{NetworkStatus, disconnected, connected, error}

-- network_manager_config_t, without the callback and its argument.
pub record Config : Type 0 where
  pub reconnect_interval_ms : ℕ
  pub max_reconnect_attempts : ℕ
  pub auto_reconnect : Bool

-- WIFI_CONNECTED_BIT and WIFI_FAIL_BIT, and the event group that holds them.
pub data Bit : Type 0 where
  wifi_connected wifi_fail : Bit

pub record EventGroup : Type 0 where
  pub connected_bit : Bool
  pub fail_bit : Bool

pub record Manager : Type 0 where
  pub config : Config
  pub current_status : NetworkStatus
  pub reconnect_attempts : ℕ
  pub is_running : Bool
  pub event_group : EventGroup

-- The events that the handler tells apart, and any other.
pub data WifiEvent : Type 0 where
  sta_start sta_disconnected sta_got_ip other : WifiEvent

-- The calls of the WiFi driver, of the user's callback, of the system and of the event group.
pub data Action : Type 0 where
  wifi_connect : Action
  report : NetworkStatus → Action
  delay_ms : ℕ → Action
  set_bits clear_bits : Bit → Action

-- What a call does to the event group.
unfoldable pub do_call : Action → EventGroup → EventGroup
do_call (set_bits wifi_connected) g = record g { connected_bit = true }
do_call (set_bits wifi_fail) g = record g { fail_bit = true }
do_call (clear_bits wifi_connected) g = record g { connected_bit = false }
do_call (clear_bits wifi_fail) g = record g { fail_bit = false }
do_call _ g = g

-- The arguments say whether the heap gives the mutex and the event group.
unfoldable pub network_manager_init : Bool → Bool → Option Config → Returned Manager
network_manager_init lock group none = err EspError.invalid_arg
network_manager_init lock group (some config) =
    if not lock || not group
    then err EspError.no_mem
    else ok (record {
      config = config;
      current_status = disconnected;
      reconnect_attempts = 0;
      is_running = false;
      event_group = record { connected_bit = false; fail_bit = false };
    })

-- The calls that an event leads to, in their order.
unfoldable pub wifi_event_handler : WifiEvent → List Action
wifi_event_handler sta_start = wifi_connect ∷ []
wifi_event_handler sta_disconnected = set_bits wifi_fail ∷ (clear_bits wifi_connected ∷ [])
wifi_event_handler sta_got_ip = set_bits wifi_connected ∷ (clear_bits wifi_fail ∷ [])
wifi_event_handler other = []

-- The branch where the fail bit is set, and the connected bit is not.
pub retry : Manager → List Action × Manager
retry m =
    if m.config.auto_reconnect && ltb m.reconnect_attempts m.config.max_reconnect_attempts
    then (
      wifi_connect ∷ [],
      record m { current_status = disconnected; reconnect_attempts = m.reconnect_attempts + 1 },
    )
    else ([], record m { current_status = error })

-- The report and the delay behind it. `callback` says that there is a callback.
unfoldable pub closing_actions : Bool → Manager → List Action
closing_actions callback m =
    (if callback then report m.current_status ∷ [] else [])
    ++ (if m.event_group.fail_bit then delay_ms m.config.reconnect_interval_ms ∷ [] else [])

unfoldable pub handle_bits : Manager → List Action × Manager
unfolding retry
handle_bits m =
    if m.event_group.connected_bit
    then ([], record m { current_status = connected; reconnect_attempts = 0 })
    else (if m.event_group.fail_bit then retry m else ([], m))

-- A round of the task: the loop ends, it waits for a bit, or it acts.
pub data Round : Type 0 where
  ends waits : Round
  acts : List Action → Manager → Round

-- One round of the task, from the test of the loop. The wait leaves the bits as they are.
unfoldable pub network_monitor_task : Bool → Manager → Round
unfolding handle_bits closing_actions
network_monitor_task callback m =
    if not m.is_running
    then ends
    else (if m.event_group.connected_bit || m.event_group.fail_bit
        then (let (actions, after) = handle_bits m in
            acts (actions ++ closing_actions callback after) after)
        else waits)

-- What the manager can come to, with the calls of the event handler that are still to be made: an event
-- comes when the handler is done with the one before, a call is made, `is_running` is set or reset, or
-- the task makes a round.
pub data Reaches (callback : Bool) (m : Manager) : Manager → List Action → Type 0 where
  start : Reaches callback m m []
  event :
      {n : Manager} (e : WifiEvent)
      → Reaches callback m n []
      → Reaches callback m n (wifi_event_handler e)
  call :
      {n : Manager} (a : Action) (rest : List Action)
      → Reaches callback m n (a ∷ rest)
      → Reaches callback m (record n { event_group = do_call a n.event_group }) rest
  running :
      {n : Manager} (b : Bool) (rest : List Action)
      → Reaches callback m n rest
      → Reaches callback m (record n { is_running = b }) rest
  round :
      {n k : Manager} (actions rest : List Action)
      → Reaches callback m n rest
      → network_monitor_task callback n ≡ acts actions k
      → Reaches callback m k rest
