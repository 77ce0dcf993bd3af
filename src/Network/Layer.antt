-- ===== src/Network/Layer.antt =====
-- main/network_layer.c: its two event handlers. An event is handled in one step.
use cursor_embed_cus_mqtt_su.Base.{◌≡◌, refl, Bool, true, false, List, [], ◌∷◌, ◌++◌, if◌then◌else◌}
use cursor_embed_cus_mqtt_su.Network.{NetworkStatus, disconnected, connected, error}
use cursor_embed_cus_mqtt_su.Network.Manager.{
  WifiEvent, sta_start, sta_disconnected, sta_got_ip, other,
}

-- esp_mqtt_event_id_t; the events that are only logged are one.
pub data MqttEvent : Type 0 where
  mqtt_connected mqtt_disconnected mqtt_error logged : MqttEvent

pub record Layer : Type 0 where
  pub wifi_bit : Bool
  pub mqtt_bit : Bool
  pub current_status : NetworkStatus

pub data Action : Type 0 where
  wifi_connect : Action
  report : NetworkStatus → Action

-- The callback, if there is one.
pub tell : Bool → NetworkStatus → List Action
tell callback status = if callback then report status ∷ [] else []

pub wifi_event_handler : Bool → WifiEvent → Layer → List Action × Layer
unfolding tell
wifi_event_handler callback sta_start l = (wifi_connect ∷ [], l)
wifi_event_handler callback sta_disconnected l = (
  wifi_connect ∷ tell callback disconnected,
  record l { wifi_bit = false; current_status = disconnected },
)
wifi_event_handler callback sta_got_ip l = ([], record l { wifi_bit = true })
wifi_event_handler callback other l = ([], l)

unfoldable pub mqtt_event_handler : Bool → MqttEvent → Layer → List Action × Layer
unfolding tell
mqtt_event_handler callback mqtt_connected l =
    (tell callback connected, record l { mqtt_bit = true; current_status = connected })
mqtt_event_handler callback mqtt_disconnected l =
    (tell callback disconnected, record l { mqtt_bit = false; current_status = disconnected })
mqtt_event_handler callback mqtt_error l =
    (tell callback error, record l { current_status = error })
mqtt_event_handler callback logged l = ([], l)

-- The layer before any event.
abbrev pub idle : Layer
idle = record { wifi_bit = false; mqtt_bit = false; current_status = disconnected }

-- A run of the layer: the layer after some events, and what it did, the latest event first.
pub data Runs (callback : Bool) : Layer → List Action → Type 0 where
  start : Runs callback idle []
  wifi :
      {l : Layer} {told : List Action} (e : WifiEvent)
      → Runs callback l told
      → Runs callback
          (wifi_event_handler callback e l).1
          ((wifi_event_handler callback e l).0 ++ told)
  mqtt :
      {l : Layer} {told : List Action} (e : MqttEvent)
      → Runs callback l told
      → Runs callback
          (mqtt_event_handler callback e l).1
          ((mqtt_event_handler callback e l).0 ++ told)

-- The status that the callback was told last, or the one that it starts with.
pub last_told : List Action → NetworkStatus
last_told [] = disconnected
last_told (wifi_connect ∷ told) = last_told told
last_told (report status ∷ told) = status

-- After any run with a callback, the status is the one that the callback was told last: no change is
-- hidden from it.
pub runs-last_told :
    (l : Layer) (told : List Action) → Runs true l told → last_told told ≡ l.current_status
unfolding last_told wifi_event_handler mqtt_event_handler
runs-last_told l told start = refl
runs-last_told l' told' (wifi {l} {told} e r) = by_event e (runs-last_told l told r)
  where
    by_event :
        (e : WifiEvent)
        → last_told told ≡ l.current_status
        → last_told ((wifi_event_handler true e l).0 ++ told)
          ≡ (wifi_event_handler true e l).1.current_status
    by_event sta_start ih = ih
    by_event sta_disconnected ih = refl
    by_event sta_got_ip ih = ih
    by_event other ih = ih
runs-last_told l' told' (mqtt {l} {told} e r) = by_event e (runs-last_told l told r)
  where
    by_event :
        (e : MqttEvent)
        → last_told told ≡ l.current_status
        → last_told ((mqtt_event_handler true e l).0 ++ told)
          ≡ (mqtt_event_handler true e l).1.current_status
    by_event mqtt_connected ih = refl
    by_event mqtt_disconnected ih = refl
    by_event mqtt_error ih = refl
    by_event logged ih = ih

-- After any run, a layer whose status is connected has the MQTT bit set.
pub connected-mqtt_bit :
    (callback : Bool) (l : Layer) (told : List Action)
    → Runs callback l told
    → l.current_status ≡ connected
    → l.mqtt_bit ≡ true
unfolding wifi_event_handler mqtt_event_handler
connected-mqtt_bit callback l told start h = cc
connected-mqtt_bit callback l' told' (wifi {l} {told} e r) h =
    by_event e (λ k. connected-mqtt_bit callback l told r k) h
  where
    by_event :
        (e : WifiEvent)
        → (l.current_status ≡ connected → l.mqtt_bit ≡ true)
        → (wifi_event_handler callback e l).1.current_status ≡ connected
        → (wifi_event_handler callback e l).1.mqtt_bit ≡ true
    by_event sta_start ih h = ih h
    by_event sta_disconnected ih h = cc
    by_event sta_got_ip ih h = ih h
    by_event other ih h = ih h
connected-mqtt_bit callback l' told' (mqtt {l} {told} e r) h =
    by_event e (λ k. connected-mqtt_bit callback l told r k) h
  where
    by_event :
        (e : MqttEvent)
        → (l.current_status ≡ connected → l.mqtt_bit ≡ true)
        → (mqtt_event_handler callback e l).1.current_status ≡ connected
        → (mqtt_event_handler callback e l).1.mqtt_bit ≡ true
    by_event mqtt_connected ih h = refl
    by_event mqtt_disconnected ih h = cc
    by_event mqtt_error ih h = cc
    by_event logged ih h = ih h
