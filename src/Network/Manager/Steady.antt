-- ===== src/Network/Manager/Steady.antt =====
-- The network manager over any events and rounds: the attempts, the status and the bits.
use cursor_embed_cus_mqtt_su.Base.{
  ◌≤◌, ◌≡◌, refl, arith, Bool, true, false, ◌&&◌, List, [], ◌∷◌, some, ltb,
}
use cursor_embed_cus_mqtt_su.Base.Esp.{ok}
use cursor_embed_cus_mqtt_su.Network.{connected, error}
use cursor_embed_cus_mqtt_su.Network.Manager.{
  Config, EventGroup, Manager, WifiEvent, sta_start, sta_disconnected, sta_got_ip, other, Action,
  do_call, network_manager_init, wifi_event_handler, retry, handle_bits, acts, network_monitor_task,
  Reaches, start, event, call, running, round,
}

-- The event group behind some calls.
unfoldable pub do_calls : List Action → EventGroup → EventGroup
do_calls [] g = g
do_calls (a ∷ rest) g = do_calls rest (do_call a g)

-- The attempts stay within the limit; a connected manager has none, and one in error has no attempt to
-- make; and the bits are not both set once the calls under way are made.
pub record IsSteady (m : Manager) (rest : List Action) : Type 0 where
  pub bounded : m.reconnect_attempts ≤ m.config.max_reconnect_attempts
  pub fresh : m.current_status ≡ connected → m.reconnect_attempts ≡ 0
  pub given_up :
      m.current_status ≡ error
      → (m.config.auto_reconnect && ltb m.reconnect_attempts m.config.max_reconnect_attempts)
        ≡ false
  pub apart :
      ((do_calls rest m.event_group).connected_bit && (do_calls rest m.event_group).fail_bit)
      ≡ false

event_apart :
    (e : WifiEvent) (g : EventGroup)
    → (g.connected_bit && g.fail_bit) ≡ false
    → ((do_calls (wifi_event_handler e) g).connected_bit
        && (do_calls (wifi_event_handler e) g).fail_bit)
      ≡ false
unfolding wifi_event_handler do_calls do_call
event_apart sta_start g h = h
event_apart sta_disconnected g h = refl
event_apart sta_got_ip g h = refl
event_apart other g h = h

round-event_group :
    (callback : Bool) (m k : Manager) (actions : List Action)
    → network_monitor_task callback m ≡ acts actions k
    → k.event_group ≡ m.event_group
unfolding network_monitor_task handle_bits retry
round-event_group callback m k actions e = ground arith

round_lem :
    (callback : Bool) (m k : Manager) (actions rest : List Action)
    → network_monitor_task callback m ≡ acts actions k
    → IsSteady m rest
    → IsSteady k rest
unfolding network_monitor_task handle_bits retry
round_lem callback m k actions rest e s = record {
  bounded = ground arith;
  fresh = λ h. ground arith;
  given_up = λ h. ground arith;
  apart = rw (round-event_group callback m k actions e) s.apart;
}

-- Whatever WiFi events come, however the task is started and stopped, and wherever its rounds fall, also
-- between two calls of the event handler, after `network_manager_init` the attempts stay within the
-- configured number, a status that is connected comes with no attempt counted, one that is an error
-- comes with reconnection off or no attempt left, and the two bits are not both set as soon as the
-- handler has made its calls.
pub reaches-IsSteady :
    (callback : Bool) (config : Config) (m k : Manager) (rest : List Action)
    → network_manager_init true true (some config) ≡ ok m
    → Reaches callback m k rest
    → IsSteady k rest
unfolding network_manager_init do_calls
reaches-IsSteady callback config m k rest e r = step r
  where
    first : IsSteady m []
    first = record {
      bounded = ground arith;
      fresh = λ h. ground arith;
      given_up = λ h. ground arith;
      apart = ground arith;
    }

    step : {n : Manager} {rest : List Action} → Reaches callback m n rest → IsSteady n rest
    step start = first
    step (event {n} e r) =
        let s = step r in
        record {
          bounded = s.bounded;
          fresh = s.fresh;
          given_up = s.given_up;
          apart = event_apart e n.event_group s.apart;
        }
    step (call {n} a rest r) =
        let s = step r in
        record { bounded = s.bounded; fresh = s.fresh; given_up = s.given_up; apart = s.apart }
    step (running {n} b rest r) =
        let s = step r in
        record { bounded = s.bounded; fresh = s.fresh; given_up = s.given_up; apart = s.apart }
    step (round {n} {k} actions rest r h) = round_lem callback n k actions rest h (step r)
