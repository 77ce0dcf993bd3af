-- ===== src/Mqtt/Client/Ids.antt =====
-- The packet identifiers that `get_next_packet_id` gives one after the other.
use cursor_embed_cus_mqtt_su.Base.{ℕ, zero, suc, ◌+◌, ◌-◌, ◌%◌, ◌≤◌, ◌<◌, ◌≡◌, ◌≢◌, arith, ◌∙◌}
use cursor_embed_cus_mqtt_su.Mqtt.Client.{get_next_packet_id}

-- The counter after `n` calls.
pub after_calls : ℕ → ℕ → ℕ
after_calls zero id = id
after_calls (suc n) id = after_calls n (get_next_packet_id id)

next_lem : (id : ℕ) → id < 65536 → get_next_packet_id id ≡ id % 65535 + 1
unfolding get_next_packet_id
next_lem id h = ground arith

closed : (n id : ℕ) → 1 ≤ id → id < 65536 → after_calls n id ≡ (id - 1 + n) % 65535 + 1
unfolding after_calls
closed zero id h l = omega arith
closed (suc n) id h l =
    rw (next_lem id l) (closed n (id % 65535 + 1) (omega arith) (omega arith) ∙ omega arith)

-- From any value of the 16-bit counter on, the identifiers of `n` calls are never 0, which MQTT forbids,
-- stay within 16 bits, and those of two calls with fewer than 65534 calls between them differ.
pub ids_distinct :
    (id i j : ℕ)
    → id < 65536
    → i < j
    → j < i + 65535
    → (after_calls (suc i) id ≢ after_calls (suc j) id)
      × (after_calls (suc i) id ≢ 0)
      × (after_calls (suc i) id < 65536)
unfolding after_calls
ids_distinct id i j h l k = rw (next_lem id h) (
    ground (
      arith,
      closed i (id % 65535 + 1) (omega arith) (omega arith),
      closed j (id % 65535 + 1) (omega arith) (omega arith),
    ))
