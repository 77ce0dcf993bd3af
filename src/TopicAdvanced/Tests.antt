-- ===== src/TopicAdvanced/Tests.antt =====
-- The theorem on the slots at a concrete input, with queues that are lists and a filter that takes all.
use cursor_embed_cus_mqtt_su.Base.{
  ℕ, zero, suc, ◌+◌, ◌≡◌, refl, arith, true, false, List, [], ◌∷◌, none, some, length, get_elem?,
}
use cursor_embed_cus_mqtt_su.PubSub.{PubsubErr, Msg, same_name, find_topic, pubsub_create_topic}
use cursor_embed_cus_mqtt_su.PubSub.ListQueue.{list_api, fresh}
use cursor_embed_cus_mqtt_su.TopicAdvanced.{
  Config, Advanced, Manager, told, zero_stats, topic_matches_filter, topic_create_with_config,
  topic_get_stats,
}
use cursor_embed_cus_mqtt_su.TopicAdvanced.Slots.{create_then_stats}

abbrev config : Config
config = record {
  max_msg_size = 64;
  queue_size = 10;
  qos_level = 1;
  retain_last_message = false;
  message_ttl = 0;
}

unused : ℕ → List Advanced
unused zero = []
unused (suc n) = record { config = config; stats = zero_stats 1 } ∷ unused n

length-unused : (n : ℕ) → length (unused n) ≡ n
unfolding unused
length-unused zero = refl
length-unused (suc n) = omega (arith, length-unused n)

abbrev start : Manager (List Msg)
start = record {
  slots = unused 50;
  current_filter = some (b'.' ∷ []);
  core = record { topics = []; spare_name = []; pool = fresh };
}

abbrev name : List ℕ
name = b't' ∷ []

passes : topic_matches_filter (λ p. some (λ n. true)) start.current_filter name ≡ true
unfolding topic_matches_filter
passes = refl

not_yet : find_topic name start.core.topics ≡ none
unfolding find_topic
not_yet = refl

-- A creation without memory for the queue has left its name.
abbrev failed : Manager (List Msg)
failed = record start { core = record start.core { spare_name = b'x' ∷ [] } }

failed_run :
    pubsub_create_topic list_api start.core false true true (some (b'x' ∷ []))
    ≡ (PubsubErr.no_memory, failed.core)
unfolding pubsub_create_topic find_topic
failed_run = refl

had : get_elem? (unused 50) 0 ≡ some (record { config = config; stats = zero_stats 1 })
unfolding unused
had = refl

create_then_stats_example :
    (r : Manager (List Msg)) × (topic_create_with_config list_api
        (λ p. some (λ n. true))
        77
        failed
        true
        true
        true
        (some name)
        (some config)
      ≡ (told PubsubErr.ok, r))
    × (topic_get_stats r (some name) true ≡ (none, some (zero_stats 1)))
    × (get_elem? r.slots (0 + 1) ≡ some (record { config = config; stats = zero_stats 77 }))
unfolding same_name
create_then_stats_example =
    create_then_stats list_api (λ p. some (λ n. true)) 77 failed name config
      (record { config = config; stats = zero_stats 1 }) passes (omega arith) (length-unused 50)
      (omega arith) tt not_yet had
