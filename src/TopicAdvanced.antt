-- ===== src/TopicAdvanced.antt =====
-- main/topic_manager_advanced.c: the configuration and the statistics of the slots of the topics. The
-- regular expressions of the C library are a parameter. The deletion of a topic calls a function without a
-- body and is not modelled, and nothing in the repository retains a message or sets the filter.
pub mod Slots
mod Tests
use cursor_embed_cus_mqtt_su.Base.{
  ℕ, zero, suc, ◌+◌, Bool, true, false, not, ◌&&◌, List, [], ◌∷◌, Option, none, some, ltb, set,
  get_elem?, if◌then◌else◌,
}
use cursor_embed_cus_mqtt_su.Base.Esp.{EspError}
use cursor_embed_cus_mqtt_su.PubSub.{
  PubsubErr, Topic, PubSub, QueueApi, max_topics, same_name, pubsub_create_topic,
}

-- topic_stats_t.
pub record Stats : Type 0 where
  pub msg_received : ℕ
  pub msg_published : ℕ
  pub msg_dropped : ℕ
  pub subscriber_count : ℕ
  pub last_msg_timestamp : ℕ
  pub queue_space_available : ℕ

-- topic_config_t.
pub record Config : Type 0 where
  pub max_msg_size : ℕ
  pub queue_size : ℕ
  pub qos_level : ℕ
  pub retain_last_message : Bool
  pub message_ttl : ℕ

-- topic_advanced_t, without the retained messages.
pub record Advanced : Type 0 where
  pub config : Config
  pub stats : Stats

-- The array of the slots, the pattern of the filter if it is active, and the core.
pub record Manager (Q : Type 0) : Type 0 where
  pub slots : List Advanced
  pub current_filter : Option (List ℕ)
  pub core : PubSub Q

-- What the calls return: a code of their own, or that of `pubsub_create_topic`.
pub data Result : Type 0 where
  esp : EspError → Result
  told : PubsubErr → Result

-- What `memset` leaves, with a time.
pub zero_stats : ℕ → Stats
zero_stats now = record {
  msg_received = 0;
  msg_published = 0;
  msg_dropped = 0;
  subscriber_count = 0;
  last_msg_timestamp = now;
  queue_space_available = 0;
}

-- The loop over the slots, with whether the lock of each is made: it ends at the first that is not.
pub topic_manager_init_advanced : List Bool → List Advanced → Option EspError × List Advanced
unfolding zero_stats
topic_manager_init_advanced locks [] = (none, [])
topic_manager_init_advanced [] (a ∷ slots) = (some EspError.no_mem, a ∷ slots)
topic_manager_init_advanced (lock ∷ locks) (a ∷ slots) =
    let (result, rest) = topic_manager_init_advanced locks slots in
    if lock
    then (result, record a { stats = zero_stats 0 } ∷ rest)
    else (some EspError.no_mem, a ∷ slots)

-- `regcomp` gives the test of a pattern, or fails.
pub topic_matches_filter : (List ℕ → Option (List ℕ → Bool)) → Option (List ℕ) → List ℕ → Bool
topic_matches_filter regcomp none name = true
topic_matches_filter regcomp (some pattern) name = elim (regcomp pattern) [
  | none ↦ false
  | some matches ↦ matches name
]

module _ {Q : Type 0} where
  -- The first slot with a name, from a slot on: those of the topics, the one with the spare name, and the
  -- slots behind that, whose names are empty.
  pub slot_from : ℕ → List ℕ → List ℕ → List (Topic Q) → Option ℕ
  slot_from i name spare [] =
      if not (ltb i max_topics)
      then none
      else (if same_name spare name
          then some i
          else (if same_name [] name && ltb (i + 1) max_topics then some (i + 1) else none))
  slot_from i name spare (t ∷ ts) =
      let rest = slot_from (i + 1) name spare ts in if same_name t.name name then some i else rest

  pub slot_of : List ℕ → PubSub Q → Option ℕ
  unfolding slot_from
  slot_of name s = slot_from 0 name s.spare_name s.topics

  -- A free slot has the empty name.
  pub free_slot : PubSub Q → Option ℕ
  unfolding slot_of
  free_slot s = slot_of [] s

  -- The slot is there: its configuration and statistics, and then the topic.
  pub create_in :
      QueueApi Q → ℕ → Manager Q → Bool → Bool → Bool → List ℕ → Config → ℕ → Result × Manager Q
  unfolding zero_stats
  create_in api now m queue lock task name config slot =
      let (e, core) = pubsub_create_topic api m.core queue lock task (some name) in
      (
        told e,
        record m {
          slots = set m.slots slot (record { config = config; stats = zero_stats now });
          core = core;
        },
      )

  -- `now` is what esp_timer_get_time gives; `none` are NULL pointers.
  pub topic_create_with_config :
      QueueApi Q
      → (List ℕ → Option (List ℕ → Bool))
      → ℕ
      → Manager Q
      → Bool
      → Bool
      → Bool
      → Option (List ℕ)
      → Option Config
      → Result × Manager Q
  unfolding create_in free_slot topic_matches_filter
  topic_create_with_config api regcomp now m queue lock task none config =
      (esp EspError.invalid_arg, m)
  topic_create_with_config api regcomp now m queue lock task (some name) none =
      (esp EspError.invalid_arg, m)
  topic_create_with_config api regcomp now m queue lock task (some name) (some config) =
      if not (topic_matches_filter regcomp m.current_filter name)
      then (esp EspError.invalid_arg, m)
      else elim (free_slot m.core) [
        | none ↦ (esp EspError.no_mem, m)
        | some slot ↦ create_in api now m queue lock task name config slot
      ]

  -- `wanted` says whether there is a place for the statistics.
  pub topic_get_stats : Manager Q → Option (List ℕ) → Bool → Option EspError × Option Stats
  unfolding slot_of
  topic_get_stats m none wanted = (some EspError.invalid_arg, none)
  topic_get_stats m (some name) wanted =
      if not wanted then (some EspError.invalid_arg, none) else elim (slot_of name m.core) [
        | none ↦ (some EspError.not_found, none)
        | some slot ↦ elim (get_elem? m.slots slot) [
          | none ↦ (none, none)
          | some a ↦ (none, some a.stats)
        ]
      ]
