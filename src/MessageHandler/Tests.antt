-- ===== src/MessageHandler/Tests.antt =====
-- The theorems on the message handler at concrete inputs, with queues that are lists.
use cursor_embed_cus_mqtt_su.Base.{ℕ, ◌-◌, ◌≡◌, refl, arith, true, false, List, [], ◌∷◌, ◌++◌, some}
use mathlib.Core.List.{Perm}
use mathlib.Core.List.Perm
use cursor_embed_cus_mqtt_su.MemPool.{
  MemPool, pool_size, memory_pool_alloc, align8, find_best, replace_at, carve, granted,
}
use cursor_embed_cus_mqtt_su.PubSub.{low, Msg, pubsub_publish, find_topic}
use cursor_embed_cus_mqtt_su.PubSub.Run.{create}
use cursor_embed_cus_mqtt_su.PubSub.ListQueue.{list_api, list_api-IsQueue, fresh}
use cursor_embed_cus_mqtt_su.MessageHandler.{
  Config, Pending, Handler, find_pending, Tick, fill_pending, alloc_data, alloc_node,
  create_pending_message, publish_now, publish_pending, publish_as, message_publish_with_qos,
}
use cursor_embed_cus_mqtt_su.MessageHandler.Run.{
  Use, send, tick, call, use_run, use_step, IsHandled,
}
use cursor_embed_cus_mqtt_su.MessageHandler.Retries.{attempts, ticks, smaller, retries_bounded}
use cursor_embed_cus_mqtt_su.MessageHandler.Ids.{Descends, ids, pending_stay}

abbrev config : Config
config = record { retry_count = 3; retry_interval_ms = 500 }

abbrev name : List ℕ
name = 97 ∷ 98 ∷ []

abbrev bytes : List ℕ
bytes = 1 ∷ 2 ∷ []

abbrev start : Handler (List Msg)
start = record {
  config = config;
  pending_messages = [];
  next_msg_id = 1;
  core = record { topics = []; spare_name = []; pool = fresh };
}

-- A topic is made, a message is sent to it and one to a topic that is not there, and timers tick.
abbrev history : List Use
history =
    call (create true true true (some name))
    ∷ (send 5 (some name) (some bytes) 2 low 1 true true
        ∷ (send 6 (some bytes) (some bytes) 1 low 2 true true
            ∷ (send 7 (some name) (some bytes) 1 low 1 true false
                ∷ (tick 8 12 ∷ (tick 9 12 ∷ [])))))

abbrev waiting : Pending
waiting = record {
  node = 12;
  msg_id = 1;
  topic = name;
  msg_data = (128, bytes);
  data_len = 2;
  priority = low;
  qos = 1;
  retry_count = 0;
  max_retries = 3;
}

abbrev two_out : MemPool
two_out = record {
  blocks =
      record { addr = 0; size = 104; is_free = false }
      ∷ (record { addr = 116; size = 8; is_free = false }
          ∷ (record { addr = 136; size = pool_size - 148; is_free = true } ∷ []));
  total_size = pool_size;
  used_size = 136;
  peak_use = 136;
}

abbrev with_one : Handler (List Msg)
with_one = record start {
  pending_messages = waiting ∷ [];
  core = record { topics = []; spare_name = []; pool = two_out };
  next_msg_id = 2;
}

with_one-IsHandled : IsHandled list_api (λ q. q) list_api-IsQueue with_one
with_one-IsHandled = record {
  core = record {
    owns = record {
      valid = record {
        tiles = omega arith;
        small = omega arith;
        used = refl;
        peak = omega arith;
        bounded = omega arith;
      };
      held = Perm.refl (12 ∷ (128 ∷ []));
    };
    formed = record { fits = omega arith; each = tt; names = tt };
  };
  each = (record { enough = omega arith; retries = omega arith; bound = omega arith }, tt);
  small = omega arith;
}

found : find_pending 12 with_one.pending_messages ≡ some waiting
unfolding find_pending
found = refl

retries_bounded_example :
    (given : List Tick) × (after : Handler (List Msg)) × (ticks list_api
        (1 ∷ 2 ∷ 3 ∷ 4 ∷ 5 ∷ [])
        12
        with_one
      ≡ some (given, after))
    × (attempts given ≡ smaller 5 3)
retries_bounded_example =
    retries_bounded list_api (λ q. q) list_api-IsQueue (1 ∷ 2 ∷ 3 ∷ 4 ∷ 5 ∷ []) 12 with_one waiting
      found with_one-IsHandled

one_run :
    use_run list_api (send 5 (some name) (some bytes) 2 low 1 true true ∷ []) start ≡ some with_one
unfolding use_run use_step message_publish_with_qos publish_as publish_pending publish_now
    create_pending_message alloc_node alloc_data fill_pending memory_pool_alloc align8 find_best
    replace_at carve granted pubsub_publish find_topic
one_run = refl

pending_stay_example :
    Descends with_one.next_msg_id (ids with_one.pending_messages)
    × (newer : List ℕ) × (ids with_one.pending_messages ≡ newer ++ ids start.pending_messages)
pending_stay_example =
    pending_stay list_api (send 5 (some name) (some bytes) 2 low 1 true true ∷ []) start with_one
      one_run (omega arith) tt
