-- ===== src/PubSub/ListQueue.antt =====
-- Queues that are lists of their messages, and a pool with nothing out, for the tests.
use cursor_embed_cus_mqtt_su.Base.{
  ◌≡◌, refl, arith, List, [], ◌∷◌, ◌++◌, Option, none, some, length, ltb, lt→ltb, ltb-false,
  if◌then◌else◌,
}
use cursor_embed_cus_mqtt_su.MemPool.{MemPool, pool_size, first_block}
use cursor_embed_cus_mqtt_su.MemPool.Alloc.{IsValid}
use cursor_embed_cus_mqtt_su.PubSub.{Msg, QueueApi, max_queue}
use cursor_embed_cus_mqtt_su.PubSub.Publish.{IsQueue}

-- A queue that is the list of its messages.
pub take_first : List Msg → Option (Msg × List Msg)
take_first [] = none
take_first (m ∷ ms) = some (m, ms)

abbrev pub list_api : QueueApi (List Msg)
list_api = record {
  created = [];
  send = λ q m. if ltb (length q) max_queue then some (q ++ (m ∷ [])) else none;
  send_to_front = λ q m. if ltb (length q) max_queue then some (m ∷ q) else none;
  receive = take_first;
}

took : (q r : List Msg) (m : Msg) → take_first q ≡ some (m, r) → q ≡ m ∷ r
unfolding take_first
took [] r m h = cc
took (n ∷ q) r m h = cc

waited : (q : List Msg) → q ≡ [] → take_first q ≡ none
unfolding take_first
waited q h = rw h refl

pub list_api-IsQueue : IsQueue list_api (λ q. q)
unfolding take_first
list_api-IsQueue = record {
  empty = refl;
  sent = λ q m h. (q ++ (m ∷ []), rw (lt→ltb (length q) max_queue h) refl, refl);
  sent_to_front = λ q m h. (m ∷ q, rw (lt→ltb (length q) max_queue h) refl, refl);
  full = λ q m h.
      (rw (ltb-false (length q) max_queue h) refl, rw (ltb-false (length q) max_queue h) refl);
  received = took;
  waits = waited;
  receives = λ q m ms h. (ms, rw h refl);
}

abbrev pub fresh : MemPool
fresh = record { blocks = first_block ∷ []; total_size = pool_size; used_size = 0; peak_use = 0 }

pub fresh-IsValid : IsValid fresh
fresh-IsValid = record {
  tiles = omega arith;
  small = omega arith;
  used = refl;
  peak = omega arith;
  bounded = omega arith;
}
