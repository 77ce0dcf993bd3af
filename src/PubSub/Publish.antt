-- ===== src/PubSub/Publish.antt =====
-- Where a message goes in its topic's queue, and who gets it: `pubsub_publish` and the task of a
-- topic, on queues that keep their messages in order.
use cursor_embed_cus_mqtt_su.Base.{
  ℕ, ◌≤◌, ◌<◌, ◌≡◌, refl, arith, List, [], ◌∷◌, ◌++◌, Option, none, some, length, take, map, lt→ltb,
  take-length, ltb-false, ◌-◌, ◌∙◌, sym, ap,
}
use cursor_embed_cus_mqtt_su.MemPool.{MemPool, memory_pool_alloc, memory_pool_free}
use cursor_embed_cus_mqtt_su.PubSub.{
  PubsubErr, MsgPriority, low, normal, high, critical, Msg, Topic, PubSub, QueueApi, max_name,
  max_queue, find_topic, update_topic, set_queue, send_by_priority, enqueue, copy_and_send,
  publish_to, pubsub_publish, data_pointer, deliver, topic_task,
}
use cursor_embed_cus_mqtt_su.MemPool.Alloc.{IsValid}
use cursor_embed_cus_mqtt_su.MemPool.Merge.{IsMerged}
use cursor_embed_cus_mqtt_su.MemPool.Undo.{alloc_then_free}
use cursor_embed_cus_mqtt_su.PubSub.Topics.{find_topic-written}

-- What FreeRTOS documents of a queue, by the list of the messages that it holds.
pub record IsQueue {Q : Type 0} (api : QueueApi Q) (items : Q → List Msg) : Type 0 where
  pub empty : items api.created ≡ []
  pub sent :
      (q : Q) (m : Msg)
      → length (items q) < max_queue
      → (r : Q) × (api.send q m ≡ some r) × (items r ≡ items q ++ (m ∷ []))
  pub sent_to_front :
      (q : Q) (m : Msg)
      → length (items q) < max_queue
      → (r : Q) × (api.send_to_front q m ≡ some r) × (items r ≡ m ∷ items q)
  pub full :
      (q : Q) (m : Msg)
      → max_queue ≤ length (items q)
      → (api.send q m ≡ none) × (api.send_to_front q m ≡ none)
  pub received : (q r : Q) (m : Msg) → api.receive q ≡ some (m, r) → items q ≡ m ∷ items r
  pub waits : (q : Q) → items q ≡ [] → api.receive q ≡ none
  pub receives :
      (q : Q) (m : Msg) (ms : List Msg) → items q ≡ m ∷ ms → (r : Q) × (api.receive q ≡ some (m, r))

-- The queue after a message.
abbrev pub placed : MsgPriority → Msg → List Msg → List Msg
placed critical m ms = m ∷ ms
placed low m ms = ms ++ (m ∷ [])
placed normal m ms = ms ++ (m ∷ [])
placed high m ms = ms ++ (m ∷ [])

-- The message that `pubsub_publish` makes.
abbrev pub made : List ℕ → ℕ → List ℕ → MsgPriority → ℕ → Msg
made name now bytes priority ptr = record {
  topic = take (max_name - 1) name;
  msg_data = some (ptr, bytes);
  data_len = length bytes;
  priority = priority;
  timestamp = now;
}

module _ {Q : Type 0} (api : QueueApi Q) (items : Q → List Msg) (law : IsQueue api items) where
  pub send_lem :
      (q : Q) (m : Msg)
      → length (items q) < max_queue
      → (r : Q) × (send_by_priority api q m ≡ some r) × (items r ≡ placed m.priority m (items q))
  unfolding send_by_priority
  send_lem q m h = by_priority m.priority
    where
      by_priority :
          (p : MsgPriority)
          → (r : Q) × ((elim p as (λ x. Option Q) [
            | critical ↦ api.send_to_front q m
            | _ ↦ api.send q m
          ])
              ≡ some r)
            × (items r ≡ placed p m (items q))
      by_priority critical = law.sent_to_front q m h
      by_priority low = law.sent q m h
      by_priority normal = law.sent q m h
      by_priority high = law.sent q m h

  pub full_lem : (q : Q) (m : Msg) → max_queue ≤ length (items q) → send_by_priority api q m ≡ none
  unfolding send_by_priority
  full_lem q m h = by_priority m.priority
    where
      by_priority :
          (p : MsgPriority)
          → (elim p as (λ x. Option Q) [ critical ↦ api.send_to_front q m | _ ↦ api.send q m ])
            ≡ none
      by_priority critical = (law.full q m h).1
      by_priority low = (law.full q m h).0
      by_priority normal = (law.full q m h).0
      by_priority high = (law.full q m h).0

  enqueue_lem :
      (s : PubSub Q) (name : List ℕ) (t : Topic Q) (m : Msg)
      → length (items t.msg_queue) < max_queue
      → (q : Q) × (items q ≡ placed m.priority m (items t.msg_queue))
        × (enqueue api s name t m
            ≡ some (PubsubErr.ok, record s { topics = update_topic name (set_queue q) s.topics }))
  unfolding enqueue
  enqueue_lem s name t m h =
      let (q, e, i) = send_lem t.msg_queue m h in (q, i, rw (e, enqueue) refl)

  -- A round of the task, at a topic with a message.
  deliver_lem :
      (r : PubSub Q) (name : List ℕ) (u : Topic Q) (m : Msg) (ms : List Msg) (pool : MemPool)
      → find_topic name r.topics ≡ some u
      → items u.msg_queue ≡ m ∷ ms
      → memory_pool_free r.pool (data_pointer m.msg_data) ≡ some pool
      → (q : Q) × (items q ≡ ms)
        × (topic_task api r name
            ≡ some (
              map (λ x. (x.callback, x.user_data, m)) u.subscribers,
              record {
                topics = update_topic name (set_queue q) r.topics;
                spare_name = r.spare_name;
                pool = pool;
              },
            ))
  unfolding topic_task deliver
  deliver_lem r name u m ms pool f i e =
      let (q, got) = law.receives u.msg_queue m ms i in
      (
        q,
        same_tail m (sym (law.received u.msg_queue q m got) ∙ i),
        rw (f, topic_task) (rw (got, deliver) (rw e refl)),
      )
    where
      same_tail : (a : Msg) {xs ys : List Msg} → a ∷ xs ≡ a ∷ ys → xs ≡ ys
      same_tail a h = cc

  module _ (s : PubSub Q) (now ptr : ℕ) (name bytes : List ℕ) (priority : MsgPriority) (t : Topic Q)
      (pool : MemPool) (found : find_topic name s.topics ≡ some t) (some_bytes : 0 < length bytes)
      (got : memory_pool_alloc s.pool (length bytes) ≡ (some ptr, pool)) where
    sends :
        pubsub_publish api s now (some name) (some bytes) (length bytes) priority
        ≡ enqueue api (record s { pool = pool }) name t (made name now bytes priority ptr)
    unfolding pubsub_publish publish_to copy_and_send
    sends =
        rw (found, pubsub_publish)
          (rw
            (
              lt→ltb 0 (length bytes) some_bytes,
              got,
              ltb-false (length bytes) (length bytes) (omega arith),
              take-length bytes,
            )
            refl)

    -- With room in the topic's queue and memory for data of at least one byte, `pubsub_publish` puts the message with a copy
    -- of the data at the front of the topic's queue if it is critical and at the back otherwise, and
    -- changes nothing else.
    pub publish_places :
        length (items t.msg_queue) < max_queue
        → (q : Q) × (items q
            ≡ placed priority (made name now bytes priority ptr) (items t.msg_queue))
          × (pubsub_publish api s now (some name) (some bytes) (length bytes) priority
              ≡ some (
                PubsubErr.ok,
                record {
                  topics = update_topic name (set_queue q) s.topics;
                  spare_name = s.spare_name;
                  pool = pool;
                },
              ))
    publish_places h =
        let (q, i, e) =
          enqueue_lem (record s { pool = pool }) name t (made name now bytes priority ptr) h in
        (q, i, sends ∙ e)

    -- With a full queue and memory for data of at least one byte, `pubsub_publish` gives the copy of the data back to a pool that was valid and
    -- merged: the blocks and the bytes in use are what they were, and no topic changes.
    pub publish_full :
        IsValid s.pool
        → IsMerged s.pool.blocks
        → max_queue ≤ length (items t.msg_queue)
        → (after : MemPool) × (pubsub_publish api s now
              (some name)
              (some bytes)
              (length bytes)
              priority
            ≡ some (PubsubErr.queue_full, record s { pool = after }))
          × (after.blocks ≡ s.pool.blocks)
          × (after.used_size ≡ s.pool.used_size)
    unfolding enqueue data_pointer
    publish_full v m h =
        let (after, e, b, u) = alloc_then_free s.pool pool (length bytes) ptr v m got in
        (
          after,
          sends
              ∙ rw (full_lem t.msg_queue (made name now bytes priority ptr) h, enqueue) (rw e refl),
          b,
          u,
        )

    -- The task of the topic, after a critical message with data was published on a queue with room: it calls every subscriber once, in the list's
    -- order, with that message, takes only that message off the queue, and gives the copy of the
    -- data back to a pool that was valid and merged.
    pub publish_critical_delivered :
        IsValid s.pool
        → IsMerged s.pool.blocks
        → priority ≡ critical
        → length (items t.msg_queue) < max_queue
        → (r : PubSub Q) × (pubsub_publish api s now
              (some name)
              (some bytes)
              (length bytes)
              priority
            ≡ some (PubsubErr.ok, r))
          × (after : PubSub Q) × (q : Q) × (topic_task api r name
              ≡ some (
                map
                    (λ x. (x.callback, x.user_data, made name now bytes priority ptr))
                    t.subscribers,
                after,
              ))
          × (after.topics ≡ update_topic name (set_queue q) r.topics)
          × (items q ≡ items t.msg_queue)
          × (after.pool.blocks ≡ s.pool.blocks)
    unfolding set_queue
    publish_critical_delivered v m crit h =
        let (q, i, e) = publish_places h in
        let (pool_after, back, b, u) = alloc_then_free s.pool pool (length bytes) ptr v m got in
        let msg : Msg = made name now bytes priority ptr in
        let front : items q ≡ msg ∷ items t.msg_queue =
          i ∙ ap (λ p. placed p msg (items t.msg_queue)) crit in
        let r : PubSub Q = record {
          topics = update_topic name (set_queue q) s.topics;
          spare_name = s.spare_name;
          pool = pool;
        } in
        let (q', i', e') =
          deliver_lem r name (set_queue q t) msg (items t.msg_queue) pool_after
            (find_topic-written name (set_queue q) s.topics t (λ w. refl) found) front
            (unfold data_pointer in back) in
        (
          r,
          e,
          record {
            topics = update_topic name (set_queue q') r.topics;
            spare_name = r.spare_name;
            pool = pool_after;
          },
          q',
          e',
          refl,
          i',
          b,
        )
