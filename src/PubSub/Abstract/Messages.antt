-- ===== src/PubSub/Abstract/Messages.antt =====
-- Publications and rounds of the tasks, in the view of the callers.
use cursor_embed_cus_mqtt_su.Base.{
  ℕ, ◌-◌, ◌≡◌, refl, sym, ap, subst, ◌∙◌, arith, inl, inr, Bool, true, false, ◌&&◌, List, map,
  Option, none, some, length, take, ltb, Bool-cases, Option-cases,
}
use mathlib.Core.Option
use cursor_embed_cus_mqtt_su.MemPool.{MemPool, memory_pool_alloc, memory_pool_free}
use cursor_embed_cus_mqtt_su.PubSub.{
  PubsubErr, MsgPriority, Msg, Topic, PubSub, QueueApi, max_name, max_queue, find_topic,
  update_topic, set_queue, enqueue, copy_and_send, publish_to, pubsub_publish, data_pointer,
  deliver, topic_task,
}
use cursor_embed_cus_mqtt_su.PubSub.Publish.{IsQueue, send_lem, full_lem}
use cursor_embed_cus_mqtt_su.PubSub.Run.{Call, publish, round}
use cursor_embed_cus_mqtt_su.PubSub.Abstract.{
  Entry, Broker, content, reader, place, Written, Moves, content-placed, entry, view, view-Written,
  RefinesAll, view-Same,
}

module _ {Q : Type 0} (items : Q → List Msg) where
  -- A message whose name has a topic, with the pool behind the copy of its data.
  enqueue-Refines :
      (api : QueueApi Q) (law : IsQueue api items) (s : PubSub Q) (pool : MemPool) (c : Call)
      (name : List ℕ) (t : Topic Q) (m : Msg)
      → find_topic name s.topics ≡ some t
      → ((b d : Broker) (e : Entry)
          → b name ≡ some e
          → Written name (e.0, place m.priority (content m) e.1) b d
          → Moves c b d)
      → RefinesAll items c s (enqueue api (record s { pool = pool }) name t m)
  unfolding enqueue set_queue
  enqueue-Refines api law s pool c name t m e k =
      elim (Bool-cases (ltb (length (items t.msg_queue)) max_queue)) [
        | inl room ↦
            let (q, f, i) = send_lem api items law t.msg_queue m (ground (arith, room)) in
            rw (f, enqueue)
              (inr (
                k (view items s) _ (entry items t) (ap (Option.map (entry items)) e) (
                  subst
                    (λ l.
                      Written name (map reader t.subscribers, l) (view items s)
                        (view items (record {
                          topics = update_topic name (set_queue q) s.topics;
                          spare_name = s.spare_name;
                          pool = pool;
                        })))
                    (ap (map content) i ∙ content-placed m.priority m (items t.msg_queue))
                    (view-Written items s pool name (set_queue q) t (λ u. refl) e))))
        | inr full ↦
            rw (full_lem api items law t.msg_queue m (ground (arith, full)), enqueue)
              (elim (Option-cases (memory_pool_free pool (data_pointer m.msg_data))) [
                | inl h ↦ rw h tt
                | inr (after, h) ↦ rw h (inl (λ n. refl))
              ])
      ]

  publish_to-Refines :
      (api : QueueApi Q) (law : IsQueue api items) (s : PubSub Q) (now : ℕ) (name : List ℕ)
      (t : Topic Q) (bytes : Option (List ℕ)) (data_len : ℕ) (priority : MsgPriority)
      → find_topic name s.topics ≡ some t
      → RefinesAll items (publish now (some name) bytes data_len priority) s (
          publish_to api s name t bytes (record {
            topic = take (max_name - 1) name;
            msg_data = none;
            data_len = data_len;
            priority = priority;
            timestamp = now;
          }))
  unfolding publish_to copy_and_send
  publish_to-Refines api law s now name t none data_len priority e =
      enqueue-Refines api law s s.pool (publish now (some name) none data_len priority) name t _ e
        (λ b d x h w. (x, h, w))
  publish_to-Refines api law s now name t (some bytes) data_len priority e =
      elim (Bool-cases (ltb 0 data_len)) [
        | inr h ↦ rw h (
            enqueue-Refines api law s s.pool
              (publish now (some name) (some bytes) data_len priority) name t _ e
              (λ b d x k w. (x, k, rw h w)))
        | inl h ↦ rw h (copied h (memory_pool_alloc s.pool data_len))
      ]
    where
      copied :
          ltb 0 data_len ≡ true
          → (got : Option ℕ × MemPool)
          → RefinesAll items (publish now (some name) (some bytes) data_len priority) s (
              copy_and_send api s name t bytes
                (record {
                  topic = take (max_name - 1) name;
                  msg_data = none;
                  data_len = data_len;
                  priority = priority;
                  timestamp = now;
                })
                got)
      copied h (none, pool) = inl (λ n. refl)
      copied h (some ptr, pool) = elim (Bool-cases (ltb (length bytes) data_len)) [
        | inl l ↦ rw l tt
        | inr l ↦ rw l (
            enqueue-Refines api law s pool (publish now (some name) (some bytes) data_len priority)
              name t _ e (λ b d x k w. (x, k, rw h w)))
      ]

  pub publish-Refines :
      (api : QueueApi Q) (law : IsQueue api items) (s : PubSub Q) (now : ℕ)
      (name bytes : Option (List ℕ)) (data_len : ℕ) (priority : MsgPriority)
      → RefinesAll items
          (publish now name bytes data_len priority)
          s
          (pubsub_publish api s now name bytes data_len priority)
  unfolding pubsub_publish
  publish-Refines api law s now none bytes data_len priority = inl (view-Same items s)
  publish-Refines api law s now (some name) bytes data_len priority =
      elim (Bool-cases
        ((elim bytes as (λ o. Bool) [ none ↦ true | some b ↦ false ]) && ltb 0 data_len)) [
          | inl e ↦ rw (e, pubsub_publish) (inl (view-Same items s))
          | inr e ↦ elim (Option-cases (find_topic name s.topics)) [
            | inl f ↦
                subst (λ r. RefinesAll items (publish now (some name) bytes data_len priority) s r)
                  (sym (missing e f)) (inl (view-Same items s))
            | inr (t, f) ↦
                subst (λ r. RefinesAll items (publish now (some name) bytes data_len priority) s r)
                  (sym (there e t f))
                  (publish_to-Refines api law s now name t bytes data_len priority f)
          ]
        ]
    where
      wrong : Bool
      wrong = (elim bytes as (λ o. Bool) [ none ↦ true | some b ↦ false ]) && ltb 0 data_len

      missing :
          wrong ≡ false
          → find_topic name s.topics ≡ none
          → pubsub_publish api s now (some name) bytes data_len priority
            ≡ some (PubsubErr.topic_not_found, s)
      missing e f = rw (e, pubsub_publish) (rw (f, pubsub_publish) refl)

      there :
          wrong ≡ false
          → (t : Topic Q) → find_topic name s.topics ≡ some t
          → pubsub_publish api s now (some name) bytes data_len priority
            ≡ publish_to api s name t bytes (record {
              topic = take (max_name - 1) name;
              msg_data = none;
              data_len = data_len;
              priority = priority;
              timestamp = now;
            })
      there e t f = rw (e, pubsub_publish) (rw (f, pubsub_publish) refl)

  pub round-Refines :
      (api : QueueApi Q) (law : IsQueue api items) (s : PubSub Q) (name : List ℕ)
      → RefinesAll items (round name) s (topic_task api s name)
  unfolding topic_task deliver set_queue
  round-Refines api law s name = elim (Option-cases (find_topic name s.topics)) [
    | inl e ↦ rw (e, topic_task) tt
    | inr (t, e) ↦
        rw (e, topic_task)
          (elim (Option-cases (api.receive t.msg_queue)) [
            | inl g ↦ rw (g, deliver) (inl (view-Same items s))
            | inr ((m, q), g) ↦
                rw (g, deliver)
                  (elim (Option-cases (memory_pool_free s.pool (data_pointer m.msg_data))) [
                    | inl h ↦ rw h tt
                    | inr (pool, h) ↦ rw h (
                        inr (
                          (entry items t),
                          content m,
                          map content (items q),
                          ap (Option.map (entry items)) e,
                          ap (map content) (law.received t.msg_queue q m g),
                          view-Written items s pool name (set_queue q) t (λ u. refl) e,
                        ))
                  ])
          ])
  ]
