-- ===== src/PubSub/Invariant/Messages.antt =====
-- Publishing, and the task of a topic, keep the invariant of the topics.
use cursor_embed_cus_mqtt_su.Base.{
  ℕ, inl, inr, refl, Bool, true, false, ◌&&◌, List, Option, none, some, length, ltb, Bool-cases,
  Option-cases,
}
use cursor_embed_cus_mqtt_su.MemPool.{MemPool, memory_pool_alloc, memory_pool_free}
use cursor_embed_cus_mqtt_su.PubSub.{
  MsgPriority, Msg, Topic, PubSub, QueueApi, find_topic, update_topic, set_queue, send_by_priority,
  data_pointer, enqueue, copy_and_send, publish_to, pubsub_publish, deliver, topic_task,
}
use cursor_embed_cus_mqtt_su.PubSub.Invariant.{
  IsWellFormed, Kept, Kept-map, update-IsWellFormed, pool-IsWellFormed,
}

module _ {Q : Type 0} where
  set_queue-IsWellFormed :
      (s : PubSub Q) (pool : MemPool) (name : List ℕ) (q : Q)
      → IsWellFormed s
      → IsWellFormed (record s { topics = update_topic name (set_queue q) s.topics; pool = pool })
  unfolding set_queue
  set_queue-IsWellFormed s pool name q w =
      update-IsWellFormed s pool name (set_queue q) (λ t. refl)
        (λ t f i. record {
          named = i.named;
          counted = i.counted;
          limited = i.limited;
          distinct = i.distinct;
        })
        w

  enqueue-IsWellFormed :
      (api : QueueApi Q) (s : PubSub Q) (name : List ℕ) (t : Topic Q) (m : Msg)
      → IsWellFormed s
      → Kept (enqueue api s name t m)
  unfolding enqueue
  enqueue-IsWellFormed api s name t m w = elim (Option-cases (send_by_priority api t.msg_queue m)) [
    | inl e ↦
        rw (e, Kept)
          (Kept-map _ (memory_pool_free s.pool (data_pointer m.msg_data))
            (λ pool. pool-IsWellFormed s pool w))
    | inr (q, e) ↦ rw (e, Kept) (set_queue-IsWellFormed s s.pool name q w)
  ]

  copy-IsWellFormed :
      (api : QueueApi Q) (s : PubSub Q) (name : List ℕ) (t : Topic Q) (bytes : List ℕ) (m : Msg)
      (got : Option ℕ × MemPool)
      → IsWellFormed s
      → Kept (copy_and_send api s name t bytes m got)
  unfolding copy_and_send
  copy-IsWellFormed api s name t bytes m (none, pool) w = pool-IsWellFormed s pool w
  copy-IsWellFormed api s name t bytes m (some ptr, pool) w =
      elim (Bool-cases (ltb (length bytes) m.data_len)) [
        | inl e ↦ rw (e, Kept) tt
        | inr e ↦ rw (e, Kept) (enqueue-IsWellFormed api _ name t _ (pool-IsWellFormed s pool w))
      ]

  publish_to-IsWellFormed :
      (api : QueueApi Q) (s : PubSub Q) (name : List ℕ) (t : Topic Q) (bytes : Option (List ℕ))
      (m : Msg)
      → IsWellFormed s
      → Kept (publish_to api s name t bytes m)
  unfolding publish_to
  publish_to-IsWellFormed api s name t none m w = enqueue-IsWellFormed api s name t m w
  publish_to-IsWellFormed api s name t (some bytes) m w = elim (Bool-cases (ltb 0 m.data_len)) [
    | inl e ↦
        rw (e, Kept)
          (copy-IsWellFormed api s name t bytes m (memory_pool_alloc s.pool m.data_len) w)
    | inr e ↦ rw (e, Kept) (enqueue-IsWellFormed api s name t m w)
  ]

  -- `pubsub_publish` keeps the invariant of the topics, whatever it returns, if it reads and frees nothing
  -- that is not there.
  pub publish-IsWellFormed :
      (api : QueueApi Q) (s : PubSub Q) (now : ℕ) (name bytes : Option (List ℕ)) (data_len : ℕ)
      (priority : MsgPriority)
      → IsWellFormed s
      → Kept (pubsub_publish api s now name bytes data_len priority)
  unfolding pubsub_publish
  publish-IsWellFormed api s now none bytes data_len priority w = w
  publish-IsWellFormed api s now (some name) bytes data_len priority w =
      elim (Bool-cases
        ((elim bytes as (λ o. Bool) [ none ↦ true | some b ↦ false ]) && ltb 0 data_len)) [
          | inl e ↦ rw (e, Kept) w
          | inr e ↦
              rw (e, Kept)
                (elim (Option-cases (find_topic name s.topics)) [
                  | inl f ↦ rw (f, Kept) w
                  | inr (t, f) ↦ rw (f, Kept) (publish_to-IsWellFormed api s name t bytes _ w)
                ])
        ]

  -- A round of a topic's task keeps the invariant of the topics, if the data that it frees is of the pool.
  pub topic_task-IsWellFormed :
      (api : QueueApi Q) (s : PubSub Q) (name : List ℕ)
      → IsWellFormed s
      → Kept (topic_task api s name)
  unfolding topic_task deliver
  topic_task-IsWellFormed api s name w = elim (Option-cases (find_topic name s.topics)) [
    | inl f ↦ rw (f, Kept) tt
    | inr (t, f) ↦
        rw (f, Kept)
          (elim (Option-cases (api.receive t.msg_queue)) [
            | inl g ↦ rw (g, Kept) w
            | inr ((m, q), g) ↦
                rw (g, Kept)
                  (Kept-map _ (memory_pool_free s.pool (data_pointer m.msg_data))
                    (λ pool. set_queue-IsWellFormed s pool name q w))
          ])
  ]
