-- ===== src/PubSub/Owned/Messages.antt =====
-- Publishing, and the task of a topic, return, and leave each pointer with one holder.
use cursor_embed_cus_mqtt_su.Base.{
  ℕ, ◌≤◌, ◌≡◌, refl, arith, inl, inr, Bool, true, false, ◌&&◌, List, [], ◌++◌, append_assoc, Option,
  none, some, map, length, take, ltb, ltb-false, Bool-cases, Option-cases,
}
use mathlib.Core.Option
use mathlib.Core.List.{Perm}
use mathlib.Core.List.Perm
use cursor_embed_cus_mqtt_su.MemPool.{MemPool, memory_pool_alloc, memory_pool_free}
use cursor_embed_cus_mqtt_su.MemPool.Alloc.{IsValid}
use cursor_embed_cus_mqtt_su.MemPool.Owned.{out, alloc-out, alloc-none}
use cursor_embed_cus_mqtt_su.PubSub.{
  PubsubErr, invalid_param, no_memory, MsgPriority, Msg, Subscriber, Topic, PubSub, QueueApi,
  max_queue, find_topic, update_topic, set_queue, data_pointer, enqueue, copy_and_send, publish_to,
  pubsub_publish, deliver, topic_task,
}
use cursor_embed_cus_mqtt_su.PubSub.Publish.{IsQueue, placed, send_lem, full_lem}
use cursor_embed_cus_mqtt_su.PubSub.Owned.{
  node_of, carried, pointers, placed-perm, swap_front, own, owned, Owns, update_topic-perm,
}
use cursor_embed_cus_mqtt_su.PubSub.Owned.Subscribers.{Returns, returned, freed_data}

-- What a caller hands to `pubsub_publish`: at least as many bytes as it says.
abbrev pub IsEnough : Option (List ℕ) → ℕ → Type 0
IsEnough none n = Unit
IsEnough (some bytes) n = n ≤ length bytes

module _ {Q : Type 0} (api : QueueApi Q) (items : Q → List Msg) (law : IsQueue api items)
    (others : List ℕ) where
  -- A message whose data the caller holds is queued or its data freed.
  enqueue-Returns :
      (s : PubSub Q) (name : List ℕ) (t : Topic Q) (m : Msg)
      → find_topic name s.topics ≡ some t
      → IsValid s.pool
      → Perm (carried m.msg_data ++ (owned items s.topics ++ others)) (out s.pool)
      → Returns items others (enqueue api s name t m)
  unfolding enqueue set_queue
  enqueue-Returns s name t m f v h =
      elim (Bool-cases (ltb (length (items t.msg_queue)) max_queue)) [
        | inr full ↦
            let (q, e, w, k) =
              freed_data items others s.pool m.msg_data (owned items s.topics ++ others) v h in
            rw (full_lem api items law t.msg_queue m (ground arith), enqueue)
              (rw e (returned items others PubsubErr.queue_full _ (record { valid = w; held = k })))
        | inl room ↦
            let (q, e, i) = send_lem api items law t.msg_queue m (ground arith) in
            rw (e, enqueue)
              (returned items others PubsubErr.ok _ (record { valid = v; held = queued q i }))
      ]
    where
      one :
          (q : Q)
          → items q ≡ placed m.priority m (items t.msg_queue)
          → Perm (carried m.msg_data ++ own items t) (own items (record t { msg_queue = q }))
      one q i = rw i (
          Perm.trans
            (swap_front (carried m.msg_data) (map node_of t.subscribers)
              (pointers (items t.msg_queue)))
            (Perm.append_left (map node_of t.subscribers)
              (placed-perm m.priority m (items t.msg_queue))))

      queued :
          (q : Q)
          → items q ≡ placed m.priority m (items t.msg_queue)
          → Perm (owned items (update_topic name (set_queue q) s.topics) ++ others) (out s.pool)
      queued q i =
          Perm.trans
            (Perm.symm (
              Perm.append_right others (
                update_topic-perm items name (set_queue q) s.topics t (carried m.msg_data) [] f
                  (one q i))))
            (rw (append_assoc (carried m.msg_data) (owned items s.topics) others) h)

  copy-Returns :
      (s : PubSub Q) (name : List ℕ) (t : Topic Q) (bytes : List ℕ) (m : Msg)
      (got : Option ℕ × MemPool)
      → find_topic name s.topics ≡ some t
      → m.data_len ≤ length bytes
      → memory_pool_alloc s.pool m.data_len ≡ got
      → Owns items others s
      → Returns items others (copy_and_send api s name t bytes m got)
  unfolding copy_and_send
  copy-Returns s name t bytes m (none, pool) f l e o =
      let same : pool ≡ s.pool = alloc-none s.pool pool m.data_len o.valid e in
      returned items others no_memory _ (record { valid = rw same o.valid; held = rw same o.held })
  copy-Returns s name t bytes m (some ptr, pool) f l e o =
      let (v, took) = alloc-out s.pool pool m.data_len ptr o.valid e in
      rw (ltb-false (length bytes) m.data_len l) (
        enqueue-Returns (record s { pool = pool }) name t
          (record m { msg_data = some (ptr, take m.data_len bytes) }) f v
          (Perm.trans (Perm.cons ptr o.held) took))

  publish_to-Returns :
      (s : PubSub Q) (name : List ℕ) (t : Topic Q) (bytes : Option (List ℕ)) (m : Msg)
      → find_topic name s.topics ≡ some t
      → IsEnough bytes m.data_len
      → m.msg_data ≡ none
      → Owns items others s
      → Returns items others (publish_to api s name t bytes m)
  unfolding publish_to
  publish_to-Returns s name t none m f l e o = enqueue-Returns s name t m f o.valid (rw e o.held)
  publish_to-Returns s name t (some bytes) m f l e o = elim (Bool-cases (ltb 0 m.data_len)) [
    | inl h ↦ rw h (copy-Returns s name t bytes m (memory_pool_alloc s.pool m.data_len) f l refl o)
    | inr h ↦ rw h (enqueue-Returns s name t m f o.valid (rw e o.held))
  ]

  -- `pubsub_publish` returns, and leaves each pointer with its holder.
  pub publish-Returns :
      (s : PubSub Q) (now : ℕ) (name bytes : Option (List ℕ)) (data_len : ℕ)
      (priority : MsgPriority)
      → IsEnough bytes data_len
      → Owns items others s
      → Returns items others (pubsub_publish api s now name bytes data_len priority)
  unfolding pubsub_publish
  publish-Returns s now none bytes data_len priority l o = returned items others invalid_param s o
  publish-Returns s now (some name) bytes data_len priority l o =
      elim (Bool-cases
        ((elim bytes as (λ o. Bool) [ none ↦ true | some b ↦ false ]) && ltb 0 data_len)) [
          | inl e ↦ rw (e, pubsub_publish) (returned items others invalid_param s o)
          | inr e ↦
              rw (e, pubsub_publish)
                (elim (Option-cases (find_topic name s.topics)) [
                  | inl f ↦ rw f (returned items others PubsubErr.topic_not_found s o)
                  | inr (t, f) ↦ rw f (publish_to-Returns s name t bytes _ f l refl o)
                ])
        ]

  -- A round of the task of a topic that is there returns, and leaves each pointer with its holder.
  pub topic_task-Returns :
      (s : PubSub Q) (name : List ℕ) (t : Topic Q)
      → find_topic name s.topics ≡ some t
      → Owns items others s
      → Returns items others (topic_task api s name)
  unfolding topic_task deliver set_queue
  topic_task-Returns s name t f o =
      rw (f, topic_task)
        (elim (Option-cases (api.receive t.msg_queue)) [
          | inl e ↦ rw (e, deliver) (returned items others [] s o)
          | inr ((m, q), e) ↦ rw (e, deliver) (taken m q e)
        ])
    where
      one :
          (m : Msg) (q : Q)
          → api.receive t.msg_queue ≡ some (m, q)
          → Perm (own items t) (carried m.msg_data ++ own items (record t { msg_queue = q }))
      one m q e =
          rw (law.received t.msg_queue q m e)
            (swap_front (map node_of t.subscribers) (carried m.msg_data) (pointers (items q)))

      taken :
          (m : Msg) (q : Q)
          → api.receive t.msg_queue ≡ some (m, q)
          → Returns items others (
              Option.map
                (λ pool. (
                  map {A = Subscriber} {B = ℕ × ℕ × Msg}
                      (λ x. (x.callback, x.user_data, m))
                      t.subscribers,
                  record s { topics = update_topic name (set_queue q) s.topics; pool = pool },
                ))
                (memory_pool_free s.pool (data_pointer m.msg_data)))
      taken m q e =
          let fewer =
            update_topic-perm items name (set_queue q) s.topics t [] (carried m.msg_data) f
              (one m q e) in
          let rest = owned items (update_topic name (set_queue q) s.topics) in
          let (p, g, v, h) = freed_data items others s.pool m.msg_data (rest ++ others) o.valid (
            rw (← append_assoc (carried m.msg_data) rest others)
              (Perm.trans (Perm.symm (Perm.append_right others fewer)) o.held)) in
          rw g (returned items others _ _ (record { valid = v; held = h }))
