-- ===== src/PubSub/Owned/Subscribers.antt =====
-- Creating a topic, subscribing and unsubscribing return, and leave each pointer with one holder.
use cursor_embed_cus_mqtt_su.Base.{
  ℕ, ◌-◌, ◌≡◌, refl, inl, inr, Bool, true, false, not, List, [], ◌∷◌, ◌++◌, append-nil, Option,
  none, some, length, take, leb, Bool-cases, Option-cases, if◌then◌else◌,
}
use mathlib.Core.Option
use mathlib.Core.List.{Perm}
use mathlib.Core.List.Perm
use cursor_embed_cus_mqtt_su.MemPool.{MemPool, memory_pool_alloc, memory_pool_free}
use cursor_embed_cus_mqtt_su.MemPool.Alloc.{IsValid}
use cursor_embed_cus_mqtt_su.MemPool.Owned.{out, alloc-out, alloc-none, free-out}
use cursor_embed_cus_mqtt_su.PubSub.{
  PubsubErr, invalid_param, no_memory, Msg, Subscriber, Topic, PubSub, QueueApi, max_topics,
  max_name, max_subscribers_per_topic, subscriber_size, find_topic, update_topic, new_topic,
  pubsub_create_topic, find_subscriber, push_subscriber, add_subscriber, subscribe_to,
  pubsub_subscribe, drop_subscriber, unsubscribe_from, pubsub_unsubscribe, data_pointer,
}
use cursor_embed_cus_mqtt_su.PubSub.Publish.{IsQueue}
use cursor_embed_cus_mqtt_su.PubSub.Owned.{
  carried, pointers, remove_subscriber-perm, owned, owned-append, Owns, update_topic-perm,
}

module _ {Q : Type 0} (items : Q → List Msg) (others : List ℕ) where
  -- A call that returns, with each pointer held once.
  pub record Returns {A : Type 0} (o : Option (A × PubSub Q)) : Type 0 where
    pub value : A
    pub after : PubSub Q
    pub returns : o ≡ some (value, after)
    pub owns : Owns items others after

  pub returned : {A : Type 0} (a : A) (s : PubSub Q) → Owns items others s → Returns (some (a, s))
  returned a s h = record { value = a; after = s; returns = refl; owns = h }

  -- The data of a message, held by the caller, goes back to the pool.
  pub freed_data :
      (pool : MemPool) (carry : Option (ℕ × List ℕ)) (rest : List ℕ)
      → IsValid pool
      → Perm (carried carry ++ rest) (out pool)
      → (q : MemPool) × (memory_pool_free pool (data_pointer carry) ≡ some q)
        × IsValid q
        × Perm rest (out q)
  unfolding data_pointer memory_pool_free
  freed_data pool none rest v h = (pool, refl, v, h)
  freed_data pool (some (ptr, bytes)) rest v h = free-out pool ptr rest v h

  -- `pubsub_create_topic` leaves each pointer with its holder.
  pub create-Owns :
      (api : QueueApi Q) (s : PubSub Q) (queue lock task : Bool) (name : Option (List ℕ))
      → IsQueue api items
      → Owns items others s
      → Owns items others (pubsub_create_topic api s queue lock task name).1
  unfolding pubsub_create_topic new_topic
  create-Owns api s queue lock task none law o = o
  create-Owns api s queue lock task (some name) law o =
      elim (Bool-cases (leb max_name (length name))) [
        | inl e ↦ rw e o
        | inr e ↦ rw e (elim (Option-cases (find_topic name s.topics)) [
          | inr (t, f) ↦ rw (f, pubsub_create_topic) o
          | inl f ↦
              rw (f, pubsub_create_topic)
                (elim (Bool-cases (leb max_topics (length s.topics))) [
                  | inl g ↦ rw g o
                  | inr g ↦ rw g (heap queue lock task)
                ])
        ])
      ]
    where
      left : Owns items others (record s { spare_name = take (max_name - 1) name })
      left = record { valid = o.valid; held = o.held }

      added :
          Owns items others
            (record s { topics = s.topics ++ (new_topic api name ∷ []); spare_name = [] })
      added = record {
        valid = o.valid;
        held =
            rw
              (
                owned-append items s.topics (new_topic api name ∷ []),
                law.empty,
                append-nil (owned items s.topics),
              )
              o.held;
      }

      heap :
          (a b c : Bool)
          → Owns items others
              (if◌then◌else◌ {A = PubsubErr × PubSub Q}
                (not a)
                (no_memory, record s { spare_name = take (max_name - 1) name })
                (if not b
                  then (no_memory, record s { spare_name = take (max_name - 1) name })
                  else (if not c
                      then (no_memory, record s { spare_name = take (max_name - 1) name })
                      else (
                        PubsubErr.ok,
                        record s {
                          topics = s.topics ++ (new_topic api name ∷ []);
                          spare_name = [];
                        },
                      )))).1
      heap false b c = left
      heap true false c = left
      heap true true false = left
      heap true true true = added

  add-Owns :
      (s : PubSub Q) (name : List ℕ) (c user : ℕ) (t : Topic Q) (got : Option ℕ × MemPool)
      → find_topic name s.topics ≡ some t
      → memory_pool_alloc s.pool subscriber_size ≡ got
      → Owns items others s
      → Owns items others (add_subscriber s name c user got).1
  unfolding add_subscriber push_subscriber
  add-Owns s name c user t (none, pool) f e o =
      let same : pool ≡ s.pool = alloc-none s.pool pool subscriber_size o.valid e in
      record { valid = rw same o.valid; held = rw same o.held }
  add-Owns s name c user t (some node, pool) f e o =
      let (v, took) = alloc-out s.pool pool subscriber_size node o.valid e in
      record {
        valid = v;
        held =
            Perm.trans
              (Perm.symm (
                Perm.append_right others (
                  update_topic-perm items name
                    (push_subscriber (record { callback = c; user_data = user; node = node }))
                    s.topics t (node ∷ []) [] f (Perm.refl _))))
              (Perm.trans (Perm.cons node o.held) took);
      }

  -- `pubsub_subscribe` leaves each pointer with its holder.
  pub subscribe-Owns :
      (s : PubSub Q) (name : Option (List ℕ)) (callback : Option ℕ) (user : ℕ)
      → Owns items others s
      → Owns items others (pubsub_subscribe s name callback user).1
  unfolding pubsub_subscribe subscribe_to
  subscribe-Owns s none callback user o = o
  subscribe-Owns s (some name) none user o = o
  subscribe-Owns s (some name) (some c) user o = elim (Option-cases (find_topic name s.topics)) [
    | inl f ↦ rw (f, pubsub_subscribe) o
    | inr (t, f) ↦
        rw (f, pubsub_subscribe)
          (elim (Option-cases (find_subscriber c t.subscribers)) [
            | inr (x, g) ↦ rw (g, subscribe_to) o
            | inl g ↦
                rw (g, subscribe_to)
                  (elim (Bool-cases (leb max_subscribers_per_topic t.subscriber_count)) [
                    | inl h ↦ rw h o
                    | inr h ↦ rw h (
                        add-Owns s name c user t (memory_pool_alloc s.pool subscriber_size) f refl
                          o)
                  ])
          ])
  ]

  -- `pubsub_unsubscribe` returns, and leaves each pointer with its holder.
  pub unsubscribe-Returns :
      (s : PubSub Q) (name : Option (List ℕ)) (callback : Option ℕ)
      → Owns items others s
      → Returns (pubsub_unsubscribe s name callback)
  unfolding pubsub_unsubscribe unsubscribe_from drop_subscriber
  unsubscribe-Returns s none callback o = returned invalid_param s o
  unsubscribe-Returns s (some name) none o = returned invalid_param s o
  unsubscribe-Returns s (some name) (some c) o = elim (Option-cases (find_topic name s.topics)) [
    | inl f ↦ rw (f, pubsub_unsubscribe) (returned PubsubErr.topic_not_found s o)
    | inr (t, f) ↦
        rw (f, pubsub_unsubscribe)
          (elim (Option-cases (find_subscriber c t.subscribers)) [
            | inl g ↦ rw (g, unsubscribe_from) (returned invalid_param s o)
            | inr (x, g) ↦ rw (g, unsubscribe_from) (removed t x f g)
          ])
  ]
    where
      removed :
          (t : Topic Q) (x : Subscriber)
          → find_topic name s.topics ≡ some t
          → find_subscriber c t.subscribers ≡ some x
          → Returns (
              Option.map
                (λ pool. (
                  PubsubErr.ok,
                  record s { topics = update_topic name (drop_subscriber c) s.topics; pool = pool },
                ))
                (memory_pool_free s.pool (some x.node)))
      removed t x f g =
          let fewer =
            update_topic-perm items name (drop_subscriber c) s.topics t [] (x.node ∷ []) f (
              Perm.append_right (pointers (items t.msg_queue))
                (remove_subscriber-perm c t.subscribers x g)) in
          let (q, e, v, h) =
            free-out s.pool x.node
              (owned items (update_topic name (drop_subscriber c) s.topics) ++ others) o.valid
              (Perm.trans (Perm.symm (Perm.append_right others fewer)) o.held) in
          rw e (returned PubsubErr.ok _ (record { valid = v; held = h }))
