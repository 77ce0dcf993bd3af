-- ===== src/PubSub/Abstract/Subscribers.antt =====
-- New topics and changes of the readers, in the view of the callers.
use cursor_embed_cus_mqtt_su.Base.{
  ℕ, ◌-◌, ◌<◌, ◌≡◌, ◌⊎◌, refl, sym, ap, subst, ◌∙◌, arith, inl, inr, Bool, true, false, List, [],
  ◌∷◌, ◌++◌, map, Option, none, some, length, take, leb, if◌then◌else◌, Bool-cases, Option-cases,
}
use mathlib.Core.Option
use cursor_embed_cus_mqtt_su.MemPool.{MemPool, memory_pool_alloc, memory_pool_free}
use cursor_embed_cus_mqtt_su.PubSub.{
  PubsubErr, Msg, Topic, PubSub, QueueApi, max_name, max_topics, max_subscribers_per_topic,
  subscriber_size, same_name, find_topic, update_topic, find_subscriber, new_topic,
  pubsub_create_topic, push_subscriber, add_subscriber, subscribe_to, pubsub_subscribe,
  drop_subscriber, unsubscribe_from, pubsub_unsubscribe,
}
use cursor_embed_cus_mqtt_su.PubSub.Invariant.{take_short}
use cursor_embed_cus_mqtt_su.PubSub.Publish.{IsQueue}
use cursor_embed_cus_mqtt_su.PubSub.Run.{create, subscribe, unsubscribe}
use cursor_embed_cus_mqtt_su.PubSub.Abstract.{
  content, Same, Written, same_name_sound, reader-remove, entry, view, view-Written, Refines,
  RefinesAll, view-Same,
}

module _ {Q : Type 0} (items : Q → List Msg) where
  added :
      (s : PubSub Q) (name : List ℕ) (f user : ℕ) (t : Topic Q) (got : Option ℕ × MemPool)
      → find_topic name s.topics ≡ some t
      → Refines items (subscribe (some name) (some f) user) s (add_subscriber s name f user got).1
  unfolding add_subscriber push_subscriber
  added s name f user t (none, pool) e = inl (λ n. refl)
  added s name f user t (some node, pool) e = inr (
    (entry items t),
    ap (Option.map (entry items)) e,
    view-Written items s pool name
        (push_subscriber (record { callback = f; user_data = user; node = node })) t (λ u. refl) e,
  )

  subscribe_to-Refines :
      (s : PubSub Q) (name : List ℕ) (f user : ℕ) (t : Topic Q)
      → find_topic name s.topics ≡ some t
      → Refines items (subscribe (some name) (some f) user) s (subscribe_to s name f user t).1
  unfolding subscribe_to
  subscribe_to-Refines s name f user t e = elim (Option-cases (find_subscriber f t.subscribers)) [
    | inr (x, g) ↦ rw (g, subscribe_to) (inl (view-Same items s))
    | inl g ↦
        rw (g, subscribe_to)
          (elim (Bool-cases (leb max_subscribers_per_topic t.subscriber_count)) [
            | inl l ↦ rw l (inl (view-Same items s))
            | inr l ↦ rw l (added s name f user t (memory_pool_alloc s.pool subscriber_size) e)
          ])
  ]

  pub subscribe-Refines :
      (s : PubSub Q) (name : Option (List ℕ)) (callback : Option ℕ) (user : ℕ)
      → Refines items (subscribe name callback user) s (pubsub_subscribe s name callback user).1
  unfolding pubsub_subscribe
  subscribe-Refines s none callback user = inl (view-Same items s)
  subscribe-Refines s (some name) none user = inl (view-Same items s)
  subscribe-Refines s (some name) (some f) user = elim (Option-cases (find_topic name s.topics)) [
    | inl e ↦
        inl
          (subst (λ r. Same (view items s) (view items r.1)) (sym (missing e)) (view-Same items s))
    | inr (t, e) ↦
        subst (λ r. Refines items (subscribe (some name) (some f) user) s r.1) (sym (there t e))
          (subscribe_to-Refines s name f user t e)
  ]
    where
      missing :
          find_topic name s.topics ≡ none
          → pubsub_subscribe s (some name) (some f) user ≡ (PubsubErr.topic_not_found, s)
      missing e = rw (e, pubsub_subscribe) refl

      there :
          (t : Topic Q)
          → find_topic name s.topics ≡ some t
          → pubsub_subscribe s (some name) (some f) user ≡ subscribe_to s name f user t
      there t e = rw (e, pubsub_subscribe) refl

  pub unsubscribe-Refines :
      (s : PubSub Q) (name : Option (List ℕ)) (callback : Option ℕ)
      → RefinesAll items (unsubscribe name callback) s (pubsub_unsubscribe s name callback)
  unfolding pubsub_unsubscribe unsubscribe_from drop_subscriber
  unsubscribe-Refines s none callback = inl (view-Same items s)
  unsubscribe-Refines s (some name) none = inl (view-Same items s)
  unsubscribe-Refines s (some name) (some f) = elim (Option-cases (find_topic name s.topics)) [
    | inl e ↦ rw (e, pubsub_unsubscribe) (inl (view-Same items s))
    | inr (t, e) ↦
        rw (e, pubsub_unsubscribe)
          (elim (Option-cases (find_subscriber f t.subscribers)) [
            | inl g ↦ rw (g, unsubscribe_from) (inl (view-Same items s))
            | inr (x, g) ↦
                rw (g, unsubscribe_from)
                  (elim (Option-cases (memory_pool_free s.pool (some x.node))) [
                    | inl h ↦ rw h tt
                    | inr (pool, h) ↦ rw h (
                        inr (
                          (entry items t),
                          ap (Option.map (entry items)) e,
                          subst
                              (λ l.
                                Written name (l, map content (items t.msg_queue)) (view items s)
                                  (view items (record {
                                    topics = update_topic name (drop_subscriber f) s.topics;
                                    spare_name = s.spare_name;
                                    pool = pool;
                                  })))
                              (reader-remove f t.subscribers)
                              (view-Written items s pool name (drop_subscriber f) t (λ u. refl) e),
                        ))
                  ])
          ])
  ]

  -- The search in an array that has one more topic.
  find-append :
      (n : List ℕ) (ts : List (Topic Q)) (t : Topic Q)
      → find_topic n (ts ++ (t ∷ [])) ≡ (elim (find_topic n ts) [
        | some u ↦ some u
        | none ↦ if same_name t.name n then some t else none
      ])
  unfolding find_topic
  find-append n [] t = refl
  find-append n (u ∷ ts) t = elim (Bool-cases (same_name u.name n)) [
    | inl e ↦ rw e refl
    | inr e ↦ rw e (find-append n ts t)
  ]

  new-Written :
      (api : QueueApi Q) (law : IsQueue api items) (s : PubSub Q) (name : List ℕ)
      → length name < max_name
      → find_topic name s.topics ≡ none
      → Written name
          ([], [])
          (view items s)
          (view items
            (record s { topics = s.topics ++ (new_topic api name ∷ []); spare_name = [] }))
  unfolding new_topic
  new-Written api law s name l e n =
      ap (Option.map (entry items)) (find-append n s.topics (new_topic api name))
      ∙ elim (Bool-cases (same_name name n)) [
        | inl h ↦
            let whole : same_name (take (max_name - 1) name) n ≡ true =
              ap (λ k. same_name k n) (take_short (max_name - 1) name (omega arith)) ∙ h in
            let gone : find_topic n s.topics ≡ none =
              subst (λ k. find_topic k s.topics ≡ none) (same_name_sound name n h) e in
            rw (gone, h) (rw whole (rw law.empty refl))
        | inr h ↦
            let other : same_name (take (max_name - 1) name) n ≡ false =
              ap (λ k. same_name k n) (take_short (max_name - 1) name (omega arith)) ∙ h in
            elim (Option-cases (find_topic n s.topics)) [
              | inl f ↦ rw (f, h) (rw other refl)
              | inr (u, f) ↦ rw (f, h) refl
            ]
      ]

  create_cases :
      (api : QueueApi Q) (s : PubSub Q) (queue lock task : Bool) (name : List ℕ)
      → (((pubsub_create_topic api s queue lock task (some name)).1.topics) ≡ s.topics)
        ⊎ ((length name < max_name)
            × (find_topic name s.topics ≡ none)
            × ((pubsub_create_topic api s queue lock task (some name)).1
                ≡ record s { topics = s.topics ++ (new_topic api name ∷ []); spare_name = [] }))
  unfolding pubsub_create_topic
  create_cases api s queue lock task name = elim (Bool-cases (leb max_name (length name))) [
    | inl e ↦ rw e (inl refl)
    | inr e ↦ rw e (elim (Option-cases (find_topic name s.topics)) [
      | inr (t, f) ↦ rw (f, pubsub_create_topic) (inl refl)
      | inl f ↦
          rw (f, pubsub_create_topic)
            (elim (Bool-cases (leb max_topics (length s.topics))) [
              | inl g ↦ rw g (inl refl)
              | inr g ↦ rw g (elim (Bool-cases queue) [
                | inr h ↦ rw h (inl refl)
                | inl h ↦ rw h (elim (Bool-cases lock) [
                  | inr i ↦ rw i (inl refl)
                  | inl i ↦ rw i (elim (Bool-cases task) [
                    | inr k ↦ rw k (inl refl)
                    | inl k ↦ rw k (inr (ground (arith, e), refl, refl))
                  ])
                ])
              ])
            ])
    ])
  ]

  pub create-Refines :
      (api : QueueApi Q) (law : IsQueue api items) (s : PubSub Q) (queue lock task : Bool)
      (name : Option (List ℕ))
      → Refines items
          (create queue lock task name)
          s
          (pubsub_create_topic api s queue lock task name).1
  unfolding pubsub_create_topic
  create-Refines api law s queue lock task none = inl (view-Same items s)
  create-Refines api law s queue lock task (some name) =
      elim (create_cases api s queue lock task name) [
        | inl e ↦ inl (λ n. ap (λ ts. Option.map (entry items) (find_topic n ts)) e)
        | inr (l, f, e) ↦ inr (
          ap (Option.map (entry items)) f,
          subst (λ r. Written name ([], []) (view items s) (view items r)) (sym e)
              (new-Written api law s name l f),
        )
      ]
