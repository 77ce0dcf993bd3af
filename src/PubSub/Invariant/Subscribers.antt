-- ===== src/PubSub/Invariant/Subscribers.antt =====
-- Subscribing and unsubscribing keep the invariant of the topics.
use cursor_embed_cus_mqtt_su.Base.{
  ℕ, ◌<◌, ◌≡◌, sym, subst, ◌∙◌, inl, inr, refl, arith, List, Option, none, some, leb, Bool-cases,
  Option-cases,
}
use cursor_embed_cus_mqtt_su.MemPool.{MemPool, memory_pool_alloc, memory_pool_free}
use cursor_embed_cus_mqtt_su.PubSub.{
  Subscriber, Topic, PubSub, max_subscribers_per_topic, subscriber_size, find_topic,
  find_subscriber, push_subscriber, add_subscriber, subscribe_to, pubsub_subscribe, drop_subscriber,
  unsubscribe_from, pubsub_unsubscribe,
}
use cursor_embed_cus_mqtt_su.PubSub.Topics.{
  length-remove_subscriber, DistinctCallbacks-remove_subscriber,
}
use cursor_embed_cus_mqtt_su.PubSub.Invariant.{
  IsTopic, IsWellFormed, Kept, Kept-map, below, update-IsWellFormed, pool-IsWellFormed,
}

module _ {Q : Type 0} where
  push-IsTopic :
      (x : Subscriber) (t : Topic Q)
      → find_subscriber x.callback t.subscribers ≡ none
      → t.subscriber_count < max_subscribers_per_topic
      → IsTopic t
      → IsTopic (push_subscriber x t)
  unfolding push_subscriber
  push-IsTopic x t h l i = record {
    named = i.named;
    counted = omega (arith, i.counted);
    limited = omega arith;
    distinct = (h, i.distinct);
  }

  drop-IsTopic :
      (c : ℕ) (x : Subscriber) (t : Topic Q)
      → find_subscriber c t.subscribers ≡ some x
      → IsTopic t
      → IsTopic (drop_subscriber c t)
  unfolding drop_subscriber
  drop-IsTopic c x t h i = record {
    named = i.named;
    counted = omega (arith, i.counted, i.limited, length-remove_subscriber c t.subscribers x h);
    limited = omega (arith, i.counted, i.limited, length-remove_subscriber c t.subscribers x h);
    distinct = DistinctCallbacks-remove_subscriber c t.subscribers i.distinct;
  }

  same_topic : (a b : Topic Q) → ◌≡◌ {A = Option (Topic Q)} (some a) (some b) → a ≡ b
  same_topic a b e = cc

  add_subscriber-IsWellFormed :
      (s : PubSub Q) (name : List ℕ) (c user : ℕ) (t : Topic Q) (got : Option ℕ × MemPool)
      → find_topic name s.topics ≡ some t
      → find_subscriber c t.subscribers ≡ none
      → t.subscriber_count < max_subscribers_per_topic
      → IsWellFormed s
      → IsWellFormed (add_subscriber s name c user got).1
  unfolding add_subscriber push_subscriber
  add_subscriber-IsWellFormed s name c user t (none, pool) f h l w = pool-IsWellFormed s pool w
  add_subscriber-IsWellFormed s name c user t (some node, pool) f h l w =
      let x : Subscriber = record { callback = c; user_data = user; node = node } in
      update-IsWellFormed s pool name (push_subscriber x) (λ u. refl)
        (λ u g i.
          let e : t ≡ u = same_topic t u (sym f ∙ g) in
          push-IsTopic x u (subst (λ v. find_subscriber c v.subscribers ≡ none) e h)
            (subst (λ v. v.subscriber_count < max_subscribers_per_topic) e l) i)
        w

  -- `pubsub_subscribe` keeps the invariant of the topics, whatever it returns.
  pub subscribe-IsWellFormed :
      (s : PubSub Q) (name : Option (List ℕ)) (callback : Option ℕ) (user : ℕ)
      → IsWellFormed s
      → IsWellFormed (pubsub_subscribe s name callback user).1
  unfolding pubsub_subscribe subscribe_to
  subscribe-IsWellFormed s none callback user w = w
  subscribe-IsWellFormed s (some name) none user w = w
  subscribe-IsWellFormed s (some name) (some c) user w =
      elim (Option-cases (find_topic name s.topics)) [
        | inl f ↦ rw (f, pubsub_subscribe) w
        | inr (t, f) ↦
            rw (f, pubsub_subscribe)
              (elim (Option-cases (find_subscriber c t.subscribers)) [
                | inr (x, g) ↦ rw (g, subscribe_to) w
                | inl g ↦
                    rw (g, subscribe_to)
                      (elim (Bool-cases (leb max_subscribers_per_topic t.subscriber_count)) [
                        | inl h ↦ rw h w
                        | inr h ↦ rw h (
                            add_subscriber-IsWellFormed s name c user t
                              (memory_pool_alloc s.pool subscriber_size) f g
                              (below max_subscribers_per_topic t.subscriber_count h) w)
                      ])
              ])
      ]

  -- `pubsub_unsubscribe` keeps the invariant of the topics, whatever it returns, if the node that it frees
  -- is of the pool.
  pub unsubscribe-IsWellFormed :
      (s : PubSub Q) (name : Option (List ℕ)) (callback : Option ℕ)
      → IsWellFormed s
      → Kept (pubsub_unsubscribe s name callback)
  unfolding pubsub_unsubscribe unsubscribe_from drop_subscriber
  unsubscribe-IsWellFormed s none callback w = w
  unsubscribe-IsWellFormed s (some name) none w = w
  unsubscribe-IsWellFormed s (some name) (some c) w =
      elim (Option-cases (find_topic name s.topics)) [
        | inl f ↦ rw (f, Kept) w
        | inr (t, f) ↦
            rw (f, Kept)
              (elim (Option-cases (find_subscriber c t.subscribers)) [
                | inl g ↦ rw (g, Kept) w
                | inr (x, g) ↦
                    rw (g, Kept)
                      (Kept-map _ (memory_pool_free s.pool (some x.node)) (λ pool.
                        update-IsWellFormed s pool name (drop_subscriber c) (λ u. refl)
                          (λ u k i.
                            drop-IsTopic c x u
                              (subst (λ v. find_subscriber c v.subscribers ≡ some x)
                                (same_topic t u (sym f ∙ k)) g)
                              i)
                          w))
              ])
      ]
