-- ===== src/PubSub/Subscribe.antt =====
-- Subscribing, and what unsubscribing or subscribing again does afterwards.
use cursor_embed_cus_mqtt_su.Base.{ℕ, ◌<◌, ◌≡◌, refl, arith, List, ◌∷◌, none, some, leb-false}
use cursor_embed_cus_mqtt_su.MemPool.{MemPool, memory_pool_alloc}
use cursor_embed_cus_mqtt_su.MemPool.Alloc.{IsValid}
use cursor_embed_cus_mqtt_su.MemPool.Merge.{IsMerged}
use cursor_embed_cus_mqtt_su.MemPool.Undo.{alloc_then_free}
use cursor_embed_cus_mqtt_su.PubSub.{
  PubsubErr, Subscriber, Topic, PubSub, max_subscribers_per_topic, subscriber_size, find_topic,
  update_topic, find_subscriber, push_subscriber, add_subscriber, subscribe_to, pubsub_subscribe,
  remove_subscriber, drop_subscriber, unsubscribe_from, pubsub_unsubscribe,
}
use cursor_embed_cus_mqtt_su.PubSub.Topics.{find_topic-written, update_topic-undone}

abbrev pub entry : ℕ → ℕ → ℕ → Subscriber
entry c user node = record { callback = c; user_data = user; node = node }

find_head :
    (c user node : ℕ) (xs : List Subscriber)
    → find_subscriber c (entry c user node ∷ xs) ≡ some (entry c user node)
unfolding find_subscriber
find_head c user node xs = ground arith

module _ {Q : Type 0} where
  drop-push :
      (c user node : ℕ) (t : Topic Q)
      → t.subscriber_count < max_subscribers_per_topic
      → drop_subscriber c (push_subscriber (entry c user node) t) ≡ t
  unfolding drop_subscriber push_subscriber remove_subscriber
  drop-push c user node t h = ground arith

  module _ (s : PubSub Q) (name : List ℕ) (c user node : ℕ) (t : Topic Q) (pool : MemPool)
      (found : find_topic name s.topics ≡ some t) (fresh : find_subscriber c t.subscribers ≡ none)
      (room : t.subscriber_count < max_subscribers_per_topic)
      (got : memory_pool_alloc s.pool subscriber_size ≡ (some node, pool)) where
    abbrev subscribed : PubSub Q
    subscribed = record {
      topics = update_topic name (push_subscriber (entry c user node)) s.topics;
      spare_name = s.spare_name;
      pool = pool;
    }

    subscribes : pubsub_subscribe s (some name) (some c) user ≡ (PubsubErr.ok, subscribed)
    unfolding pubsub_subscribe subscribe_to add_subscriber
    subscribes =
        rw (found, pubsub_subscribe)
          (rw (fresh, subscribe_to)
            (rw (leb-false max_subscribers_per_topic t.subscriber_count room, got) refl))

    found_after : find_topic name subscribed.topics ≡ some (push_subscriber (entry c user node) t)
    unfolding push_subscriber
    found_after =
        find_topic-written name (push_subscriber (entry c user node)) s.topics t (λ u. refl) found

    -- On a topic with room where the callback is not subscribed, with memory for a node,
    -- `pubsub_subscribe` succeeds, and `pubsub_unsubscribe` then succeeds and brings back every topic
    -- with its subscribers and count, and the blocks and bytes in use of a valid merged pool.
    pub subscribe_then_unsubscribe :
        IsValid s.pool
        → IsMerged s.pool.blocks
        → (r : PubSub Q) × (pubsub_subscribe s (some name) (some c) user ≡ (PubsubErr.ok, r))
          × (u : PubSub Q) × (pubsub_unsubscribe r (some name) (some c) ≡ some (PubsubErr.ok, u))
          × (u.topics ≡ s.topics)
          × (u.pool.blocks ≡ s.pool.blocks)
          × (u.pool.used_size ≡ s.pool.used_size)
    unfolding pubsub_unsubscribe unsubscribe_from push_subscriber
    subscribe_then_unsubscribe v m =
        let (after, back, b, used) = alloc_then_free s.pool pool subscriber_size node v m got in
        (
          subscribed,
          subscribes,
          record {
            topics = update_topic name (drop_subscriber c) subscribed.topics;
            spare_name = s.spare_name;
            pool = after;
          },
          rw (found_after, pubsub_unsubscribe)
              (rw (find_head c user node t.subscribers, unsubscribe_from) (rw back refl)),
          update_topic-undone name (push_subscriber (entry c user node)) (drop_subscriber c)
              s.topics t (λ u. refl) found (drop-push c user node t room),
          b,
          used,
        )

    -- After a subscription, the same callback is refused on that topic, whatever its user data, and
    -- the refusal changes nothing.
    pub subscribe_twice :
        (other : ℕ)
        → (r : PubSub Q) × (pubsub_subscribe s (some name) (some c) user ≡ (PubsubErr.ok, r))
          × (pubsub_subscribe r (some name) (some c) other ≡ (PubsubErr.invalid_param, r))
    unfolding pubsub_subscribe subscribe_to push_subscriber
    subscribe_twice other = (
      subscribed,
      subscribes,
      rw (found_after, pubsub_subscribe)
          (rw (find_head c user node t.subscribers, subscribe_to) refl),
    )
