-- ===== src/PubSub/Invariant.antt =====
-- The invariant of the topics, and that creating a topic keeps it.
pub mod Subscribers
pub mod Messages
use cursor_embed_cus_mqtt_su.Base.{
  ℕ, zero, suc, ap, ◌-◌, ◌≤◌, ◌<◌, ◌≡◌, sym, subst, ◌∙◌, inl, inr, refl, arith, Bool, true, false,
  not, ◌&&◌, List, [], ◌∷◌, ◌++◌, Option, none, some, length, length-append, take, All, All-append,
  ltb, leb, Bool-cases, Option-cases, if◌then◌else◌,
}
use cursor_embed_cus_mqtt_su.MemPool.{MemPool, memory_pool_alloc, memory_pool_free}
use cursor_embed_cus_mqtt_su.PubSub.{
  PubsubErr, no_memory, MsgPriority, Msg, Subscriber, Topic, PubSub, QueueApi, max_topics, max_name,
  max_subscribers_per_topic, subscriber_size, find_topic, update_topic, new_topic,
  pubsub_create_topic, find_subscriber, push_subscriber, add_subscriber, subscribe_to,
  pubsub_subscribe, drop_subscriber, unsubscribe_from, pubsub_unsubscribe, set_queue,
  send_by_priority, data_pointer, enqueue, copy_and_send, publish_to, pubsub_publish, deliver,
  topic_task,
}
use cursor_embed_cus_mqtt_su.PubSub.Topics.{
  DistinctCallbacks, DistinctNames, length-update_topic, DistinctNames-update_topic,
  All-update_topic, DistinctNames-append, length-remove_subscriber,
  DistinctCallbacks-remove_subscriber,
}
use mathlib.Core.Option

-- The count is that of the list, within its limit; no callback is in the list twice; the name is a
-- C string that fits its array.
pub record IsTopic {Q : Type 0} (t : Topic Q) : Type 0 where
  pub named : length t.name < max_name
  pub counted : t.subscriber_count ≡ length t.subscribers
  pub limited : t.subscriber_count ≤ max_subscribers_per_topic
  pub distinct : DistinctCallbacks t.subscribers

pub record IsWellFormed {Q : Type 0} (s : PubSub Q) : Type 0 where
  pub fits : length s.topics ≤ max_topics
  pub each : All IsTopic s.topics
  pub names : DistinctNames s.topics

pub take_short : {A : Type 0} (n : ℕ) (xs : List A) → length xs ≤ n → take n xs ≡ xs
take_short zero [] h = refl
take_short zero (x ∷ xs) h = absurd (omega arith)
take_short (suc n) [] h = refl
take_short (suc n) (x ∷ xs) h = ap (λ l. x ∷ l) (take_short n xs (omega arith))

pub below : (a b : ℕ) → leb a b ≡ false → b < a
below a b h = ground arith

module _ {Q : Type 0} where
  -- A write to a topic that keeps its name and its invariant.
  pub update-IsWellFormed :
      (s : PubSub Q) (pool : MemPool) (name : List ℕ) (f : Topic Q → Topic Q)
      → ((t : Topic Q) → (f t).name ≡ t.name)
      → ((t : Topic Q) → find_topic name s.topics ≡ some t → IsTopic t → IsTopic (f t))
      → IsWellFormed s
      → IsWellFormed (record s { topics = update_topic name f s.topics; pool = pool })
  update-IsWellFormed s pool name f k g w = record {
    fits = rw (length-update_topic name f s.topics) w.fits;
    each = All-update_topic IsTopic name f s.topics g w.each;
    names = DistinctNames-update_topic name f s.topics k w.names;
  }

  pub pool-IsWellFormed :
      (s : PubSub Q) (pool : MemPool) → IsWellFormed s → IsWellFormed (record s { pool = pool })
  pool-IsWellFormed s pool w = record { fits = w.fits; each = w.each; names = w.names }

  new_topic-IsTopic :
      (api : QueueApi Q) (name : List ℕ) → length name < max_name → IsTopic (new_topic api name)
  unfolding new_topic
  new_topic-IsTopic api name h = record {
    named = rw (take_short (max_name - 1) name (omega arith)) h;
    counted = refl;
    limited = omega arith;
    distinct = tt;
  }

  added-IsWellFormed :
      (api : QueueApi Q) (s : PubSub Q) (name : List ℕ)
      → length name < max_name
      → find_topic name s.topics ≡ none
      → length s.topics < max_topics
      → IsWellFormed s
      → IsWellFormed (record s { topics = s.topics ++ (new_topic api name ∷ []); spare_name = [] })
  added-IsWellFormed api s name l f h w = record {
    fits = omega (arith, length-append s.topics (new_topic api name ∷ []));
    each =
        All-append IsTopic s.topics (new_topic api name ∷ []) w.each
          (new_topic-IsTopic api name l, tt);
    names = DistinctNames-append s.topics (new_topic api name) (rw named f) w.names;
  }
    where
      named : (new_topic api name).name ≡ name
      named = unfold new_topic in take_short (max_name - 1) name (omega arith)

  -- `pubsub_create_topic` keeps the invariant, whatever the heap gives and whatever it returns: at most
  -- 50 topics with different names, and in each at most 20 subscribers with different callbacks, which
  -- `subscriber_count` counts.
  pub create-IsWellFormed :
      (api : QueueApi Q) (s : PubSub Q) (queue lock task : Bool) (name : Option (List ℕ))
      → IsWellFormed s
      → IsWellFormed (pubsub_create_topic api s queue lock task name).1
  unfolding pubsub_create_topic
  create-IsWellFormed api s queue lock task none w = w
  create-IsWellFormed api s queue lock task (some name) w =
      elim (Bool-cases (leb max_name (length name))) [
        | inl e ↦ rw e w
        | inr e ↦ rw e (elim (Option-cases (find_topic name s.topics)) [
          | inr (t, f) ↦ rw f w
          | inl f ↦ rw f (elim (Bool-cases (leb max_topics (length s.topics))) [
            | inl g ↦ rw g w
            | inr g ↦ rw g (
                heap queue lock task (left w) (
                  added-IsWellFormed api s name (below max_name (length name) e) f
                    (below max_topics (length s.topics) g) w))
          ])
        ])
      ]
    where
      left : IsWellFormed s → IsWellFormed (record s { spare_name = take (max_name - 1) name })
      left w = record { fits = w.fits; each = w.each; names = w.names }

      heap :
          (a b c : Bool) {n r : PubSub Q}
          → IsWellFormed n
          → IsWellFormed r
          → IsWellFormed
              (if◌then◌else◌ {A = PubsubErr × PubSub Q}
                (not a)
                (no_memory, n)
                (if not b
                  then (no_memory, n)
                  else (if not c then (no_memory, n) else (PubsubErr.ok, r)))).1
      heap false b c w h = w
      heap true false c w h = w
      heap true true false w h = w
      heap true true true w h = h

  -- What a call that returns leaves satisfies the invariant.
  abbrev pub Kept : {A : Type 0} → Option (A × PubSub Q) → Type 0
  Kept none = Unit
  Kept (some (e, r)) = IsWellFormed r

  pub Kept-map :
      {A : Type 0} (f : MemPool → A × PubSub Q) (o : Option MemPool)
      → ((pool : MemPool) → IsWellFormed (f pool).1)
      → Kept (Option.map f o)
  Kept-map f none h = tt
  Kept-map f (some pool) h = h pool
