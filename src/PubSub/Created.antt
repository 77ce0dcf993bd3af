-- ===== src/PubSub/Created.antt =====
-- A topic that is made: where it stands and under which name.
use cursor_embed_cus_mqtt_su.Base.{
  ℕ, ◌-◌, ◌<◌, ◌≡◌, refl, ap, ◌∙◌, arith, true, List, [], ◌∷◌, ◌++◌, some, none, length, leb-false,
}
use cursor_embed_cus_mqtt_su.PubSub.{
  PubsubErr, PubSub, QueueApi, max_topics, max_name, same_name, find_topic, new_topic,
  pubsub_create_topic,
}
use cursor_embed_cus_mqtt_su.PubSub.Topics.{same_name_refl}
use cursor_embed_cus_mqtt_su.PubSub.Invariant.{take_short}

module _ {Q : Type 0} (api : QueueApi Q) (name : List ℕ) (fits : length name < max_name) where
  pub new_topic_named : same_name (new_topic api name).name name ≡ true
  unfolding new_topic
  new_topic_named =
      ap (λ n. same_name n name) (take_short (max_name - 1) name (omega arith))
      ∙ same_name_refl name

  -- With room and resources, a new name gets a topic behind the others.
  pub create_done :
      (s : PubSub Q)
      → length s.topics < max_topics
      → find_topic name s.topics ≡ none
      → pubsub_create_topic api s true true true (some name) ≡ (
        PubsubErr.ok,
        record s { topics = s.topics ++ (new_topic api name ∷ []); spare_name = [] },
      )
  unfolding pubsub_create_topic
  create_done s k f =
      rw (leb-false max_name (length name) fits)
        (rw (f, pubsub_create_topic) (rw (leb-false max_topics (length s.topics) k) refl))
