-- ===== src/TopicAdvanced/Slots.antt =====
-- The slot of a topic, from its creation to its statistics.
use cursor_embed_cus_mqtt_su.Base.{
  ℕ, zero, suc, ◌+◌, ◌<◌, ◌≡◌, refl, ap, ◌∙◌, arith, inl, inr, Bool, true, false, List, [], ◌∷◌,
  ◌++◌, Option, none, some, length, set, get_elem?, lt→ltb, All, Bool-cases, if◌then◌else◌,
}
use cursor_embed_cus_mqtt_su.PubSub.{
  PubsubErr, Topic, QueueApi, max_topics, max_name, same_name, find_topic, new_topic,
}
use cursor_embed_cus_mqtt_su.PubSub.Topics.{same_name_refl}
use cursor_embed_cus_mqtt_su.PubSub.Created.{new_topic_named, create_done}
use cursor_embed_cus_mqtt_su.PubSub.Abstract.{same_name_sound}
use cursor_embed_cus_mqtt_su.TopicAdvanced.{
  Config, Advanced, Manager, told, zero_stats, topic_matches_filter, slot_from, slot_of, free_slot,
  create_in, topic_create_with_config, topic_get_stats,
}

get_elem?-set :
    {A : Type 0} (xs : List A) (i : ℕ) (a : A) → i < length xs → get_elem? (set xs i a) i ≡ some a
get_elem?-set [] i a h = absurd (omega arith)
get_elem?-set (x ∷ xs) zero a h = refl
get_elem?-set (x ∷ xs) (suc i) a h = get_elem?-set xs i a (omega arith)

get_elem?-set_next :
    {A : Type 0} (xs : List A) (i : ℕ) (a : A) → get_elem? (set xs (suc i) a) i ≡ get_elem? xs i
get_elem?-set_next [] i a = refl
get_elem?-set_next (x ∷ xs) zero a = refl
get_elem?-set_next (x ∷ xs) (suc i) a = get_elem?-set_next xs i a

module _ {Q : Type 0} where
  -- A topic with a name.
  abbrev pub IsNamed : Topic Q → Type 0
  IsNamed t = same_name t.name [] ≡ false

  slot_free :
      (i : ℕ) (ts : List (Topic Q))
      → All IsNamed ts
      → i + length ts < max_topics
      → slot_from i [] [] ts ≡ some (i + length ts)
  unfolding slot_from
  slot_free i [] n h =
      rw (same_name_refl [], lt→ltb i max_topics (omega arith)) (ap some (omega arith))
  slot_free i (t ∷ ts) (n, ns) h =
      rw (n, slot_free (i + 1) ts ns (omega arith)) (ap some (omega arith))

  slot_behind :
      (i : ℕ) (spare : List ℕ) (ts : List (Topic Q))
      → same_name spare [] ≡ false
      → All IsNamed ts
      → i + length ts + 1 < max_topics
      → slot_from i [] spare ts ≡ some (i + length ts + 1)
  unfolding slot_from
  slot_behind i spare [] e n h =
      rw
        (
          e,
          same_name_refl [],
          lt→ltb i max_topics (omega arith),
          lt→ltb (i + 1) max_topics (omega arith),
        )
        (ap some (omega arith))
  slot_behind i spare (t ∷ ts) e (n, ns) h =
      rw (n, slot_behind (i + 1) spare ts e ns (omega arith)) (ap some (omega arith))

  slot_new :
      (i : ℕ) (name spare : List ℕ) (ts : List (Topic Q)) (t : Topic Q)
      → find_topic name ts ≡ none
      → same_name t.name name ≡ true
      → slot_from i name spare (ts ++ (t ∷ [])) ≡ some (i + length ts)
  unfolding slot_from find_topic
  slot_new i name spare [] t f h = rw h (ap some (omega arith))
  slot_new i name spare (u ∷ ts) t f h = elim (Bool-cases (same_name u.name name)) [
    | inl e ↦ absurd (ground (arith, f, e))
    | inr e ↦ rw (e, slot_new (i + 1) name spare ts t (rw e at f) h) (ap some (omega arith))
  ]

module _ {Q : Type 0} (api : QueueApi Q) (regcomp : List ℕ → Option (List ℕ → Bool)) (now : ℕ)
    (m : Manager Q) (name : List ℕ) (config : Config) where
  -- The manager behind a creation whose data went to a slot.
  abbrev made_at : ℕ → Manager Q
  made_at slot = record m {
    slots = set m.slots slot (record { config = config; stats = zero_stats now });
    core = record m.core { topics = m.core.topics ++ (new_topic api name ∷ []); spare_name = [] };
  }

  slot_of_made :
      (slot : ℕ)
      → length name < max_name
      → find_topic name m.core.topics ≡ none
      → slot_of name (made_at slot).core ≡ some (length m.core.topics)
  unfolding slot_of
  slot_of_made slot fits new =
      slot_new 0 name [] m.core.topics (new_topic api name) new (new_topic_named api name fits)
      ∙ ap some (omega arith)

  creates_at :
      (slot : ℕ)
      → free_slot m.core ≡ some slot
      → topic_matches_filter regcomp m.current_filter name ≡ true
      → length name < max_name
      → length m.core.topics < max_topics
      → find_topic name m.core.topics ≡ none
      → topic_create_with_config api regcomp now m true true true (some name) (some config)
        ≡ (told PubsubErr.ok, made_at slot)
  unfolding topic_create_with_config create_in
  creates_at slot free pass fits room new = rw pass (
      rw (free, topic_create_with_config)
        (rw (create_done api name fits m.core room new, create_in) refl))

  stats_at :
      (slot : ℕ) (a : Advanced)
      → length name < max_name
      → find_topic name m.core.topics ≡ none
      → get_elem? (made_at slot).slots (length m.core.topics) ≡ some a
      → topic_get_stats (made_at slot) (some name) true ≡ (none, some a.stats)
  unfolding topic_get_stats
  stats_at slot a fits new held = rw (slot_of_made slot fits new, topic_get_stats) (rw held refl)

-- With no name left by a creation that failed, the slot is that of the topic.
create_clean :
    {Q : Type 0} (api : QueueApi Q) (regcomp : List ℕ → Option (List ℕ → Bool)) (now : ℕ)
    (m : Manager Q) (name : List ℕ) (config : Config)
    → topic_matches_filter regcomp m.current_filter name ≡ true
    → length name < max_name
    → length m.slots ≡ max_topics
    → length m.core.topics < max_topics
    → All IsNamed m.core.topics
    → m.core.spare_name ≡ []
    → find_topic name m.core.topics ≡ none
    → (r : Manager Q) × (topic_create_with_config api regcomp now m true true true
          (some name)
          (some config)
        ≡ (told PubsubErr.ok, r))
      × (topic_get_stats r (some name) true ≡ (none, some (zero_stats now)))
      × (get_elem? r.slots (length m.core.topics)
          ≡ some (record { config = config; stats = zero_stats now }))
unfolding free_slot slot_of
create_clean api regcomp now m name config pass fits whole room named clean new =
    let a : Advanced = record { config = config; stats = zero_stats now } in
    let n = length m.core.topics in
    let free : free_slot m.core ≡ some n =
      ap (λ k. slot_from 0 [] k m.core.topics) clean
      ∙ slot_free 0 m.core.topics named (omega arith)
      ∙ ap some (omega arith) in
    let held = get_elem?-set m.slots n a (omega arith) in
    (
      made_at api regcomp now m name config n,
      creates_at api regcomp now m name config n free pass fits room new,
      stats_at api regcomp now m name config n a fits new held,
      held,
    )

-- With such a name, it is the one behind.
create_misses_slot :
    {Q : Type 0} (api : QueueApi Q) (regcomp : List ℕ → Option (List ℕ → Bool)) (now : ℕ)
    (m : Manager Q) (name : List ℕ) (config : Config) (old : Advanced)
    → topic_matches_filter regcomp m.current_filter name ≡ true
    → length name < max_name
    → length m.slots ≡ max_topics
    → length m.core.topics + 1 < max_topics
    → All IsNamed m.core.topics
    → same_name m.core.spare_name [] ≡ false
    → find_topic name m.core.topics ≡ none
    → get_elem? m.slots (length m.core.topics) ≡ some old
    → (r : Manager Q) × (topic_create_with_config api regcomp now m true true true
          (some name)
          (some config)
        ≡ (told PubsubErr.ok, r))
      × (topic_get_stats r (some name) true ≡ (none, some old.stats))
      × (get_elem? r.slots (length m.core.topics + 1)
          ≡ some (record { config = config; stats = zero_stats now }))
unfolding free_slot slot_of
create_misses_slot api regcomp now m name config old pass fits whole room named left new had =
    let a : Advanced = record { config = config; stats = zero_stats now } in
    let n = length m.core.topics in
    let free : free_slot m.core ≡ some (suc n) =
      slot_behind 0 m.core.spare_name m.core.topics left named (omega arith)
      ∙ ap some (omega arith) in
    (
      made_at api regcomp now m name config (suc n),
      creates_at api regcomp now m name config (suc n) free pass fits (omega arith) new,
      stats_at api regcomp now m name config (suc n) old fits new
          (get_elem?-set_next m.slots n a ∙ had),
      ap (λ k. get_elem? (set m.slots (suc n) a) k) (omega arith)
          ∙ get_elem?-set m.slots (suc n) a (omega arith),
    )

-- With resources and room for two, a name that the filter lets pass, that fits and is new
-- gets its topic. If no creation that failed has left a name in the slot behind the topics,
-- `topic_get_stats` then finds statistics that are zero but for the time of the creation, and the
-- topic's slot has the configuration. If one has, the configuration and the statistics go to the slot
-- behind that of the topic, and `topic_get_stats` gives what the topic's slot held before. The topics
-- that are there have names that are not empty.
pub create_then_stats :
    {Q : Type 0} (api : QueueApi Q) (regcomp : List ℕ → Option (List ℕ → Bool)) (now : ℕ)
    (m : Manager Q) (name : List ℕ) (config : Config) (old : Advanced)
    → topic_matches_filter regcomp m.current_filter name ≡ true
    → length name < max_name
    → length m.slots ≡ max_topics
    → length m.core.topics + 1 < max_topics
    → All IsNamed m.core.topics
    → find_topic name m.core.topics ≡ none
    → get_elem? m.slots (length m.core.topics) ≡ some old
    → let clean = same_name m.core.spare_name [] in
      (r : Manager Q) × (topic_create_with_config api regcomp now m true true true
          (some name)
          (some config)
        ≡ (told PubsubErr.ok, r))
      × (topic_get_stats r (some name) true
          ≡ (none, some (if clean then zero_stats now else old.stats)))
      × (get_elem? r.slots (length m.core.topics + (if clean then 0 else 1))
          ≡ some (record { config = config; stats = zero_stats now }))
create_then_stats api regcomp now m name config old pass fits whole room named new had =
    elim (Bool-cases (same_name m.core.spare_name [])) [
      | inl e ↦
          let (r, made, stats, held) =
            create_clean api regcomp now m name config pass fits whole (omega arith) named
              (same_name_sound m.core.spare_name [] e) new in
          rw e (r, made, stats, ap (λ k. get_elem? r.slots k) (omega arith) ∙ held)
      | inr e ↦ rw e (
          create_misses_slot api regcomp now m name config old pass fits whole room named e new had)
    ]
