-- ===== src/PubSub/Abstract.antt =====
-- What the callers can tell of the core: for each name whether there is a topic, its readers, and the
-- messages that wait, without nodes, pointers and the order of the topics.
pub mod Subscribers
pub mod Messages
pub mod Refine
use cursor_embed_cus_mqtt_su.Base.{
  ℕ, ◌+◌, ◌-◌, ◌≤◌, ◌<◌, ◌≡◌, ◌≢◌, ◌⊎◌, refl, sym, ap, subst, ◌∙◌, arith, inl, inr, Bool, true,
  false, not, ◌&&◌, List, [], ◌∷◌, ◌++◌, map, Option, none, some, length, take, ltb, leb, ltb-false,
  leb→le, ◌==◌, ==_iff, if◌then◌else◌, Bool-cases, Option-cases,
}
use mathlib.Core.Option
use mathlib.Core.List.{map-append}
use cursor_embed_cus_mqtt_su.MemPool.{MemPool, memory_pool_alloc, memory_pool_free}
use cursor_embed_cus_mqtt_su.PubSub.{
  PubsubErr, MsgPriority, low, normal, high, critical, Msg, Subscriber, Topic, PubSub, QueueApi,
  max_name, max_queue, max_topics, max_subscribers_per_topic, subscriber_size, same_name,
  find_topic, update_topic, find_subscriber, remove_subscriber, new_topic, pubsub_create_topic,
  push_subscriber, add_subscriber, subscribe_to, pubsub_subscribe, drop_subscriber,
  unsubscribe_from, pubsub_unsubscribe, set_queue, enqueue, copy_and_send, publish_to,
  pubsub_publish, data_pointer, deliver, topic_task,
}
use cursor_embed_cus_mqtt_su.PubSub.Topics.{same_name_refl, find_topic-written}
use cursor_embed_cus_mqtt_su.PubSub.Invariant.{take_short}
use cursor_embed_cus_mqtt_su.PubSub.Publish.{IsQueue, placed, send_lem, full_lem}
use cursor_embed_cus_mqtt_su.PubSub.Run.{Call, create, subscribe, unsubscribe, publish, round, step}

-- A message as its readers see it: the bytes, if there are any, their number, the priority and the time.
abbrev pub Content : Type 0
Content = Option (List ℕ) × ℕ × MsgPriority × ℕ

-- The readers, each with its data, and the messages that wait.
abbrev pub Entry : Type 0
Entry = List (ℕ × ℕ) × List Content

abbrev pub Broker : Type 0
Broker = List ℕ → Option Entry

abbrev pub bytes_of : Option (ℕ × List ℕ) → Option (List ℕ)
bytes_of none = none
bytes_of (some (ptr, bytes)) = some bytes

abbrev pub content : Msg → Content
content m = (bytes_of m.msg_data, m.data_len, m.priority, m.timestamp)

abbrev pub reader : Subscriber → ℕ × ℕ
reader x = (x.callback, x.user_data)

-- The bytes that a publication hands over.
abbrev pub handed : Option (List ℕ) → ℕ → Option (List ℕ)
handed none n = none
handed (some bytes) n = if ltb 0 n then some (take n bytes) else none

abbrev pub remove_reader : ℕ → List (ℕ × ℕ) → List (ℕ × ℕ)
remove_reader c [] = []
remove_reader c (x ∷ xs) = if x.0 == c then xs else x ∷ remove_reader c xs

-- A message in front if it is critical, and at the back otherwise.
abbrev pub place : MsgPriority → Content → List Content → List Content
place critical m ms = m ∷ ms
place low m ms = ms ++ (m ∷ [])
place normal m ms = ms ++ (m ∷ [])
place high m ms = ms ++ (m ∷ [])

abbrev pub Same : Broker → Broker → Type 0
Same b c = (n : List ℕ) → c n ≡ b n

-- One name has an entry that is new.
abbrev pub Written : List ℕ → Entry → Broker → Broker → Type 0
Written name e b c = (n : List ℕ) → c n ≡ (if same_name name n then some e else b n)

-- What a call does that is not refused.
abbrev pub Moves : Call → Broker → Broker → Type 0
Moves (create queue lock task none) b c = ⊥
Moves (create queue lock task (some name)) b c = (b name ≡ none) × Written name ([], []) b c
Moves (subscribe none callback user) b c = ⊥
Moves (subscribe (some name) none user) b c = ⊥
Moves (subscribe (some name) (some f) user) b c =
    (e : Entry) × (b name ≡ some e) × Written name ((f, user) ∷ e.0, e.1) b c
Moves (unsubscribe none callback) b c = ⊥
Moves (unsubscribe (some name) none) b c = ⊥
Moves (unsubscribe (some name) (some f)) b c =
    (e : Entry) × (b name ≡ some e) × Written name (remove_reader f e.0, e.1) b c
Moves (publish now none bytes data_len priority) b c = ⊥
Moves (publish now (some name) bytes data_len priority) b c =
    (e : Entry) × (b name ≡ some e)
    × Written name (e.0, place priority (handed bytes data_len, data_len, priority, now) e.1) b c
Moves (round name) b c =
    (e : Entry) × (first : Content) × (rest : List Content) × (b name ≡ some e)
    × (e.1 ≡ first ∷ rest)
    × Written name (e.0, rest) b c

pub same_name_sound : (a b : List ℕ) → same_name a b ≡ true → a ≡ b
unfolding same_name
same_name_sound [] [] h = refl
same_name_sound [] (y ∷ ys) h = absurd (ground (arith, h))
same_name_sound (x ∷ xs) [] h = absurd (ground (arith, h))
same_name_sound (x ∷ xs) (y ∷ ys) h = elim (Bool-cases (x == y)) [
  | inl e ↦ rw ((==_iff x y).0 e) (ap (λ l. y ∷ l) (same_name_sound xs ys (rw e at h)))
  | inr e ↦ absurd (ground (arith, h, e))
]

pub reader-remove :
    (c : ℕ) (xs : List Subscriber)
    → map reader (remove_subscriber c xs) ≡ remove_reader c (map reader xs)
unfolding remove_subscriber
reader-remove c [] = refl
reader-remove c (x ∷ xs) = elim (Bool-cases (x.callback == c)) [
  | inl e ↦ rw e refl
  | inr e ↦ rw e (ap (λ l. reader x ∷ l) (reader-remove c xs))
]

pub content-placed :
    (p : MsgPriority) (m : Msg) (ms : List Msg)
    → map content (placed p m ms) ≡ place p (content m) (map content ms)
content-placed critical m ms = refl
content-placed low m ms = map-append content ms (m ∷ [])
content-placed normal m ms = map-append content ms (m ∷ [])
content-placed high m ms = map-append content ms (m ∷ [])

module _ {Q : Type 0} (items : Q → List Msg) where
  abbrev pub entry : Topic Q → Entry
  entry t = (map reader t.subscribers, map content (items t.msg_queue))

  -- The abstract view of a state.
  abbrev pub view : PubSub Q → Broker
  view s n = Option.map entry (find_topic n s.topics)

  find_other :
      (name n : List ℕ) (f : Topic Q → Topic Q) (ts : List (Topic Q))
      → ((u : Topic Q) → (f u).name ≡ u.name)
      → same_name name n ≡ false
      → find_topic n (update_topic name f ts) ≡ find_topic n ts
  unfolding find_topic update_topic
  find_other name n f [] k h = refl
  find_other name n f (u ∷ ts) k h = elim (Bool-cases (same_name u.name name)) [
    | inl e ↦
        let other : same_name u.name n ≡ false = rw (same_name_sound u.name name e) h in
        let other_f : same_name (f u).name n ≡ false = ap (λ l. same_name l n) (k u) ∙ other in
        rw e (rw (other, other_f) refl)
    | inr e ↦ rw e (ap (λ r. if same_name u.name n then some u else r) (find_other name n f ts k h))
  ]

  pub view-Written :
      (s : PubSub Q) (pool : MemPool) (name : List ℕ) (f : Topic Q → Topic Q) (t : Topic Q)
      → ((u : Topic Q) → (f u).name ≡ u.name)
      → find_topic name s.topics ≡ some t
      → Written name (entry (f t)) (view s) (
          view (record {
            topics = update_topic name f s.topics;
            spare_name = s.spare_name;
            pool = pool;
          }))
  view-Written s pool name f t k e n = elim (Bool-cases (same_name name n)) [
    | inl h ↦ rw h (
        ap (Option.map entry) (
          subst (λ m. find_topic m (update_topic name f s.topics) ≡ some (f t))
            (same_name_sound name n h) (find_topic-written name f s.topics t k e)))
    | inr h ↦ rw h (ap (Option.map entry) (find_other name n f s.topics k h))
  ]

  -- A step that is refused, or does what the call is for.
  abbrev pub Refines : Call → PubSub Q → PubSub Q → Type 0
  Refines c s r = Same (view s) (view r) ⊎ Moves c (view s) (view r)

  -- The same of a result, where there is one.
  abbrev pub RefinesAll : {A : Type 0} → Call → PubSub Q → Option (A × PubSub Q) → Type 0
  RefinesAll c s none = Unit
  RefinesAll c s (some (a, r)) = Refines c s r

  pub view-Same : (s : PubSub Q) → Same (view s) (view s)
  view-Same s n = refl
