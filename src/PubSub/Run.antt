-- ===== src/PubSub/Run.antt =====
-- Any history of calls and of rounds of the topics' tasks, from the start of the program.
use cursor_embed_cus_mqtt_su.Base.{
  ℕ, ◌≡◌, refl, ap, Bool, true, false, List, [], ◌∷◌, append-nil, Option, none, some, All, inl, inr,
  Option-cases, arith,
}
use mathlib.Core.Option
use mathlib.Core.List.{Perm}
use mathlib.Core.List.Perm
use cursor_embed_cus_mqtt_su.MemPool.{MemPool, memory_pool_init}
use cursor_embed_cus_mqtt_su.MemPool.Alloc.{IsValid, memory_pool_init-IsValid}
use cursor_embed_cus_mqtt_su.MemPool.Owned.{out, init-out}
use cursor_embed_cus_mqtt_su.PubSub.{
  PubsubErr, MsgPriority, Msg, PubSub, QueueApi, find_topic, pubsub_init, pubsub_create_topic,
  pubsub_subscribe, pubsub_unsubscribe, pubsub_publish, topic_task,
}
use cursor_embed_cus_mqtt_su.PubSub.Publish.{IsQueue}
use cursor_embed_cus_mqtt_su.PubSub.Invariant.{IsWellFormed, Kept, create-IsWellFormed}
use cursor_embed_cus_mqtt_su.PubSub.Invariant.Subscribers.{
  subscribe-IsWellFormed, unsubscribe-IsWellFormed,
}
use cursor_embed_cus_mqtt_su.PubSub.Invariant.Messages.{
  publish-IsWellFormed, topic_task-IsWellFormed,
}
use cursor_embed_cus_mqtt_su.PubSub.Owned.{owned, Owns}
use cursor_embed_cus_mqtt_su.PubSub.Owned.Subscribers.{
  Returns, create-Owns, subscribe-Owns, unsubscribe-Returns,
}
use cursor_embed_cus_mqtt_su.PubSub.Owned.Messages.{IsEnough, publish-Returns, topic_task-Returns}

-- A call with its arguments and what the heap and the clock give, or a round of a topic's task.
pub data Call : Type 0 where
  create : Bool → Bool → Bool → Option (List ℕ) → Call
  subscribe : Option (List ℕ) → Option ℕ → ℕ → Call
  unsubscribe : Option (List ℕ) → Option ℕ → Call
  publish : ℕ → Option (List ℕ) → Option (List ℕ) → ℕ → MsgPriority → Call
  round : List ℕ → Call

-- A caller of `pubsub_publish` hands over as many bytes as it says.
abbrev pub IsHonest : Call → Type 0
IsHonest (publish now name bytes data_len priority) = IsEnough bytes data_len
IsHonest _ = Unit

module _ {Q : Type 0} (api : QueueApi Q) where
  -- The state behind a call. There is a task for each topic, and no other.
  unfoldable pub step : Call → PubSub Q → Option (PubSub Q)
  step (create queue lock task name) s = some (pubsub_create_topic api s queue lock task name).1
  step (subscribe name callback user) s = some (pubsub_subscribe s name callback user).1
  step (unsubscribe name callback) s = Option.map (λ r. r.1) (pubsub_unsubscribe s name callback)
  step (publish now name bytes data_len priority) s =
      Option.map (λ r. r.1) (pubsub_publish api s now name bytes data_len priority)
  step (round name) s = elim (find_topic name s.topics) [
    | none ↦ some s
    | some t ↦ Option.map (λ r. r.1) (topic_task api s name)
  ]

  pub run : List Call → PubSub Q → Option (PubSub Q)
  run [] s = some s
  run (c ∷ cs) s = elim (step c s) [ none ↦ none | some r ↦ run cs r ]

module _ {Q : Type 0} (api : QueueApi Q) (items : Q → List Msg) (law : IsQueue api items)
    (others : List ℕ) where
  -- What is asked of the state behind each call.
  pub record IsSound (s : PubSub Q) : Type 0 where
    pub owns : Owns items others s
    pub formed : IsWellFormed s

  abbrev pub Goes : Option (PubSub Q) → Type 0
  Goes o = (r : PubSub Q) × (o ≡ some r) × IsSound r

  map_sound :
      {A : Type 0} (o : Option (A × PubSub Q))
      → Returns items others o
      → Kept o
      → Goes (Option.map (λ r. r.1) o)
  map_sound o r k = (
    r.after,
    ap (Option.map (λ p. p.1)) r.returns,
    record { owns = r.owns; formed = rw r.returns at k },
  )

  pub step-Goes : (c : Call) (s : PubSub Q) → IsHonest c → IsSound s → Goes (step api c s)
  unfolding step
  step-Goes (create queue lock task name) s h i = (
    _,
    refl,
    record {
      owns = create-Owns items others api s queue lock task name law i.owns;
      formed = create-IsWellFormed api s queue lock task name i.formed;
    },
  )
  step-Goes (subscribe name callback user) s h i = (
    _,
    refl,
    record {
      owns = subscribe-Owns items others s name callback user i.owns;
      formed = subscribe-IsWellFormed s name callback user i.formed;
    },
  )
  step-Goes (unsubscribe name callback) s h i =
      map_sound _ (unsubscribe-Returns items others s name callback i.owns)
        (unsubscribe-IsWellFormed s name callback i.formed)
  step-Goes (publish now name bytes data_len priority) s h i =
      map_sound _ (publish-Returns api items law others s now name bytes data_len priority h i.owns)
        (publish-IsWellFormed api s now name bytes data_len priority i.formed)
  step-Goes (round name) s h i = elim (Option-cases (find_topic name s.topics)) [
    | inl f ↦ rw (f, step) (s, refl, i)
    | inr (t, f) ↦
        rw (f, step)
          (map_sound _ (topic_task-Returns api items law others s name t f i.owns)
            (topic_task-IsWellFormed api s name i.formed))
  ]

  -- From a state where each pointer has one holder and the topics are well formed, any history of
  -- calls, with data as long as the callers say, goes through: no call frees what is not out of the
  -- pool or reads past its data. Behind it the pointers that are out are those that the topics and the
  -- `others` hold, each once, so that nothing leaks or is held twice, and the topics are well formed.
  pub run-IsSound :
      (cs : List Call) (s : PubSub Q)
      → All IsHonest cs
      → IsSound s
      → (r : PubSub Q) × (run api cs s ≡ some r) × IsSound r
  unfolding run
  run-IsSound [] s h i = (s, refl, i)
  run-IsSound (c ∷ cs) s h i =
      let (r, e, j) = step-Goes c s h.0 i in
      let (q, f, k) = run-IsSound cs r h.1 j in (q, rw (e, run) f, k)

-- The state that the two inits leave, where nothing is out.
pub init-IsSound :
    {Q : Type 0} (api : QueueApi Q) (items : Q → List Msg) (null : Q) (pool : MemPool)
    (s : PubSub Q) (law : IsQueue api items)
    → memory_pool_init true true ≡ some pool
    → pubsub_init null false true (record { topics = []; spare_name = []; pool = pool })
      ≡ (PubsubErr.ok, true, s)
    → IsSound api items law [] s
unfolding pubsub_init
init-IsSound {Q} api items null pool s law m p = rw (← same p) first
  where
    same :
        {x y : PubSub Q}
        → ◌≡◌ {A = PubsubErr × Bool × PubSub Q} (PubsubErr.ok, true, x) (PubsubErr.ok, true, y)
        → x ≡ y
    same e = cc

    first : IsSound api items law [] (record { topics = []; spare_name = []; pool = pool })
    first = record {
      owns = record { valid = memory_pool_init-IsValid m; held = rw (init-out m) (Perm.refl []) };
      formed = record { fits = omega arith; each = tt; names = tt };
    }

-- After `memory_pool_init` and `pubsub_init`, any history of calls, with data as long as the callers
-- say, goes through, and leaves a valid pool of which exactly the nodes of the subscribers and the data
-- of the queued messages are out, each once.
pub run-from_start :
    {Q : Type 0} (api : QueueApi Q) (items : Q → List Msg) (null : Q) (pool : MemPool)
    (cs : List Call) (s : PubSub Q)
    → IsQueue api items
    → memory_pool_init true true ≡ some pool
    → pubsub_init null false true (record { topics = []; spare_name = []; pool = pool })
      ≡ (PubsubErr.ok, true, s)
    → All IsHonest cs
    → (r : PubSub Q) × (run api cs s ≡ some r)
      × IsValid r.pool
      × Perm (owned items r.topics) (out r.pool)
      × IsWellFormed r
run-from_start api items null pool cs s law m p h =
    let (r, e, i) =
      run-IsSound api items law [] cs s h (init-IsSound api items null pool s law m p) in
    (r, e, i.owns.valid, rw (append-nil (owned items r.topics)) at i.owns.held, i.formed)
