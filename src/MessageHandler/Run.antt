-- ===== src/MessageHandler/Run.antt =====
-- Any history of publications, of ticks of the timers and of calls of the core, from the start.
use cursor_embed_cus_mqtt_su.Base.{
  ℕ, ◌^◌, ◌≤◌, ◌<◌, ◌≡◌, refl, arith, inl, inr, Bool, List, [], ◌∷◌, ◌++◌, Option, none, some,
  length, ltb, leb, ◌==◌, not, ◌||◌, All, Bool-cases,
}
use mathlib.Core.Option
use mathlib.Core.List.{Perm}
use mathlib.Core.List.Perm
use cursor_embed_cus_mqtt_su.MemPool.{MemPool}
use cursor_embed_cus_mqtt_su.MemPool.Alloc.{IsValid}
use cursor_embed_cus_mqtt_su.MemPool.Owned.{out}
use cursor_embed_cus_mqtt_su.PubSub.{PubsubErr, MsgPriority, Msg, PubSub, QueueApi, pubsub_publish}
use cursor_embed_cus_mqtt_su.PubSub.Publish.{IsQueue}
use cursor_embed_cus_mqtt_su.PubSub.Invariant.{IsWellFormed}
use cursor_embed_cus_mqtt_su.PubSub.Owned.{owned, swap_front}
use cursor_embed_cus_mqtt_su.PubSub.Owned.Messages.{IsEnough, publish-Returns}
use cursor_embed_cus_mqtt_su.PubSub.Invariant.Messages.{publish-IsWellFormed}
use cursor_embed_cus_mqtt_su.PubSub.Run.{Call, IsHonest, step, IsSound}
use cursor_embed_cus_mqtt_su.MessageHandler.{
  Pending, Handler, find_pending, retry_timer_callback, publish_now, publish_pending, publish_as,
  message_publish_with_qos,
}
use cursor_embed_cus_mqtt_su.MessageHandler.Created.{
  held_by, IsPending, added, create-Creates, found-IsPending, count_retry-IsPending,
  count_retry-held_by,
}

module _ {Q : Type 0} (api : QueueApi Q) (items : Q → List Msg) (law : IsQueue api items) where
  -- What is asked of the handler: of the pointers out of the pool those that the core does not hold are
  -- those of the pending messages.
  pub record IsHandled (h : Handler Q) : Type 0 where
    pub core : IsSound api items law (held_by h.pending_messages) h.core
    pub each : All IsPending h.pending_messages
    pub small : h.config.retry_count < 2 ^ 32

  -- A step that returns, to such a state.
  pub record Handles {A : Type 0} (o : Option (A × Handler Q)) : Type 0 where
    pub value : A
    pub after : Handler Q
    pub handles : o ≡ some (value, after)
    pub sound : IsHandled after

  handled : {A : Type 0} (a : A) (h : Handler Q) → IsHandled h → Handles (some (a, h))
  handled a h i = record { value = a; after = h; handles = refl; sound = i }

  core_publish :
      (others : List ℕ) (s : PubSub Q) (now : ℕ) (name bytes : List ℕ) (data_len : ℕ)
      (priority : MsgPriority)
      → data_len ≤ length bytes
      → IsSound api items law others s
      → (e : PubsubErr) × (r : PubSub Q) × (pubsub_publish api s now
            (some name)
            (some bytes)
            data_len
            priority
          ≡ some (e, r))
        × IsSound api items law others r
  core_publish others s now name bytes data_len priority l i =
      let r =
        publish-Returns api items law others s now (some name) (some bytes) data_len priority l
          i.owns in
      (
        r.value,
        r.after,
        r.returns,
        record {
          owns = r.owns;
          formed =
              rw r.returns at (
                publish-IsWellFormed api s now (some name) (some bytes) data_len priority i.formed);
        },
      )

  publish_now-Handles :
      (now : ℕ) (name bytes : List ℕ) (data_len : ℕ) (priority : MsgPriority) (id : ℕ)
      (h : Handler Q)
      → data_len ≤ length bytes
      → IsHandled h
      → Handles (publish_now api now name bytes data_len priority id h)
  unfolding publish_now
  publish_now-Handles now name bytes data_len priority id h l i =
      let (e, r, f, j) =
        core_publish (held_by h.pending_messages) h.core now name bytes data_len priority l
          i.core in
      rw f (handled _ _ (record { core = j; each = i.each; small = i.small }))

  same_topics :
      {h : Handler Q}
      → IsHandled h
      → (pool : MemPool) → IsWellFormed (record h.core { pool = pool })
  same_topics i pool =
      let f = i.core.formed in record { fits = f.fits; each = f.each; names = f.names }

  pending-Handles :
      (now : ℕ) (name bytes : List ℕ) (data_len : ℕ) (priority : MsgPriority) (id : ℕ)
      (h : Handler Q) (made : Option Pending) (pool : MemPool)
      → data_len ≤ length bytes
      → IsHandled h
      → IsValid pool
      → Perm
          (held_by (added made) ++ (owned items h.core.topics ++ held_by h.pending_messages))
          (out pool)
      → All IsPending (added made)
      → Handles (publish_pending api now name bytes data_len priority id h (some (made, pool)))
  unfolding publish_pending
  pending-Handles now name bytes data_len priority id h none pool l i v k g = handled _ _ (record {
    core = record { owns = record { valid = v; held = k }; formed = same_topics i pool };
    each = i.each;
    small = i.small;
  })
  pending-Handles now name bytes data_len priority id h (some m) pool l i v k (p, g) =
      publish_now-Handles now name bytes data_len priority id _ l (record {
        core = record {
          owns = record {
            valid = v;
            held =
                Perm.trans
                  (swap_front (owned items h.core.topics) (m.node ∷ (m.msg_data.0 ∷ []))
                    (held_by h.pending_messages))
                  k;
          };
          formed = same_topics i pool;
        };
        each = (record { enough = p.enough; retries = p.retries; bound = p.bound }, i.each);
        small = i.small;
      })

  -- A publication returns, and what it allocates is held by the core or a pending message, or freed.
  pub publish-Handles :
      (now : ℕ) (name : Option (List ℕ)) (bytes : Option (List ℕ)) (data_len : ℕ)
      (priority : MsgPriority) (qos : ℕ) (wanted timer : Bool) (h : Handler Q)
      → IsEnough bytes data_len
      → IsHandled h
      → Handles (message_publish_with_qos api now name bytes data_len priority qos wanted timer h)
  unfolding message_publish_with_qos publish_as
  publish-Handles now none bytes data_len priority qos wanted timer h l i = handled _ h i
  publish-Handles now (some name) none data_len priority qos wanted timer h l i = handled _ h i
  publish-Handles now (some name) (some bytes) data_len priority qos wanted timer h l i =
      elim (Bool-cases (data_len == 0 || not wanted)) [
        | inl e ↦ rw e (handled _ h i)
        | inr e ↦ rw e (elim (Bool-cases (ltb 0 qos)) [
          | inr f ↦ rw f (
              publish_now-Handles now name bytes data_len priority h.next_msg_id _ l
                (record { core = i.core; each = i.each; small = i.small }))
          | inl f ↦
              let c =
                create-Creates h.config i.small name bytes data_len l priority qos timer h.core.pool
                  (owned items h.core.topics ++ held_by h.pending_messages) i.core.owns.valid
                  i.core.owns.held in
              rw (f, c.creates)
                (pending-Handles now name bytes data_len priority h.next_msg_id _ c.made c.pool l
                  (record { core = i.core; each = i.each; small = i.small }) c.valid c.held c.good)
        ])
      ]

  -- A tick of the timer of a pending message returns, publishes only where retries are left, and keeps
  -- every pointer where it is held.
  pub timer-Handles :
      (now : ℕ) (m : Pending) (h : Handler Q)
      → find_pending m.node h.pending_messages ≡ some m
      → IsHandled h
      → Handles (retry_timer_callback api now m h)
  unfolding retry_timer_callback
  timer-Handles now m h f i = elim (Bool-cases (leb m.max_retries m.retry_count)) [
    | inl e ↦ rw e (handled _ h i)
    | inr e ↦
        let (err, r, g, j) =
          core_publish (held_by h.pending_messages) h.core now m.topic m.msg_data.1 m.data_len
            m.priority (found-IsPending m.node h.pending_messages m f i.each).enough i.core in
        rw (e, g)
          (handled _ _ (record {
            core = rw (count_retry-held_by m.node h.pending_messages) j;
            each = count_retry-IsPending m.node h.pending_messages m f (ground (arith, e)) i.each;
            small = i.small;
          }))
  ]

-- A publication with a quality of service, a tick of the timer at a pointer, or a call of the core.
pub data Use : Type 0 where
  send : ℕ → Option (List ℕ) → Option (List ℕ) → ℕ → MsgPriority → ℕ → Bool → Bool → Use
  tick : ℕ → ℕ → Use
  call : Call → Use

abbrev pub IsHonestUse : Use → Type 0
IsHonestUse (send now name bytes data_len priority qos wanted timer) = IsEnough bytes data_len
IsHonestUse (tick now node) = Unit
IsHonestUse (call c) = IsHonest c

module _ {Q : Type 0} (api : QueueApi Q) where
  -- The handler behind a use. There is a timer for each pending message, and no other.
  unfoldable pub use_step : Use → Handler Q → Option (Handler Q)
  use_step (send now name bytes data_len priority qos wanted timer) h =
      Option.map (λ r. r.1)
        (message_publish_with_qos api now name bytes data_len priority qos wanted timer h)
  use_step (tick now node) h = elim (find_pending node h.pending_messages) [
    | none ↦ some h
    | some m ↦ Option.map (λ r. r.1) (retry_timer_callback api now m h)
  ]
  use_step (call c) h = Option.map (λ s. record h { core = s }) (step api c h.core)

  unfoldable pub use_run : List Use → Handler Q → Option (Handler Q)
  use_run [] h = some h
  use_run (u ∷ us) h = elim (use_step u h) [ none ↦ none | some r ↦ use_run us r ]

-- The limit of a message is the configured number, and it has not been retried more often than that.
abbrev pub IsWithin : ℕ → Pending → Type 0
IsWithin limit m = (m.max_retries ≡ limit) × (m.retry_count ≤ limit)
