-- ===== src/MessageHandler/Ids.antt =====
-- The identifiers of the pending messages, over any history.
use cursor_embed_cus_mqtt_su.Base.{
  ℕ, ◌+◌, ◌-◌, ◌%◌, ◌^◌, ◌≤◌, ◌<◌, ◌≡◌, refl, sym, ap, subst, ◌∙◌, arith, inl, inr, Bool, not, ◌||◌,
  List, [], ◌∷◌, ◌++◌, append_assoc, map, Option, none, some, length, ltb, leb, ◌==◌, Bool-cases,
  Option-cases,
}
use mathlib.Core.Option
use cursor_embed_cus_mqtt_su.MemPool.{MemPool}
use cursor_embed_cus_mqtt_su.PubSub.{MsgPriority, PubSub, QueueApi, pubsub_publish}
use cursor_embed_cus_mqtt_su.PubSub.Run.{step}
use cursor_embed_cus_mqtt_su.MessageHandler.{
  Pending, Handler, count_retry, find_pending, retry_timer_callback, create_pending_message,
  publish_now, publish_pending, publish_as, message_publish_with_qos,
}
use cursor_embed_cus_mqtt_su.MessageHandler.Run.{Use, send, tick, call, use_step, use_run}

abbrev id_of : Pending → ℕ
id_of m = m.msg_id

abbrev pub ids : List Pending → List ℕ
ids = map id_of

-- A list that descends, all of it below `n`.
abbrev pub Descends : ℕ → List ℕ → Type 0
Descends n [] = Unit
Descends n (x ∷ xs) = (x < n) × Descends x xs

Descends-weaken : (n m : ℕ) (xs : List ℕ) → n ≤ m → Descends n xs → Descends m xs
Descends-weaken n m [] l d = tt
Descends-weaken n m (x ∷ xs) l (h, d) = (omega arith, d)

-- How a handler follows another: it has its messages, behind newer ones.
record Follows {Q : Type 0} (h r : Handler Q) : Type 0 where
  newer : List ℕ
  kept : ids r.pending_messages ≡ newer ++ ids h.pending_messages
  near : h.next_msg_id < 2 ^ 32 - 1 → r.next_msg_id ≤ h.next_msg_id + 1
  descends :
      h.next_msg_id < 2 ^ 32 - 1
      → Descends h.next_msg_id (ids h.pending_messages)
      → Descends r.next_msg_id (ids r.pending_messages)

ids-count_retry : (node : ℕ) (ms : List Pending) → ids (count_retry node ms) ≡ ids ms
unfolding count_retry
ids-count_retry node [] = refl
ids-count_retry node (x ∷ ms) = elim (Bool-cases (x.node == node)) [
  | inl e ↦ rw e refl
  | inr e ↦ rw e (ap (λ l. x.msg_id ∷ l) (ids-count_retry node ms))
]

module _ {Q : Type 0} (api : QueueApi Q) where
  -- A handler with the same identifiers.
  unchanged :
      (h r : Handler Q)
      → r.next_msg_id ≡ h.next_msg_id
      → ids r.pending_messages ≡ ids h.pending_messages
      → Follows h r
  unchanged h r e f = record {
    newer = [];
    kept = f;
    near = λ l. omega arith;
    descends = λ l d. rw (e, f) d;
  }

  -- What follows from a result, where there is one.
  abbrev Leads : {A : Type 0} → Handler Q → Option (A × Handler Q) → Type 0
  Leads h none = Unit
  Leads h (some (a, r)) = Follows h r

  publish_now-Leads :
      (now : ℕ) (name bytes : List ℕ) (data_len : ℕ) (priority : MsgPriority) (id : ℕ)
      (h g : Handler Q)
      → ((s : PubSub Q) → Follows h (record g { core = s }))
      → Leads h (publish_now api now name bytes data_len priority id g)
  unfolding publish_now
  publish_now-Leads now name bytes data_len priority id h g k =
      elim (Option-cases
        (pubsub_publish api g.core now (some name) (some bytes) data_len priority)) [
          | inl e ↦ rw e tt
          | inr ((err, s), e) ↦ rw e (k s)
        ]

  -- The counter has moved on, and the message is there or not.
  moved :
      (h : Handler Q) (s : PubSub Q)
      → Follows h (record h { next_msg_id = (h.next_msg_id + 1) % 2 ^ 32; core = s })
  moved h s = record {
    newer = [];
    kept = refl;
    near = λ l. omega arith;
    descends = λ l d.
        Descends-weaken h.next_msg_id ((h.next_msg_id + 1) % 2 ^ 32) (ids h.pending_messages)
          (omega arith) d;
  }

  pending-Leads :
      (now : ℕ) (name bytes : List ℕ) (data_len : ℕ) (priority : MsgPriority) (h : Handler Q)
      (made : Option (Option Pending × MemPool))
      → Leads h (
          publish_pending api now name bytes data_len priority h.next_msg_id
            (record h { next_msg_id = (h.next_msg_id + 1) % 2 ^ 32 })
            made)
  unfolding publish_pending
  pending-Leads now name bytes data_len priority h none = tt
  pending-Leads now name bytes data_len priority h (some (none, pool)) =
      moved h (record h.core { pool = pool })
  pending-Leads now name bytes data_len priority h (some (some m, pool)) =
      publish_now-Leads now name bytes data_len priority h.next_msg_id h _ (λ s. record {
        newer = h.next_msg_id ∷ [];
        kept = refl;
        near = λ l. omega arith;
        descends = λ l d. (omega arith, d);
      })

  send-Leads :
      (now : ℕ) (name bytes : Option (List ℕ)) (data_len : ℕ) (priority : MsgPriority) (qos : ℕ)
      (wanted timer : Bool) (h : Handler Q)
      → Leads h (message_publish_with_qos api now name bytes data_len priority qos wanted timer h)
  unfolding message_publish_with_qos publish_as
  send-Leads now none bytes data_len priority qos wanted timer h = unchanged h h refl refl
  send-Leads now (some name) none data_len priority qos wanted timer h = unchanged h h refl refl
  send-Leads now (some name) (some bytes) data_len priority qos wanted timer h =
      elim (Bool-cases (data_len == 0 || not wanted)) [
        | inl e ↦ rw e (unchanged h h refl refl)
        | inr e ↦ rw e (elim (Bool-cases (ltb 0 qos)) [
          | inl f ↦ rw f (
              pending-Leads now name bytes data_len priority h (
                create_pending_message h.config h.core.pool name bytes data_len priority qos timer))
          | inr f ↦
              rw f (publish_now-Leads now name bytes data_len priority h.next_msg_id h _ (moved h))
        ])
      ]

  tick-Leads : (now : ℕ) (m : Pending) (h : Handler Q) → Leads h (retry_timer_callback api now m h)
  unfolding retry_timer_callback
  tick-Leads now m h = elim (Bool-cases (leb m.max_retries m.retry_count)) [
    | inl e ↦ rw e (unchanged h h refl refl)
    | inr e ↦
        rw e
          (elim (Option-cases (
            pubsub_publish api h.core now (some m.topic) (some m.msg_data.1) m.data_len
              m.priority)) [
                | inl f ↦ rw f tt
                | inr ((err, s), f) ↦
                    rw f (unchanged h _ refl (ids-count_retry m.node h.pending_messages))
              ])
  ]

  same_handler : (q r : Handler Q) → some q ≡ some r → q ≡ r
  same_handler q r e = cc

  behind_map :
      {A : Type 0} (h r : Handler Q) (o : Option (A × Handler Q))
      → Leads h o
      → Option.map (λ p. p.1) o ≡ some r
      → Follows h r
  behind_map h r none k e = absurd (ground (arith, e))
  behind_map h r (some (a, q)) k e = subst (λ p. Follows h p) (same_handler q r e) k

  step-Follows : (u : Use) (h r : Handler Q) → use_step api u h ≡ some r → Follows h r
  unfolding use_step
  step-Follows (send now name bytes data_len priority qos wanted timer) h r e =
      behind_map h r _ (send-Leads now name bytes data_len priority qos wanted timer h) e
  step-Follows (tick now node) h r e = elim (Option-cases (find_pending node h.pending_messages)) [
    | inl f ↦
        subst (λ p. Follows h p) (same_handler h r (rw (f, use_step) at e))
          (unchanged h h refl refl)
    | inr (m, f) ↦ behind_map h r _ (tick-Leads now m h) (rw (f, use_step) at e)
  ]
  step-Follows (call c) h r e = elim (Option-cases (step api c h.core)) [
    | inl f ↦ absurd (ground (arith, e, f))
    | inr (s, f) ↦
        subst (λ p. Follows h p) (same_handler (record h { core = s }) r (rw f at e))
          (unchanged h _ refl refl)
  ]

  run-Follows :
      (us : List Use) (h r : Handler Q)
      → use_run api us h ≡ some r
      → h.next_msg_id + length us < 2 ^ 32
      → (newer : List ℕ) × (ids r.pending_messages ≡ newer ++ ids h.pending_messages)
        × (Descends h.next_msg_id (ids h.pending_messages)
            → Descends r.next_msg_id (ids r.pending_messages))
  unfolding use_run
  run-Follows [] h r e l = (
    [],
    rw (same_handler h r e) refl,
    λ d. subst (λ p. Descends p.next_msg_id (ids p.pending_messages)) (same_handler h r e) d,
  )
  run-Follows (u ∷ us) h r e l = elim (Option-cases (use_step api u h)) [
    | inl f ↦ absurd (ground (arith, (rw (f, use_run) at e)))
    | inr (q, f) ↦
        let k = step-Follows u h q f in
        let (newer, same, descends) =
          run-Follows us q r (rw (f, use_run) at e) (omega (arith, k.near (omega arith))) in
        (
          newer ++ k.newer,
          same
              ∙ ap (λ l. newer ++ l) k.kept
              ∙ sym (append_assoc newer k.newer (ids h.pending_messages)),
          λ d. descends (k.descends (omega arith) d),
        )
  ]

-- Over any history that returns, with fewer uses than the 32-bit counter has room for, the identifiers of
-- the pending messages stay distinct, the later ones greater and all below the counter; and every message
-- that was pending still is, behind newer ones: no message ever leaves the list.
pub pending_stay :
    {Q : Type 0} (api : QueueApi Q) (us : List Use) (h r : Handler Q)
    → use_run api us h ≡ some r
    → h.next_msg_id + length us < 2 ^ 32
    → Descends h.next_msg_id (ids h.pending_messages)
    → Descends r.next_msg_id (ids r.pending_messages)
      × (newer : List ℕ) × (ids r.pending_messages ≡ newer ++ ids h.pending_messages)
pending_stay api us h r e l d =
    let (newer, same, descends) = run-Follows api us h r e l in (descends d, newer, same)
