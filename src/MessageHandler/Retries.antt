-- ===== src/MessageHandler/Retries.antt =====
-- How often a message is published again.
use cursor_embed_cus_mqtt_su.Base.{
  ℕ, suc, ◌+◌, ◌-◌, ◌%◌, ◌^◌, ◌<◌, ◌≡◌, refl, sym, ap, subst, ◌∙◌, arith, inl, inr, true, List, [],
  ◌∷◌, Option, none, some, length, leb, ◌==◌, if◌then◌else◌, Bool-cases, Option-cases,
}
use mathlib.Core.Option
use cursor_embed_cus_mqtt_su.PubSub.{Msg, QueueApi, pubsub_publish}
use cursor_embed_cus_mqtt_su.PubSub.Publish.{IsQueue}
use cursor_embed_cus_mqtt_su.MessageHandler.{
  Pending, Handler, Tick, exceeded, retried, retry_failed, count_retry, find_pending, tick_of,
  retry_timer_callback,
}
use cursor_embed_cus_mqtt_su.MessageHandler.Created.{found_same, found-IsPending, found_node}
use cursor_embed_cus_mqtt_su.MessageHandler.Run.{IsHandled, timer-Handles}

-- How many of the ticks published.
pub attempts : List Tick → ℕ
attempts [] = 0
attempts (exceeded ∷ ts) = attempts ts
attempts (retried ∷ ts) = suc (attempts ts)
attempts (retry_failed ∷ ts) = suc (attempts ts)

-- A tick that publishes leaves the messages with one more retry counted.
publishes :
    {Q : Type 0} (api : QueueApi Q) (now : ℕ) (m : Pending) (h r : Handler Q) (t : Tick)
    (ts : List Tick)
    → m.retry_count < m.max_retries
    → retry_timer_callback api now m h ≡ some (t, r)
    → (attempts (t ∷ ts) ≡ suc (attempts ts))
      × (r.pending_messages ≡ count_retry m.node h.pending_messages)
unfolding retry_timer_callback tick_of attempts
publishes api now m h r t ts l e =
    elim (Option-cases
      (pubsub_publish api h.core now (some m.topic) (some m.msg_data.1) m.data_len m.priority)) [
        | inl f ↦ absurd (ground (arith, f))
        | inr ((err, s), f) ↦ ground (arith, f)
      ]

-- A tick without retries left does nothing.
spent :
    {Q : Type 0} (api : QueueApi Q) (now : ℕ) (m : Pending) (h : Handler Q)
    → leb m.max_retries m.retry_count ≡ true
    → retry_timer_callback api now m h ≡ some (exceeded, h)
unfolding retry_timer_callback
spent api now m h e = rw e refl

counted :
    (node : ℕ) (ms : List Pending) (m : Pending)
    → find_pending node ms ≡ some m
    → find_pending node (count_retry node ms)
      ≡ some (record m { retry_count = (m.retry_count + 1) % 2 ^ 32 })
unfolding find_pending count_retry
counted node [] m f = absurd (ground (arith, f))
counted node (x ∷ ms) m f = elim (Bool-cases (x.node == node)) [
  | inl e ↦ rw e (
      rw e (
        ap {A = Pending} {B = Option Pending}
          (λ y. some (record y { retry_count = (y.retry_count + 1) % 2 ^ 32 }))
          (found_same x m (rw (e, find_pending) at f))))
  | inr e ↦ rw e (rw e (counted node ms m (rw (e, find_pending) at f)))
]

-- The ticks of the timer at a pointer, one after the other.
pub ticks : {Q : Type 0} → QueueApi Q → List ℕ → ℕ → Handler Q → Option (List Tick × Handler Q)
ticks api [] node h = some ([], h)
ticks api (now ∷ nows) node h = elim (find_pending node h.pending_messages) [
  | none ↦ some ([], h)
  | some m ↦ elim (retry_timer_callback api now m h) [
    | none ↦ none
    | some (t, r) ↦ Option.map (λ p. (t ∷ p.0, p.1)) (ticks api nows node r)
  ]
]

abbrev pub smaller : ℕ → ℕ → ℕ
smaller a b = if leb a b then a else b

module _ {Q : Type 0} (api : QueueApi Q) (items : Q → List Msg) (law : IsQueue api items) where
  -- What the ticks give where `left` retries are left.
  record Ticks (n left : ℕ) (o : Option (List Tick × Handler Q)) : Type 0 where
    given : List Tick
    after : Handler Q
    ticked : o ≡ some (given, after)
    bounded : attempts given ≡ smaller n left

  ticks-Ticks :
      (nows : List ℕ) (node : ℕ) (h : Handler Q) (m : Pending)
      → find_pending node h.pending_messages ≡ some m
      → IsHandled api items law h
      → Ticks (length nows) (m.max_retries - m.retry_count) (ticks api nows node h)
  unfolding ticks attempts
  ticks-Ticks [] node h m f i = record {
    given = [];
    after = h;
    ticked = refl;
    bounded = ground arith;
  }
  ticks-Ticks (now ∷ nows) node h m f i = elim (Bool-cases (leb m.max_retries m.retry_count)) [
    | inl e ↦
        let k = ticks-Ticks nows node h m f i in
        rw (f, ticks)
          (rw (spent api now m h e, ticks)
            (record {
              given = exceeded ∷ k.given;
              after = k.after;
              ticked = ap (Option.map (λ p. (exceeded ∷ p.0, p.1))) k.ticked;
              bounded = k.bounded ∙ ground (arith, e);
            }))
    | inr e ↦
        let same = found_node node h.pending_messages m f in
        let t =
          timer-Handles api items law now m h
            (subst (λ k. find_pending k h.pending_messages ≡ some m) (sym same) f) i in
        let p = found-IsPending node h.pending_messages m f i.each in
        let there : find_pending node t.after.pending_messages
            ≡ some (record m { retry_count = (m.retry_count + 1) % 2 ^ 32 }) =
          subst
            (λ ms.
              find_pending node ms ≡ some (record m { retry_count = (m.retry_count + 1) % 2 ^ 32 }))
            (sym (
              (publishes api now m h t.after t.value [] (ground (arith, e)) t.handles).1
              ∙ ap (λ k. count_retry k h.pending_messages) same))
            (counted node h.pending_messages m f) in
        let k = ticks-Ticks nows node t.after _ there t.sound in
        rw (f, ticks)
          (rw (t.handles, ticks)
            (record {
              given = t.value ∷ k.given;
              after = k.after;
              ticked = ap (Option.map (λ p. (t.value ∷ p.0, p.1))) k.ticked;
              bounded =
                  (publishes api now m h t.after t.value k.given (ground (arith, e)) t.handles).0
                  ∙ ap suc k.bounded
                  ∙ ground (arith, e, p.bound, p.retries);
            }))
  ]

-- However often the timer of a pending message ticks, from a state whose pointers have one holder each,
-- every tick returns, and of the ticks `max_retries - retry_count` publish the message again, or all of
-- them if there are fewer.
pub retries_bounded :
    {Q : Type 0} (api : QueueApi Q) (items : Q → List Msg) (law : IsQueue api items) (nows : List ℕ)
    (node : ℕ) (h : Handler Q) (m : Pending)
    → find_pending node h.pending_messages ≡ some m
    → IsHandled api items law h
    → (given : List Tick) × (after : Handler Q) × (ticks api nows node h ≡ some (given, after))
      × (attempts given ≡ smaller (length nows) (m.max_retries - m.retry_count))
retries_bounded api items law nows node h m f i =
    let t = ticks-Ticks api items law nows node h m f i in (t.given, t.after, t.ticked, t.bounded)
