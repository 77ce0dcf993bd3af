-- ===== src/PubSub/Abstract/Refine.antt =====
-- Every call, in the view of the callers.
use cursor_embed_cus_mqtt_su.Base.{
  ◌≡◌, ◌⊎◌, subst, arith, inl, inr, List, Option, none, some, Option-cases,
}
use mathlib.Core.Option
use cursor_embed_cus_mqtt_su.PubSub.{Msg, PubSub, QueueApi, find_topic}
use cursor_embed_cus_mqtt_su.PubSub.Publish.{IsQueue}
use cursor_embed_cus_mqtt_su.PubSub.Run.{Call, create, subscribe, unsubscribe, publish, round, step}
use cursor_embed_cus_mqtt_su.PubSub.Abstract.{Same, Moves, view, Refines, RefinesAll, view-Same}
use cursor_embed_cus_mqtt_su.PubSub.Abstract.Subscribers.{
  create-Refines, subscribe-Refines, unsubscribe-Refines,
}
use cursor_embed_cus_mqtt_su.PubSub.Abstract.Messages.{publish-Refines, round-Refines}

module _ {Q : Type 0} (items : Q → List Msg) where
  same_state : (r q : PubSub Q) → some q ≡ some r → q ≡ r
  same_state r q e = cc

  behind-Refines :
      {A : Type 0} (c : Call) (s r : PubSub Q) (o : Option (A × PubSub Q))
      → RefinesAll items c s o
      → Option.map (λ p. p.1) o ≡ some r
      → Refines items c s r
  behind-Refines c s r none k e = absurd (ground (arith, e))
  behind-Refines c s r (some (a, q)) k e = subst (λ x. Refines items c s x) (same_state r q e) k

-- In the view of the callers, which forgets nodes, pointers and the order of the topics, a call that returns
-- either changes nothing or does what it is for: a new name gets a topic without readers and messages; a
-- reader is put in front of the others, or the first with the callback removed; a message with the bytes that
-- were handed over is put in front of those that wait if it is critical and behind them otherwise; a round
-- takes the first message. No other name changes.
pub step_refines :
    {Q : Type 0} (api : QueueApi Q) (items : Q → List Msg) (c : Call) (s r : PubSub Q)
    → IsQueue api items
    → step api c s ≡ some r
    → Same (view items s) (view items r) ⊎ Moves c (view items s) (view items r)
unfolding step
step_refines api items (create queue lock task name) s r law e =
    subst (λ x. Refines items (create queue lock task name) s x) (same_state items r _ e)
      (create-Refines items api law s queue lock task name)
step_refines api items (subscribe name callback user) s r law e =
    subst (λ x. Refines items (subscribe name callback user) s x) (same_state items r _ e)
      (subscribe-Refines items s name callback user)
step_refines api items (unsubscribe name callback) s r law e =
    behind-Refines items (unsubscribe name callback) s r _
      (unsubscribe-Refines items s name callback) e
step_refines api items (publish now name bytes data_len priority) s r law e =
    behind-Refines items (publish now name bytes data_len priority) s r _
      (publish-Refines items api law s now name bytes data_len priority) e
step_refines api items (round name) s r law e = elim (Option-cases (find_topic name s.topics)) [
  | inl f ↦ inl (
      subst (λ x. Same (view items s) (view items x)) (same_state items r s (rw (f, step) at e))
        (view-Same items s))
  | inr (t, f) ↦
      behind-Refines items (round name) s r _ (round-Refines items api law s name)
        (rw (f, step) at e)
]
