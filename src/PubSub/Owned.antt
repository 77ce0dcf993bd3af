-- ===== src/PubSub/Owned.antt =====
-- Who holds the pointers that are out of the pool: the nodes of the subscribers, the messages in the
-- queues, and whoever else took memory from it.
pub mod Subscribers
pub mod Messages
use cursor_embed_cus_mqtt_su.Base.{
  ℕ, ◌+◌, ◌≡◌, refl, sym, ap, ◌∙◌, subst, inl, inr, Bool, true, false, List, [], ◌∷◌, ◌++◌,
  append_assoc, append-nil, Option, none, some, map, Bool-cases, ◌==◌,
}
use mathlib.Core.List.{map-append, perm_middle, perm_append_comm, Perm}
use mathlib.Core.List.Perm
use cursor_embed_cus_mqtt_su.MemPool.{MemPool}
use cursor_embed_cus_mqtt_su.MemPool.Alloc.{IsValid}
use cursor_embed_cus_mqtt_su.MemPool.Owned.{out}
use cursor_embed_cus_mqtt_su.PubSub.{
  MsgPriority, low, normal, high, critical, Msg, Subscriber, Topic, PubSub, same_name, find_topic,
  update_topic, find_subscriber, remove_subscriber,
}
use cursor_embed_cus_mqtt_su.PubSub.Publish.{placed}

abbrev pub node_of : Subscriber → ℕ
node_of x = x.node

-- The pointer of a message's data.
abbrev pub carried : Option (ℕ × List ℕ) → List ℕ
carried none = []
carried (some (ptr, bytes)) = ptr ∷ []

abbrev pub pointers : List Msg → List ℕ
pointers [] = []
pointers (m ∷ ms) = carried m.msg_data ++ pointers ms

pub pointers-append : (xs ys : List Msg) → pointers (xs ++ ys) ≡ pointers xs ++ pointers ys
pointers-append [] ys = refl
pointers-append (m ∷ xs) ys =
    ap (λ l. carried m.msg_data ++ l) (pointers-append xs ys)
    ∙ sym (append_assoc (carried m.msg_data) (pointers xs) (pointers ys))

at_back :
    (m : Msg) (ms : List Msg) → Perm (carried m.msg_data ++ pointers ms) (pointers (ms ++ (m ∷ [])))
at_back m ms =
    rw (pointers-append ms (m ∷ []), append-nil (carried m.msg_data))
      (perm_append_comm (carried m.msg_data) (pointers ms))

-- A message that is placed in a queue adds its data, wherever it goes.
pub placed-perm :
    (p : MsgPriority) (m : Msg) (ms : List Msg)
    → Perm (carried m.msg_data ++ pointers ms) (pointers (placed p m ms))
placed-perm critical m ms = Perm.refl (pointers (m ∷ ms))
placed-perm low m ms = at_back m ms
placed-perm normal m ms = at_back m ms
placed-perm high m ms = at_back m ms

pub swap_front : (a b c : List ℕ) → Perm (a ++ (b ++ c)) (b ++ (a ++ c))
swap_front a b c =
    rw (← append_assoc a b c, ← append_assoc b a c) (Perm.append_right c (perm_append_comm a b))

pub remove_subscriber-perm :
    (c : ℕ) (xs : List Subscriber) (x : Subscriber)
    → find_subscriber c xs ≡ some x
    → Perm (map node_of xs) (x.node ∷ map node_of (remove_subscriber c xs))
unfolding find_subscriber remove_subscriber
remove_subscriber-perm c [] x e = cc
remove_subscriber-perm c (y ∷ ys) x e = elim (Bool-cases (y.callback == c)) [
  | inl d ↦ rw d (
      subst (λ z. Perm (y.node ∷ map node_of ys) (z.node ∷ map node_of ys)) (same y x (rw d at e))
        (Perm.refl _))
  | inr d ↦ rw d (
      Perm.trans (Perm.cons y.node (remove_subscriber-perm c ys x (rw d at e)))
        (Perm.swap x.node y.node (map node_of (remove_subscriber c ys))))
]
  where
    same : (a b : Subscriber) → ◌≡◌ {A = Option Subscriber} (some a) (some b) → a ≡ b
    same a b h = cc

module _ {Q : Type 0} (items : Q → List Msg) where
  -- What a topic holds, and what all of them do.
  abbrev pub own : Topic Q → List ℕ
  own t = map node_of t.subscribers ++ pointers (items t.msg_queue)

  abbrev pub owned : List (Topic Q) → List ℕ
  owned [] = []
  owned (t ∷ ts) = own t ++ owned ts

  pub owned-append : (xs ys : List (Topic Q)) → owned (xs ++ ys) ≡ owned xs ++ owned ys
  owned-append [] ys = refl
  owned-append (t ∷ xs) ys =
      ap (λ l. own t ++ l) (owned-append xs ys) ∙ sym (append_assoc (own t) (owned xs) (owned ys))

  -- The pool is valid, and what is out of it is what the topics and the `others` hold, each once.
  pub record Owns (others : List ℕ) (s : PubSub Q) : Type 0 where
    pub valid : IsValid s.pool
    pub held : Perm (owned s.topics ++ others) (out s.pool)

  -- A write to the topic that the search finds changes what all of them hold as it changes what that
  -- topic holds.
  pub update_topic-perm :
      (name : List ℕ) (f : Topic Q → Topic Q) (ts : List (Topic Q)) (t : Topic Q) (xs ys : List ℕ)
      → find_topic name ts ≡ some t
      → Perm (xs ++ own t) (ys ++ own (f t))
      → Perm (xs ++ owned ts) (ys ++ owned (update_topic name f ts))
  unfolding find_topic update_topic
  update_topic-perm name f [] t xs ys e h = cc
  update_topic-perm name f (u ∷ ts) t xs ys e h = elim (Bool-cases (same_name u.name name)) [
    | inl d ↦
        rw (d, ← append_assoc xs (own u) (owned ts), ← append_assoc ys (own (f u)) (owned ts))
          (Perm.append_right (owned ts)
            (subst (λ v. Perm (xs ++ own v) (ys ++ own (f v))) (same t u (sym (rw d at e))) h))
    | inr d ↦ rw d (
        Perm.trans (swap_front xs (own u) (owned ts)) (
          Perm.trans (Perm.append_left (own u) (update_topic-perm name f ts t xs ys (rw d at e) h))
            (swap_front (own u) ys (owned (update_topic name f ts)))))
  ]
    where
      same : (a b : Topic Q) → ◌≡◌ {A = Option (Topic Q)} (some a) (some b) → a ≡ b
      same a b h = cc
