-- ===== src/PubSub/Topics.antt =====
-- Lookups and writes in the array of topics, and in a topic's list of subscribers.
use cursor_embed_cus_mqtt_su.Base.{
  ℕ, ◌+◌, ◌≡◌, refl, ap, arith, true, false, List, [], ◌∷◌, ◌++◌, Option, none, some, length, All,
  ◌==◌, Bool-cases, inl, inr, sym, ◌∙◌, subst,
}
use cursor_embed_cus_mqtt_su.PubSub.{
  Subscriber, Topic, same_name, find_topic, update_topic, find_subscriber, remove_subscriber,
}

pub same_name_refl : (a : List ℕ) → same_name a a ≡ true
unfolding same_name
same_name_refl [] = refl
same_name_refl (x ∷ xs) = ground (arith, same_name_refl xs)

pub same_name-sym : (a b : List ℕ) → same_name a b ≡ same_name b a
unfolding same_name
same_name-sym [] [] = refl
same_name-sym [] (y ∷ ys) = refl
same_name-sym (x ∷ xs) [] = refl
same_name-sym (x ∷ xs) (y ∷ ys) = ground (arith, same_name-sym xs ys)

-- The callbacks of a topic differ.
abbrev pub DistinctCallbacks : List Subscriber → Type 0
DistinctCallbacks [] = Unit
DistinctCallbacks (x ∷ xs) = (find_subscriber x.callback xs ≡ none) × DistinctCallbacks xs

module _ {Q : Type 0} where
  -- The names of the topics differ.
  abbrev pub DistinctNames : List (Topic Q) → Type 0
  DistinctNames [] = Unit
  DistinctNames (t ∷ ts) = (find_topic t.name ts ≡ none) × DistinctNames ts

  pub length-update_topic :
      (name : List ℕ) (f : Topic Q → Topic Q) (ts : List (Topic Q))
      → length (update_topic name f ts) ≡ length ts
  unfolding update_topic
  length-update_topic name f [] = refl
  length-update_topic name f (t ∷ ts) = ground (arith, length-update_topic name f ts)

  -- A write that keeps the name of a topic makes no new name.
  pub find_topic-update_topic :
      (other name : List ℕ) (f : Topic Q → Topic Q) (ts : List (Topic Q))
      → ((t : Topic Q) → (f t).name ≡ t.name)
      → find_topic other ts ≡ none
      → find_topic other (update_topic name f ts) ≡ none
  unfolding find_topic update_topic
  find_topic-update_topic other name f [] k h = refl
  find_topic-update_topic other name f (t ∷ ts) k h =
      ground (arith, k t, find_topic-update_topic other name f ts k)

  pub DistinctNames-update_topic :
      (name : List ℕ) (f : Topic Q → Topic Q) (ts : List (Topic Q))
      → ((t : Topic Q) → (f t).name ≡ t.name)
      → DistinctNames ts
      → DistinctNames (update_topic name f ts)
  unfolding update_topic
  DistinctNames-update_topic name f [] k h = tt
  DistinctNames-update_topic name f (t ∷ ts) k h = elim (Bool-cases (same_name t.name name)) [
    | inl e ↦ rw e (rw (k t) h.0, h.1)
    | inr e ↦
        rw e (
          find_topic-update_topic t.name name f ts k h.0,
          DistinctNames-update_topic name f ts k h.1,
        )
  ]

  -- A write keeps what holds of each topic, if it does so for the topic that the search finds.
  pub All-update_topic :
      (P : Topic Q → Type 0) (name : List ℕ) (f : Topic Q → Topic Q) (ts : List (Topic Q))
      → ((t : Topic Q) → find_topic name ts ≡ some t → P t → P (f t))
      → All P ts
      → All P (update_topic name f ts)
  unfolding update_topic find_topic
  All-update_topic P name f [] k h = tt
  All-update_topic P name f (t ∷ ts) k h = elim (Bool-cases (same_name t.name name)) [
    | inl e ↦ rw e (k t (rw e refl) h.0, h.1)
    | inr e ↦ rw e (h.0, All-update_topic P name f ts (λ u g. k u (rw e g)) h.1)
  ]

  same_topic : (t u : Topic Q) → ◌≡◌ {A = Option (Topic Q)} (some t) (some u) → t ≡ u
  same_topic t u e = cc

  -- The search after a write through the pointer that it found.
  pub find_topic-written :
      (name : List ℕ) (f : Topic Q → Topic Q) (ts : List (Topic Q)) (t : Topic Q)
      → ((u : Topic Q) → (f u).name ≡ u.name)
      → find_topic name ts ≡ some t
      → find_topic name (update_topic name f ts) ≡ some (f t)
  unfolding find_topic update_topic
  find_topic-written name f [] t k e = cc
  find_topic-written name f (u ∷ ts) t k e = elim (Bool-cases (same_name u.name name)) [
    | inl d ↦
        let w : same_name (f u).name name ≡ true = ap (λ n. same_name n name) (k u) ∙ d in
        rw (d, w) (ap (λ v. some (f v)) (same_topic u t (rw d at e)))
    | inr d ↦ rw (d, d) (find_topic-written name f ts t k (rw d at e))
  ]

  -- Two writes, of which the second undoes the first.
  pub update_topic-undone :
      (name : List ℕ) (f g : Topic Q → Topic Q) (ts : List (Topic Q)) (t : Topic Q)
      → ((u : Topic Q) → (f u).name ≡ u.name)
      → find_topic name ts ≡ some t
      → g (f t) ≡ t
      → update_topic name g (update_topic name f ts) ≡ ts
  unfolding find_topic update_topic
  update_topic-undone name f g [] t k e h = refl
  update_topic-undone name f g (u ∷ ts) t k e h = elim (Bool-cases (same_name u.name name)) [
    | inl d ↦
        let w : same_name (f u).name name ≡ true = ap (λ n. same_name n name) (k u) ∙ d in
        rw (d, w) (ap (λ v. v ∷ ts) (subst (λ v. g (f v) ≡ v) (sym (same_topic u t (rw d at e))) h))
    | inr d ↦ rw (d, d) (ap (λ l. u ∷ l) (update_topic-undone name f g ts t k (rw d at e) h))
  ]

  -- What the search finds satisfies what holds of each topic.
  pub find_topic-All :
      (P : Topic Q → Type 0) (name : List ℕ) (ts : List (Topic Q)) (t : Topic Q)
      → find_topic name ts ≡ some t
      → All P ts
      → P t
  unfolding find_topic
  find_topic-All P name [] t e h = cc
  find_topic-All P name (u ∷ ts) t e h = elim (Bool-cases (same_name u.name name)) [
    | inl d ↦ subst P (same_topic u t (rw d at e)) h.0
    | inr d ↦ find_topic-All P name ts t (rw d at e) h.1
  ]

  find_topic-append :
      (name : List ℕ) (ts : List (Topic Q)) (t : Topic Q)
      → find_topic name ts ≡ none
      → same_name t.name name ≡ false
      → find_topic name (ts ++ (t ∷ [])) ≡ none
  unfolding find_topic
  find_topic-append name [] t e h = rw h refl
  find_topic-append name (u ∷ ts) t e h = ground (arith, find_topic-append name ts t)

  -- A new topic behind the others, under a name that none of them has.
  pub DistinctNames-append :
      (ts : List (Topic Q)) (t : Topic Q)
      → find_topic t.name ts ≡ none
      → DistinctNames ts
      → DistinctNames (ts ++ (t ∷ []))
  unfolding find_topic
  DistinctNames-append [] t e h = (refl, tt)
  DistinctNames-append (u ∷ ts) t e h = elim (Bool-cases (same_name u.name t.name)) [
    | inl d ↦ absurd (cc d)
    | inr d ↦ (
      find_topic-append u.name ts t h.0 (rw (same_name-sym t.name u.name) d),
      DistinctNames-append ts t (rw d at e) h.1,
    )
  ]

-- A node that is unlinked.
pub length-remove_subscriber :
    (c : ℕ) (xs : List Subscriber) (x : Subscriber)
    → find_subscriber c xs ≡ some x
    → length xs ≡ length (remove_subscriber c xs) + 1
unfolding find_subscriber remove_subscriber
length-remove_subscriber c [] x e = cc
length-remove_subscriber c (y ∷ ys) x e = ground (arith, length-remove_subscriber c ys x)

pub find_subscriber-remove_subscriber :
    (d c : ℕ) (xs : List Subscriber)
    → find_subscriber d xs ≡ none
    → find_subscriber d (remove_subscriber c xs) ≡ none
unfolding find_subscriber remove_subscriber
find_subscriber-remove_subscriber d c [] e = refl
find_subscriber-remove_subscriber d c (y ∷ ys) e =
    ground (arith, find_subscriber-remove_subscriber d c ys)

pub DistinctCallbacks-remove_subscriber :
    (c : ℕ) (xs : List Subscriber)
    → DistinctCallbacks xs
    → DistinctCallbacks (remove_subscriber c xs)
unfolding remove_subscriber
DistinctCallbacks-remove_subscriber c [] h = tt
DistinctCallbacks-remove_subscriber c (y ∷ ys) h = elim (Bool-cases (y.callback == c)) [
  | inl e ↦ rw e h.1
  | inr e ↦ rw e (
    find_subscriber-remove_subscriber y.callback c ys h.0,
    DistinctCallbacks-remove_subscriber c ys h.1,
  )
]
