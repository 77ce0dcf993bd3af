-- ===== src/WebSocket/Client/Trace.antt =====
-- What the callback of the WebSocket client sees over any number of rounds.
use cursor_embed_cus_mqtt_su.Base.{
  ◌≡◌, inl, inr, ℕ, refl, ◌∙◌, Bool, true, false, ◌&&◌, List, [], ◌∷◌, ◌++◌, Option, none, some,
  ◌==◌, if◌then◌else◌, Bool-cases,
}
use cursor_embed_cus_mqtt_su.Base.Esp.{Returned, ok, err, fault}
use cursor_embed_cus_mqtt_su.WebSocket.Frame.{Message, ws_encode_frame, ws_decode_frame}
use cursor_embed_cus_mqtt_su.WebSocket.Client.{
  State, disconnected, connecting, connected, closing, Recv, got, peer_closed, failed, Given,
  Action, event_connected, event_disconnected, send_close, send_pong, close_socket, event_data,
  sent, send_queued, handle_message, receive_data, then_receive, ws_client_task, run,
}

-- Whether a connection is reported, and no loss of it since, after some actions.
pub was_up : Bool → List Action → Bool
was_up up [] = up
was_up up (event_connected ∷ xs) = was_up true xs
was_up up (event_disconnected ∷ xs) = was_up false xs
was_up up (_ ∷ xs) = was_up up xs

-- Data and the loss of a connection are reported, and frames sent, only while a connection is reported:
-- behind its report, and before that of its loss.
pub in_order : Bool → List Action → Bool
in_order up [] = true
in_order up (event_connected ∷ xs) = in_order true xs
in_order up (event_disconnected ∷ xs) = up && in_order false xs
in_order up (event_data m ∷ xs) = up && in_order up xs
in_order up (send_close ∷ xs) = up && in_order up xs
in_order up (send_pong ∷ xs) = up && in_order up xs
in_order up (sent f ∷ xs) = up && in_order up xs
in_order up (close_socket ∷ xs) = in_order up xs

-- Whether a state needs that a connection is reported.
pub needs_up : State → Bool
needs_up disconnected = false
needs_up connecting = false
needs_up connected = true
needs_up closing = true

both : (up b c : Bool) → (up && b) ≡ true → (b ≡ true → c ≡ true) → (up && c) ≡ true
both true b c h f = f h
both false b c h f = h

in_order-append :
    (up : Bool) (xs bs : List Action)
    → in_order up xs ≡ true
    → in_order (was_up up xs) bs ≡ true
    → in_order up (xs ++ bs) ≡ true
unfolding in_order was_up
in_order-append up [] bs h k = k
in_order-append up (event_connected ∷ xs) bs h k = in_order-append true xs bs h k
in_order-append up (event_disconnected ∷ xs) bs h k =
    both up (in_order false xs) (in_order false (xs ++ bs)) h (λ i. in_order-append false xs bs i k)
in_order-append up (event_data m ∷ xs) bs h k =
    both up (in_order up xs) (in_order up (xs ++ bs)) h (λ i. in_order-append up xs bs i k)
in_order-append up (send_close ∷ xs) bs h k =
    both up (in_order up xs) (in_order up (xs ++ bs)) h (λ i. in_order-append up xs bs i k)
in_order-append up (send_pong ∷ xs) bs h k =
    both up (in_order up xs) (in_order up (xs ++ bs)) h (λ i. in_order-append up xs bs i k)
in_order-append up (sent f ∷ xs) bs h k =
    both up (in_order up xs) (in_order up (xs ++ bs)) h (λ i. in_order-append up xs bs i k)
in_order-append up (close_socket ∷ xs) bs h k = in_order-append up xs bs h k

was_up-append : (up : Bool) (xs bs : List Action) → was_up up (xs ++ bs) ≡ was_up (was_up up xs) bs
unfolding was_up
was_up-append up [] bs = refl
was_up-append up (event_connected ∷ xs) bs = was_up-append true xs bs
was_up-append up (event_disconnected ∷ xs) bs = was_up-append false xs bs
was_up-append up (event_data m ∷ xs) bs = was_up-append up xs bs
was_up-append up (send_close ∷ xs) bs = was_up-append up xs bs
was_up-append up (send_pong ∷ xs) bs = was_up-append up xs bs
was_up-append up (close_socket ∷ xs) bs = was_up-append up xs bs
was_up-append up (sent f ∷ xs) bs = was_up-append up xs bs

-- What is asked of the actions of a round or a run, and of the state behind it.
abbrev pub Fine : Bool → Returned (List Action × State) → Type 0
Fine up (ok (xs, s)) = (in_order up xs ≡ true) × (needs_up s ≡ true → was_up up xs ≡ true)
Fine up (err e) = Unit
Fine up fault = Unit

-- A result, followed by what it leads to.
Fine-then :
    (up : Bool) (xs : List Action) (r : Returned (List Action × State))
    → in_order up xs ≡ true
    → Fine (was_up up xs) r
    → Fine up (elim r as (λ x. Returned (List Action × State)) [
      | ok (more, after) ↦ ok (xs ++ more, after)
      | err e ↦ err e
      | fault ↦ fault
    ])
Fine-then up xs (ok (more, after)) h f =
    (in_order-append up xs more h f.0, λ n. was_up-append up xs more ∙ f.1 n)
Fine-then up xs (err e) h f = tt
Fine-then up xs fault h f = tt

-- The sending of a round leaves the connection reported.
abbrev Upright : Returned (List Action × State) → Type 0
Upright (ok (xs, s)) = (in_order true xs ≡ true) × (was_up true xs ≡ true)
Upright (err e) = Unit
Upright fault = Unit

message-Fine : (m : Message) (s : State) → Fine true (ok (handle_message m s))
unfolding handle_message in_order was_up
message-Fine m s = elim (Bool-cases (m.opcode == 8)) [
  | inl e ↦ rw (e, Fine) (refl, λ n. refl)
  | inr e ↦
      rw (e, Fine)
        (elim (Bool-cases (m.opcode == 9)) [
          | inl f ↦ rw (f, Fine) (refl, λ n. refl)
          | inr f ↦
              rw (f, Fine)
                (elim (Bool-cases (m.opcode == 10)) [
                  | inl g ↦ rw (g, Fine) (refl, λ n. refl)
                  | inr g ↦ rw (g, Fine) (refl, λ n. refl)
                ])
        ])
]

decoded-Fine :
    (s : State) (r : Returned (Message × ℕ))
    → (needs_up s ≡ true → true ≡ true)
    → Fine true (elim r as (λ x. Returned (List Action × State)) [
      | ok (m, frame_len) ↦ ok (handle_message m s)
      | err e ↦ ok ([], s)
      | fault ↦ fault
    ])
unfolding in_order was_up
decoded-Fine s (ok (m, frame_len)) h = message-Fine m s
decoded-Fine s (err e) h = (refl, λ n. refl)
decoded-Fine s fault h = tt

received-Fine :
    (malloc : ℕ → Bool) (s : State) (r : Recv)
    → Fine true (elim r as (λ x. Returned (List Action × State)) [
      | peer_closed ↦ ok ([], s)
      | failed ↦ ok ([], disconnected)
      | got bytes ↦
          elim (ws_decode_frame malloc (some bytes) true) as (λ x. Returned (List Action × State)) [
            | ok (m, frame_len) ↦ ok (handle_message m s)
            | err e ↦ ok ([], s)
            | fault ↦ fault
          ]
    ])
unfolding in_order was_up
received-Fine malloc s peer_closed = (refl, λ n. refl)
received-Fine malloc s failed = (refl, λ n. refl)
received-Fine malloc s (got bytes) =
    decoded-Fine s (ws_decode_frame malloc (some bytes) true) (λ n. refl)

receive-Fine : (g : Given) (s : State) → Fine true (receive_data g s)
unfolding receive_data
receive-Fine g s = received-Fine g.malloc s g.received

then-Fine :
    (g : Given) (r : Returned (List Action × State)) → Upright r → Fine true (then_receive g r)
unfolding then_receive
then-Fine g fault f = tt
then-Fine g (err e) f = tt
then-Fine g (ok (xs, s)) f = Fine-then true xs (receive_data g s) f.0 (rw f.1 (receive-Fine g s))

encoded-Upright :
    (sends : Bool) (r : Returned (List ℕ))
    → Upright (elim r as (λ x. Returned (List Action × State)) [
      | ok frame ↦ ok (sent frame ∷ [], if sends then connected else disconnected)
      | err e ↦ ok ([], connected)
      | fault ↦ fault
    ])
unfolding in_order was_up
encoded-Upright sends (ok frame) = (refl, refl)
encoded-Upright sends (err e) = (refl, refl)
encoded-Upright sends fault = tt

queued-Upright :
    (sends : Bool) (buffer : List ℕ) (queued : Option Message)
    → Upright (elim queued as (λ x. Returned (List Action × State)) [
      | none ↦ ok ([], connected)
      | some m ↦
          elim (ws_encode_frame (some m) (some buffer) true)
            as (λ x. Returned (List Action × State)) [
              | ok frame ↦ ok (sent frame ∷ [], if sends then connected else disconnected)
              | err e ↦ ok ([], connected)
              | fault ↦ fault
            ]
    ])
unfolding in_order was_up
queued-Upright sends buffer none = (refl, refl)
queued-Upright sends buffer (some m) =
    encoded-Upright sends (ws_encode_frame (some m) (some buffer) true)

queue-Upright : (g : Given) → Upright (send_queued g)
unfolding send_queued
queue-Upright g = queued-Upright g.sends g.buffer g.queued

task-Fine :
    (g : Given) (up : Bool) (s : State)
    → (needs_up s ≡ true → up ≡ true)
    → Fine up (ws_client_task g s)
unfolding ws_client_task needs_up in_order was_up
task-Fine g up disconnected h = (refl, λ n. absurd (not_needed g.connects n))
  where
    not_needed : (b : Bool) → needs_up (if b then connecting else disconnected) ≡ true → ⊥
    not_needed true n = cc
    not_needed false n = cc
task-Fine g up connecting h = elim (Bool-cases g.shakes) [
  | inl e ↦ rw (e, Fine) (refl, λ n. refl)
  | inr e ↦ rw (e, Fine) (refl, λ n. absurd (cc n))
]
task-Fine g up connected h = rw (h refl) (then-Fine g (send_queued g) (queue-Upright g))
task-Fine g up closing h = (rw (h refl) refl, λ n. absurd (cc n))

-- A round, and the rounds behind it.
chain-Fine :
    (gs : List Given) (up : Bool) (r : Returned (List Action × State))
    → Fine up r
    → ((up : Bool) (s : State) → (needs_up s ≡ true → up ≡ true) → Fine up (run gs s))
    → Fine up (elim r as (λ x. Returned (List Action × State)) [
      | err e ↦ err e
      | fault ↦ fault
      | ok (xs, mid) ↦ elim (run gs mid) as (λ x. Returned (List Action × State)) [
        | ok (more, after) ↦ ok (xs ++ more, after)
        | err e ↦ err e
        | fault ↦ fault
      ]
    ])
chain-Fine gs up (ok (xs, mid)) f k = Fine-then up xs (run gs mid) f.0 (k (was_up up xs) mid f.1)
chain-Fine gs up (err e) f k = tt
chain-Fine gs up fault f k = tt

run-Fine :
    (gs : List Given) (up : Bool) (s : State) → (needs_up s ≡ true → up ≡ true) → Fine up (run gs s)
unfolding run in_order was_up
run-Fine [] up s h = (refl, h)
run-Fine (g ∷ gs) up s h = chain-Fine gs up (ws_client_task g s) (task-Fine g up s h) (run-Fine gs)

-- Over any number of rounds from the state that the client starts in, the callback is told of data and of a
-- loss of the connection, and frames are sent, only while the callback knows of a connection: a connection
-- is reported before, and no loss of it since.
pub run-in_order :
    (gs : List Given) (actions : List Action) (s : State)
    → run gs disconnected ≡ ok (actions, s)
    → in_order false actions ≡ true
unfolding needs_up
run-in_order gs actions s e = (rw e at (run-Fine gs false disconnected (λ n. n))).0
