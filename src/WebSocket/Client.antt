-- ===== src/WebSocket/Client.antt =====
-- The task of main/websocket/ws_client.c: one round of its loop, by state. The socket, the handshake
-- and the queue of messages to send are not code of the repository, or are only declared in it: what
-- they give in a round is an argument.
pub mod Trace
mod Tests
use cursor_embed_cus_mqtt_su.Base.{
  ℕ, Bool, true, false, List, [], ◌∷◌, ◌++◌, Option, none, some, ◌==◌, if◌then◌else◌,
}
use cursor_embed_cus_mqtt_su.Base.Esp.{Returned, ok, err, fault, EspError}
use cursor_embed_cus_mqtt_su.WebSocket.Frame.{Message, ws_encode_frame, ws_decode_frame}

-- ws_client_state_t.
pub data State : Type 0 where
  disconnected connecting connected closing : State

-- What `recv` gives: a number of bytes, with the bytes; 0, when the peer has closed; or -1.
pub data Recv : Type 0 where
  got : List ℕ → Recv
  peer_closed failed : Recv

-- What a round is given: the results of ws_client_connect, ws_perform_handshake, xQueueReceive,
-- send, recv and malloc, and what the buffer on the stack holds.
pub record Given : Type 0 where
  pub connects : Bool
  pub shakes : Bool
  pub queued : Option Message
  pub sends : Bool
  pub received : Recv
  pub malloc : ℕ → Bool
  pub buffer : List ℕ

-- What a round does: the events for the callback, what goes to the socket, and the waits.
pub data Action : Type 0 where
  event_connected event_disconnected send_close send_pong close_socket : Action
  event_data : Message → Action
  sent : List ℕ → Action

-- The send queue. The state becomes disconnected where `send` fails.
pub send_queued : Given → Returned (List Action × State)
send_queued g = elim g.queued [
  | none ↦ ok ([], connected)
  | some m ↦ elim (ws_encode_frame (some m) (some g.buffer) true) [
    | ok frame ↦ ok (sent frame ∷ [], if g.sends then connected else disconnected)
    | err e ↦ ok ([], connected)
    | fault ↦ fault
  ]
]

-- A frame that was decoded, by its opcode.
pub handle_message : Message → State → List Action × State
handle_message m s =
    if m.opcode == 0x8
    then (send_close ∷ [], closing)
    else (if m.opcode == 0x9
        then (send_pong ∷ [], s)
        else (if m.opcode == 0xA then ([], s) else (event_data m ∷ [], s)))

-- What was received, at the state that the sending left.
pub receive_data : Given → State → Returned (List Action × State)
unfolding handle_message
receive_data g s = elim g.received [
  | peer_closed ↦ ok ([], s)
  | failed ↦ ok ([], disconnected)
  | got bytes ↦ elim (ws_decode_frame g.malloc (some bytes) true) [
    | ok (m, frame_len) ↦ ok (handle_message m s)
    | err e ↦ ok ([], s)
    | fault ↦ fault
  ]
]

-- The round that follows the sending.
pub then_receive : Given → Returned (List Action × State) → Returned (List Action × State)
unfolding receive_data
then_receive g fault = fault
then_receive g (err e) = err e
then_receive g (ok (actions, s)) = elim (receive_data g s) [
  | ok (more, after) ↦ ok (actions ++ more, after)
  | err e ↦ err e
  | fault ↦ fault
]

pub ws_client_task : Given → State → Returned (List Action × State)
unfolding send_queued then_receive
ws_client_task g disconnected = ok ([], if g.connects then connecting else disconnected)
ws_client_task g connecting =
    if g.shakes then ok (event_connected ∷ [], connected) else ok (close_socket ∷ [], disconnected)
ws_client_task g connected = then_receive g (send_queued g)
ws_client_task g closing = ok (close_socket ∷ (event_disconnected ∷ []), disconnected)

-- The rounds that follow each other, from a state, with all their actions.
pub run : List Given → State → Returned (List Action × State)
unfolding ws_client_task
run [] s = ok ([], s)
run (g ∷ gs) s = elim (ws_client_task g s) [
  | err e ↦ err e
  | fault ↦ fault
  | ok (actions, mid) ↦ elim (run gs mid) [
    | ok (more, after) ↦ ok (actions ++ more, after)
    | err e ↦ err e
    | fault ↦ fault
  ]
]
