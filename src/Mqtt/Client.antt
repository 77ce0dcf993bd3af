-- ===== src/Mqtt/Client.antt =====
-- main/mqtt/mqtt_client.c: packet identifiers, the loops on the socket, the handling of a packet and
-- the task by its rounds. What the socket gives is a list of answers to the calls, in order.
pub mod Ids
pub mod Socket
pub mod Rounds
mod Tests
use cursor_embed_cus_mqtt_su.Base.{
  ℕ, ◌+◌, ◌-◌, ◌%◌, ◌^◌, Bool, true, false, not, List, [], ◌∷◌, ◌++◌, Option, none, some, length,
  take, drop, ltb, leb, ◌==◌, if◌then◌else◌, Outcome, ok, rejected, fault,
}
use cursor_embed_cus_mqtt_su.Base.Esp.{EspError}
use cursor_embed_cus_mqtt_su.Mqtt.Types.{Message, TopicFilter}
use cursor_embed_cus_mqtt_su.Mqtt.PacketType
use cursor_embed_cus_mqtt_su.Mqtt.Encoder.{
  mqtt_encode_publish, mqtt_encode_subscribe, mqtt_encode_unsubscribe,
}
use cursor_embed_cus_mqtt_su.Mqtt.Decoder.{
  mqtt_decode_fixed_header, mqtt_decode_connack, mqtt_decode_publish,
}

-- mqtt_client_state_t.
pub data State : Type 0 where
  disconnected connecting connected disconnecting : State

-- The part of mqtt_client_ctx_t that changes, with whether there is a callback.
pub record Client : Type 0 where
  pub state : State
  pub next_packet_id : ℕ
  pub callback : Bool

-- mqtt_internal_message_t.
pub data Internal : Type 0 where
  publish : Message → Internal
  subscribe : Option (List ℕ) → ℕ → Internal
  unsubscribe : Option (List ℕ) → Internal
  other : Internal

-- client_ctx: NULL, or a pointer to memory that was freed, or the client.
pub data Context : Type 0 where
  null dangling : Context
  live : Client → Context

-- The buffer on the stack of the task.
abbrev pub buffer_size : ℕ
buffer_size = 1024

-- The arguments say whether there are options and a callback, and whether the heap gives the context,
-- the queue, the event group and the task. Without options `memcpy` reads from NULL: `none`.
pub mqtt_client_init :
    Context → Bool → Bool → Bool → Bool → Bool → Bool → Option (Option EspError × Context)
mqtt_client_init dangling options callback calloc queue group task =
    some (some EspError.invalid_state, dangling)
mqtt_client_init (live c) options callback calloc queue group task =
    some (some EspError.invalid_state, live c)
mqtt_client_init null options callback calloc queue group task =
    if not calloc
    then some (some EspError.no_mem, null)
    else (if not options
        then none
        else (if not queue
            then some (some EspError.no_mem, dangling)
            else (if not group
                then some (some EspError.no_mem, dangling)
                else (if not task
                    then some (some EspError.no_mem, dangling)
                    else some (
                      none,
                      live (record {
                        state = disconnected;
                        next_packet_id = 0;
                        callback = callback;
                      }),
                    )))))

-- The identifier, which is the counter afterwards.
pub get_next_packet_id : ℕ → ℕ
get_next_packet_id id = let next = (id + 1) % 2 ^ 16 in if next == 0 then 1 else next

-- How a loop on the socket ends: it is done, a call fails, or it waits for an answer.
pub data SendEnd : Type 0 where
  done failed waiting : SendEnd

-- The loop, from `sent` on, with the bytes that the socket takes. An answer of `send` is -1, `none`, or
-- the number of bytes that it took.
pub send_from : List (Option ℕ) → List ℕ → ℕ → List ℕ × SendEnd
send_from [] buf sent = ([], if ltb sent (length buf) then waiting else done)
send_from (none ∷ answers) buf sent = ([], if ltb sent (length buf) then failed else done)
send_from (some ret ∷ answers) buf sent =
    let (wire, end) = send_from answers buf (sent + ret) in
    if ltb sent (length buf) then (take ret (drop sent buf) ++ wire, end) else ([], done)

pub mqtt_send_packet : List (Option ℕ) → List ℕ → List ℕ × SendEnd
unfolding send_from
mqtt_send_packet answers buf = send_from answers buf 0

-- An answer of `recv`: -1, 0, or some bytes.
pub data RecvAnswer : Type 0 where
  recv_failed peer_closed : RecvAnswer
  got : List ℕ → RecvAnswer

pub data RecvEnd : Type 0 where
  lost waits : RecvEnd
  full : List ℕ → RecvEnd

-- The loop, with what was received.
pub receive_from : List RecvAnswer → ℕ → List ℕ → RecvEnd
receive_from [] len received = if ltb (length received) len then waits else full received
receive_from (recv_failed ∷ answers) len received =
    if ltb (length received) len then lost else full received
receive_from (peer_closed ∷ answers) len received =
    if ltb (length received) len then lost else full received
receive_from (got bytes ∷ answers) len received =
    let rest = receive_from answers len (received ++ bytes) in
    if ltb (length received) len then rest else full received

pub mqtt_receive_packet : List RecvAnswer → ℕ → RecvEnd
unfolding receive_from
mqtt_receive_packet answers len = receive_from answers len []

-- What the client does: bytes on the socket, and the events for the callback.
pub data Action : Type 0 where
  wire : List ℕ → Action
  event_connected event_disconnected : Action
  event_message : Message → Action

pub tell : Client → Action → List Action
tell c a = if c.callback then a ∷ [] else []

-- A packet, by its type; what cannot be decoded is dropped.
pub handle_mqtt_packet : (ℕ → Bool) → List ℕ → Client → Outcome (List Action × Client)
unfolding tell
handle_mqtt_packet malloc buf c = elim (mqtt_decode_fixed_header (some buf) true) [
  | fault ↦ fault
  | rejected ↦ ok ([], c)
  | ok (header, pos) ↦
      if header.type == PacketType.connack
      then elim (mqtt_decode_connack (some buf) true) [
        | fault ↦ fault
        | rejected ↦ ok ([], c)
        | ok (session_present, return_code, end) ↦
            if return_code == 0
            then ok (tell c event_connected, record c { state = connected })
            else ok ([], record c { state = disconnected })
      ]
      else (if header.type == PacketType.publish
          then elim (mqtt_decode_publish malloc (some buf) true) [
            | fault ↦ fault
            | rejected ↦ ok ([], c)
            | ok (m, end) ↦ ok (tell c (event_message m), c)
          ]
          else ok ([], c))
]

-- The packet of a message from the queue, for an identifier.
pub encode_internal : Internal → ℕ → Outcome (List ℕ)
encode_internal (publish m) id = mqtt_encode_publish (some m) id true buffer_size
encode_internal (subscribe topic qos) id = elim topic [
  | none ↦ fault
  | some t ↦ mqtt_encode_subscribe id (some (record { topic = t; qos = qos } ∷ [])) true buffer_size
]
encode_internal (unsubscribe topic) id = elim topic [
  | none ↦ fault
  | some t ↦ mqtt_encode_unsubscribe id (some (t ∷ [])) true buffer_size
]
encode_internal other id = rejected

-- What a round is given: a message of the queue, the answers of `send`, whether `select` sees the socket
-- readable, the answers of `recv`, and `malloc`.
pub record Given : Type 0 where
  pub queued : Option Internal
  pub sends : List (Option ℕ)
  pub readable : Bool
  pub receives : List RecvAnswer
  pub malloc : ℕ → Bool

-- A round goes through, or it waits in a call on the socket, or it touches memory that is not its own.
pub data Round : Type 0 where
  goes : List Action → Client → Round
  blocks : List Action → Round
  faults : Round

-- The bytes that were sent, and whether the round goes on: a failed call is ignored.
pub sent_actions : Client → List ℕ × SendEnd → Round
sent_actions c (bytes, done) = goes (wire bytes ∷ []) c
sent_actions c (bytes, failed) = goes (wire bytes ∷ []) c
sent_actions c (bytes, waiting) = blocks (wire bytes ∷ [])

-- A packet that was encoded: the encoder has written all of it to the buffer.
pub send_encoded : List (Option ℕ) → Client → Outcome (List ℕ) → Round
unfolding sent_actions
send_encoded sends c fault = faults
send_encoded sends c rejected = goes [] c
send_encoded sends c (ok packet) =
    if ltb buffer_size (length packet)
    then faults
    else sent_actions c (mqtt_send_packet sends packet)

pub send_queued : Given → Client → Round
unfolding send_encoded
send_queued g c = elim g.queued [
  | none ↦ goes [] c
  | some other ↦ goes [] c
  | some m ↦
      let id = get_next_packet_id c.next_packet_id in
      send_encoded g.sends (record c { next_packet_id = id }) (encode_internal m id)
]

-- A packet that was received, or a lost connection, behind the actions so far.
pub handle_received : (ℕ → Bool) → List Action → Client → RecvEnd → Round
unfolding tell
handle_received malloc actions c waits = blocks actions
handle_received malloc actions c lost =
    goes (actions ++ tell c event_disconnected) (record c { state = disconnected })
handle_received malloc actions c (full bytes) = elim (handle_mqtt_packet malloc bytes c) [
  | fault ↦ faults
  | rejected ↦ goes actions c
  | ok (more, after) ↦ goes (actions ++ more) after
]

pub receive_data : Given → Round → Round
unfolding handle_received
receive_data g (goes actions c) =
    if g.readable
    then handle_received g.malloc actions c (mqtt_receive_packet g.receives buffer_size)
    else goes actions c
receive_data g (blocks actions) = blocks actions
receive_data g faults = faults

pub mqtt_client_task : Given → Client → Round
unfolding send_queued receive_data
mqtt_client_task g c = elim c.state [ connected ↦ receive_data g (send_queued g c) | _ ↦ goes [] c ]

-- Rounds that follow each other, with all their actions.
pub run : List Given → Client → Round
run [] c = goes [] c
run (g ∷ gs) c = elim (mqtt_client_task g c) [
  | faults ↦ faults
  | blocks actions ↦ blocks actions
  | goes actions mid ↦ elim (run gs mid) [
    | goes more after ↦ goes (actions ++ more) after
    | blocks more ↦ blocks (actions ++ more)
    | faults ↦ faults
  ]
]
