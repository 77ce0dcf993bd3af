-- ===== src/Mqtt/Client/Rounds.antt =====
-- Rounds of the task: a client that never leaves its first state, a message on its way to a peer, and a
-- message that does not fit the buffer.
use cursor_embed_cus_mqtt_su.Base.{
  ℕ, ◌+◌, ◌^◌, ◌≤◌, ◌<◌, ◌≡◌, ◌≢◌, refl, ap, sym, subst, ◌∙◌, arith, Bool, true, false, List, [],
  ◌∷◌, ◌++◌, append-nil, Option, none, some, length, length-append, ltb, lt→ltb, ltb-false,
  if◌then◌else◌, All, Outcome, ok,
}
use cursor_embed_cus_mqtt_su.Mqtt.Types.{Message}
use cursor_embed_cus_mqtt_su.Mqtt.Encoder.{
  mqtt_encode_publish, publish_header, encode_remaining_length, encode_string, packet_id_field,
}
use cursor_embed_cus_mqtt_su.Mqtt.Decoder.{mqtt_decode_publish}
use cursor_embed_cus_mqtt_su.Mqtt.Strings.{length-encode_string}
use cursor_embed_cus_mqtt_su.Mqtt.Publish.{decode-encode_publish}
use cursor_embed_cus_mqtt_su.Mqtt.Client.{
  disconnected, connected, Client, null, live, mqtt_client_init, get_next_packet_id, buffer_size,
  RecvAnswer, Action, wire, publish, encode_internal, Given, Round, goes, blocks, faults,
  sent_actions, send_encoded, send_queued, receive_data, mqtt_client_task, run,
}
use cursor_embed_cus_mqtt_su.Mqtt.Client.Socket.{Accepts, send_packet_whole}

idle : (g : Given) (c : Client) → c.state ≡ disconnected → mqtt_client_task g c ≡ goes [] c
unfolding mqtt_client_task
idle g c h = ground (arith, h)

-- The rounds behind the actions of one.
abbrev after : List Action → Round → Round
after actions (goes more c) = goes (actions ++ more) c
after actions (blocks more) = blocks (actions ++ more)
after actions faults = faults

stays : (gs : List Given) (c : Client) → c.state ≡ disconnected → run gs c ≡ goes [] c
unfolding run
stays [] c h = refl
stays (g ∷ gs) c h = rw (idle g c h, run) (rw (stays gs c h, run) refl)

-- A client that `mqtt_client_init` has made stays as it is over any number of rounds, whatever the socket
-- and the queue give: it sends nothing, receives nothing and reports nothing, since the task only works
-- in the connected state, and only the task could reach it.
pub init_never_connects :
    (options callback : Bool) (c : Client) (gs : List Given)
    → mqtt_client_init null options callback true true true true ≡ some (none, live c)
    → run gs c ≡ goes [] c
unfolding mqtt_client_init
init_never_connects options callback c gs h = stays gs c (ground (arith, h))

-- The packet of a message is what the encoder's steps give, one behind the other.
packet_lem :
    (m : Message) (id : ℕ) (topic : List ℕ)
    → m.topic ≡ some topic
    → length topic < 2 ^ 16
    → (packet : List ℕ) × (mqtt_encode_publish (some m) id true buffer_size ≡ ok packet)
      × (length topic + length m.payload < length packet)
unfolding mqtt_encode_publish
packet_lem m id topic ht hl =
    let n = 2 + length topic + (if ltb 0 m.qos then 2 else 0) + length m.payload in
    (
      publish_header m
          ∷ (encode_remaining_length n
              ++ (encode_string topic ++ (packet_id_field m.qos id ++ m.payload))),
      simp ht refl,
      omega (
        arith,
        length-append (encode_remaining_length n)
            (encode_string topic ++ (packet_id_field m.qos id ++ m.payload)),
        length-append (encode_string topic) (packet_id_field m.qos id ++ m.payload),
        length-append (packet_id_field m.qos id) m.payload,
        length-encode_string topic hl,
      ),
    )

same_packet : {a b : List ℕ} → ◌≡◌ {A = Outcome (List ℕ)} (ok a) (ok b) → a ≡ b
same_packet e = cc

-- The round of a connected client with a message in the queue, by its packet.
explicit_round :
    (sends : List (Option ℕ)) (readable : Bool) (receives : List RecvAnswer) (malloc : ℕ → Bool)
    (id : ℕ) (callback : Bool) (m : Message) (packet : List ℕ)
    → mqtt_encode_publish (some m) (get_next_packet_id id) true buffer_size ≡ ok packet
    → let g : Given = record {
      queued = some (publish m);
      sends = sends;
      readable = readable;
      receives = receives;
      malloc = malloc;
    } in
      mqtt_client_task g (record { state = connected; next_packet_id = id; callback = callback })
      ≡ receive_data g (
          send_encoded sends
            (record {
              state = connected;
              next_packet_id = get_next_packet_id id;
              callback = callback;
            })
            (ok packet))
unfolding mqtt_client_task send_queued encode_internal
explicit_round sends readable receives malloc id callback m packet e =
    ap
      (λ r.
        receive_data
          (record {
            queued = some (publish m);
            sends = sends;
            readable = readable;
            receives = receives;
            malloc = malloc;
          })
          (send_encoded sends
            (record {
              state = connected;
              next_packet_id = get_next_packet_id id;
              callback = callback;
            })
            r))
      e

round_lem :
    (g : Given) (c : Client) (m : Message) (packet : List ℕ)
    → c.state ≡ connected
    → g.queued ≡ some (publish m)
    → mqtt_encode_publish (some m) (get_next_packet_id c.next_packet_id) true buffer_size
      ≡ ok packet
    → mqtt_client_task g c
      ≡ receive_data g (
          send_encoded g.sends
            (record c { next_packet_id = get_next_packet_id c.next_packet_id })
            (ok packet))
round_lem g c m packet hc hg e =
    let whole_g : record g { queued = some (publish m) } ≡ g =
      ap (λ x. record g { queued = x }) (sym hg) in
    let whole_c : record c { state = connected } ≡ c = ap (λ x. record c { state = x }) (sym hc) in
    subst
      (λ h.
        mqtt_client_task h c
        ≡ receive_data h (
            send_encoded h.sends (record c { next_packet_id = get_next_packet_id c.next_packet_id })
              (ok packet)))
      whole_g
      (subst
        (λ d.
          mqtt_client_task (record g { queued = some (publish m) }) d
          ≡ receive_data (record g { queued = some (publish m) })
              (send_encoded g.sends
                (record d { next_packet_id = get_next_packet_id d.next_packet_id }) (ok packet)))
        whole_c
        (explicit_round g.sends g.readable g.receives g.malloc c.next_packet_id c.callback m packet
          e))

-- In a connected client, a message from the queue whose packet fits the buffer is sent whole, under an
-- identifier of its own, and `mqtt_decode_publish` reads that message from what the socket took, if the
-- topic has no NUL and is shorter than 256 bytes, the QoS is below 4, no call of `send` fails and there
-- are as many as the packet has bytes, nothing is received, and every `malloc` of the reader succeeds.
pub publish_round :
    (malloc : ℕ → Bool) (g : Given) (c : Client) (topic payload packet : List ℕ) (q : ℕ)
    (retain dup : Bool)
    → let m : Message = record {
      topic = some topic;
      payload = payload;
      qos = q;
      retain = retain;
      dup = dup;
    } in
      let id = get_next_packet_id c.next_packet_id in
      ((k : ℕ) → malloc k ≡ true)
      → All (λ b. b ≢ 0) topic
      → length topic < 256
      → q < 4
      → c.state ≡ connected
      → g.queued ≡ some (publish m)
      → g.readable ≡ false
      → mqtt_encode_publish (some m) id true buffer_size ≡ ok packet
      → length packet ≤ buffer_size
      → Accepts g.sends (length packet)
      → length packet ≤ length g.sends
      → (mqtt_client_task g c ≡ goes (wire packet ∷ []) (record c { next_packet_id = id }))
        × (mqtt_decode_publish malloc (some packet) true ≡ ok (m, length packet))
unfolding send_encoded sent_actions receive_data
publish_round malloc g c topic payload packet q retain dup hm hz hl hq hc hg hr e hp ha hs =
    let m : Message = record {
      topic = some topic;
      payload = payload;
      qos = q;
      retain = retain;
      dup = dup;
    } in
    let id = get_next_packet_id c.next_packet_id in
    let (p, ep, size) = packet_lem m id topic refl (omega arith) in
    let sized : length topic + length payload < length packet =
      rw (same_packet (sym ep ∙ e)) at size in
    let (r, er, d) =
      decode-encode_publish malloc topic payload [] q id buffer_size retain dup hm hz hl hq
        (omega arith) (omega arith) in
    (
      round_lem g c m packet hc hg e
          ∙ rw (ltb-false buffer_size (length packet) hp, send_packet_whole g.sends packet ha hs)
              (simp hr refl),
      rw (append-nil r, same_packet (sym er ∙ e)) at d,
    )

-- A message for a connected client whose topic and payload pass the buffer of 1024 bytes is written past
-- its end.
pub publish_overflows :
    (g : Given) (c : Client) (m : Message) (topic : List ℕ)
    → c.state ≡ connected
    → g.queued ≡ some (publish m)
    → m.topic ≡ some topic
    → length topic < 2 ^ 16
    → buffer_size ≤ length topic + length m.payload
    → mqtt_client_task g c ≡ faults
unfolding send_encoded receive_data
publish_overflows g c m topic hc hg ht hl hb =
    let (packet, e, size) = packet_lem m (get_next_packet_id c.next_packet_id) topic ht hl in
    round_lem g c m packet hc hg e ∙ rw (lt→ltb buffer_size (length packet) (omega arith)) refl
