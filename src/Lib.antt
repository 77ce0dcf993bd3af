-- ===== src/Lib.antt =====
-- The firmware of an ESP32 node: a publish/subscribe core inside the node, and MQTT, WebSocket and a
-- protocol of its own towards the network. Paths are from the root of the repository.
--
-- The parts, and the files that model them:
--   main/memory_pool.c               MemPool: the pool with its best-fit search, splitting and merging
--   main/topic_manager.c, main/subscriber_manager.c, main/publisher.c, main/include/pubsub_core.h
--                                    PubSub: topics, subscribers, publishing and the task of a topic
--   main/topic_manager_advanced.c    TopicAdvanced: the slots of the topics, and their statistics
--   main/mqtt/mqtt_encoder.c, mqtt_decoder.c, mqtt_types.h
--                                    Mqtt: Mqtt/Encoder, Mqtt/Decoder, Mqtt/Types, Mqtt/PacketType
--   main/mqtt/mqtt_client.c          Mqtt/Client: identifiers, the loops on the socket, the task
--   main/message_handler.c           MessageHandler: pending messages and their retry timers
--   main/error_handler.c             ErrorHandler: the queue of the reports and its task
--   main/security/security_layer.c   Security: contexts, as traces of calls of mbedTLS
--   main/websocket/ws_frame.c        WebSocket/Frame
--   main/websocket/ws_client.c       WebSocket/Client: the task, by its states
--   main/websocket/ws_handshake.c    WebSocket/Handshake: the key, the request and the response
--   main/websocket/ws_ssl.c          WebSocket/Ssl: the set-up of TLS, on the traces of Security/Calls
--   main/protocol/device_protocol.c  Protocol: packing, unpacking and the checksum
--   main/network_manager.c           Network/Manager: WiFi events and reconnection
--   main/network_layer.c             Network/Layer: WiFi and MQTT events
-- PubSub takes the nodes of subscribers and the copies of messages from the pool of MemPool, and gives
-- them back to it: MemPool/Owned has the pointers that are out of the pool as a multiset, PubSub/Owned
-- those that the topics hold, PubSub/Run is a history of calls, and
-- PubSub/Abstract is what the callers see of the topics. MessageHandler publishes through
-- PubSub and keeps its pending messages in the same pool, so its state has that of PubSub in it.
-- Mqtt/Client and WebSocket/Client work on the codecs beside them. The functions have the names
-- of the source. A helper stands for a loop or a branch of the function that its comment names. Each
-- part has the data and the operations in its first file and theorems in the files below, and Tests
-- applies them to concrete values. Base holds what the parts share.
--
-- How the source is read. Numbers are natural numbers, with the wrap-around of uint16_t, uint32_t,
-- size_t (32 bits) and uint64_t written out. A buffer is the list of its bytes, NULL is `none`, and a C
-- string is the list of its bytes before the zero. A routine that fails gives the code it returns, and
-- a read outside a buffer, or a free of what is not a block, is a fault or `none`. What is written to a
-- buffer is the list of the bytes from its start.
--
-- What is a parameter: malloc, which sizes it grants; the queues of FreeRTOS, a record of operations,
-- with the laws of PubSub/Publish and ErrorHandler/Order that FreeRTOS documents; base64, SHA-1 and the
-- digits of a number, with the laws of WebSocket/Handshake/Key that mbedTLS documents; what the other
-- calls of mbedTLS return; the regular expressions of the C library; whether mutexes, queues, timers and
-- tasks can be made; the clock; and, for the clients of MQTT and of WebSocket, what the socket gives in a
-- round. A call that holds a mutex from
-- start to end is one step, and so is the handling of an event of Network/Layer and the tick of a timer;
-- the calls that an event of Network/Manager leads to are made one at a time, and a round of its task can
-- fall between two of them.
--
-- No function of the model runs on fuel: the loops go over lists, over a fixed number of bytes, or, for
-- the encoder of the remaining length, over as many rounds as the number allows. The tasks that never
-- end are modelled by their rounds.
--
-- Not modelled: topic_delete_with_cleanup, which calls a function that has no body in the repository;
-- the headers of main/websocket that declare functions without a body; the start-up in main/main.c; the
-- sequences of driver calls in the init functions of the network; the texts of the log, and the reports
-- that the parts send to the error handler.
pub mod Base
pub mod ErrorHandler
pub mod MemPool
pub mod MessageHandler
pub mod Mqtt
pub mod Network
pub mod Protocol
pub mod PubSub
pub mod Security
pub mod TopicAdvanced
pub mod WebSocket
