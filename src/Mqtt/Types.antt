-- ===== src/Mqtt/Types.antt =====
-- The data of main/mqtt/mqtt_types.h. A `char *` is `none` if it is NULL, and otherwise the bytes
-- before its terminator. A QoS is a number, since the decoder stores the two bits that it finds.
use cursor_embed_cus_mqtt_su.Base.{ℕ, Bool, List, Option}

-- mqtt_fixed_header_t.
pub record FixedHeader : Type 0 where
  pub type : ℕ
  pub dup_flag : ℕ
  pub qos_level : ℕ
  pub retain : ℕ
  pub remaining_length : ℕ

-- mqtt_connect_options_t, with the fields of `will` beside the others.
pub record ConnectOptions : Type 0 where
  pub client_id : Option (List ℕ)
  pub username : Option (List ℕ)
  pub password : Option (List ℕ)
  pub keep_alive : ℕ
  pub clean_session : Bool
  pub will_topic : Option (List ℕ)
  pub will_message : Option (List ℕ)
  pub will_qos : ℕ
  pub will_retain : Bool

-- mqtt_topic_filter_t.
pub record TopicFilter : Type 0 where
  pub topic : List ℕ
  pub qos : ℕ

-- mqtt_message_t. `payload` holds the `payload_len` bytes.
pub record Message : Type 0 where
  pub topic : Option (List ℕ)
  pub payload : List ℕ
  pub qos : ℕ
  pub retain : Bool
  pub dup : Bool
