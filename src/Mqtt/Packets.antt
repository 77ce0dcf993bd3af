-- ===== src/Mqtt/Packets.antt =====
-- Every packet that mqtt_encoder.c writes is framed: its fixed header gives the number of bytes
-- that follow.
use cursor_embed_cus_mqtt_su.Base.{
  ℕ, suc, ◌+◌, ◌^◌, ◌≤◌, ◌<◌, ◌≡◌, ◌≢◌, refl, arith, true, false, Option, none, some, List, [], ◌∷◌,
  ◌++◌, length, length-append, ltb-false, ◌==◌, All, IsByte, Outcome, ok, rejected, fault,
}
use cursor_embed_cus_mqtt_su.Mqtt.Types.{ConnectOptions, TopicFilter}
use cursor_embed_cus_mqtt_su.Mqtt.Encoder.{
  encode_string, encode_remaining_length, will_length, will_fields, credentials_length,
  credentials_fields, mqtt_encode_connect, filters_length, encode_filters, mqtt_encode_subscribe,
  topics_length, encode_topics, mqtt_encode_unsubscribe,
}
use cursor_embed_cus_mqtt_su.Mqtt.Decoder.{mqtt_decode_fixed_header}
use cursor_embed_cus_mqtt_su.Mqtt.Strings.{
  header_of, decode_fixed_header-encode, length-encode_string,
}

-- The fixed header of `packet` starts with `first` and counts the bytes behind it.
abbrev pub IsFramed : ℕ → List ℕ → Type 0
IsFramed first packet =
    (n : ℕ) × (k : ℕ) × (mqtt_decode_fixed_header (some packet) true ≡ ok (header_of first n, k))
    × (k + n ≡ length packet)

-- The routine succeeds, and what it writes is framed.
abbrev pub Emits : ℕ → Outcome (List ℕ) → Type 0
Emits first (ok packet) = IsFramed first packet
Emits first rejected = ⊥
Emits first fault = ⊥

frame :
    (first n : ℕ) (body : List ℕ)
    → IsByte first
    → n < 128 ^ 3
    → n ≡ length body
    → IsFramed first (first ∷ (encode_remaining_length n ++ body))
frame first n body hf hn e = (
  n,
  length (encode_remaining_length n) + 1,
  decode_fixed_header-encode first n body hf hn,
  omega (arith, length-append (encode_remaining_length n) body),
)

not_zero : (n : ℕ) → (suc n == 0) ≡ false
not_zero n = ground arith

abbrev pub IsShort : List ℕ → Type 0
IsShort s = length s < 2 ^ 16

abbrev pub IsShortOption : Option (List ℕ) → Type 0
IsShortOption none = Unit
IsShortOption (some s) = IsShort s

length-will_fields :
    (t m : Option (List ℕ))
    → IsShortOption t
    → IsShortOption m
    → (length (will_fields t m) ≡ will_length t m) × (will_length t m ≤ 2 ^ 17 + 4)
unfolding will_fields will_length
length-will_fields none m ht hm = omega arith
length-will_fields (some t) none ht hm = omega arith
length-will_fields (some t) (some m) ht hm = omega (
  arith,
  length-append (encode_string t) (encode_string m),
  length-encode_string t ht,
  length-encode_string m hm,
)

length-credentials_fields :
    (u p : Option (List ℕ))
    → IsShortOption u
    → IsShortOption p
    → (length (credentials_fields u p) ≡ credentials_length u p)
      × (credentials_length u p ≤ 2 ^ 17 + 4)
unfolding credentials_fields credentials_length
length-credentials_fields none m ht hm = omega arith
length-credentials_fields (some t) none ht hm = omega (arith, length-encode_string t ht)
length-credentials_fields (some t) (some m) ht hm = omega (
  arith,
  length-append (encode_string t) (encode_string m),
  length-encode_string t ht,
  length-encode_string m hm,
)

-- A CONNECT packet is framed, with its remaining length counting what follows, whatever its options
-- are, if there is a client identifier, no string passes 65535 bytes and `buf_len` is at least 10.
pub encode_connect-IsFramed :
    (o : ConnectOptions) (client_id : List ℕ) (buf_len : ℕ)
    → o.client_id ≡ some client_id
    → IsShort client_id
    → IsShortOption o.will_topic
    → IsShortOption o.will_message
    → IsShortOption o.username
    → IsShortOption o.password
    → 10 ≤ buf_len
    → Emits 16 (mqtt_encode_connect (some o) true buf_len)
unfolding mqtt_encode_connect
encode_connect-IsFramed o client_id buf_len e hc ht hm hu hp hb =
    let will = length-will_fields o.will_topic o.will_message ht hm in
    let credentials = length-credentials_fields o.username o.password hu hp in
    rw (ltb-false buf_len 10 hb, e)
      (frame 16 _ _ (omega arith) (omega arith) (
        omega (
          arith,
          length-encode_string client_id hc,
          length-append (encode_string client_id)
              (will_fields o.will_topic o.will_message ++ credentials_fields o.username o.password),
          length-append (will_fields o.will_topic o.will_message)
              (credentials_fields o.username o.password),
        )))

-- A SUBSCRIBE or UNSUBSCRIBE packet is framed, if no topic passes 65535 bytes and the whole fits
-- three groups of length.
abbrev ShortFilters : List TopicFilter → Type 0
ShortFilters = All (λ t. IsShort t.topic)

length-encode_filters :
    (ts : List TopicFilter) → ShortFilters ts → length (encode_filters ts) ≡ filters_length ts
unfolding encode_filters filters_length
length-encode_filters [] h = refl
length-encode_filters (t ∷ ts) h = omega (
  arith,
  length-append (encode_string t.topic) (t.qos ∷ encode_filters ts),
  length-encode_string t.topic h.0,
  length-encode_filters ts h.1,
)

length-encode_topics :
    (ts : List (List ℕ)) → All IsShort ts → length (encode_topics ts) ≡ topics_length ts
unfolding encode_topics topics_length
length-encode_topics [] h = refl
length-encode_topics (t ∷ ts) h = omega (
  arith,
  length-append (encode_string t) (encode_topics ts),
  length-encode_string t h.0,
  length-encode_topics ts h.1,
)

-- A SUBSCRIBE packet is framed, with its remaining length counting what follows, if there is a filter,
-- no topic passes 65535 bytes, the length fits three groups and `buf_len` is at least 2.
pub encode_subscribe-IsFramed :
    (id buf_len : ℕ) (topics : List TopicFilter)
    → topics ≢ []
    → All (λ t. IsShort t.topic) topics
    → 2 + filters_length topics < 128 ^ 3
    → 2 ≤ buf_len
    → Emits 130 (mqtt_encode_subscribe id (some topics) true buf_len)
unfolding mqtt_encode_subscribe
encode_subscribe-IsFramed id buf_len [] hne hs hn hb = absurd (hne refl)
encode_subscribe-IsFramed id buf_len (t ∷ ts) hne hs hn hb =
    rw (ltb-false buf_len 2 hb, not_zero (length ts))
      (frame 130 _ _ (omega arith) hn (omega (arith, length-encode_filters (t ∷ ts) hs)))

-- An UNSUBSCRIBE packet is framed, with its remaining length counting what follows, if there is a
-- topic, none passes 65535 bytes, the length fits three groups and `buf_len` is at least 2.
pub encode_unsubscribe-IsFramed :
    (id buf_len : ℕ) (topics : List (List ℕ))
    → topics ≢ []
    → All IsShort topics
    → 2 + topics_length topics < 128 ^ 3
    → 2 ≤ buf_len
    → Emits 162 (mqtt_encode_unsubscribe id (some topics) true buf_len)
unfolding mqtt_encode_unsubscribe
encode_unsubscribe-IsFramed id buf_len [] hne hs hn hb = absurd (hne refl)
encode_unsubscribe-IsFramed id buf_len (t ∷ ts) hne hs hn hb =
    rw (ltb-false buf_len 2 hb, not_zero (length ts))
      (frame 162 _ _ (omega arith) hn (omega (arith, length-encode_topics (t ∷ ts) hs)))
