-- ===== src/Mqtt/Client/Socket.antt =====
-- The loops on the socket: what was sent is the packet, and what was received fills the buffer.
use cursor_embed_cus_mqtt_su.Base.{
  ℕ, zero, suc, ◌+◌, ◌-◌, ◌≤◌, ◌<◌, ◌≡◌, ◌≢◌, ◌⊎◌, refl, ap, arith, inl, inr, List, [], ◌∷◌, ◌++◌,
  Option, none, some, length, length-append, take, drop, ltb, ltb-false, Bool-cases,
}
use cursor_embed_cus_mqtt_su.Mqtt.Client.{
  done, send_from, mqtt_send_packet, RecvAnswer, recv_failed, peer_closed, got, full, receive_from,
  mqtt_receive_packet,
}

-- What the answers of `send` are where no call fails: of the bytes that are left, at least one and at
-- most all.
abbrev pub Accepts : List (Option ℕ) → ℕ → Type 0
Accepts [] left = Unit
Accepts (none ∷ answers) left = ⊥
Accepts (some ret ∷ answers) left =
    (left ≡ 0) ⊎ ((0 < ret) × (ret ≤ left) × Accepts answers (left - ret))

take_all : (k : ℕ) (xs : List ℕ) → take k xs ++ drop k xs ≡ xs
take_all zero xs = refl
take_all (suc k) [] = refl
take_all (suc k) (x ∷ xs) = ap (λ l. x ∷ l) (take_all k xs)

drop-nil : (m : ℕ) → drop {A = ℕ} m [] ≡ []
drop-nil zero = refl
drop-nil (suc m) = refl

take-drop : (k n m : ℕ) (xs : List ℕ) → m ≡ n + k → take k (drop n xs) ++ drop m xs ≡ drop n xs
take-drop k zero m xs e = let e' : m ≡ k = omega arith in rw e' (take_all k xs)
take-drop zero (suc n) m [] e = drop-nil m
take-drop (suc k) (suc n) m [] e = drop-nil m
take-drop k (suc n) zero (x ∷ xs) e = absurd (omega arith)
take-drop k (suc n) (suc m) (x ∷ xs) e = take-drop k n m xs (omega arith)

drop_all : (n : ℕ) (xs : List ℕ) → length xs ≤ n → drop n xs ≡ []
drop_all zero [] h = refl
drop_all zero (x ∷ xs) h = absurd (omega arith)
drop_all (suc n) [] h = refl
drop_all (suc n) (x ∷ xs) h = drop_all n xs (omega arith)

send_from_lem :
    (answers : List (Option ℕ)) (buf : List ℕ) (sent : ℕ)
    → Accepts answers (length buf - sent)
    → length buf - sent ≤ length answers
    → send_from answers buf sent ≡ (drop sent buf, done)
unfolding send_from
send_from_lem [] buf sent a h =
    rw (ltb-false sent (length buf) (omega arith), drop_all sent buf (omega arith)) refl
send_from_lem (none ∷ answers) buf sent a h = elim a [ ]
send_from_lem (some ret ∷ answers) buf sent a h = elim (Bool-cases (ltb sent (length buf))) [
  | inr e ↦ rw e (rw (drop_all sent buf (ground arith)) refl)
  | inl e ↦ elim a [
    | inl none_left ↦ absurd (ground arith)
    | inr (some_sent, fits, rest) ↦
        let smaller : length buf - sent - ret ≡ length buf - (sent + ret) = omega arith in
        let ih : send_from answers buf (sent + ret) ≡ (drop (sent + ret) buf, done) =
          send_from_lem answers buf (sent + ret) (rw (← smaller) rest) (ground arith) in
        rw (e, ih) (rw (take-drop ret sent (sent + ret) buf refl) refl)
  ]
]

-- If no call of `send` fails and each takes some of the bytes that are left, then as many calls as the
-- packet has bytes are enough, `mqtt_send_packet` ends, and the socket has taken the packet: every byte
-- once, in order, however it was cut.
pub send_packet_whole :
    (answers : List (Option ℕ)) (buf : List ℕ)
    → Accepts answers (length buf)
    → length buf ≤ length answers
    → mqtt_send_packet answers buf ≡ (buf, done)
unfolding mqtt_send_packet
send_packet_whole answers buf a h = send_from_lem answers buf 0 (rw (← whole) a) (omega arith)
  where
    whole : length buf ≡ length buf - 0
    whole = omega arith

-- What the answers of `recv` hold, up to the first that is no data.
abbrev pub arrived : List RecvAnswer → List ℕ
arrived [] = []
arrived (recv_failed ∷ answers) = []
arrived (peer_closed ∷ answers) = []
arrived (got bytes ∷ answers) = bytes ++ arrived answers

receive_from_lem :
    (answers : List RecvAnswer) (len : ℕ) (received bytes : List ℕ)
    → receive_from answers len received ≡ full bytes
    → (len ≤ length bytes) × (length bytes ≤ length received + length (arrived answers))
unfolding receive_from
receive_from_lem [] len received bytes h = ground arith
receive_from_lem (recv_failed ∷ answers) len received bytes h = ground arith
receive_from_lem (peer_closed ∷ answers) len received bytes h = ground arith
receive_from_lem (got more ∷ answers) len received bytes h = ground (
  arith,
  receive_from_lem answers len (received ++ more) bytes,
  length-append received more,
  length-append more (arrived answers),
)

-- `mqtt_receive_packet` gives a packet only when it has filled the whole buffer: as long as fewer bytes
-- have arrived it waits, or reports a lost connection, however complete the packet is.
pub receive_packet_fills :
    (answers : List RecvAnswer) (len : ℕ)
    → length (arrived answers) < len
    → (bytes : List ℕ) → mqtt_receive_packet answers len ≢ full bytes
unfolding mqtt_receive_packet
receive_packet_fills answers len h bytes e = omega (arith, receive_from_lem answers len [] bytes e)
