-- ===== src/WebSocket/Handshake/Response.antt =====
-- Which responses are accepted.
use cursor_embed_cus_mqtt_su.Base.{
  ℕ, ◌≡◌, ◌≢◌, ◌↔◌, refl, sym, ap, subst, ◌∙◌, arith, inl, inr, true, List, [], ◌∷◌, ◌++◌, none,
  some, length, drop, drop-length_append, ◌==◌, ==_iff, Bool-cases, Option-cases,
}
use cursor_embed_cus_mqtt_su.WebSocket.Handshake.{
  Library, calculate_accept_key, is_prefix, strstr, has_text, check_accept,
  ws_verify_handshake_response,
}
use cursor_embed_cus_mqtt_su.WebSocket.Handshake.Texts.{
  status_101, upgrade_header, connection_header, accept_header,
}

-- A text that begins with another, and one that has it in it.
abbrev pub Begins : List ℕ → List ℕ → Type 0
Begins wanted text = (back : List ℕ) × (text ≡ wanted ++ back)

abbrev pub Contains : List ℕ → List ℕ → Type 0
Contains text wanted = (front : List ℕ) × (back : List ℕ) × (text ≡ front ++ (wanted ++ back))

is_prefix-Begins : (wanted text : List ℕ) → is_prefix wanted text ≡ true → Begins wanted text
unfolding is_prefix
is_prefix-Begins [] text h = (text, refl)
is_prefix-Begins (p ∷ ps) [] h = absurd (ground (arith, h))
is_prefix-Begins (p ∷ ps) (x ∷ xs) h = elim (Bool-cases (p == x)) [
  | inl e ↦
      let (back, same) = is_prefix-Begins ps xs (rw e at h) in
      (back, rw ((==_iff p x).0 e) (ap (λ l. x ∷ l) same))
  | inr e ↦ absurd (ground (arith, h, e))
]

prefix-append : (wanted back : List ℕ) → is_prefix wanted (wanted ++ back) ≡ true
unfolding is_prefix
prefix-append [] back = refl
prefix-append (p ∷ ps) back = rw ((==_iff p p).1 refl) (prefix-append ps back)

-- What `strstr` finds is the end of the text, and begins with what is wanted.
abbrev Found : List ℕ → List ℕ → List ℕ → Type 0
Found text wanted found = ((front : List ℕ) × (text ≡ front ++ found)) × Begins wanted found

found_here :
    (text wanted found : List ℕ)
    → is_prefix wanted text ≡ true
    → some text ≡ some found
    → Found text wanted found
found_here text wanted found e s =
    let same : text ≡ found = cc in
    (([], same), subst (λ l. Begins wanted l) same (is_prefix-Begins wanted text e))

strstr_lem :
    (text wanted found : List ℕ) → strstr text wanted ≡ some found → Found text wanted found
unfolding strstr
strstr_lem [] wanted found h = elim (Bool-cases (is_prefix wanted [])) [
  | inl e ↦ found_here [] wanted found e (rw e at h)
  | inr e ↦ absurd (ground (arith, h, e))
]
strstr_lem (x ∷ xs) wanted found h = elim (Bool-cases (is_prefix wanted (x ∷ xs))) [
  | inl e ↦ found_here (x ∷ xs) wanted found e (rw e at h)
  | inr e ↦
      let ((front, same), begins) = strstr_lem xs wanted found (rw e at h) in
      ((x ∷ front, ap (λ l. x ∷ l) same), begins)
]

-- A text that begins with what is wanted, or whose rest has it, is not searched in vain.
strstr_first :
    (text wanted : List ℕ) → is_prefix wanted text ≡ true → strstr text wanted ≡ some text
unfolding strstr
strstr_first [] wanted e = rw e refl
strstr_first (x ∷ xs) wanted e = rw e refl

strstr-none : (front wanted back : List ℕ) → strstr (front ++ (wanted ++ back)) wanted ≢ none
unfolding strstr
strstr-none [] wanted back h =
    absurd (ground (arith, h, strstr_first (wanted ++ back) wanted (prefix-append wanted back)))
strstr-none (x ∷ front) wanted back h =
    elim (Bool-cases (is_prefix wanted (x ∷ (front ++ (wanted ++ back))))) [
      | inl e ↦ absurd (ground (arith, h, e))
      | inr e ↦ strstr-none front wanted back (rw e at h)
    ]

has_text-Contains : (text wanted : List ℕ) → has_text text wanted ≡ true → Contains text wanted
unfolding has_text
has_text-Contains text wanted h = elim (Option-cases (strstr text wanted)) [
  | inl e ↦ absurd (ground (arith, h, e))
  | inr (found, e) ↦
      let ((front, same), (back, begins)) = strstr_lem text wanted found e in
      (front, back, same ∙ ap (λ l. front ++ l) begins)
]

Contains-has_text : (text wanted : List ℕ) → Contains text wanted → has_text text wanted ≡ true
unfolding has_text
Contains-has_text text wanted (front, back, same) = elim (Option-cases (strstr text wanted)) [
  | inl e ↦ absurd (strstr-none front wanted back (rw same at e))
  | inr (found, e) ↦ rw (e, has_text) refl
]

-- The status 101 at the start, both headers, and the accept key for the key behind the first accept header.
abbrev pub IsAnswer : Library → List ℕ → List ℕ → Type 0
IsAnswer lib response key =
    Begins status_101 response
    × Contains response upgrade_header
    × Contains response connection_header
    × (expected : List ℕ) × (back : List ℕ) × (calculate_accept_key lib key 32 ≡ some expected)
    × (strstr response accept_header ≡ some (accept_header ++ (expected ++ back)))

accept-check :
    (lib : Library) (key found : List ℕ)
    → Begins accept_header found
    → check_accept lib key found ≡ some none
    → (expected : List ℕ) × (back : List ℕ) × (calculate_accept_key lib key 32 ≡ some expected)
      × (found ≡ accept_header ++ (expected ++ back))
unfolding check_accept
accept-check lib key found (rest, same) h = elim (Option-cases (calculate_accept_key lib key 32)) [
  | inl e ↦ absurd (ground (arith, h, e))
  | inr (expected, e) ↦ elim (Bool-cases (is_prefix expected (drop (length accept_header) found))) [
    | inr f ↦ absurd (ground (arith, h, e, f))
    | inl f ↦
        let (back, g) = is_prefix-Begins expected (drop (length accept_header) found) f in
        let dropped : drop (length accept_header) found ≡ rest =
          rw same (drop-length_append accept_header rest) in
        (expected, back, e, same ∙ ap (λ l. accept_header ++ l) (sym dropped ∙ g))
  ]
]

check-accept :
    (lib : Library) (key expected back : List ℕ)
    → calculate_accept_key lib key 32 ≡ some expected
    → check_accept lib key (accept_header ++ (expected ++ back)) ≡ some none
unfolding check_accept
check-accept lib key expected back e =
    rw (e, check_accept)
      (rw (drop-length_append accept_header (expected ++ back))
        (rw (prefix-append expected back) refl))

verify-IsAnswer :
    (lib : Library) (response key : List ℕ)
    → ws_verify_handshake_response lib (some response) (some key) ≡ some none
    → IsAnswer lib response key
unfolding ws_verify_handshake_response
verify-IsAnswer lib response key h = elim (Bool-cases (is_prefix status_101 response)) [
  | inr e ↦ absurd (ground (arith, h, e))
  | inl e ↦ elim (Bool-cases (has_text response upgrade_header)) [
    | inr f ↦ absurd (ground (arith, h, e, f))
    | inl f ↦ elim (Bool-cases (has_text response connection_header)) [
      | inr g ↦ absurd (ground (arith, h, e, f, g))
      | inl g ↦ elim (Option-cases (strstr response accept_header)) [
        | inl k ↦ absurd (ground (arith, h, e, f, g, k))
        | inr (found, k) ↦
            let (expected, back, same, there) =
              accept-check lib key found (strstr_lem response accept_header found k).1
                (rw (e, f, g, k, ws_verify_handshake_response) at h) in
            (
              is_prefix-Begins status_101 response e,
              has_text-Contains response upgrade_header f,
              has_text-Contains response connection_header g,
              expected,
              back,
              same,
              k ∙ ap some there,
            )
      ]
    ]
  ]
]

IsAnswer-verify :
    (lib : Library) (response key : List ℕ)
    → IsAnswer lib response key
    → ws_verify_handshake_response lib (some response) (some key) ≡ some none
unfolding ws_verify_handshake_response
IsAnswer-verify lib response key ((rest, starts), upgrade, connection, expected, back, e, k) =
    let status : is_prefix status_101 response ≡ true = rw starts (prefix-append status_101 rest) in
    rw
      (
        status,
        Contains-has_text response upgrade_header upgrade,
        Contains-has_text response connection_header connection,
        k,
        ws_verify_handshake_response,
      )
      (check-accept lib key expected back e)

-- A response is accepted exactly if it has the status 101 at its start and both headers, wherever they
-- stand, and its first accept header is followed by the accept key for the key.
pub verify_iff :
    (lib : Library) (response key : List ℕ)
    → ws_verify_handshake_response lib (some response) (some key) ≡ some none
      ↔ IsAnswer lib response key
verify_iff lib response key = (verify-IsAnswer lib response key, IsAnswer-verify lib response key)
