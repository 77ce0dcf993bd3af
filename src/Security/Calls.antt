-- ===== src/Security/Calls.antt =====
-- The calls of mbedTLS that main/security/security_layer.c and main/websocket/ws_ssl.c make, in order,
-- and what they initialise and free.
use cursor_embed_cus_mqtt_su.Base.{
  ◌≡◌, refl, sym, ap, ◌∙◌, arith, Bool, true, false, not, ◌&&◌, ◌||◌, List, [], ◌∷◌, ◌++◌,
  append_assoc, if◌then◌else◌, All, inl, inr, Bool-cases,
}

-- What is initialised and freed: the memory of the context, and the parts of it.
pub data Resource : Type 0 where
  context entropy ctr_drbg aes ssl conf cert pkey ca_cert net_ctx : Resource

pub data Call : Type 0 where
  inits frees parses : Resource → Call
  authmode : Bool → Call
  seed random_iv config_defaults conf_rng conf_ca_chain conf_own_cert handshake_timeout setup
        set_hostname :
      Call

-- What a call of mbedTLS returns: 0, or a number above or below it.
pub data Ret : Type 0 where
  zero_ret positive negative : Ret

-- `ret == 0`, and `ret >= 0`.
unfoldable pub is_zero : Ret → Bool
is_zero zero_ret = true
is_zero _ = false

pub is_not_negative : Ret → Bool
is_not_negative negative = false
is_not_negative _ = true

unfoldable pub init_of : Call → List Resource
init_of (inits r) = r ∷ []
init_of _ = []

unfoldable pub free_of : Call → List Resource
free_of (frees r) = r ∷ []
free_of _ = []

-- The resources that a trace initialises, and those that it frees.
unfoldable pub initialised : List Call → List Resource
initialised [] = []
initialised (c ∷ calls) = init_of c ++ initialised calls

unfoldable pub freed : List Call → List Resource
freed [] = []
freed (c ∷ calls) = free_of c ++ freed calls

-- A step of a sequence: its calls, and whether the sequence goes on behind them.
pub record Step : Type 0 where
  pub calls : List Call
  pub passes : Bool

-- The sequence up to the first step that does not pass, and whether all pass.
unfoldable pub sequence : List Step → List Call × Bool
sequence [] = ([], true)
sequence (s ∷ steps) =
    let (calls, passed) = sequence steps in
    if s.passes then (s.calls ++ calls, passed) else (s.calls, false)

-- A step that is there only where it is wanted.
unfoldable pub wanted : Bool → Step → List Step
wanted w s = if w then s ∷ [] else []

pub initialised-append :
    (xs ys : List Call) → initialised (xs ++ ys) ≡ initialised xs ++ initialised ys
unfolding initialised
initialised-append [] ys = refl
initialised-append (c ∷ xs) ys =
    ap (λ l. init_of c ++ l) (initialised-append xs ys)
    ∙ sym (append_assoc (init_of c) (initialised xs) (initialised ys))

pub freed-append : (xs ys : List Call) → freed (xs ++ ys) ≡ freed xs ++ freed ys
unfolding freed
freed-append [] ys = refl
freed-append (c ∷ xs) ys =
    ap (λ l. free_of c ++ l) (freed-append xs ys)
    ∙ sym (append_assoc (free_of c) (freed xs) (freed ys))

-- Calls that neither initialise nor free.
abbrev pub IsQuiet : List Call → Type 0
IsQuiet calls = (initialised calls ≡ []) × (freed calls ≡ [])

IsQuiet-append : (xs ys : List Call) → IsQuiet xs → IsQuiet ys → IsQuiet (xs ++ ys)
IsQuiet-append xs ys (a, b) (c, d) =
    (rw (initialised-append xs ys, a, c) refl, rw (freed-append xs ys, b, d) refl)

abbrev pub IsQuietStep : Step → Type 0
IsQuietStep s = IsQuiet s.calls

pub wanted-IsQuietStep : (w : Bool) (s : Step) → IsQuietStep s → All IsQuietStep (wanted w s)
unfolding wanted
wanted-IsQuietStep true s q = (q, tt)
wanted-IsQuietStep false s q = tt

pub sequence-IsQuiet : (steps : List Step) → All IsQuietStep steps → IsQuiet (sequence steps).0
unfolding sequence initialised freed
sequence-IsQuiet [] h = (refl, refl)
sequence-IsQuiet (s ∷ steps) (q, h) = elim (Bool-cases s.passes) [
  | inl e ↦ rw e (IsQuiet-append s.calls (sequence steps).0 q (sequence-IsQuiet steps h))
  | inr e ↦ rw e q
]

-- Whether all steps pass.
unfoldable pub passes_all : List Step → Bool
passes_all [] = true
passes_all (s ∷ steps) = s.passes && passes_all steps

pub sequence_passes : (steps : List Step) → (sequence steps).1 ≡ passes_all steps
unfolding sequence passes_all
sequence_passes [] = refl
sequence_passes (s ∷ steps) = elim (Bool-cases s.passes) [
  | inl e ↦ rw e (sequence_passes steps)
  | inr e ↦ rw e refl
]

-- Whether a step that may be wanted lets the sequence go on.
abbrev pub passes_if : Bool → Bool → Bool
passes_if want pass = not want || pass

pub passes-wanted :
    (w : Bool) (s : Step) (rest : List Step)
    → passes_all (wanted w s ++ rest) ≡ (passes_if w s.passes && passes_all rest)
unfolding passes_all wanted
passes-wanted true s rest = refl
passes-wanted false s rest = refl

pub passes-wanted_last :
    (w : Bool) (s : Step) → passes_all (wanted w s) ≡ (passes_if w s.passes && true)
unfolding passes_all wanted
passes-wanted_last true s = refl
passes-wanted_last false s = refl

-- The calls of all steps.
unfoldable pub all_calls : List Step → List Call
all_calls [] = []
all_calls (s ∷ steps) = s.calls ++ all_calls steps

pub all_calls-append : (xs ys : List Step) → all_calls (xs ++ ys) ≡ all_calls xs ++ all_calls ys
unfolding all_calls
all_calls-append [] ys = refl
all_calls-append (s ∷ xs) ys =
    ap (λ l. s.calls ++ l) (all_calls-append xs ys)
    ∙ sym (append_assoc s.calls (all_calls xs) (all_calls ys))

-- A sequence that passes has made the calls of all its steps, in order.
pub sequence_all :
    (steps : List Step) → (sequence steps).1 ≡ true → (sequence steps).0 ≡ all_calls steps
unfolding sequence all_calls
sequence_all [] h = refl
sequence_all (s ∷ steps) h = elim (Bool-cases s.passes) [
  | inl e ↦ rw e (ap (λ l. s.calls ++ l) (sequence_all steps (rw e at h)))
  | inr e ↦ absurd (ground (arith, e, h))
]
