-- ===== src/Security/Context/Destroyed.antt =====
-- What a context initialises, and what is freed when it is destroyed or when its creation fails.
use cursor_embed_cus_mqtt_su.Base.{
  ◌≡◌, refl, sym, ap, subst, ◌∙◌, inl, inr, Bool, true, false, ◌&&◌, List, [], ◌∷◌, ◌++◌,
  append-nil, Option, none, some, All-append, Bool-cases,
}
use cursor_embed_cus_mqtt_su.Base.Esp.{EspError}
use mathlib.Core.List.{perm_append_comm, Perm}
use mathlib.Core.List.Perm
use cursor_embed_cus_mqtt_su.Security.Calls.{
  Resource, context, entropy, ctr_drbg, aes, ssl, conf, cert, pkey, ca_cert, Call, is_zero,
  sequence, initialised, freed, init_of, free_of, initialised-append, freed-append, IsQuiet,
  IsQuietStep, wanted-IsQuietStep, sequence-IsQuiet,
}
use cursor_embed_cus_mqtt_su.Security.Context.{
  Mode, mode_none, aes_128, aes_256, tls_1_2, tls_1_3, Config, Answers, Pointer, dangling, live,
  is_given, is_some, tls_steps, tls_inits, mode_frees, security_destroy_context, Created,
  create_tls, create_aes, create_by_mode, first_calls, security_create_context,
}

-- The parts of a context that its mode adds.
abbrev pub parts : Mode → List Resource
parts mode_none = []
parts aes_128 = aes ∷ []
parts aes_256 = aes ∷ []
parts tls_1_2 = ssl ∷ (conf ∷ (cert ∷ (pkey ∷ (ca_cert ∷ []))))
parts tls_1_3 = ssl ∷ (conf ∷ (cert ∷ (pkey ∷ (ca_cert ∷ []))))

abbrev common : List Resource
common = context ∷ (entropy ∷ (ctr_drbg ∷ []))

-- What a failed creation does not free, by what `mbedtls_ctr_drbg_seed` returned and the mode.
abbrev pub leaked : Bool → Mode → List Resource
leaked false mode = entropy ∷ (ctr_drbg ∷ [])
leaked true aes_128 = entropy ∷ (ctr_drbg ∷ (aes ∷ []))
leaked true aes_256 = entropy ∷ (ctr_drbg ∷ (aes ∷ []))
leaked true _ = []

rotated : (xs : List Resource) → Perm (xs ++ (entropy ∷ (ctr_drbg ∷ (context ∷ [])))) (common ++ xs)
rotated xs =
    Perm.trans (perm_append_comm xs (entropy ∷ (ctr_drbg ∷ (context ∷ []))))
      (Perm.append_right xs (perm_append_comm (entropy ∷ (ctr_drbg ∷ [])) (context ∷ [])))

-- What `security_destroy_context` frees is what a context of the mode has.
destroyed :
    (mode : Mode) → Perm (freed (security_destroy_context (some mode)).1) (common ++ parts mode)
unfolding security_destroy_context mode_frees freed free_of
destroyed mode_none = rotated []
destroyed aes_128 = rotated (aes ∷ [])
destroyed aes_256 = rotated (aes ∷ [])
destroyed tls_1_2 = rotated (ssl ∷ (conf ∷ (cert ∷ (pkey ∷ (ca_cert ∷ [])))))
destroyed tls_1_3 = rotated (ssl ∷ (conf ∷ (cert ∷ (pkey ∷ (ca_cert ∷ [])))))

tls-IsQuiet : (c : Config) (a : Answers) → IsQuiet (sequence (tls_steps c a)).0
unfolding tls_steps initialised freed init_of free_of
tls-IsQuiet c a = sequence-IsQuiet (tls_steps c a) (
    All-append IsQuietStep _ _ (wanted-IsQuietStep (is_given c.cert) _ (refl, refl)) (
      All-append IsQuietStep _ _ (wanted-IsQuietStep (is_given c.key) _ (refl, refl)) (
        All-append IsQuietStep _ _ (wanted-IsQuietStep (is_given c.ca_cert) _ (refl, refl)) (
          (refl, refl),
          (
            (refl, refl),
            All-append IsQuietStep _ _
                (wanted-IsQuietStep (is_some c.cert && is_some c.key) _ (refl, refl))
                ((refl, refl), wanted-IsQuietStep (is_some c.hostname) _ (refl, refl)),
          ),
        ))))

-- What a creation comes to: a context with all its parts, or a pointer to memory that was freed.
abbrev Balanced : Mode → List Resource → Created → Type 0
Balanced mode leak (none, p, calls) =
    (p ≡ some (live mode)) × (initialised calls ≡ common ++ parts mode) × (freed calls ≡ [])
Balanced mode leak (some e, p, calls) =
    (p ≡ some dangling) × Perm (freed calls ++ leak) (initialised calls)

abbrev tls_parts : List Resource
tls_parts = ssl ∷ (conf ∷ (cert ∷ (pkey ∷ (ca_cert ∷ []))))

destroy_inits : (mode : Mode) → initialised (security_destroy_context (some mode)).1 ≡ []
unfolding security_destroy_context mode_frees initialised init_of
destroy_inits mode_none = refl
destroy_inits aes_128 = refl
destroy_inits aes_256 = refl
destroy_inits tls_1_2 = refl
destroy_inits tls_1_3 = refl

-- Behind calls that are quiet, the destruction frees what a context with TLS has.
tls_destroyed :
    (mode : Mode) (calls : List Call)
    → parts mode ≡ tls_parts
    → IsQuiet calls
    → let all = calls ++ (security_destroy_context (some mode)).1 in
      Perm (freed all ++ []) (common ++ (tls_parts ++ initialised all))
tls_destroyed mode calls same (i, f) =
    let d = (security_destroy_context (some mode)).1 in
    let frees : freed (calls ++ d) ++ [] ≡ freed d =
      append-nil _ ∙ freed-append calls d ∙ ap (λ l. l ++ freed d) f in
    let none_new : initialised (calls ++ d) ≡ [] =
      initialised-append calls d ∙ ap (λ l. l ++ initialised d) i ∙ destroy_inits mode in
    rw (frees, none_new) (subst (λ l. Perm (freed d) (common ++ l)) same (destroyed mode))

tls-Balanced :
    (c : Config) (a : Answers) (mode : Mode)
    → parts mode ≡ tls_parts
    → Balanced mode [] (create_tls c a mode first_calls)
unfolding create_tls tls_inits initialised freed init_of free_of
tls-Balanced c a mode same = elim (Bool-cases (sequence (tls_steps c a)).1) [
  | inl e ↦ rw e (
    refl,
    ap (λ l. common ++ (tls_parts ++ l)) (tls-IsQuiet c a).0 ∙ ap (λ l. common ++ l) (sym same),
    (tls-IsQuiet c a).1,
  )
  | inr e ↦ rw e (refl, tls_destroyed mode (sequence (tls_steps c a)).0 same (tls-IsQuiet c a))
]

aes-Balanced :
    (a : Answers) (mode : Mode)
    → parts mode ≡ aes ∷ []
    → Balanced mode (entropy ∷ (ctr_drbg ∷ (aes ∷ []))) (create_aes a mode first_calls)
unfolding create_aes initialised freed init_of free_of
aes-Balanced a mode same = elim (Bool-cases (is_zero a.iv)) [
  | inl e ↦ rw e (refl, ap (λ l. common ++ l) (sym same), refl)
  | inr e ↦ rw e (refl, Perm.refl _)
]

mode-Balanced :
    (c : Config) (a : Answers) (mode : Mode)
    → Balanced mode (leaked true mode) (create_by_mode c a mode first_calls)
unfolding create_by_mode initialised freed init_of free_of
mode-Balanced c a mode_none = (refl, refl, refl)
mode-Balanced c a aes_128 = aes-Balanced a aes_128 refl
mode-Balanced c a aes_256 = aes-Balanced a aes_256 refl
mode-Balanced c a tls_1_2 = tls-Balanced c a tls_1_2 refl
mode-Balanced c a tls_1_3 = tls-Balanced c a tls_1_3 refl

create-Balanced :
    (c : Config) (a : Answers)
    → a.calloc ≡ true
    → Balanced c.mode (leaked (is_zero a.seeded) c.mode) (security_create_context true c a)
unfolding security_create_context initialised freed init_of free_of
create-Balanced c a h = rw h (elim (Bool-cases (is_zero a.seeded)) [
  | inl e ↦ rw e (mode-Balanced c a c.mode)
  | inr e ↦ rw e (refl, Perm.refl _)
])

-- A context that was created, in any mode and with any configuration, is freed by
-- `security_destroy_context`: what it frees is what the creation initialised, each part once, and the
-- creation itself freed nothing.
pub destroy_frees_all :
    (c : Config) (a : Answers) (p : Option Pointer) (calls : List Call)
    → a.calloc ≡ true
    → security_create_context true c a ≡ (none, p, calls)
    → (p ≡ some (live c.mode))
      × Perm (freed (security_destroy_context (some c.mode)).1) (initialised calls)
      × (freed calls ≡ [])
destroy_frees_all c a p calls h e =
    let (there, all, kept) : Balanced c.mode (leaked (is_zero a.seeded) c.mode) (none, p, calls) =
      rw e at (create-Balanced c a h) in
    (there, rw all (destroyed c.mode), kept)

-- A creation that fails behind its `calloc` leaves a pointer to memory that was freed. It frees what it
-- initialised, each part once, but for the entropy and the generator where `mbedtls_ctr_drbg_seed` fails,
-- and but for those and the cipher in the modes with AES; a failure in the modes with TLS leaks nothing.
pub create_failed :
    (c : Config) (a : Answers) (e : EspError) (p : Option Pointer) (calls : List Call)
    → a.calloc ≡ true
    → security_create_context true c a ≡ (some e, p, calls)
    → (p ≡ some dangling)
      × Perm (freed calls ++ leaked (is_zero a.seeded) c.mode) (initialised calls)
create_failed c a e p calls h k = rw k at (create-Balanced c a h)
