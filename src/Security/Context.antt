-- ===== src/Security/Context.antt =====
-- main/security/security_layer.c: the configuration, and the creation and the destruction of a context.
-- What each call of mbedTLS returns is an argument. The reports to the error handler are not modelled.
pub mod Destroyed
pub mod Verified
use cursor_embed_cus_mqtt_su.Base.{
  ℕ, Bool, true, false, not, ◌&&◌, List, [], ◌∷◌, ◌++◌, Option, none, some, ltb, if◌then◌else◌,
}
use cursor_embed_cus_mqtt_su.Base.Esp.{EspError}
use cursor_embed_cus_mqtt_su.Security.Calls.{
  Resource, context, entropy, ctr_drbg, aes, ssl, conf, cert, pkey, ca_cert, Call, inits, frees,
  parses, authmode, seed, random_iv, config_defaults, conf_rng, conf_ca_chain, conf_own_cert, setup,
  set_hostname, Ret, is_zero, Step, sequence, wanted,
}

-- security_mode_t.
pub data Mode : Type 0 where
  mode_none aes_128 aes_256 tls_1_2 tls_1_3 : Mode

-- security_config_t with its certificates: of each the length, `none` where the pointer is NULL. The time-out
-- is not read.
pub record Config : Type 0 where
  pub mode : Mode
  pub cert : Option ℕ
  pub key : Option ℕ
  pub ca_cert : Option ℕ
  pub hostname : Option (List ℕ)
  pub verify_peer : Bool

-- What the calls return: whether there is memory, and the `ret` of each.
pub record Answers : Type 0 where
  pub calloc : Bool
  pub seeded : Ret
  pub iv : Ret
  pub cert_parsed : Ret
  pub key_parsed : Ret
  pub ca_parsed : Ret
  pub defaults : Ret
  pub own_cert : Ret
  pub set_up : Ret
  pub named : Ret

-- A pointer to a context: NULL, to memory that was freed, or to a context of a mode.
pub data Pointer : Type 0 where
  null dangling : Pointer
  live : Mode → Pointer

pub security_init : Option Config → Config → Option EspError × Config
security_init none global_config = (some EspError.invalid_arg, global_config)
security_init (some config) global_config = (none, config)

-- `certs.cert && certs.cert_len > 0`, and the same for the other two.
unfoldable pub is_given : Option ℕ → Bool
is_given none = false
is_given (some len) = ltb 0 len

unfoldable pub is_some : {A : Type 0} → Option A → Bool
is_some none = false
is_some (some x) = true

-- The steps behind the inits of the modes with TLS.
unfoldable pub tls_steps : Config → Answers → List Step
unfolding is_given is_some
tls_steps c a =
    wanted (is_given c.cert) (record { calls = parses cert ∷ []; passes = is_zero a.cert_parsed })
    ++ (wanted (is_given c.key) (record { calls = parses pkey ∷ []; passes = is_zero a.key_parsed })
        ++ (wanted (is_given c.ca_cert)
              (record { calls = parses ca_cert ∷ []; passes = is_zero a.ca_parsed })
            ++ (record { calls = config_defaults ∷ []; passes = is_zero a.defaults }
                ∷ (record { calls = authmode c.verify_peer ∷ (conf_ca_chain ∷ []); passes = true }
                    ∷ (wanted (is_some c.cert && is_some c.key)
                          (record { calls = conf_own_cert ∷ []; passes = is_zero a.own_cert })
                        ++ (record { calls = conf_rng ∷ (setup ∷ []); passes = is_zero a.set_up }
                            ∷ wanted (is_some c.hostname) (record {
                              calls = set_hostname ∷ [];
                              passes = is_zero a.named;
                            })))))))

unfoldable pub tls_inits : List Call
tls_inits = inits ssl ∷ (inits conf ∷ (inits cert ∷ (inits pkey ∷ (inits ca_cert ∷ []))))

-- What `security_destroy_context` frees first, by the mode.
pub mode_frees : Mode → List Call
mode_frees mode_none = []
mode_frees aes_128 = frees aes ∷ []
mode_frees aes_256 = frees aes ∷ []
mode_frees tls_1_2 = frees ssl ∷ (frees conf ∷ (frees cert ∷ (frees pkey ∷ (frees ca_cert ∷ []))))
mode_frees tls_1_3 = frees ssl ∷ (frees conf ∷ (frees cert ∷ (frees pkey ∷ (frees ca_cert ∷ []))))

-- For NULL, or a context of a mode.
pub security_destroy_context : Option Mode → Option EspError × List Call
unfolding mode_frees
security_destroy_context none = (some EspError.invalid_arg, [])
security_destroy_context (some mode) =
    (none, mode_frees mode ++ (frees entropy ∷ (frees ctr_drbg ∷ (frees context ∷ []))))

-- The result, the pointer where one is written, and the calls.
abbrev pub Created : Type 0
Created = Option EspError × Option Pointer × List Call

-- A context of a mode with TLS.
unfoldable pub create_tls : Config → Answers → Mode → List Call → Created
unfolding tls_steps tls_inits
create_tls c a mode start =
    let (calls, passed) = sequence (tls_steps c a) in
    if passed then (none, some (live mode), start ++ (tls_inits ++ calls)) else (
      some EspError.fail,
      some dangling,
      start ++ (tls_inits ++ (calls ++ (security_destroy_context (some mode)).1)),
    )

unfoldable pub create_aes : Answers → Mode → List Call → Created
create_aes a mode start =
    if is_zero a.iv then (none, some (live mode), start ++ (inits aes ∷ (random_iv ∷ []))) else (
      some EspError.fail,
      some dangling,
      start ++ (inits aes ∷ (random_iv ∷ (frees context ∷ []))),
    )

unfoldable pub create_by_mode : Config → Answers → Mode → List Call → Created
unfolding create_tls create_aes
create_by_mode c a mode_none start = (none, some (live mode_none), start)
create_by_mode c a aes_128 start = create_aes a aes_128 start
create_by_mode c a aes_256 start = create_aes a aes_256 start
create_by_mode c a tls_1_2 start = create_tls c a tls_1_2 start
create_by_mode c a tls_1_3 start = create_tls c a tls_1_3 start

abbrev pub first_calls : List Call
first_calls = inits context ∷ (inits entropy ∷ (inits ctr_drbg ∷ (seed ∷ [])))

-- The first argument is whether there is a place for the pointer.
unfoldable pub security_create_context : Bool → Config → Answers → Created
unfolding create_by_mode
security_create_context false c a = (some EspError.invalid_arg, none, [])
security_create_context true c a =
    if not a.calloc
    then (some EspError.no_mem, some null, [])
    else (if not (is_zero a.seeded)
        then (some EspError.fail, some dangling, first_calls ++ (frees context ∷ []))
        else create_by_mode c a c.mode first_calls)
