-- ===== src/WebSocket/Ssl.antt =====
-- main/websocket/ws_ssl.c: the set-up of TLS for the client, as a sequence of calls of mbedTLS. What each
-- call returns is an argument. client_cert and client_key are the resources cert and pkey.
mod Tests
use cursor_embed_cus_mqtt_su.Base.{
  ◌≡◌, refl, ap, ◌∙◌, Bool, true, false, not, ◌&&◌, ◌||◌, List, [], ◌∷◌, ◌++◌, append-nil, Option,
  none, some, if◌then◌else◌, All, All-append, Bool-cases, inl, inr,
}
use cursor_embed_cus_mqtt_su.Base.Esp.{EspError}
use cursor_embed_cus_mqtt_su.Security.Calls.{
  Resource, entropy, ctr_drbg, ssl, conf, cert, pkey, ca_cert, net_ctx, Call, inits, parses,
  authmode, seed, config_defaults, conf_rng, conf_ca_chain, conf_own_cert, handshake_timeout, setup,
  Ret, is_zero, is_not_negative, Step, sequence, wanted, initialised, freed, init_of, free_of,
  IsQuiet, IsQuietStep, wanted-IsQuietStep, sequence-IsQuiet, passes_all, sequence_passes,
  passes_if, passes-wanted,
}

-- ws_ssl_config_t: whether there are a CA certificate, a certificate and a key.
pub record Config : Type 0 where
  pub ca_cert : Bool
  pub client_cert : Bool
  pub client_key : Bool
  pub verify_server : Bool

-- The `ret` of each call.
pub record Answers : Type 0 where
  pub seeded : Ret
  pub defaults : Ret
  pub ca_parsed : Ret
  pub cert_parsed : Ret
  pub key_parsed : Ret
  pub own_cert : Ret
  pub set_up : Ret

pub ssl_inits : List Call
ssl_inits =
    inits ssl
    ∷ (inits conf
        ∷ (inits ca_cert
            ∷ (inits cert
                ∷ (inits pkey ∷ (inits entropy ∷ (inits ctr_drbg ∷ (inits net_ctx ∷ [])))))))

-- The steps behind the inits. A parse fails by a negative number only.
pub ssl_steps : Config → Answers → List Step
ssl_steps c a =
    record { calls = seed ∷ []; passes = is_zero a.seeded }
    ∷ (record { calls = config_defaults ∷ []; passes = is_zero a.defaults }
        ∷ (record { calls = conf_rng ∷ []; passes = true }
            ∷ (wanted c.ca_cert
                  (record { calls = parses ca_cert ∷ []; passes = is_not_negative a.ca_parsed })
                ++ (wanted c.ca_cert (record { calls = conf_ca_chain ∷ []; passes = true })
                    ++ (wanted (c.client_cert && c.client_key) (record {
                      calls = parses cert ∷ [];
                      passes = is_not_negative a.cert_parsed;
                    })
                        ++ (wanted (c.client_cert && c.client_key) (record {
                          calls = parses pkey ∷ [];
                          passes = is_not_negative a.key_parsed;
                        })
                            ++ (wanted (c.client_cert && c.client_key) (record {
                              calls = conf_own_cert ∷ [];
                              passes = is_zero a.own_cert;
                            })
                                ++ (record {
                                  calls =
                                      authmode c.verify_server ∷ (handshake_timeout ∷ (setup ∷ []));
                                  passes = is_zero a.set_up;
                                }
                                    ∷ []))))))))

-- The first argument is whether neither pointer is NULL.
pub ws_ssl_init : Bool → Config → Answers → Option EspError × List Call
unfolding ssl_inits ssl_steps
ws_ssl_init false c a = (some EspError.invalid_arg, [])
ws_ssl_init true c a =
    let (calls, passed) = sequence (ssl_steps c a) in
    (if passed then none else some EspError.fail, ssl_inits ++ calls)

ssl-IsQuiet : (c : Config) (a : Answers) → IsQuiet (sequence (ssl_steps c a)).0
unfolding ssl_steps initialised freed init_of free_of
ssl-IsQuiet c a = sequence-IsQuiet (ssl_steps c a) (
  (refl, refl),
  (
    (refl, refl),
    (
      (refl, refl),
      All-append IsQuietStep _ _ (wanted-IsQuietStep c.ca_cert _ (refl, refl)) (
          All-append IsQuietStep _ _ (wanted-IsQuietStep c.ca_cert _ (refl, refl)) (
            All-append IsQuietStep _ _
              (wanted-IsQuietStep (c.client_cert && c.client_key) _ (refl, refl))
              (All-append IsQuietStep _ _
                (wanted-IsQuietStep (c.client_cert && c.client_key) _ (refl, refl))
                (All-append IsQuietStep _ _
                  (wanted-IsQuietStep (c.client_cert && c.client_key) _ (refl, refl))
                  ((refl, refl), tt))))),
    ),
  ),
)

true_if : (w : Bool) (b : Bool) → (passes_if w true && b) ≡ b
true_if true b = refl
true_if false b = refl

-- `ws_ssl_init` returns ESP_OK exactly where the generator is seeded, the defaults and the set-up succeed,
-- the CA certificate, where there is one, is parsed without a negative result, and so are the certificate
-- and the key where there are both, which are then installed. On every branch it has initialised the
-- eight parts of the context, each once, and has freed none.
pub ssl_init_iff :
    (c : Config) (a : Answers)
    → let own = c.client_cert && c.client_key in
      ((ws_ssl_init true c a).0 ≡ (
        if is_zero a.seeded
          && (is_zero a.defaults
              && (passes_if c.ca_cert (is_not_negative a.ca_parsed)
                  && (passes_if own (is_not_negative a.cert_parsed)
                      && (passes_if own (is_not_negative a.key_parsed)
                          && (passes_if own (is_zero a.own_cert) && (is_zero a.set_up && true))))))
        then none
        else some EspError.fail))
      × (initialised (ws_ssl_init true c a).1
          ≡ ssl ∷ (conf ∷ (ca_cert ∷ (cert ∷ (pkey ∷ (entropy ∷ (ctr_drbg ∷ (net_ctx ∷ []))))))))
      × (freed (ws_ssl_init true c a).1 ≡ [])
unfolding ws_ssl_init ssl_inits ssl_steps initialised freed init_of free_of passes_all
ssl_init_iff c a = (
  ap (λ b. if b then none else some EspError.fail)
      (sequence_passes (ssl_steps c a) ∙ simp (passes-wanted, true_if) refl),
  ap (λ l. ssl ∷ (conf ∷ (ca_cert ∷ (cert ∷ (pkey ∷ (entropy ∷ (ctr_drbg ∷ (net_ctx ∷ l))))))))
      (ssl-IsQuiet c a).0,
  (ssl-IsQuiet c a).1,
)
