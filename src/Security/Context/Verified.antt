-- ===== src/Security/Context/Verified.antt =====
-- When the creation of a context with TLS succeeds, and what it has configured then.
use cursor_embed_cus_mqtt_su.Base.{
  ◌≡◌, refl, ap, ◌∙◌, inl, inr, Bool, true, false, ◌&&◌, List, [], ◌∷◌, Option, none, some,
  Bool-cases,
}
use cursor_embed_cus_mqtt_su.Security.Calls.{
  Call, conf, inits, frees, authmode, conf_ca_chain, conf_rng, setup, is_zero, cert, ca_cert,
  config_defaults, conf_own_cert, sequence, sequence_passes, passes_all, passes_if, passes-wanted,
  passes-wanted_last,
}
use cursor_embed_cus_mqtt_su.Security.Context.{
  Mode, mode_none, aes_128, aes_256, tls_1_2, tls_1_3, Config, Answers, is_given, is_some,
  tls_steps, Created, create_tls, create_by_mode, first_calls, security_create_context,
}

tls_passes :
    (c : Config) (a : Answers)
    → (sequence (tls_steps c a)).1 ≡ (
        passes_if (is_given c.cert) (is_zero a.cert_parsed)
        && (passes_if (is_given c.key) (is_zero a.key_parsed)
            && (passes_if (is_given c.ca_cert) (is_zero a.ca_parsed)
                && (is_zero a.defaults
                    && (passes_if (is_some c.cert && is_some c.key) (is_zero a.own_cert)
                        && (is_zero a.set_up
                            && (passes_if (is_some c.hostname) (is_zero a.named) && true)))))))
unfolding tls_steps passes_all
tls_passes c a = sequence_passes (tls_steps c a) ∙ simp (passes-wanted, passes-wanted_last) refl

-- What the calls have put into the TLS configuration: the verification mode asked for behind the last
-- initialisation and the last call of the defaults, which set a mode of their own, and whether there are
-- the CA certificates, the own certificate and the generator.
pub record Settings : Type 0 where
  pub mode : Option Bool
  pub ca_chain : Bool
  pub own_cert : Bool
  pub rng : Bool

abbrev pub unset : Settings
unset = record { mode = none; ca_chain = false; own_cert = false; rng = false }

unfoldable pub settings_after : Settings → Call → Settings
settings_after s (inits conf) = unset
settings_after s (frees conf) = unset
settings_after s config_defaults = record s { mode = none }
settings_after s (authmode peer) = record s { mode = some peer }
settings_after s conf_ca_chain = record s { ca_chain = true }
settings_after s conf_own_cert = record s { own_cert = true }
settings_after s conf_rng = record s { rng = true }
settings_after s _ = s

-- The settings in force at each set-up of a trace.
unfoldable pub at_setup : Settings → List Call → List Settings
at_setup s [] = []
at_setup s (setup ∷ calls) = s ∷ at_setup s calls
at_setup s (call ∷ calls) = at_setup (settings_after s call) calls

-- What the configuration of a context asks for.
abbrev pub asked : Config → Settings
asked c = record {
  mode = some c.verify_peer;
  ca_chain = true;
  own_cert = is_some c.cert && is_some c.key;
  rng = true;
}

abbrev pub IsTls : Mode → Type 0
IsTls tls_1_2 = Unit
IsTls tls_1_3 = Unit
IsTls _ = ⊥

-- A creation that succeeds.
pub succeeds : Created → Bool
succeeds (none, p, calls) = true
succeeds (some e, p, calls) = false

by_tls :
    (c : Config) (a : Answers) (mode : Mode)
    → IsTls mode
    → create_by_mode c a mode first_calls ≡ create_tls c a mode first_calls
unfolding create_by_mode
by_tls c a mode_none t = elim t [ ]
by_tls c a aes_128 t = elim t [ ]
by_tls c a aes_256 t = elim t [ ]
by_tls c a tls_1_2 t = refl
by_tls c a tls_1_3 t = refl

succeeds-create_tls :
    (c : Config) (a : Answers) (mode : Mode)
    → succeeds (create_tls c a mode first_calls) ≡ (sequence (tls_steps c a)).1
unfolding create_tls succeeds
succeeds-create_tls c a mode = elim (Bool-cases (sequence (tls_steps c a)).1) [
  | inl e ↦ rw e refl
  | inr e ↦ rw e refl
]

-- In the modes with TLS, a context is created exactly where there is memory, the generator is seeded, each
-- of the certificate, the key and the CA certificate that is given and not empty is parsed without a
-- failure, the defaults and the set-up succeed, and so do the own certificate, where there are both a
-- certificate and a key, and the host name where there is one.
pub tls_created_iff :
    (c : Config) (a : Answers)
    → IsTls c.mode
    → succeeds (security_create_context true c a) ≡ (
        a.calloc
        && (is_zero a.seeded
            && (passes_if (is_given c.cert) (is_zero a.cert_parsed)
                && (passes_if (is_given c.key) (is_zero a.key_parsed)
                    && (passes_if (is_given c.ca_cert) (is_zero a.ca_parsed)
                        && (is_zero a.defaults
                            && (passes_if (is_some c.cert && is_some c.key) (is_zero a.own_cert)
                                && (is_zero a.set_up
                                    && (passes_if (is_some c.hostname) (is_zero a.named)
                                        && true)))))))))
unfolding security_create_context succeeds
tls_created_iff c a t = elim (Bool-cases a.calloc) [
  | inr e ↦ rw e refl
  | inl e ↦ rw e (elim (Bool-cases (is_zero a.seeded)) [
    | inr f ↦ rw f refl
    | inl f ↦
        rw f (ap succeeds (by_tls c a c.mode t) ∙ succeeds-create_tls c a c.mode ∙ tls_passes c a)
  ])
]

-- The calls of a creation that succeeds.
abbrev Verifies : Config → Created → Type 0
Verifies c (some e, p, calls) = Unit
Verifies c (none, p, calls) = at_setup unset calls ≡ asked c ∷ []
