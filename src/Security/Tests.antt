-- ===== src/Security/Tests.antt =====
-- The theorems on the security contexts at concrete inputs.
use cursor_embed_cus_mqtt_su.Base.{◌≡◌, refl, true, false, ◌&&◌, List, [], ◌∷◌, ◌++◌, none, some}
use cursor_embed_cus_mqtt_su.Base.Esp.{EspError}
use mathlib.Core.List.{Perm}
use cursor_embed_cus_mqtt_su.Security.Calls.{
  context, aes, ssl, conf, cert, pkey, ca_cert, Call, inits, frees, parses, authmode, random_iv,
  config_defaults, conf_rng, conf_ca_chain, setup, zero_ret, negative, is_zero, initialised, freed,
  passes_if,
}
use cursor_embed_cus_mqtt_su.Security.Context.{
  Config, Answers, aes_256, tls_1_3, dangling, live, is_given, is_some, create_aes, create_by_mode,
  first_calls, security_destroy_context, security_create_context,
}
use cursor_embed_cus_mqtt_su.Security.Context.Destroyed.{leaked, destroy_frees_all, create_failed}
use cursor_embed_cus_mqtt_su.Security.Context.Verified.{succeeds, tls_created_iff}

abbrev plain : Config
plain = record {
  mode = aes_256;
  cert = none;
  key = none;
  ca_cert = none;
  hostname = none;
  verify_peer = false;
}

abbrev with_ca : Config
with_ca = record {
  mode = tls_1_3;
  cert = none;
  key = some 0;
  ca_cert = some 900;
  hostname = none;
  verify_peer = true;
}

abbrev all_well : Answers
all_well = record {
  calloc = true;
  seeded = zero_ret;
  iv = zero_ret;
  cert_parsed = zero_ret;
  key_parsed = zero_ret;
  ca_parsed = zero_ret;
  defaults = zero_ret;
  own_cert = zero_ret;
  set_up = zero_ret;
  named = zero_ret;
}

abbrev no_iv : Answers
no_iv = record all_well { iv = negative }

abbrev tls_calls : List Call
tls_calls =
    inits ssl
    ∷ (inits conf
        ∷ (inits cert
            ∷ (inits pkey
                ∷ (inits ca_cert
                    ∷ (parses ca_cert
                        ∷ (config_defaults
                            ∷ (authmode true ∷ (conf_ca_chain ∷ (conf_rng ∷ (setup ∷ []))))))))))

aes_run :
    security_create_context true plain all_well
    ≡ (none, some (live aes_256), first_calls ++ (inits aes ∷ (random_iv ∷ [])))
unfolding security_create_context create_by_mode create_aes is_zero
aes_run = refl

iv_run : security_create_context true plain no_iv ≡ (
  some EspError.fail,
  some dangling,
  first_calls ++ (inits aes ∷ (random_iv ∷ (frees context ∷ []))),
)
unfolding security_create_context create_by_mode create_aes is_zero
iv_run = refl

destroy_frees_all_example :
    (some (live aes_256) ≡ some (live aes_256))
    × Perm
        (freed (security_destroy_context (some aes_256)).1)
        (initialised (first_calls ++ (inits aes ∷ (random_iv ∷ []))))
    × (freed (first_calls ++ (inits aes ∷ (random_iv ∷ []))) ≡ [])
destroy_frees_all_example =
    destroy_frees_all plain all_well (some (live aes_256))
      (first_calls ++ (inits aes ∷ (random_iv ∷ []))) refl aes_run

create_failed_example :
    (some dangling ≡ some dangling)
    × Perm
        (freed (first_calls ++ (inits aes ∷ (random_iv ∷ (frees context ∷ []))))
          ++ leaked (is_zero zero_ret) aes_256)
        (initialised (first_calls ++ (inits aes ∷ (random_iv ∷ (frees context ∷ [])))))
create_failed_example =
    create_failed plain no_iv EspError.fail (some dangling)
      (first_calls ++ (inits aes ∷ (random_iv ∷ (frees context ∷ [])))) refl iv_run

tls_created_iff_example : succeeds (security_create_context true with_ca all_well) ≡ (
    true
    && (is_zero zero_ret
        && (passes_if (is_given none) (is_zero zero_ret)
            && (passes_if (is_given (some 0)) (is_zero zero_ret)
                && (passes_if (is_given (some 900)) (is_zero zero_ret)
                    && (is_zero zero_ret
                        && (passes_if
                              (is_some (with_ca.cert) && is_some (with_ca.key))
                              (is_zero zero_ret)
                            && (is_zero zero_ret
                                && (passes_if (is_some with_ca.hostname) (is_zero zero_ret)
                                    && true)))))))))
tls_created_iff_example = tls_created_iff with_ca all_well tt
