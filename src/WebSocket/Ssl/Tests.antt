-- ===== src/WebSocket/Ssl/Tests.antt =====
-- The theorem on the set-up of TLS at a concrete input.
use cursor_embed_cus_mqtt_su.Base.{◌≡◌, true, false, ◌&&◌, [], ◌∷◌, none, some, if◌then◌else◌}
use cursor_embed_cus_mqtt_su.Base.Esp.{EspError}
use cursor_embed_cus_mqtt_su.Security.Calls.{
  entropy, ctr_drbg, ssl, conf, cert, pkey, ca_cert, net_ctx, zero_ret, positive, is_zero,
  is_not_negative, initialised, freed, passes_if,
}
use cursor_embed_cus_mqtt_su.WebSocket.Ssl.{Config, Answers, ws_ssl_init, ssl_init_iff}

abbrev with_ca : Config
with_ca = record { ca_cert = true; client_cert = true; client_key = false; verify_server = true }

-- Of the CA certificates some are refused.
abbrev partly : Answers
partly = record {
  seeded = zero_ret;
  defaults = zero_ret;
  ca_parsed = positive;
  cert_parsed = zero_ret;
  key_parsed = zero_ret;
  own_cert = zero_ret;
  set_up = zero_ret;
}

ssl_init_iff_example :
    ((ws_ssl_init true with_ca partly).0 ≡ (
      if is_zero zero_ret
        && (is_zero zero_ret
            && (passes_if true (is_not_negative positive)
                && (passes_if false (is_not_negative zero_ret)
                    && (passes_if false (is_not_negative zero_ret)
                        && (passes_if false (is_zero zero_ret) && (is_zero zero_ret && true))))))
      then none
      else some EspError.fail))
    × (initialised (ws_ssl_init true with_ca partly).1
        ≡ ssl ∷ (conf ∷ (ca_cert ∷ (cert ∷ (pkey ∷ (entropy ∷ (ctr_drbg ∷ (net_ctx ∷ []))))))))
    × (freed (ws_ssl_init true with_ca partly).1 ≡ [])
ssl_init_iff_example = ssl_init_iff with_ca partly
