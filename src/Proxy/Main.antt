-- ===== src/Proxy/Main.antt =====
-- What examples/openai-proxy/main.go builds from its environment.
use valve.Common.{pos, Bytes, codes, none, [], ◌∷◌}
use valve.Lease.Config.{default_config}
use valve.Limiter.Backend.{Limiter}
use valve.Limiter.Options.{with_fast_path, new_limiter}
use valve.Proxy.Request.{Config}
use valve.Valved.Env.{env_int64}

-- The limiter, over the store that `main` opens.
unfoldable pub proxy_limiter : {S : Type 0} → S → Limiter S
unfolding new_limiter
proxy_limiter s = new_limiter s (with_fast_path default_config ∷ [])

-- The limits and the gate of the handler.
unfoldable pub proxy_config : (Bytes → Bytes) → Config
unfolding env_int64
proxy_config getenv = record {
  limits = record {
    requests_per_minute = env_int64 getenv (codes "RPM") (pos 60);
    tokens_per_minute = env_int64 getenv (codes "TPM") (pos 90000);
    input_tokens_per_minute = pos 0;
    output_tokens_per_minute = pos 0;
  };
  gate = record {
    max_input_tokens = env_int64 getenv (codes "MAX_INPUT_TOKENS") (pos 128000);
    max_request_bytes = env_int64 getenv (codes "MAX_REQUEST_BYTES") (pos 2097152);
  };
  tokenizer = none;
}
