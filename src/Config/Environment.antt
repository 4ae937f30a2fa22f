-- ===== src/Config/Environment.antt =====
-- `load_from_env` and `apply_env_overrides` of src/config.cpp. `none` is an exception of `std::stoi`,
-- which no caller catches.
use cost_optimized_llm_infer.Common.{
  ℕ, ◌+◌, ◌-◌, ◌*◌, Bool, ◌&&◌, List, [], ◌∷◌, map, Option, none, some, Text, codes, same_text, leb,
  ltb, ◌^◌, ℤ, pos, negsuc, ◌-ℤ◌, if◌then◌else◌, ◌>>=◌, ◌==◌,
}
use cost_optimized_llm_infer.TokenCounter.{is_space}
use cost_optimized_llm_infer.Config.{ProviderConfig, ServerConfig, GatewayConfig}

-- `std::stoi`: blanks, a sign and digits, whatever comes behind; it throws without a digit and
-- beyond the range of `int`.
unfoldable pub skip_spaces : Text → Text
skip_spaces [] = []
skip_spaces (c ∷ t) = let rest = skip_spaces t in if is_space c then rest else c ∷ t

unfoldable pub is_digit : ℕ → Bool
is_digit c = leb 48 c && leb c 57

unfoldable pub read_digits : ℕ → Text → ℕ
read_digits n [] = n
read_digits n (c ∷ t) =
    let more = read_digits (n * 10 + (c - 48)) t in if is_digit c then more else n

unfoldable pub read_magnitude : Text → Option ℕ
read_magnitude [] = none
read_magnitude (c ∷ t) = if is_digit c then some (read_digits 0 (c ∷ t)) else none

unfoldable pub within_int : ℤ → Option ℤ
within_int (pos n) = if ltb n (2 ^ 31) then some (pos n) else none
within_int (negsuc n) = if ltb n (2 ^ 31) then some (negsuc n) else none

unfoldable pub read_signed : Text → Option ℤ
read_signed [] = none
read_signed (c ∷ t) =
    if c == 45
    then (read_magnitude t >>= λ n. within_int (pos 0 -ℤ pos n))
    else if c == 43
    then (read_magnitude t >>= λ n. within_int (pos n))
    else (read_magnitude (c ∷ t) >>= λ n. within_int (pos n))

unfoldable pub stoi : Text → Option ℤ
stoi t = read_signed (skip_spaces t)

-- `std::getenv`
abbrev pub Env : Type 0
Env = Text → Option Text

-- `if (auto v = env(name)) ... = std::stoi(*v)`, and without `stoi`.
unfoldable pub override_int : Option Text → ℤ → Option ℤ
override_int none old = some old
override_int (some v) old = stoi v

unfoldable pub override_text : Option Text → Text → Text
override_text none old = old
override_text (some v) old = v

-- The key of every provider of that name.
unfoldable pub set_api_key : (name key : Text) → ProviderConfig → ProviderConfig
set_api_key name key p = if same_text p.name name then record p { api_key = key } else p

unfoldable pub override_key :
    Option Text → (name : Text) → List ProviderConfig → List ProviderConfig
override_key none name ps = ps
override_key (some key) name ps = map (set_api_key name key) ps

unfoldable pub override_server : Env → ServerConfig → Option ServerConfig
override_server env s = do
  port ← override_int (env (codes "LLM_GATEWAY_PORT")) s.port
  threads ← override_int (env (codes "LLM_GATEWAY_THREADS")) s.threads
  some (record s {
    port = port;
    host = override_text (env (codes "LLM_GATEWAY_HOST")) s.host;
    threads = threads;
    log_level = override_text (env (codes "LLM_GATEWAY_LOG_LEVEL")) s.log_level;
    admin_key = override_text (env (codes "LLM_GATEWAY_ADMIN_KEY")) s.admin_key;
  })

unfoldable pub override_keys : Env → List ProviderConfig → List ProviderConfig
override_keys env ps = override_key (env (codes "GROQ_API_KEY")) (codes "groq") (
    override_key (env (codes "TOGETHER_API_KEY")) (codes "together") (
      override_key (env (codes "ANTHROPIC_API_KEY")) (codes "anthropic")
        (override_key (env (codes "OPENAI_API_KEY")) (codes "openai") ps)))

module _ {F : Type 0} where
  -- `none`: `std::stoi` throws.
  unfoldable pub apply_env_overrides : Env → GatewayConfig F → Option (GatewayConfig F)
  apply_env_overrides env cfg = do
    server ← override_server env cfg.server
    some (record cfg { server = server; providers = override_keys env cfg.providers })

  -- An exception passes through; the code returns true.
  unfoldable pub load_from_env : Env → GatewayConfig F → Option (GatewayConfig F)
  load_from_env env cfg = apply_env_overrides env cfg
