-- ===== src/Main.antt =====
-- src/main.cpp: what is set up before the server runs. The singletons are made when they are first
-- asked for, which is behind the loading of the configuration.
pub mod Runs
pub mod Starts
pub mod Startup
pub mod Spent
pub mod Threads
use cost_optimized_llm_infer.Common.{◌>>=◌, ℕ, [], Option, Double}
use cost_optimized_llm_infer.Json.{Json}
use cost_optimized_llm_infer.Cache
use cost_optimized_llm_infer.CostTracker
use cost_optimized_llm_infer.Metrics
use cost_optimized_llm_infer.Router
use cost_optimized_llm_infer.Config.{GatewayConfig}
use cost_optimized_llm_infer.Config.Defaults.{initial}
use cost_optimized_llm_infer.Config.Environment.{Env, load_from_env}
use cost_optimized_llm_infer.Config.Load.{load_from_file}
use cost_optimized_llm_infer.Providers.{initialize}
use cost_optimized_llm_infer.Api.{Service}

module _ {F J : Type 0} ⦃d : Double F⦄ ⦃j : Json J⦄ where
  -- The configuration; `none`: an exception of `std::stoi` ends the program.
  unfoldable pub configure : (file : Option (Option J)) → Env → Option (GatewayConfig F)
  configure file env = do loaded ← load_from_file file env initial; load_from_env env loaded.0

module _ {F : Type 0} ⦃d : Double F⦄ where
  -- The singletons, when the metrics are made at `now`.
  unfoldable pub set_up : (now : ℕ) → GatewayConfig F → Service F
  set_up now cfg = record {
    keys = [];
    gateway = record {
      cache = Cache.init cfg.cache;
      limiter = [];
      costs = CostTracker.init cfg.pricing;
      metrics = Metrics.init now;
      router = Router.init cfg;
    };
    registry = initialize cfg.providers [];
  }
