-- ===== src/Api/Reports.antt =====
-- What the pages of src/api/health.cpp report.
use cost_optimized_llm_infer.Common.{
  false, [], ◌∷◌, map, Option, some, Text, codes, text_dec, lookup, ◌≡◌, refl, ap, ◌∙◌, Double,
  arith, ◌>>=◌,
}
use cost_optimized_llm_infer.Json.{Json, JsonDouble, IsJson, IsJsonDouble, value, value-object}
use cost_optimized_llm_infer.Router.{Router, get_health}
use cost_optimized_llm_infer.Providers.{Registry, Provider, available_providers, find_provider}
use cost_optimized_llm_infer.Api.{json_response}
use cost_optimized_llm_infer.Api.Pages.{health_members, health_page}

lookup-names :
    {V : Type 0} (f : Text → V) (name : Text) (p : Provider) (reg : Registry)
    → lookup name reg ≡ some p
    → lookup name (map (λ n. (n, f n)) (available_providers reg)) ≡ some (f name)
unfolding lookup available_providers
lookup-names f name p [] e = absurd cc
lookup-names f name p ((k, q) ∷ reg) e = elim (text_dec k name) [
  | yes same ↦ ground arith
  | no other ↦ ground (arith, lookup-names f name p reg (ground (arith, e)))
]

module _ {F J : Type 0} ⦃d : Double F⦄ ⦃j : Json J⦄ ⦃n : JsonDouble F J⦄ (law : IsJson J)
    (exact : IsJsonDouble F J) where
  -- The health page has the health record of every registered provider: its availability, latency and
  -- rate of errors are the router's.
  pub health_page-registered :
      (reg : Registry) (r : Router F) (name : Text) (p : Provider)
      → find_provider name reg ≡ some p
      → let h = get_health name r in
        (shown : J) × ((j.find (codes "providers") (health_page reg r).body >>= λ all.
        j.find name all)
          ≡ some shown)
        × (value j.get_bool (codes "available") false shown ≡ some h.available)
        × (value n.get_double (codes "avg_latency_ms") (d.lit 0 0) shown ≡ some h.avg_latency_ms)
        × (value n.get_double (codes "error_rate") (d.lit 0 0) shown ≡ some h.error_rate)
  unfolding health_page health_members find_provider json_response lookup text_dec
  health_page-registered reg r name p found =
      let h = get_health name r in
      (
        j.object (health_members h),
        ap (λ (o : Option J). o >>= λ all. j.find name all) (law.find_object (codes "providers") _)
            ∙ law.find_object name _
            ∙ lookup-names (λ k. j.object (health_members (get_health k r))) name p reg found,
        value-object law j.get_bool (codes "available") false _ _ h.available refl
            (law.get_boolean h.available),
        value-object law n.get_double (codes "avg_latency_ms") (d.lit 0 0) _ _ h.avg_latency_ms refl
            (exact.get_number h.avg_latency_ms),
        value-object law n.get_double (codes "error_rate") (d.lit 0 0) _ _ h.error_rate refl
            (exact.get_number h.error_rate),
      )
