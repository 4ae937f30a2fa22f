-- ===== src/Config/Partial.antt =====
-- What `load_from_file` keeps of a file that it cannot read to the end, and what it leaves alone.
use cost_optimized_llm_infer.Common.{
  true, false, List, [], ◌∷◌, ◌++◌, append-nil, append_assoc, Option, none, some, ◌≡◌, refl, ap,
  sym, ◌∙◌, Option-cases, inl, inr, traverse,
}
use mathlib.Core.Option.{some-injective, none-ne-some}
use mathlib.Core.Path.{subst}
use cost_optimized_llm_infer.Json.{Json}
use cost_optimized_llm_infer.Config.{ProviderConfig, GatewayConfig}
use cost_optimized_llm_infer.Config.Load.{add_provider, parse_provider, push_providers}

module _ {J : Type 0} ⦃j : Json J⦄ where
  -- The cases of a loop over a head that is read or not.
  traverse-cons :
      {A : Type 0} (f : J → Option A) (x : J) (xs : List J) (ys : List A)
      → traverse f (x ∷ xs) ≡ some ys
      → (y : A) × (rest : List A) × (f x ≡ some y) × (traverse f xs ≡ some rest) × (y ∷ rest ≡ ys)
  traverse-cons f x xs ys e = elim (Option-cases (f x)) [
    | inl failed ↦ absurd (none-ne-some ys (sym (rw failed refl) ∙ e))
    | inr (y, read) ↦ elim (Option-cases (traverse f xs)) [
      | inl failed ↦ absurd (none-ne-some ys (sym (rw (read, failed) refl) ∙ e))
      | inr (rest, found) ↦
          (y, rest, read, found, some-injective (y ∷ rest) ys (sym (rw (read, found) refl) ∙ e))
    ]
  ]

module _ {F : Type 0} where
  abbrev pub more_providers : List ProviderConfig → GatewayConfig F → GatewayConfig F
  more_providers ps cfg = record cfg { providers = cfg.providers ++ ps }

  more_providers-nil : (cfg : GatewayConfig F) → more_providers [] cfg ≡ cfg
  more_providers-nil cfg = ap (λ l. record cfg { providers = l }) (append-nil cfg.providers)

  more_providers-cons :
      (p : ProviderConfig) (ps : List ProviderConfig) (cfg : GatewayConfig F)
      → more_providers ps (add_provider p cfg) ≡ more_providers (p ∷ ps) cfg
  unfolding add_provider
  more_providers-cons p ps cfg =
      ap (λ l. record cfg { providers = l }) (append_assoc cfg.providers (p ∷ []) ps)

module _ {F J : Type 0} ⦃j : Json J⦄ where
  push_providers-append :
      (xs zs : List J) (ps : List ProviderConfig) (cfg : GatewayConfig F)
      → traverse parse_provider xs ≡ some ps
      → push_providers (xs ++ zs) cfg ≡ push_providers zs (more_providers ps cfg)
  unfolding push_providers
  push_providers-append [] zs ps cfg e = ap (push_providers zs) (
      subst (λ l. cfg ≡ more_providers l cfg) (some-injective [] ps e)
        (sym (more_providers-nil cfg)))
  push_providers-append (x ∷ xs) zs ps cfg e =
      let (p, rest, read, found, made) = traverse-cons parse_provider x xs ps e in
      rw (read, push_providers)
        (push_providers-append xs zs rest (add_provider p cfg) found
          ∙ ap (push_providers zs)
              (more_providers-cons p rest cfg ∙ ap (λ l. more_providers l cfg) made))

  -- The loop over the providers adds those that it can read, in their order: all of them, or those in
  -- front of one that it cannot read. The Boolean tells which.
  pub push_providers-traverse :
      (xs zs : List J) (x : J) (ps : List ProviderConfig) (cfg : GatewayConfig F)
      → traverse parse_provider xs ≡ some ps
      → parse_provider x ≡ none
      → (push_providers xs cfg ≡ (more_providers ps cfg, true))
        × (push_providers (xs ++ (x ∷ zs)) cfg ≡ (more_providers ps cfg, false))
  unfolding push_providers
  push_providers-traverse xs zs x ps cfg e unreadable = (
    subst (λ l. push_providers l cfg ≡ (more_providers ps cfg, true)) (append-nil xs)
        (push_providers-append xs [] ps cfg e),
    push_providers-append xs (x ∷ zs) ps cfg e ∙ rw (unreadable, push_providers) refl,
  )
