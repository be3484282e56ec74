-- ===== src/Provider/Laws.antt =====
-- cmd/controller/main.go: no provider but an insecure one is scraped without TLS material.
use mathlib.Core.Path.{subst}
use network_enforcer.Common.{
  String, ◌≡◌, inl, inr, ◌⊎◌, Option, none, some, Bool, true, false, Bool-cases, ◌==◌, string_eq,
}
use network_enforcer.Common.Int.{ℤ}
use network_enforcer.Certsource.{Source, mode_insecure}
use network_enforcer.Provider.{
  ProviderConfig, ScraperConfig, istio_scraper, cilium_scraper, calico_scraper, provider_istio,
  provider_cilium, provider_calico, cert_source_config, istio_tls_cert_dir, some_source, atoi,
  validate_calico_tls_mode, new_provider_cert_source, add_scraper, istio_with, cilium_with,
  calico_with, setup_provider_scraper,
}

-- a scraper without TLS material is Istio's or Cilium's, in the insecure mode
abbrev pub IsSecured : ProviderConfig → ScraperConfig → Type 0
IsSecured p (istio_scraper port dir) = (p.tls_mode == mode_insecure ≡ true) ⊎ (dir == "" ≡ false)
IsSecured p (cilium_scraper none endpoint server_name) = p.tls_mode == mode_insecure ≡ true
IsSecured p (cilium_scraper (some source) endpoint server_name) =
    p.tls_mode == mode_insecure ≡ false
IsSecured p (calico_scraper none endpoint server_name) = ⊥
IsSecured p (calico_scraper (some source) endpoint server_name) =
    p.tls_mode == mode_insecure ≡ false

-- the source that a mode has
abbrev HasSource : ProviderConfig → Option (Option Source) → Type 0
HasSource p none = Unit
HasSource p (some none) = p.tls_mode == mode_insecure ≡ true
HasSource p (some (some source)) = p.tls_mode == mode_insecure ≡ false

module _ (valid_dir : String → Bool) (has_reader : Bool) (adds : ScraperConfig → Bool) where
  some_source-HasSource :
      (p : ProviderConfig) (source : Option Source)
      → p.tls_mode == mode_insecure ≡ false
      → HasSource p (some_source source)
  some_source-HasSource p none h = tt
  some_source-HasSource p (some source) h = h

  new_provider_cert_source-HasSource :
      (p : ProviderConfig) → HasSource p (new_provider_cert_source valid_dir has_reader adds p)
  unfolding new_provider_cert_source cert_source_config
  new_provider_cert_source-HasSource p = elim (Bool-cases (p.tls_mode == mode_insecure)) [
    | inl e ↦ rw e e
    | inr e ↦ rw e (some_source-HasSource p _ e)
  ]

  add_scraper_lem :
      (made scraper : ScraperConfig)
      → add_scraper valid_dir has_reader adds made ≡ some scraper
      → made ≡ scraper
  add_scraper_lem made scraper h = elim (Bool-cases (adds made)) [
    | inl e ↦ cc (rw e at h)
    | inr e ↦ absurd (cc (rw e at h))
  ]

  istio_with-IsSecured :
      (p : ProviderConfig) (port : Option ℤ) (scraper : ScraperConfig)
      → istio_with valid_dir has_reader adds port (istio_tls_cert_dir p.tls_mode p.tls_cert_dir)
        ≡ some scraper
      → IsSecured p scraper
  unfolding istio_tls_cert_dir
  istio_with-IsSecured p none scraper h = absurd (cc h)
  istio_with-IsSecured p (some port) scraper h = elim (Bool-cases (p.tls_mode == mode_insecure)) [
    | inl e ↦ subst (IsSecured p) (add_scraper_lem _ scraper (rw e at h)) (inl e)
    | inr e ↦ elim (Bool-cases (p.tls_cert_dir == "")) [
      | inl k ↦ absurd (cc (rw (e, k) at h))
      | inr k ↦ subst (IsSecured p) (add_scraper_lem _ scraper (rw (e, k) at h)) (inr k)
    ]
  ]

  cilium_with-IsSecured :
      (p : ProviderConfig) (source : Option (Option Source)) (scraper : ScraperConfig)
      → HasSource p source
      → cilium_with valid_dir has_reader adds p source ≡ some scraper
      → IsSecured p scraper
  cilium_with-IsSecured p none scraper s h = absurd (cc h)
  cilium_with-IsSecured p (some none) scraper s h =
      subst (IsSecured p) (add_scraper_lem _ scraper h) s
  cilium_with-IsSecured p (some (some source)) scraper s h =
      subst (IsSecured p) (add_scraper_lem _ scraper h) s

  calico_with-IsSecured :
      (p : ProviderConfig) (source : Option (Option Source)) (scraper : ScraperConfig)
      → HasSource p source
      → p.tls_mode == mode_insecure ≡ false
      → calico_with valid_dir has_reader adds p source ≡ some scraper
      → IsSecured p scraper
  calico_with-IsSecured p none scraper s m h = absurd (cc h)
  calico_with-IsSecured p (some none) scraper s m h = absurd (cc (m, s))
  calico_with-IsSecured p (some (some source)) scraper s m h =
      subst (IsSecured p) (add_scraper_lem _ scraper h) m

  -- Whatever the flags, a scraper that is set up has TLS material: a certificate directory for Istio
  -- and a certificate source for Cilium and Calico, except in the insecure mode, which Calico refuses.
  pub setup_provider_scraper-IsSecured :
      (p : ProviderConfig) (scraper : ScraperConfig)
      → setup_provider_scraper valid_dir has_reader adds p ≡ some scraper
      → IsSecured p scraper
  unfolding setup_provider_scraper validate_calico_tls_mode
  setup_provider_scraper-IsSecured p scraper h = elim (Bool-cases (p.name == provider_istio)) [
    | inl i ↦ istio_with-IsSecured p (atoi p.endpoint) scraper (rw i at h)
    | inr i ↦ elim (Bool-cases (p.name == provider_cilium)) [
      | inl c ↦
          cilium_with-IsSecured p _ scraper (new_provider_cert_source-HasSource p) (rw (i, c) at h)
      | inr c ↦ elim (Bool-cases (p.name == provider_calico)) [
        | inl k ↦ elim (Bool-cases (p.tls_mode == mode_insecure)) [
          | inl m ↦ absurd (cc (rw (i, c, k, m) at h))
          | inr m ↦
              calico_with-IsSecured p _ scraper (new_provider_cert_source-HasSource p) m
                (rw (i, c, k, m) at h)
        ]
        | inr k ↦ absurd (cc (rw (i, c, k) at h))
      ]
    ]
  ]
