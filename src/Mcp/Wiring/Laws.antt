-- ===== src/Mcp/Wiring/Laws.antt =====
-- The services use the clients of the dependencies, and the bundle of the Vault they use.
use rune_mcp.Prelude.{Bool, Option, none, some, ◌≡◌, refl, ap}
use rune_mcp.Adapters.Vault.Client.{Bundle}
use rune_mcp.Mcp.Wiring.{
  CaptureWiring, Clients, Deps, LifecycleWiring, apply_vault_bundle, inject_clients,
  inject_embedder, inject_envector, inject_vault, over,
}

abbrev pub Holds : {A : Type 0} → (A → Type 0) → Option A → Type 0
Holds P none = Unit {0}
Holds P (some a) = P a

Holds-over :
    {A : Type 0} (P Q : A → Type 0) (f : A → A) (o : Option A)
    → ((a : A) → P a → Q (f a))
    → Holds P o
    → Holds Q (over f o)
Holds-over P Q f none h p = tt
Holds-over P Q f (some a) h p = h a p

module _ {V E N : Type 0} where
  -- Each service that is there uses these clients.
  abbrev pub Uses : Clients V E N → Deps V E N → Type 0
  Uses c d =
      Holds (λ s. s.clients ≡ c) d.capture_service
      × Holds (λ s. s.clients ≡ c) d.recall_service
      × Holds (λ s. s.clients ≡ c) d.lifecycle_service

  abbrev pub IsUniform : Deps V E N → Type 0
  IsUniform d = Uses d.clients d

  abbrev IsCaptureOf : Bundle → CaptureWiring V E N → Type 0
  IsCaptureOf b s =
      (s.agent_id ≡ b.agent_id) × (s.agent_dek ≡ b.agent_dek) × (s.index_name ≡ b.index_name)

  abbrev IsLifecycleOf : Bundle → LifecycleWiring V E N → Type 0
  IsLifecycleOf b s =
      (s.index_name ≡ b.index_name) × (s.key_id ≡ b.key_id) × (s.agent_dek ≡ b.agent_dek)

  -- Each service that is there has the bundle's key and index.
  abbrev pub HasBundle : Bundle → Deps V E N → Type 0
  HasBundle b d =
      Holds (IsCaptureOf b) d.capture_service
      × Holds (λ s. s.index_name ≡ b.index_name) d.recall_service
      × Holds (IsLifecycleOf b) d.lifecycle_service

  inject_clients-IsUniform :
      (f : Clients V E N → Clients V E N) (d : Deps V E N)
      → IsUniform d
      → IsUniform (inject_clients f d)
  unfolding inject_clients
  inject_clients-IsUniform f d u = (
    Holds-over (λ s. s.clients ≡ d.clients) (λ s. s.clients ≡ f d.clients) _ d.capture_service
        (λ s e. ap f e) u.0,
    Holds-over (λ s. s.clients ≡ d.clients) (λ s. s.clients ≡ f d.clients) _ d.recall_service
        (λ s e. ap f e) u.1,
    Holds-over (λ s. s.clients ≡ d.clients) (λ s. s.clients ≡ f d.clients) _ d.lifecycle_service
        (λ s e. ap f e) u.2,
  )

  abbrev pub HasLast : Option Bundle → Deps V E N → Type 0
  HasLast none d = Unit {0}
  HasLast (some b) d = HasBundle b d

  inject_clients-HasBundle :
      (f : Clients V E N → Clients V E N) (b : Bundle) (d : Deps V E N)
      → HasBundle b d
      → HasBundle b (inject_clients f d)
  unfolding inject_clients
  inject_clients-HasBundle f b d h = (
    Holds-over (IsCaptureOf b) (IsCaptureOf b) _ d.capture_service (λ s e. e) h.0,
    Holds-over (λ s. s.index_name ≡ b.index_name) (λ s. s.index_name ≡ b.index_name) _
        d.recall_service (λ s e. e) h.1,
    Holds-over (IsLifecycleOf b) (IsLifecycleOf b) _ d.lifecycle_service (λ s e. e) h.2,
  )

  inject_clients-HasLast :
      (f : Clients V E N → Clients V E N) (o : Option Bundle) (d : Deps V E N)
      → HasLast o d
      → HasLast o (inject_clients f d)
  inject_clients-HasLast f none d h = tt
  inject_clients-HasLast f (some b) d h = inject_clients-HasBundle f b d h

  apply_vault_bundle-IsUniform :
      (b : Bundle) (d : Deps V E N) → IsUniform d → IsUniform (apply_vault_bundle (some b) d)
  unfolding apply_vault_bundle
  apply_vault_bundle-IsUniform b d u = (
    Holds-over (λ s. s.clients ≡ d.clients) (λ s. s.clients ≡ d.clients) _ d.capture_service
        (λ s e. e) u.0,
    Holds-over (λ s. s.clients ≡ d.clients) (λ s. s.clients ≡ d.clients) _ d.recall_service
        (λ s e. e) u.1,
    Holds-over (λ s. s.clients ≡ d.clients) (λ s. s.clients ≡ d.clients) _ d.lifecycle_service
        (λ s e. e) u.2,
  )

  apply_vault_bundle-HasBundle :
      (b : Bundle) (d : Deps V E N) → IsUniform d → HasBundle b (apply_vault_bundle (some b) d)
  unfolding apply_vault_bundle
  apply_vault_bundle-HasBundle b d u = (
    Holds-over (λ s. s.clients ≡ d.clients) (IsCaptureOf b) _ d.capture_service
        (λ s e. (refl, refl, refl)) u.0,
    Holds-over (λ s. s.clients ≡ d.clients) (λ s. s.index_name ≡ b.index_name) _ d.recall_service
        (λ s e. refl) u.1,
    Holds-over (λ s. s.clients ≡ d.clients) (IsLifecycleOf b) _ d.lifecycle_service
        (λ s e. (refl, refl, refl)) u.2,
  )

  -- What boots make of the dependencies: clients and bundles, in any order and number, with the bundle
  -- that came last.
  pub data Wired (start : Deps V E N) : Option Bundle → Deps V E N → Type 0 where
    started : Wired start none start
    vault_in :
        {o : Option Bundle} {d e : Deps V E N} (same : V → V → Bool) (c : V)
        → Wired start o d
        → e ≡ (inject_vault same c d).0
        → Wired start o e
    embedder_in :
        {o : Option Bundle} {d e : Deps V E N} (same : E → E → Bool) (c : E)
        → Wired start o d
        → e ≡ (inject_embedder same c d).0
        → Wired start o e
    envector_in :
        {o : Option Bundle} {d e : Deps V E N} (same : N → N → Bool) (c : N)
        → Wired start o d
        → e ≡ (inject_envector same c d).0
        → Wired start o e
    bundle_in :
        {o : Option Bundle} {d e : Deps V E N} (b : Bundle)
        → Wired start o d
        → e ≡ apply_vault_bundle (some b) d
        → Wired start (some b) e

  abbrev pub IsWired : Option Bundle → Deps V E N → Type 0
  IsWired o d = IsUniform d × HasLast o d

  injected :
      (f : Clients V E N → Clients V E N) (o : Option Bundle) (d : Deps V E N)
      → IsWired o d
      → IsWired o (inject_clients f d)
  injected f o d h = (inject_clients-IsUniform f d h.0, inject_clients-HasLast f o d h.1)

  -- However often the process boots and reloads: where the services start with the clients of the
  -- dependencies, every service that is there goes on to use exactly those, and has the key, the index
  -- and the key id of the bundle that came last.
  pub Wired-IsWired :
      {start : Deps V E N} {o : Option Bundle} {d : Deps V E N}
      → IsUniform start
      → Wired start o d
      → IsWired o d
  unfolding inject_vault inject_embedder inject_envector
  Wired-IsWired u Wired.started = (u, tt)
  Wired-IsWired u (Wired.vault_in {o} {d} same c r e) = rw e (injected _ o d (Wired-IsWired u r))
  Wired-IsWired u (Wired.embedder_in {o} {d} same c r e) = rw e (injected _ o d (Wired-IsWired u r))
  Wired-IsWired u (Wired.envector_in {o} {d} same c r e) = rw e (injected _ o d (Wired-IsWired u r))
  Wired-IsWired u (Wired.bundle_in {o} {d} b r e) =
      let h = Wired-IsWired u r in
      rw e (apply_vault_bundle-IsUniform b d h.0, apply_vault_bundle-HasBundle b d h.0)
