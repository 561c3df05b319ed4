-- ===== src/Service/Lifecycle/Activate/Trace.antt =====
-- What an activation writes and triggers, told by a host that logs the two.
use rune_mcp.Prelude.{
  Bool, true, false, ◌&&◌, ◌||◌, Option, none, some, List, [], ◌∷◌, ◌++◌, ◌≡◌, refl, if-elim,
}
use rune_mcp.Prelude.Text.{Text, codes, is_empty, teq}
use rune_mcp.Adapters.Config.{Config, Loaded, clear_dormant}
use rune_mcp.Adapters.Embedder.{HealthSnapshot}
use rune_mcp.Domain.Errors.{Error, Result, err, ok, panic}
use rune_mcp.Service.Lifecycle.Activate.{
  ActivateResult, activate, activate_loaded, after_clear, after_probe, bootstrap_of, clear_config,
  clear_failed, clear_loaded, ensure_daemon, ensure_in, ensure_with, probe_bootstrap, probe_client,
  probe_if, reload, saved_if, spawned, unless_stopped, is_user_dormant,
}
use rune_mcp.Service.Lifecycle.Host.{Host}
use rune_mcp.Service.Lifecycle.Reload.{ReloadPipelinesResult}
use rune_mcp.Service.Lifecycle.Activate.Log.{Event, Logged, logging, reload-log, saved, retriggered}

module _ {W : Type 0} (h : Host W) where
  -- The answer of the reload, which it shows.
  abbrev pub IsReloaded : Result ActivateResult → Type 0
  IsReloaded (ok r) = (rr : ReloadPipelinesResult) × (r.reload ≡ some rr) × (r.status ≡ rr.state)
  IsReloaded (err e) = ⊥
  IsReloaded panic = ⊥

  abbrev pub IsStopped : Result ActivateResult → Type 0
  IsStopped (ok r) = r.reload ≡ none
  IsStopped (err e) = Unit {0}
  IsStopped panic = Unit {0}

  abbrev pub IsCleared : Config → Type 0
  IsCleared c = (c.state ≡ codes "active") × (c.dormant_reason ≡ []) × (c.dormant_since ≡ [])

  -- The events of an activation with that result.
  abbrev pub IsActivation : List Event → Result ActivateResult → Type 0
  IsActivation [] r = IsStopped r
  IsActivation (retriggered ∷ []) r = IsReloaded r
  IsActivation (saved c ∷ []) r = IsCleared c × IsStopped r
  IsActivation (saved c ∷ retriggered ∷ []) r = IsCleared c × IsReloaded r
  IsActivation _ r = ⊥

  -- The events before the reload.
  abbrev IsStart : List Event → Type 0
  IsStart [] = Unit {0}
  IsStart (saved c ∷ []) = IsCleared c
  IsStart _ = ⊥

  stopped-IsActivation :
      (l : List Event) (r : Result ActivateResult) → IsStart l → IsStopped r → IsActivation l r
  stopped-IsActivation [] r s h = h
  stopped-IsActivation (saved c ∷ []) r s h = (s, h)
  stopped-IsActivation (saved c ∷ saved d ∷ l) r s h = absurd s
  stopped-IsActivation (saved c ∷ retriggered ∷ l) r s h = absurd s
  stopped-IsActivation (retriggered ∷ l) r s h = absurd s

  reloaded-IsActivation :
      (l : List Event) (r : Result ActivateResult)
      → IsStart l
      → IsReloaded r
      → IsActivation (l ++ retriggered ∷ []) r
  reloaded-IsActivation [] r s h = h
  reloaded-IsActivation (saved c ∷ []) r s h = (s, h)
  reloaded-IsActivation (saved c ∷ saved d ∷ l) r s h = absurd s
  reloaded-IsActivation (saved c ∷ retriggered ∷ l) r s h = absurd s
  reloaded-IsActivation (retriggered ∷ l) r s h = absurd s

  abbrev IsRun : Result ActivateResult × Logged W → Type 0
  IsRun r = IsActivation r.1.1 r.0

  reload-IsRun : (w : W) (l : List Event) → IsStart l → IsRun (reload (logging h) (w, l))
  reload-IsRun w l s = rw (reload-log h w l) (reloaded-IsActivation l _ s (_, refl, refl))

  -- A check keeps the log, and an answer of its own is no reload's.
  abbrev IsCheck : List Event → Result (Option ActivateResult) × Logged W → Type 0
  IsCheck l (ok none, v) = v.1 ≡ l
  IsCheck l (ok (some r), v) = (v.1 ≡ l) × (r.reload ≡ none)
  IsCheck l (err e, v) = v.1 ≡ l
  IsCheck l (panic, v) = v.1 ≡ l

  unless_stopped-IsRun :
      (o : Result (Option ActivateResult)) (next : Logged W → Result ActivateResult × Logged W)
      (w : W) (l l' : List Event)
      → IsStart l
      → IsCheck l (o, (w, l'))
      → ((w' : W) (m : List Event) → IsStart m → IsRun (next (w', m)))
      → IsRun (unless_stopped (logging h) o next (w, l'))
  unless_stopped-IsRun (ok none) next w l l' s c run = run w l' (rw c s)
  unless_stopped-IsRun (ok (some r)) next w l l' s c run =
      stopped-IsActivation l' (ok r) (rw c.0 s) c.1
  unless_stopped-IsRun (err e) next w l l' s c run = stopped-IsActivation l' (err e) (rw c s) tt
  unless_stopped-IsRun panic next w l l' s c run = stopped-IsActivation l' panic (rw c s) tt

  bootstrap_of-IsCheck :
      (r : Result HealthSnapshot) (w : W) (l : List Event)
      → IsCheck l (bootstrap_of (logging h) r (w, l))
  bootstrap_of-IsCheck (ok s) w l =
      if-elim {A = Result (Option ActivateResult) × Logged W} (IsCheck l)
        (teq s.status (codes "LOADING")) (λ _. (refl, refl)) (λ _. refl)
  bootstrap_of-IsCheck (err e) w l = refl
  bootstrap_of-IsCheck panic w l = refl

  probe_client-IsCheck :
      (b : Bool) (w : W) (l : List Event) → IsCheck l (probe_client (logging h) b (w, l))
  probe_client-IsCheck false w l = refl
  probe_client-IsCheck true w l = bootstrap_of-IsCheck (h.health w).0 (h.health w).1 l

  probe_if-IsCheck : (b : Bool) (w : W) (l : List Event) → IsCheck l (probe_if (logging h) b (w, l))
  probe_if-IsCheck false w l = refl
  probe_if-IsCheck true w l = probe_client-IsCheck (h.has_embedder w).0 (h.has_embedder w).1 l

  after_probe-IsRun : (w : W) (l : List Event) → IsStart l → IsRun (after_probe (logging h) (w, l))
  unfolding after_probe probe_bootstrap
  after_probe-IsRun w l s =
      let r = probe_if (logging h) (h.has_embedder w).0 ((h.has_embedder w).1, l) in
      unless_stopped-IsRun r.0 (reload (logging h)) r.1.0 l r.1.1 s
        (probe_if-IsCheck (h.has_embedder w).0 (h.has_embedder w).1 l) reload-IsRun

  spawned-IsCheck :
      (bin log_path : Text) (e : Option Error) (w : W) (l : List Event)
      → IsCheck l (ok (spawned (logging h) bin log_path e), (w, l))
  spawned-IsCheck bin log_path none w l = refl
  spawned-IsCheck bin log_path (some e) w l = (refl, refl)

  abbrev lifted : Option ActivateResult × Logged W → Result (Option ActivateResult) × Logged W
  lifted r = (ok r.0, r.1)

  ensure_in-IsCheck :
      (bin dir : Text) (w : W) (l : List Event)
      → IsCheck l (lifted (ensure_in (logging h) bin dir (w, l)))
  ensure_in-IsCheck bin dir w l =
      if-elim {A = Option ActivateResult × Logged W} (λ r. IsCheck l (lifted r))
        (is_empty dir || teq dir (codes ".")) (λ _. (refl, refl))
        (λ _.
          spawned-IsCheck bin (h.join dir (codes "logs/daemon.log"))
            (h.ensure_daemon bin h.socket_path (h.join dir (codes "spawn.lock")) w).0
            (h.ensure_daemon bin h.socket_path (h.join dir (codes "spawn.lock")) w).1 l)

  ensure_with-IsCheck :
      (r : Result Text) (w : W) (l : List Event) → IsCheck l (ensure_with (logging h) r (w, l))
  ensure_with-IsCheck (ok bin) w l = ensure_in-IsCheck bin (h.dir h.socket_path) w l
  ensure_with-IsCheck (err e) w l = (refl, refl)
  ensure_with-IsCheck panic w l = refl

  ensure_daemon-IsCheck : (w : W) (l : List Event) → IsCheck l (ensure_daemon (logging h) (w, l))
  unfolding ensure_daemon
  ensure_daemon-IsCheck w l =
      if-elim {A = Result (Option ActivateResult) × Logged W} (IsCheck l) (is_empty h.socket_path)
        (λ _. refl)
        (λ _. ensure_with-IsCheck (h.resolve_rune_binary w).0 (h.resolve_rune_binary w).1 l)

  after_clear-IsRun : (v : Logged W) → IsStart v.1 → IsRun (after_clear (logging h) v)
  unfolding after_clear
  after_clear-IsRun (w, l) s =
      let r = ensure_daemon (logging h) (w, l) in
      unless_stopped-IsRun r.0 (after_probe (logging h)) r.1.0 l r.1.1 s (ensure_daemon-IsCheck w l)
        after_probe-IsRun

  clear_loaded-IsStart : (o : Loaded) (w : W) → IsStart (clear_loaded (logging h) o (w, [])).1.1
  unfolding clear_dormant
  clear_loaded-IsStart Loaded.not_found w = tt
  clear_loaded-IsStart (Loaded.load_failed e) w = tt
  clear_loaded-IsStart (Loaded.loaded c) w =
      if-elim (λ o. IsStart (saved_if (logging h) o (w, [])).1.1)
        (teq c.state (codes "active") && is_empty c.dormant_reason && is_empty c.dormant_since)
        (λ _. tt) (λ _. (refl, refl, refl))

  clear_failed-IsRun :
      (e : Option Error) (v : Logged W) → IsStart v.1 → IsRun (clear_failed (logging h) e v)
  clear_failed-IsRun none v s = after_clear-IsRun v s
  clear_failed-IsRun (some e) (w, l) s = stopped-IsActivation l (err _) s tt

  activate_loaded-IsRun : (o : Loaded) (w : W) → IsRun (activate_loaded (logging h) o (w, []))
  activate_loaded-IsRun Loaded.not_found w = refl
  activate_loaded-IsRun (Loaded.load_failed e) w = refl
  activate_loaded-IsRun (Loaded.loaded c) w =
      if-elim {A = Result ActivateResult × Logged W} IsRun (is_empty c.endpoint || is_empty c.token)
        (λ _. refl)
        (λ _.
          if-elim {A = Result ActivateResult × Logged W} IsRun (is_user_dormant c)
            (λ _.
              clear_failed-IsRun (clear_config (logging h) (w, [])).0
                (clear_config (logging h) (w, [])).1
                (clear_loaded-IsStart (h.load w).0 (h.load w).1))
            (λ _. after_clear-IsRun (w, []) tt))

  -- Whatever the config, the clients and the daemons answer: an activation saves the config at most
  -- once, and then as active and without a dormant reason; it triggers a new boot at most once, after
  -- the save, and it does so exactly where its answer has a reload, whose state it shows. An answer
  -- that asks for a configuration, an installation or patience triggers none.
  pub activate-IsActivation :
      (w : W) → (let r = activate (logging h) (w, []) in IsActivation r.1.1 r.0)
  unfolding activate
  activate-IsActivation w = activate_loaded-IsRun (h.load w).0 (h.load w).1
