-- ===== src/Service/Lifecycle/Activate/Log.antt =====
-- A host that logs its saves and retriggers, and what of a reload the log shows.
use rune_mcp.Prelude.{
  ℕ, zero, suc, ◌+◌, ltb, Bool, true, false, List, [], ◌∷◌, ◌++◌, ◌≡◌, refl, ◌∙◌, if-elim,
}
use rune_mcp.Adapters.Config.{Config}
use rune_mcp.Service.Lifecycle.Activate.{reload}
use rune_mcp.Service.Lifecycle.Host.{Host}
use rune_mcp.Service.Lifecycle.Reload.{
  WaitEnd, boot_error_unless, is_settled, reload_pipelines, wait_for_boot_progress, wait_loop,
  wait_round, warmup_envector, warmup_if,
}

pub data Event : Type 0 where
  saved : Config → Event
  retriggered : Event

abbrev pub Logged : Type 0 → Type 0
Logged W = W × List Event

module _ {W : Type 0} (h : Host W) where
  abbrev quiet : {A : Type 0} → (W → A × W) → Logged W → A × Logged W
  quiet f (w, l) = ((f w).0, ((f w).1, l))

  -- The same host with the log of its saves and retriggers.
  abbrev pub logging : Host (Logged W)
  logging = record {
    load = quiet h.load;
    save = λ c v. ((h.save c v.0).0, ((h.save c v.0).1, v.1 ++ saved c ∷ []));
    config_path = h.config_path;
    current = quiet h.current;
    last_boot_error = quiet h.last_boot_error;
    retrigger = λ v. (h.retrigger v.0, v.1 ++ retriggered ∷ []);
    vault = quiet h.vault;
    vault_health = quiet h.vault_health;
    has_embedder = quiet h.has_embedder;
    embedder_socket = h.embedder_socket;
    info = quiet h.info;
    health = quiet h.health;
    has_envector = quiet h.has_envector;
    get_index_list = quiet h.get_index_list;
    clock = quiet h.clock;
    rfc3339_now = quiet h.rfc3339_now;
    sleep = λ d. quiet (h.sleep d);
    socket_path = h.socket_path;
    dir = h.dir;
    join = h.join;
    quote = h.quote;
    resolve_rune_binary = quiet h.resolve_rune_binary;
    ensure_daemon = λ b s k. quiet (h.ensure_daemon b s k);
    recovery_hint = h.recovery_hint;
    start_watcher = λ v. (h.start_watcher v.0, v.1);
  }

  -- The wait, the warm-up and the readings leave the log alone.
  abbrev KeepsLog : {A : Type 0} → List Event → A × Logged W → Type 0
  KeepsLog l r = r.1.1 ≡ l

  wait_round-log :
      (deadline : ℕ) (again : Logged W → WaitEnd × Logged W) (w : W) (l : List Event)
      → ((w' : W) → KeepsLog l (again (w', l)))
      → KeepsLog l (wait_round logging deadline again (w, l))
  wait_round-log deadline again w l ih =
      let w₁ = (h.clock w).1 in
      let w₂ = (h.current w₁).1 in
      if-elim {A = WaitEnd × Logged W} (KeepsLog l) (ltb (h.clock w).0 deadline)
        (λ _.
          if-elim {A = WaitEnd × Logged W} (KeepsLog l) (is_settled (h.current w₁).0) (λ _. refl)
            (λ _.
              if-elim {A = WaitEnd × Logged W} (KeepsLog l) (h.sleep 100 w₂).0 (λ _. refl)
                (λ _. ih (h.sleep 100 w₂).1)))
        (λ _. refl)

  wait_loop-log :
      (fuel deadline : ℕ) (w : W) (l : List Event)
      → KeepsLog l (wait_loop logging fuel deadline (w, l))
  unfolding wait_loop
  wait_loop-log zero deadline w l = refl
  wait_loop-log (suc fuel) deadline w l =
      wait_round-log deadline (wait_loop logging fuel deadline) w l
        (λ w'. wait_loop-log fuel deadline w' l)

  wait-log :
      (timeout : ℕ) (w : W) (l : List Event)
      → KeepsLog l (wait_for_boot_progress logging timeout (w, l))
  unfolding wait_for_boot_progress
  wait-log timeout w l =
      let w₁ = (h.clock w).1 in
      if-elim {A = WaitEnd × Logged W} (KeepsLog l) (h.sleep 150 w₁).0 (λ _. refl)
        (λ _. wait_loop-log (suc timeout) ((h.clock w).0 + timeout) (h.sleep 150 w₁).1 l)

  warmup_if-log : (wired : Bool) (v : Logged W) → KeepsLog v.1 (warmup_if logging wired v)
  unfolding warmup_envector
  warmup_if-log false v = refl
  warmup_if-log true v = refl

  boot_error_unless-log : (b : Bool) (v : Logged W) → KeepsLog v.1 (boot_error_unless logging b v)
  boot_error_unless-log true v = refl
  boot_error_unless-log false v = refl

  pub reload-log :
      (w : W) (l : List Event) → KeepsLog (l ++ retriggered ∷ []) (reload logging (w, l))
  unfolding reload_pipelines
  reload-log w l =
      warmup_if-log _ _
      ∙ boot_error_unless-log _ _
      ∙ wait-log 5000 (h.retrigger w) (l ++ retriggered ∷ [])
