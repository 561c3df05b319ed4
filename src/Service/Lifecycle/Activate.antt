-- ===== src/Service/Lifecycle/Activate.antt =====
-- Activate: the checks before a reload, in the order of the code.
pub mod Log
pub mod Trace
use rune_mcp.Prelude.{ℕ, Bool, true, false, ◌&&◌, ◌||◌, Option, none, some, [], ◌++◌, if◌then◌else◌}
use rune_mcp.Prelude.Text.{Text, codes, is_empty, teq}
use rune_mcp.Adapters.Config.{Config, Loaded, clear_dormant}
use rune_mcp.Adapters.Embedder.{HealthSnapshot}
use rune_mcp.Domain.Errors.{Error, Result, err, error_text, ok, other, panic, wrap}
use rune_mcp.Service.Backend.{Action, fail, pure}
use rune_mcp.Service.Lifecycle.Host.{Host}
use rune_mcp.Service.Lifecycle.Reload.{ReloadPipelinesResult, reload_pipelines}

pub record BootstrapDetail : Type 0 where
  pub phase : Text
  pub bytes_done : ℕ
  pub bytes_total : ℕ
  pub message : Text

pub record ActivateResult : Type 0 where
  pub okay : Bool
  pub status : Text
  pub hint : Text
  pub bootstrap : Option BootstrapDetail
  pub reload : Option ReloadPipelinesResult

abbrev pub stopped : Text → Text → ActivateResult
stopped status hint = record {
  okay = true;
  status = status;
  hint = hint;
  bootstrap = none;
  reload = none;
}

abbrev pub configure_required : Text → ActivateResult
configure_required hint = stopped (codes "configure_required") hint

abbrev pub install_pending : Text → ActivateResult
install_pending hint = stopped (codes "install_pending") hint

-- A dormant state that the user asked for.
abbrev pub is_user_dormant : Config → Bool
is_user_dormant c =
    teq c.state (codes "dormant")
    && (is_empty c.dormant_reason || teq c.dormant_reason (codes "user_deactivated"))

abbrev pub loading_hint : Text
loading_hint =
    codes
      "runed is bootstrapping (downloading llama-server and/or the embedding model). Activation will complete automatically once the download finishes - no further /rune:activate needed."

abbrev pub bootstrapping : HealthSnapshot → ActivateResult
bootstrapping s = record {
  okay = true;
  status = codes "waiting_for_bootstrap";
  hint = loading_hint;
  bootstrap = some (record {
    phase = s.phase;
    bytes_done = s.bytes_done;
    bytes_total = s.bytes_total;
    message = s.message;
  });
  reload = none;
}

abbrev pub reloaded : ReloadPipelinesResult → ActivateResult
reloaded r = record {
  okay = r.okay;
  status = r.state;
  hint = [];
  bootstrap = none;
  reload = some r;
}

module _ {W : Type 0} (h : Host W) where
  abbrev pub saved_if : Option Config → W → Option Error × W
  saved_if none w = (none, w)
  saved_if (some c) w = h.save c w

  abbrev pub clear_loaded : Loaded → W → Option Error × W
  clear_loaded Loaded.not_found w = (some (other (codes "config: not found")), w)
  clear_loaded (Loaded.load_failed e) w = (some e, w)
  clear_loaded (Loaded.loaded c) w = saved_if (clear_dormant c) w

  -- config.ClearDormant, which loads the config again.
  abbrev pub clear_config : W → Option Error × W
  clear_config w = clear_loaded (h.load w).0 (h.load w).1

  abbrev pub spawned : Text → Text → Option Error → Option ActivateResult
  spawned bin log_path none = none
  spawned bin log_path (some e) = some (
      install_pending (
        codes "auto-spawn of runed via `"
        ++ (bin
            ++ (codes " runed --detach` failed: "
                ++ (error_text e
                    ++ (codes ". Inspect "
                        ++ (log_path
                            ++ (codes " for runed startup logs. Agent recovery: invoke "
                                ++ (h.recovery_hint ++ codes ", then retry /rune:activate.")))))))))

  -- With the daemon's directory, embedderPaths.
  abbrev pub ensure_in : Text → Text → W → Option ActivateResult × W
  ensure_in bin dir w =
      if is_empty dir || teq dir (codes ".")
      then (
        some (
            install_pending (
              codes "could not resolve runed paths: invalid socket path "
              ++ h.quote h.socket_path)),
        w,
      )
      else (let (e, w') = h.ensure_daemon bin h.socket_path (h.join dir (codes "spawn.lock")) w in
          (spawned bin (h.join dir (codes "logs/daemon.log")) e, w'))

  abbrev pub ensure_with : Result Text → W → Result (Option ActivateResult) × W
  ensure_with (ok bin) w = let (r, w') = ensure_in bin (h.dir h.socket_path) w in (ok r, w')
  ensure_with (err e) w = (
    ok (
        some (
          install_pending (
            codes "rune CLI not found ("
            ++ (error_text e
                ++ (codes "). Agent recovery: invoke "
                    ++ (h.recovery_hint ++ codes ", then retry /rune:activate.")))))),
    w,
  )
  ensure_with panic w = (panic, w)

  -- ensureDaemon, where there is a socket path.
  unfoldable pub ensure_daemon : W → Result (Option ActivateResult) × W
  ensure_daemon w =
      if is_empty h.socket_path
      then (ok none, w)
      else ensure_with (h.resolve_rune_binary w).0 (h.resolve_rune_binary w).1

  abbrev pub bootstrap_of : Result HealthSnapshot → W → Result (Option ActivateResult) × W
  bootstrap_of (ok s) w =
      if teq s.status (codes "LOADING")
      then (ok (some (bootstrapping s)), h.start_watcher w)
      else (ok none, w)
  bootstrap_of (err e) w = (ok none, w)
  bootstrap_of panic w = (panic, w)

  -- probeBootstrap, which reads the client again.
  abbrev pub probe_client : Bool → W → Result (Option ActivateResult) × W
  probe_client false w = (ok none, w)
  probe_client true w = bootstrap_of (h.health w).0 (h.health w).1

  abbrev pub probe_if : Bool → W → Result (Option ActivateResult) × W
  probe_if false w = (ok none, w)
  probe_if true w = probe_client (h.has_embedder w).0 (h.has_embedder w).1

  -- The check of the daemon's bootstrap, where there is an embedder client.
  unfoldable pub probe_bootstrap : W → Result (Option ActivateResult) × W
  probe_bootstrap w = probe_if (h.has_embedder w).0 (h.has_embedder w).1

  -- The check's answer, or what follows it.
  abbrev pub unless_stopped :
      Result (Option ActivateResult) → Action W ActivateResult → Action W ActivateResult
  unless_stopped (ok none) next w = next w
  unless_stopped (ok (some r)) next w = (ok r, w)
  unless_stopped (err e) next w = (err e, w)
  unless_stopped panic next w = (panic, w)

  abbrev pub reload : Action W ActivateResult
  reload w = let (r, w') = reload_pipelines h w in (ok (reloaded r), w')

  unfoldable pub after_probe : Action W ActivateResult
  unfolding probe_bootstrap
  after_probe w = unless_stopped (probe_bootstrap w).0 reload (probe_bootstrap w).1

  unfoldable pub after_clear : Action W ActivateResult
  unfolding ensure_daemon after_probe
  after_clear w = unless_stopped (ensure_daemon w).0 after_probe (ensure_daemon w).1

  abbrev pub clear_failed : Option Error → Action W ActivateResult
  clear_failed none w = after_clear w
  clear_failed (some e) w = fail (wrap (codes "activate: clear user-deactivated state") e) w

  abbrev pub activate_loaded : Loaded → Action W ActivateResult
  activate_loaded Loaded.not_found w =
      pure (configure_required (codes "Run /rune:configure to write Vault credentials.")) w
  activate_loaded (Loaded.load_failed e) w =
      pure (configure_required (codes "Run /rune:configure to write Vault credentials.")) w
  activate_loaded (Loaded.loaded c) w =
      if is_empty c.endpoint || is_empty c.token
      then pure
          (configure_required
            (codes "Vault endpoint/token missing in ~/.rune/config.json. Run /rune:configure."))
          w
      else if is_user_dormant c
      then clear_failed (clear_config w).0 (clear_config w).1
      else after_clear w

  unfoldable pub activate : Action W ActivateResult
  unfolding after_clear
  activate w = activate_loaded (h.load w).0 (h.load w).1
