-- ===== src/Service/Lifecycle/Watcher.antt =====
-- The bootstrap watcher: startBootstrapWatcher and runBootstrapWatcher, over what its ticks see.
-- Times are in seconds.
pub mod Laws
use rune_mcp.Prelude.{
  ℕ, suc, ◌+◌, ◌*◌, Bool, true, false, ◌||◌, Option, none, some, List, [], ◌∷◌, leb, ltb,
  if◌then◌else◌,
}
use rune_mcp.Prelude.Text.{Text, codes, teq}
use rune_mcp.Adapters.Embedder.{HealthSnapshot}
use rune_mcp.Lifecycle.Retrigger.{System, retrigger}
use rune_mcp.Domain.Errors.{Error, Result, err, ok, panic}

-- A tick: the time, and the answer of Health, where there is an embedder client.
pub record Tick : Type 0 where
  pub now : ℕ
  pub health : Option (Result HealthSnapshot)

-- How the watcher ends; `watching` is that it has not ended after the ticks so far.
pub data WatchEnd : Type 0 where
  watching past_deadline no_embedder failing not_ready ready crashed : WatchEnd

abbrev pub is_ready : Text → Bool
is_ready s = teq s (codes "OK") || teq s (codes "IDLE")

-- The switch on the status; `again` waits for the next tick.
abbrev pub status_end : Text → WatchEnd → WatchEnd
status_end s again =
    if teq s (codes "LOADING")
    then again
    else if is_ready s
    then WatchEnd.ready
    else WatchEnd.not_ready

-- The third error in a row is the last one.
abbrev pub health_end : Option (Result HealthSnapshot) → ℕ → (ℕ → WatchEnd) → WatchEnd
health_end none errors again = WatchEnd.no_embedder
health_end (some (ok s)) errors again = status_end s.status (again 0)
health_end (some (err e)) errors again =
    if leb 3 (suc errors) then WatchEnd.failing else again (suc errors)
health_end (some panic) errors again = WatchEnd.crashed

unfoldable pub watch : ℕ → List Tick → ℕ → WatchEnd
watch deadline [] errors = WatchEnd.watching
watch deadline (t ∷ ts) errors =
    if ltb deadline t.now
    then WatchEnd.past_deadline
    else health_end t.health errors (watch deadline ts)

-- runBootstrapWatcher, started at `start`.
unfoldable pub run_bootstrap_watcher : ℕ → List Tick → WatchEnd
unfolding watch
run_bootstrap_watcher start ticks = watch (30 * 60 + start) ticks 0

-- startBootstrapWatcher: the flag, and how many watchers run.
pub record Watchers : Type 0 where
  pub running : Bool
  pub live : ℕ

unfoldable pub start_watcher : Watchers → Watchers
start_watcher w = if w.running then w else record { running = true; live = suc w.live }

-- What the watcher leaves of the manager's system when it ends: only a ready daemon triggers a boot.
unfoldable pub ended : WatchEnd → System → System
ended WatchEnd.ready s = retrigger s
ended _ s = s
