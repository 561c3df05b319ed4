-- ===== src/Spawn.antt =====
-- internal/spawn/spawn.go and lockunix.go: the start of the embedder daemon, by the one process that holds
-- the lock. Times are in milliseconds.
pub mod Laws
use rune_mcp.Prelude.{
  ℕ, zero, suc, ◌+◌, Bool, true, false, ◌||◌, Option, none, some, [], ◌++◌, ltb, ◌==◌,
  if◌then◌else◌,
}
use rune_mcp.Prelude.Text.{Text, codes, is_empty}
use rune_mcp.Domain.Errors.{Error, Result, err, ok, other, panic, wrap}

pub record SpawnConfig : Type 0 where
  pub rune_binary : Text
  pub socket_path : Text
  pub spawn_lock_path : Text
  pub ready_timeout : ℕ
  pub poll_interval : ℕ

-- Flock's answer: the lock, that another process has it, or an error.
pub data FlockEnd : Type 0 where
  locked would_block : FlockEnd
  flock_failed : Error → FlockEnd

-- What acquireSpawnLock returns: the lock, none and no error, or an error.
pub data LockEnd : Type 0 where
  held busy : LockEnd
  lock_failed : Error → LockEnd

-- The host: the environment, files, the socket, the lock file, the launcher, the clock and the waits, which
-- the context may end with its error.
pub record Machine (W : Type 0) : Type 0 where
  pub rune_home : Text
  pub plugin_root : Text
  pub user_home : Option Text
  pub join : Text → Text → Text
  pub exists : Text → W → Bool × W
  pub look_path : Text → W → Option Text × W
  pub probe_socket : Text → W → Bool × W
  pub make_parent : Text → W → Option Error × W
  pub open_lock : Text → W → Option Error × W
  pub flock : W → FlockEnd × W
  pub close_lock : W → W
  pub launch_daemon : Text → W → Option Error × W
  pub clock : W → ℕ × W
  pub wait : ℕ → W → Option Error × W
  pub show_duration : ℕ → Text

abbrev pub rune_binary_not_found : Error
rune_binary_not_found = other (codes "spawn: rune binary not found (run `rune install`)")

abbrev pub or_default_ms : ℕ → ℕ → ℕ
or_default_ms n def = if n == 0 then def else n

abbrev pub apply_defaults : SpawnConfig → SpawnConfig
apply_defaults c = record c {
  ready_timeout = or_default_ms c.ready_timeout 15000;
  poll_interval = or_default_ms c.poll_interval 500;
}

-- How a wait for the socket ends; `no_fuel` is the model's alone.
pub data SocketEnd : Type 0 where
  reachable not_reachable no_fuel : SocketEnd
  cancelled : Error → SocketEnd

module _ {W : Type 0} (m : Machine W) where
  abbrev pub home_binary : Option Text → Text
  home_binary none = []
  home_binary (some home) =
      if is_empty home then [] else m.join (m.join home (codes ".rune")) (codes "bin/rune")

  abbrev pub default_rune_binary_path : Text
  default_rune_binary_path =
      if is_empty m.rune_home
      then home_binary m.user_home
      else m.join m.rune_home (codes "bin/rune")

  -- Whether a path is set and its file is there.
  abbrev pub is_there : Text → W → Bool × W
  is_there path w = if is_empty path then (false, w) else m.exists path w

  abbrev pub looked_up : Option Text → W → Result Text × W
  looked_up none w = (err rune_binary_not_found, w)
  looked_up (some p) w = (ok p, w)

  abbrev pub plugin_binary : Text
  plugin_binary = if is_empty m.plugin_root then [] else m.join m.plugin_root (codes "bin/rune")

  unfoldable pub resolve_rune_binary : W → Result Text × W
  resolve_rune_binary w =
      let (home, w₁) = is_there default_rune_binary_path w in
      let (plugin, w₂) = is_there plugin_binary w₁ in
      if home
      then (ok default_rune_binary_path, w₁)
      else if plugin
      then (ok plugin_binary, w₂)
      else looked_up (m.look_path (codes "rune") w₂).0 (m.look_path (codes "rune") w₂).1

  unfoldable pub agent_install_recovery_hint : W → Text × W
  agent_install_recovery_hint w =
      let (there, w₁) = is_there default_rune_binary_path w in
      (
        if there
            then codes "`" ++ (default_rune_binary_path ++ codes " install`")
            else codes "`bash -c \"${CLAUDE_PLUGIN_ROOT}/bin/rune install\"`",
        w₁,
      )

  abbrev pub cancelled_or : Option Error → (W → SocketEnd × W) → W → SocketEnd × W
  cancelled_or none again w = again w
  cancelled_or (some e) again w = (SocketEnd.cancelled e, w)

  -- A round: the socket, the clock, the wait.
  abbrev pub socket_round : Text → ℕ → ℕ → (W → SocketEnd × W) → W → SocketEnd × W
  socket_round path poll deadline again w =
      let (up, w₁) = m.probe_socket path w in
      let (now, w₂) = m.clock w₁ in
      if up
      then (SocketEnd.reachable, w₁)
      else if ltb now deadline
      then cancelled_or (m.wait poll w₂).0 again (m.wait poll w₂).1
      else (SocketEnd.not_reachable, w₂)

  unfoldable pub socket_loop : Text → ℕ → ℕ → ℕ → W → SocketEnd × W
  socket_loop path poll zero deadline w = (SocketEnd.no_fuel, w)
  socket_loop path poll (suc fuel) deadline w =
      socket_round path poll deadline (socket_loop path poll fuel deadline) w

  -- A round waits for a millisecond at least, so that the fuel is enough.
  unfoldable pub wait_for_socket : Text → ℕ → ℕ → W → SocketEnd × W
  unfolding socket_loop
  wait_for_socket path timeout poll w =
      let (now, w₁) = m.clock w in socket_loop path poll (suc timeout) (now + timeout) w₁

  abbrev pub socket_error : Text → ℕ → SocketEnd → Option Error
  socket_error path timeout SocketEnd.reachable = none
  socket_error path timeout SocketEnd.not_reachable = some (
      other (
        codes "spawn: socket "
        ++ (path ++ (codes " not reachable after " ++ m.show_duration timeout))))
  socket_error path timeout (SocketEnd.cancelled e) = some e
  socket_error path timeout SocketEnd.no_fuel = some (other [])

  abbrev pub flocked : Text → FlockEnd → W → LockEnd × W
  flocked path locked w = (held, w)
  flocked path would_block w = (busy, m.close_lock w)
  flocked path (flock_failed e) w = (lock_failed (wrap (codes "flock " ++ path) e), m.close_lock w)

  abbrev pub opened_lock : Text → Option Error → W → LockEnd × W
  opened_lock path none w = flocked path (m.flock w).0 (m.flock w).1
  opened_lock path (some e) w = (lock_failed (wrap (codes "open " ++ path) e), w)

  abbrev pub made_parent : Text → Option Error → W → LockEnd × W
  made_parent path none w = opened_lock path (m.open_lock path w).0 (m.open_lock path w).1
  made_parent path (some e) w = (lock_failed (wrap (codes "mkdir parent") e), w)

  unfoldable pub acquire_spawn_lock : Text → W → LockEnd × W
  acquire_spawn_lock path w = made_parent path (m.make_parent path w).0 (m.make_parent path w).1

  module _ (c : SpawnConfig) where
    unfoldable pub await_socket : W → Option Error × W
    unfolding wait_for_socket
    await_socket w =
        let (end, w') = wait_for_socket c.socket_path c.ready_timeout c.poll_interval w in
        (socket_error c.socket_path c.ready_timeout end, w')

    abbrev pub launched : Option Error → W → Option Error × W
    launched none w = await_socket w
    launched (some e) w =
        (some (wrap (codes "spawn: exec `" ++ (c.rune_binary ++ codes " runed --detach`")) e), w)

    -- With the lock: the daemon is started unless the socket is there by now.
    abbrev pub with_lock : Bool → W → Option Error × W
    with_lock true w = await_socket w
    with_lock false w =
        launched (m.launch_daemon c.rune_binary w).0 (m.launch_daemon c.rune_binary w).1

    -- The deferred Close gives the lock back.
    abbrev pub unlocking : Option Error × W → Option Error × W
    unlocking r = (r.0, m.close_lock r.1)

    abbrev pub acquired : LockEnd → W → Option Error × W
    acquired held w =
        unlocking (with_lock (m.probe_socket c.socket_path w).0 (m.probe_socket c.socket_path w).1)
    acquired busy w = await_socket w
    acquired (lock_failed e) w = (some (wrap (codes "spawn: lock") e), w)

    abbrev pub dialled : Bool → W → Option Error × W
    dialled true w = (none, w)
    dialled false w =
        acquired (acquire_spawn_lock c.spawn_lock_path w).0
          (acquire_spawn_lock c.spawn_lock_path w).1

    abbrev pub ensure_ready : W → Option Error × W
    ensure_ready w =
        if is_empty c.rune_binary
        then (some rune_binary_not_found, w)
        else if is_empty c.socket_path || is_empty c.spawn_lock_path
        then (some (other (codes "spawn: SocketPath and SpawnLockPath must be set")), w)
        else dialled (m.probe_socket c.socket_path w).0 (m.probe_socket c.socket_path w).1

  unfoldable pub ensure_daemon : SpawnConfig → W → Option Error × W
  unfolding await_socket acquire_spawn_lock
  ensure_daemon cfg w = ensure_ready (apply_defaults cfg) w
