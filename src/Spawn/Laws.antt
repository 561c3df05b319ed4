-- ===== src/Spawn/Laws.antt =====
-- The wait for the daemon ends, and the daemon is started once, under the lock.
pub mod Trace
use rune_mcp.Prelude.{
  ℕ, zero, suc, ◌+◌, ◌*◌, ◌≤◌, ◌<◌, Bool, true, false, ◌||◌, Option, none, some, List, [], ◌∷◌,
  ◌++◌, ◌≡◌, refl, arith, ltb, if◌then◌else◌, if-elim, ltb→lt,
}
use rune_mcp.Prelude.Text.{Text, codes, is_empty}
use rune_mcp.Domain.Errors.{Error}
use rune_mcp.Spawn.{
  SpawnConfig, FlockEnd, LockEnd, Machine, SocketEnd, acquire_spawn_lock, acquired, apply_defaults,
  await_socket, cancelled_or, ensure_daemon, ensure_ready, launched, dialled, socket_error,
  socket_loop, socket_round, wait_for_socket, with_lock,
}

-- A clock that no call turns back, and that a wait advances unless the context ends it.
pub record IsTimed {W : Type 0} (m : Machine W) (time : W → ℕ) : Type 0 where
  pub reads : (w : W) → (m.clock w).0 ≡ time w
  pub clock_on : (w : W) → time w ≤ time (m.clock w).1
  pub probe_on : (p : Text) (w : W) → time w ≤ time (m.probe_socket p w).1
  pub wait_on : (d : ℕ) (w : W) → (m.wait d w).0 ≡ none → time w + d ≤ time (m.wait d w).1

-- The code's wait ends: `no_fuel` is the model's alone.
abbrev pub HasEnded : SocketEnd → Type 0
HasEnded SocketEnd.no_fuel = ⊥
HasEnded _ = Unit {0}

module _ {W : Type 0} (m : Machine W) (time : W → ℕ) (t : IsTimed m time) (path : Text) (poll : ℕ)
    (some_wait : 0 < poll) where
  wait_case :
      (w : W) (again : W → SocketEnd × W) (o : Option Error)
      → (m.wait poll w).0 ≡ o
      → ((w' : W) → time w + poll ≤ time w' → HasEnded (again w').0)
      → HasEnded (cancelled_or m o again (m.wait poll w).1).0
  wait_case w again none e next = next (m.wait poll w).1 (t.wait_on poll w e)
  wait_case w again (some x) e next = tt

  socket_round-HasEnded :
      (deadline : ℕ) (again : W → SocketEnd × W) (w : W)
      → ((w' : W)
          → (m.clock (m.probe_socket path w).1).0 < deadline
          → time w + poll ≤ time w'
          → HasEnded (again w').0)
      → HasEnded (socket_round m path poll deadline again w).0
  socket_round-HasEnded deadline again w next =
      let w₁ = (m.probe_socket path w).1 in
      let w₂ = (m.clock w₁).1 in
      if-elim {A = SocketEnd × W} (λ r. HasEnded r.0) (m.probe_socket path w).0 (λ _. tt)
        (λ _.
          if-elim {A = SocketEnd × W} (λ r. HasEnded r.0) (ltb (m.clock w₁).0 deadline)
            (λ early. wait_case w₂ again (m.wait poll w₂).0 refl (λ w' on.
              next w' (ltb→lt (m.clock w₁).0 deadline early)
                (omega (arith, t.probe_on path w, t.clock_on w₁))))
            (λ _. tt))

  socket_loop-HasEnded :
      (fuel deadline : ℕ) (w : W)
      → deadline ≤ time w + fuel
      → HasEnded (socket_loop m path poll (suc fuel) deadline w).0
  unfolding socket_loop
  socket_loop-HasEnded zero deadline w enough =
      socket_round-HasEnded deadline (socket_loop m path poll zero deadline) w (λ w' early on.
        absurd (omega (arith, t.probe_on path w, t.reads (m.probe_socket path w).1)))
  socket_loop-HasEnded (suc fuel) deadline w enough =
      socket_round-HasEnded deadline (socket_loop m path poll (suc fuel) deadline) w
        (λ w' early on. socket_loop-HasEnded fuel deadline w' (omega arith))

  -- With a poll interval above 0, waitForSocket returns, with the socket reachable, at its timeout or with
  -- the context's end; the model's fuel is never used up.
  pub wait_for_socket-HasEnded :
      (timeout : ℕ) (w : W) → HasEnded (wait_for_socket m path timeout poll w).0
  unfolding wait_for_socket
  wait_for_socket-HasEnded timeout w =
      socket_loop-HasEnded timeout ((m.clock w).0 + timeout) (m.clock w).1
        (omega (arith, t.reads w, t.clock_on w))
