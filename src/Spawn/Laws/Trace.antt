-- ===== src/Spawn/Laws/Trace.antt =====
-- What a start does to the lock file and the daemon, told by a machine that logs it.
use rune_mcp.Prelude.{
  ℕ, zero, suc, ◌+◌, Bool, true, false, ◌||◌, Option, none, some, List, [], ◌∷◌, ◌++◌, ◌≡◌, refl,
  ltb, if-elim,
}
use rune_mcp.Prelude.Text.{Text, is_empty}
use rune_mcp.Domain.Errors.{Error}
use rune_mcp.Spawn.{
  SpawnConfig, FlockEnd, Machine, SocketEnd, acquire_spawn_lock, acquired, apply_defaults,
  await_socket, cancelled_or, ensure_daemon, ensure_ready, flocked, launched, made_parent,
  opened_lock, dialled, socket_error, socket_loop, unlocking, wait_for_socket, with_lock,
}

pub data Event : Type 0 where
  opened closed launched_daemon : Event
  flocked_as : FlockEnd → Event

abbrev pub Logged : Type 0 → Type 0
Logged W = W × List Event

abbrev pub opening : Option Error → List Event → List Event
opening none l = l ++ opened ∷ []
opening (some e) l = l

module _ {W : Type 0} (m : Machine W) where
  abbrev quiet : {A : Type 0} → (W → A × W) → Logged W → A × Logged W
  quiet f (w, l) = ((f w).0, ((f w).1, l))

  -- The same machine with the log of its lock file and its launches.
  abbrev pub logging : Machine (Logged W)
  logging = record {
    rune_home = m.rune_home;
    plugin_root = m.plugin_root;
    user_home = m.user_home;
    join = m.join;
    exists = λ p. quiet (m.exists p);
    look_path = λ p. quiet (m.look_path p);
    probe_socket = λ p. quiet (m.probe_socket p);
    make_parent = λ p. quiet (m.make_parent p);
    open_lock =
        λ p v. ((m.open_lock p v.0).0, ((m.open_lock p v.0).1, opening (m.open_lock p v.0).0 v.1));
    flock = λ v. ((m.flock v.0).0, ((m.flock v.0).1, v.1 ++ flocked_as (m.flock v.0).0 ∷ []));
    close_lock = λ v. (m.close_lock v.0, v.1 ++ closed ∷ []);
    launch_daemon = λ b v.
        ((m.launch_daemon b v.0).0, ((m.launch_daemon b v.0).1, v.1 ++ launched_daemon ∷ []));
    clock = quiet m.clock;
    wait = λ d. quiet (m.wait d);
    show_duration = m.show_duration;
  }

  abbrev KeepsLog : {A : Type 0} → List Event → A × Logged W → Type 0
  KeepsLog l r = r.1.1 ≡ l

  cancelled_or-log :
      (o : Option Error) (again : Logged W → SocketEnd × Logged W) (w : W) (l : List Event)
      → ((w' : W) → KeepsLog l (again (w', l)))
      → KeepsLog l (cancelled_or logging o again (w, l))
  cancelled_or-log none again w l ih = ih w
  cancelled_or-log (some e) again w l ih = refl

  socket_loop-log :
      (path : Text) (poll fuel deadline : ℕ) (w : W) (l : List Event)
      → KeepsLog l (socket_loop logging path poll fuel deadline (w, l))
  unfolding socket_loop
  socket_loop-log path poll zero deadline w l = refl
  socket_loop-log path poll (suc fuel) deadline w l =
      let w₁ = (m.probe_socket path w).1 in
      let w₂ = (m.clock w₁).1 in
      if-elim {A = SocketEnd × Logged W} (KeepsLog l) (m.probe_socket path w).0 (λ _. refl)
        (λ _.
          if-elim {A = SocketEnd × Logged W} (KeepsLog l) (ltb (m.clock w₁).0 deadline)
            (λ _.
              cancelled_or-log (m.wait poll w₂).0 (socket_loop logging path poll fuel deadline)
                (m.wait poll w₂).1 l (λ w'. socket_loop-log path poll fuel deadline w' l))
            (λ _. refl))

  -- A result that is no error has a reading of the socket that succeeds.
  abbrev pub IsUp : Text → Option Error → Type 0
  IsUp path none = (w : W) × ((m.probe_socket path w).0 ≡ true)
  IsUp path (some e) = Unit {0}

  abbrev IsReached : Text → SocketEnd → Type 0
  IsReached path SocketEnd.reachable = (w : W) × ((m.probe_socket path w).0 ≡ true)
  IsReached path _ = Unit {0}

  cancelled_or-IsReached :
      (path : Text) (o : Option Error) (again : Logged W → SocketEnd × Logged W) (v : Logged W)
      → ((v : Logged W) → IsReached path (again v).0)
      → IsReached path (cancelled_or logging o again v).0
  cancelled_or-IsReached path none again v ih = ih v
  cancelled_or-IsReached path (some e) again v ih = tt

  socket_loop-IsReached :
      (path : Text) (poll fuel deadline : ℕ) (v : Logged W)
      → IsReached path (socket_loop logging path poll fuel deadline v).0
  unfolding socket_loop
  socket_loop-IsReached path poll zero deadline v = tt
  socket_loop-IsReached path poll (suc fuel) deadline (w, l) =
      let w₁ = (m.probe_socket path w).1 in
      let w₂ = (m.clock w₁).1 in
      if-elim {A = SocketEnd × Logged W} (λ r. IsReached path r.0) (m.probe_socket path w).0
        (λ up. (w, up))
        (λ _.
          if-elim {A = SocketEnd × Logged W} (λ r. IsReached path r.0) (ltb (m.clock w₁).0 deadline)
            (λ _.
              cancelled_or-IsReached path (m.wait poll w₂).0
                (socket_loop logging path poll fuel deadline) ((m.wait poll w₂).1, l)
                (λ v. socket_loop-IsReached path poll fuel deadline v))
            (λ _. tt))

  socket_error-IsUp :
      (path : Text) (timeout : ℕ) (end : SocketEnd)
      → IsReached path end
      → IsUp path (socket_error logging path timeout end)
  socket_error-IsUp path timeout SocketEnd.reachable h = h
  socket_error-IsUp path timeout SocketEnd.not_reachable h = tt
  socket_error-IsUp path timeout SocketEnd.no_fuel h = tt
  socket_error-IsUp path timeout (SocketEnd.cancelled e) h = tt

  -- The events of a start: the lock file is opened and closed once at most, the daemon launched once at
  -- most, and then with the lock and before the close.
  abbrev pub IsTrace : List Event → Type 0
  IsTrace [] = Unit {0}
  IsTrace (opened ∷ flocked_as o ∷ closed ∷ []) = Unit {0}
  IsTrace (opened ∷ flocked_as o ∷ launched_daemon ∷ closed ∷ []) = o ≡ FlockEnd.locked
  IsTrace _ = ⊥

  abbrev pub IsStarted : Text → Option Error × Logged W → Type 0
  IsStarted path r = IsTrace r.1.1 × IsUp path r.0

  module _ (c : SpawnConfig) where
    await_socket-IsUp :
        (w : W) (l : List Event)
        → IsUp c.socket_path (await_socket logging c (w, l)).0
          × KeepsLog l (await_socket logging c (w, l))
    unfolding await_socket wait_for_socket
    await_socket-IsUp w l =
        let fuel = suc c.ready_timeout in
        let deadline = (m.clock w).0 + c.ready_timeout in
        let w₁ = (m.clock w).1 in
        (
          socket_error-IsUp c.socket_path c.ready_timeout _
              (socket_loop-IsReached c.socket_path c.poll_interval fuel deadline (w₁, l)),
          socket_loop-log c.socket_path c.poll_interval fuel deadline w₁ l,
        )

    launched-IsStarted :
        (o : Option Error) (w : W)
        → IsStarted c.socket_path (
            unlocking logging c (
              launched logging c o (w, opened ∷ flocked_as FlockEnd.locked ∷ launched_daemon ∷ [])))
    launched-IsStarted none w =
        let h = await_socket-IsUp w (opened ∷ flocked_as FlockEnd.locked ∷ launched_daemon ∷ []) in
        (rw h.1 refl, h.0)
    launched-IsStarted (some e) w = (refl, tt)

    with_lock-IsStarted :
        (up : Bool) (w : W)
        → IsStarted c.socket_path (
            unlocking logging c
              (with_lock logging c up (w, opened ∷ flocked_as FlockEnd.locked ∷ [])))
    with_lock-IsStarted true w =
        let h = await_socket-IsUp w (opened ∷ flocked_as FlockEnd.locked ∷ []) in (rw h.1 tt, h.0)
    with_lock-IsStarted false w =
        launched-IsStarted (m.launch_daemon c.rune_binary w).0 (m.launch_daemon c.rune_binary w).1

    flocked-IsStarted :
        (o : FlockEnd) (w : W)
        → (let r = flocked logging c.spawn_lock_path o (w, opened ∷ flocked_as o ∷ []) in
            IsStarted c.socket_path (acquired logging c r.0 r.1))
    flocked-IsStarted FlockEnd.locked w =
        with_lock-IsStarted (m.probe_socket c.socket_path w).0 (m.probe_socket c.socket_path w).1
    flocked-IsStarted FlockEnd.would_block w =
        let l = opened ∷ flocked_as FlockEnd.would_block ∷ closed ∷ [] in
        let h = await_socket-IsUp (m.close_lock w) l in (rw h.1 tt, h.0)
    flocked-IsStarted (FlockEnd.flock_failed e) w = (tt, tt)

    opened-IsStarted :
        (o : Option Error) (w : W)
        → (let r = opened_lock logging c.spawn_lock_path o (w, opening o []) in
            IsStarted c.socket_path (acquired logging c r.0 r.1))
    opened-IsStarted none w = flocked-IsStarted (m.flock w).0 (m.flock w).1
    opened-IsStarted (some e) w = (tt, tt)

    made-IsStarted :
        (o : Option Error) (w : W)
        → (let r = made_parent logging c.spawn_lock_path o (w, []) in
            IsStarted c.socket_path (acquired logging c r.0 r.1))
    made-IsStarted none w =
        opened-IsStarted (m.open_lock c.spawn_lock_path w).0 (m.open_lock c.spawn_lock_path w).1
    made-IsStarted (some e) w = (tt, tt)

    dialled-IsStarted :
        (up : Bool) (w w' : W)
        → (m.probe_socket c.socket_path w).0 ≡ up
        → IsStarted c.socket_path (dialled logging c up (w', []))
    unfolding acquire_spawn_lock
    dialled-IsStarted true w w' e = (tt, (w, e))
    dialled-IsStarted false w w' e =
        made-IsStarted (m.make_parent c.spawn_lock_path w').0 (m.make_parent c.spawn_lock_path w').1

    ensure_ready-IsStarted : (w : W) → IsStarted c.socket_path (ensure_ready logging c (w, []))
    ensure_ready-IsStarted w =
        if-elim {A = Option Error × Logged W} (IsStarted c.socket_path) (is_empty c.rune_binary)
          (λ _. (tt, tt))
          (λ _.
            if-elim {A = Option Error × Logged W} (IsStarted c.socket_path)
              (is_empty c.socket_path || is_empty c.spawn_lock_path) (λ _. (tt, tt))
              (λ _.
                dialled-IsStarted (m.probe_socket c.socket_path w).0 w
                  (m.probe_socket c.socket_path w).1 refl))

  -- Whatever the host answers, EnsureDaemon opens the lock file once at most and then closes it, and
  -- launches the daemon once at most, while it has the lock; where it returns no error, a dial of the
  -- socket has succeeded.
  pub ensure_daemon-IsStarted :
      (c : SpawnConfig) (w : W) → IsStarted c.socket_path (ensure_daemon logging c (w, []))
  unfolding ensure_daemon
  ensure_daemon-IsStarted c w = ensure_ready-IsStarted (apply_defaults c) w
