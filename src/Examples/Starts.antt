-- ===== src/Examples/Starts.antt =====
-- The start of the daemon, and a record that is logged, in the concrete world.
use rune_mcp.Prelude.{ℕ, suc, ◌+◌, true, none, [], ◌++◌, ltb}
use rune_mcp.Prelude.Text.{Text, codes}
use rune_mcp.Obs.{Attrs, Record, Value, handled_record}
use rune_mcp.Obs.Laws.{IsRedacted, ScrubbedAttrs, handled_record-IsScrubbed}
use rune_mcp.Spawn.{SpawnConfig, FlockEnd, Machine, ensure_daemon}
use rune_mcp.Spawn.Laws.Trace.{IsStarted, ensure_daemon-IsStarted, logging}

-- The world is the time; the socket is there after three seconds.
abbrev slow_machine : Machine ℕ
slow_machine = record {
  rune_home = [];
  plugin_root = [];
  user_home = none;
  join = λ d p. d ++ p;
  exists = λ p w. (true, w);
  look_path = λ p w. (none, w);
  probe_socket = λ p w. (ltb 3000 w, w);
  make_parent = λ p w. (none, w);
  open_lock = λ p w. (none, w);
  flock = λ w. (FlockEnd.locked, w);
  close_lock = λ w. w;
  launch_daemon = λ b w. (none, suc w);
  clock = λ w. (w, w);
  wait = λ d w. (none, w + d);
  show_duration = λ d. codes "15s";
}

abbrev plain_config : SpawnConfig
plain_config = record {
  rune_binary = codes "rune";
  socket_path = codes "/s";
  spawn_lock_path = codes "/l";
  ready_timeout = 0;
  poll_interval = 0;
}

ensure_daemon-IsStarted_example :
    IsStarted slow_machine (codes "/s") (ensure_daemon (logging slow_machine) plain_config (0, []))
ensure_daemon-IsStarted_example = ensure_daemon-IsStarted slow_machine plain_config 0

-- No pattern matches.
abbrev no_match : Text → Text → (Text → Text) → Text
no_match p s f = s

abbrev line : Record ℕ
line = record {
  message = codes "boot failed";
  attrs =
      Attrs.attr (codes "vault")
        (Value.group
          (Attrs.attr (codes "endpoint") (Value.string (codes "vault.example")) Attrs.no_attrs))
        Attrs.no_attrs;
}

handled_record-IsScrubbed_example :
    IsRedacted no_match (handled_record no_match line).message
    × ScrubbedAttrs no_match (handled_record no_match line).attrs
handled_record-IsScrubbed_example = handled_record-IsScrubbed no_match line
