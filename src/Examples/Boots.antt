-- ===== src/Examples/Boots.antt =====
-- A boot that waits for Vault once, and a race of two callers of Retrigger.
use rune_mcp.Prelude.{false, Option, none, some, List, [], ◌∷◌, ◌≡◌, refl}
use rune_mcp.Prelude.Text.{codes, teq}
use rune_mcp.Adapters.Config.{Config, Loaded}
use rune_mcp.Domain.Errors.{Error, other}
use rune_mcp.Lifecycle.Boot.{Answers, Boot, Client, State, boot_once, run_boot_loop}
use rune_mcp.Lifecycle.Boot.Connections.{IsReady, boot_once-connections}
use rune_mcp.Lifecycle.Boot.Laws.{IsLoopEnd, boot_once-IsAttempt, run_boot_loop-IsLoopEnd}
use rune_mcp.Lifecycle.Boot.Outcomes.{IsAttempt}
use rune_mcp.Lifecycle.Retrigger.{
  IsExclusive, Reachable, Step, System, Reachable-IsExclusive, retrigger,
}

abbrev no_disk : Error
no_disk = other (codes "no disk")

abbrev pub good_config : Config
good_config = record {
  state = codes "active";
  dormant_reason = [];
  dormant_since = [];
  endpoint = codes "tcp://vault:1";
  token = codes "t";
  ca_cert = [];
  tls_disable = false;
}

abbrev pub answers : Option Error → Option Error → Answers
answers dial key_dir = record {
  config = Loaded.loaded good_config;
  mark_dormant = none;
  vault_new = dial;
  manifest = none;
  save_enc_key = none;
  key_dir = key_dir;
  embedder_new = none;
  envector_new = none;
  open_index = none;
}

abbrev pub fresh : Boot
fresh = record {
  state = State.starting;
  last_error = [];
  boot_error = none;
  attempts = 0;
  marked = none;
  injected = [];
  connections = [];
}

abbrev one_retry : List Answers
one_retry = answers (some no_disk) none ∷ answers none none ∷ []

run_boot_loop-IsLoopEnd_example : IsLoopEnd one_retry 0 none (run_boot_loop one_retry fresh)
run_boot_loop-IsLoopEnd_example = run_boot_loop-IsLoopEnd one_retry fresh

boot_once-IsAttempt_example :
    IsAttempt
      (answers none none)
      0
      fresh
      (boot_once (answers none none) 0 fresh).0
      (boot_once (answers none none) 0 fresh).1
boot_once-IsAttempt_example = boot_once-IsAttempt (answers none none) 0 fresh

ready : IsReady (answers none (some no_disk)) good_config
unfolding teq codes
ready = (refl, refl, refl)

abbrev stuck : Answers
stuck = answers none (some no_disk)

boot_once-connections_example :
    (stuck.vault_new ≡ some no_disk → (boot_once stuck 0 fresh).1.connections ≡ [])
    × (stuck.vault_new ≡ none
        → stuck.manifest ≡ some no_disk
        → (boot_once stuck 0 fresh).1.connections ≡ [])
    × (stuck.vault_new ≡ none
        → stuck.manifest ≡ none
        → stuck.save_enc_key ≡ some no_disk
        → (boot_once stuck 0 fresh).1.connections ≡ [])
    × (stuck.vault_new ≡ none
        → stuck.manifest ≡ none
        → stuck.save_enc_key ≡ none
        → stuck.key_dir ≡ some no_disk
        → ((boot_once stuck 0 fresh).1.connections ≡ Client.vault_client ∷ [])
          × ((boot_once stuck 0 fresh).1.injected ≡ []))
boot_once-connections_example = boot_once-connections stuck good_config 0 fresh no_disk ready

-- The first loop ends dormant, then Retrigger is called twice.
abbrev raced : System
raced = retrigger (retrigger (record { state = State.dormant; live = 0 }))

raced-Reachable : Reachable raced
raced-Reachable =
    Reachable.next
      (Reachable.next (Reachable.next Reachable.start Step.ends_dormant) Step.retriggers)
      Step.retriggers

Reachable-IsExclusive_example : IsExclusive raced
Reachable-IsExclusive_example = Reachable-IsExclusive raced-Reachable
