-- ===== src/Lifecycle/Boot/Outcomes.antt =====
-- What an attempt to boot can end with, described from the answers of its calls.
use rune_mcp.Prelude.{ℕ, true, false, ◌||◌, Option, none, some, List, [], ◌∷◌, ◌++◌, ◌≡◌, ◌⊎◌}
use rune_mcp.Prelude.Text.{Text, codes, is_empty, teq}
use rune_mcp.Adapters.Config.{Config, Loaded}
use rune_mcp.Domain.Errors.{Error, error_text}
use rune_mcp.Lifecycle.Boot.{Answers, Boot, BootCause, BootPhase, BootResult, State}

-- The loop is at work.
abbrev pub IsBooting : State → Type 0
IsBooting s = (s ≡ State.starting) ⊎ (s ≡ State.waiting_for_vault)

-- The calls that follow the config in their order, each with its name, its phase and its answer.
abbrev pub calls_of : Answers → List (Text × BootPhase × Option Error)
calls_of a =
    (codes "vault dial", BootPhase.vault_dial, a.vault_new)
    ∷ (codes "vault get manifest", BootPhase.vault_manifest, a.manifest)
    ∷ (codes "save EncKey", BootPhase.key_save, a.save_enc_key)
    ∷ (codes "resolve key dir", BootPhase.key_save, a.key_dir)
    ∷ (codes "embedder dial", BootPhase.embedder_dial, a.embedder_new)
    ∷ (codes "envector new client", BootPhase.envector_init, a.envector_new)
    ∷ (codes "envector open index", BootPhase.envector_index, a.open_index)
    ∷ []

-- The name, the phase and the error of the first call that fails.
abbrev pub first_failure :
    List (Text × BootPhase × Option Error) → Option (Text × BootPhase × Error)
first_failure [] = none
first_failure ((what, phase, none) ∷ calls) = first_failure calls
first_failure ((what, phase, some e) ∷ calls) = some (what, phase, e)

-- The config is active and complete.
abbrev pub HasConfig : Answers → Type 0
HasConfig a =
    (c : Config) × (a.config ≡ Loaded.loaded c)
    × (c.state ≡ codes "active")
    × (is_empty c.endpoint ≡ false)
    × (is_empty c.token ≡ false)

abbrev pub IsGood : Answers → Type 0
IsGood a = HasConfig a × (first_failure (calls_of a) ≡ none)

-- The load of the config, or else the first call, that fails.
abbrev pub IsFailed : Answers → Text → BootPhase → Error → Type 0
IsFailed a what phase e =
    ((a.config ≡ Loaded.load_failed e)
      × (what ≡ codes "config load")
      × (phase ≡ BootPhase.config_load))
    ⊎ (HasConfig a × (first_failure (calls_of a) ≡ some (what, phase, e)))

-- The reason that a config is dormant for.
abbrev pub IsReason : Loaded → Text → Type 0
IsReason Loaded.not_found reason = reason ≡ codes "not_configured"
IsReason (Loaded.load_failed e) reason = ⊥
IsReason (Loaded.loaded c) reason =
    ((c.state ≡ codes "dormant")
      × (is_empty c.dormant_reason ≡ false)
      × (reason ≡ c.dormant_reason))
    ⊎ (((c.state ≡ codes "dormant")
          × (is_empty c.dormant_reason ≡ true)
          × (reason ≡ codes "user_deactivated"))
        ⊎ (((is_empty c.state ≡ true) × (reason ≡ codes "not_configured"))
            ⊎ (((teq c.state (codes "active") ≡ false)
                  × (teq c.state (codes "dormant") ≡ false)
                  × (is_empty c.state ≡ false)
                  × (reason ≡ codes "invalid_state"))
                ⊎ ((c.state ≡ codes "active")
                    × ((is_empty c.endpoint || is_empty c.token) ≡ true)
                    × (reason ≡ codes "vault_unconfigured")))))

-- The mark in the config, where MarkDormant succeeded and where it failed.
abbrev pub IsMark : Option Error → Option Text → Text → Option Text → Type 0
IsMark none before reason after = after ≡ some reason
IsMark (some e) before reason after = after ≡ before

abbrev pub IsDormant : Answers → Option Text → Boot → Type 0
IsDormant a before m =
    (reason : Text) × IsReason a.config reason
    × (m.state ≡ State.dormant)
    × (m.boot_error ≡ some (BootCause.dormant_reason reason))
    × IsMark a.mark_dormant before reason m.marked

abbrev pub state_after : BootPhase → State → State
state_after BootPhase.vault_dial s = State.waiting_for_vault
state_after BootPhase.vault_manifest s = State.waiting_for_vault
state_after _ s = s

-- What a failed call leaves: `s` and `k` are the state and the mark from before.
abbrev pub IsLeft : ℕ → State → Option Text → Text → BootPhase → Error → Boot → Type 0
IsLeft n s k what phase e m =
    (m.boot_error ≡ some (BootCause.boot_failure e phase n))
    × (m.last_error ≡ what ++ (codes ": " ++ error_text e))
    × (m.state ≡ state_after phase s)
    × (m.marked ≡ k)

abbrev pub IsAttempt : Answers → ℕ → Boot → BootResult → Boot → Type 0
IsAttempt a n m BootResult.boot_active m' = IsGood a × (m'.state ≡ m.state) × (m'.marked ≡ m.marked)
IsAttempt a n m BootResult.boot_dormant m' = IsDormant a m.marked m'
IsAttempt a n m BootResult.boot_retry m' =
    (what : Text) × (phase : BootPhase) × (e : Error) × IsFailed a what phase e
    × IsLeft n m.state m.marked what phase e m'
