-- ===== src/Lifecycle/Boot/Restart.antt =====
-- What a boot makes of a config that was marked dormant, or cleared.
use rune_mcp.Prelude.{
  ℕ, true, false, ◌&&◌, ◌||◌, none, some, [], ◌≡◌, refl, ◌∙◌, ap, arith, if-elim,
}
use rune_mcp.Prelude.Text.{Text, codes, is_empty, teq, teq_iff, teq_refl}
use rune_mcp.Adapters.Config.{
  Config, Loaded, clear_dormant, config_or_fresh, load, mark_dormant, saved,
}
use rune_mcp.Lifecycle.Boot.{
  Answers, Boot, BootCause, BootResult, boot_loaded, boot_once, boot_vault, reason_of,
}

-- A config that was marked with the reason; its Vault section is that of `c`.
abbrev pub IsMarked : Text → Config → Loaded → Type 0
IsMarked reason c l =
    (d : Config) × (l ≡ Loaded.loaded d)
    × (d.state ≡ codes "dormant")
    × (d.dormant_reason ≡ reason)
    × (d.endpoint ≡ c.endpoint)
    × (d.token ≡ c.token)
    × (d.ca_cert ≡ c.ca_cert)
    × (d.tls_disable ≡ c.tls_disable)

-- The Vault section before: that of a file that loads, and else an empty one.
abbrev pub section_of : Loaded → Config
section_of (Loaded.loaded c) = c
section_of _ = record {
  state = [];
  dormant_reason = [];
  dormant_since = [];
  endpoint = [];
  token = [];
  ca_cert = [];
  tls_disable = false;
}

-- A load that was not skipped as already marked had a config.
already-IsMarked :
    (reason : Text) (l : Loaded)
    → (teq (config_or_fresh l).state (codes "dormant")
        && teq (config_or_fresh l).dormant_reason reason)
      ≡ true
    → IsMarked reason (config_or_fresh l) l
unfolding teq codes
already-IsMarked reason Loaded.not_found e = absurd cc
already-IsMarked reason (Loaded.load_failed er) e = absurd cc
already-IsMarked reason (Loaded.loaded c) e = (
  c,
  refl,
  (teq_iff c.state (codes "dormant")).0 (ground arith),
  (teq_iff c.dormant_reason reason).0 (ground arith),
  refl,
  refl,
  refl,
  refl,
)

fresh-section_of : (l : Loaded) → config_or_fresh l ≡ section_of l
fresh-section_of Loaded.not_found = refl
fresh-section_of (Loaded.load_failed e) = refl
fresh-section_of (Loaded.loaded c) = refl

mark_dormant-IsMarked :
    (reason now : Text) (l : Loaded)
    → IsMarked reason (config_or_fresh l) (saved (mark_dormant reason now l) l)
unfolding mark_dormant
mark_dormant-IsMarked reason now l =
    if-elim (λ o. IsMarked reason (config_or_fresh l) (saved o l))
      (teq (config_or_fresh l).state (codes "dormant")
        && teq (config_or_fresh l).dormant_reason reason)
      (λ e. already-IsMarked reason l e) (λ _. (_, refl, refl, refl, refl, refl, refl, refl))

marked-again :
    (reason now : Text) (c : Config) (l : Loaded)
    → IsMarked reason c l
    → mark_dormant reason now l ≡ none
unfolding mark_dormant
marked-again reason now c l (d, e, s, r, _, _, _, _) =
    rw e (rw s (rw r (rw (teq_refl (codes "dormant")) (rw (teq_refl reason) refl))))

marked-boot :
    (reason : Text) (c : Config) (a : Answers) (n : ℕ) (m : Boot)
    → is_empty reason ≡ false
    → IsMarked reason c a.config
    → ((boot_once a n m).0 ≡ BootResult.boot_dormant)
      × ((boot_once a n m).1.boot_error ≡ some (BootCause.dormant_reason reason))
unfolding boot_once boot_loaded reason_of teq codes
marked-boot reason c a n m full (d, e, s, r, _, _, _, _) = rw e (rw s (rw r (rw full (refl, refl))))

load-unset : (l : Loaded) → load [] l ≡ l
unfolding load
load-unset Loaded.not_found = refl
load-unset (Loaded.load_failed e) = refl
load-unset (Loaded.loaded c) = refl

-- Where RUNE_STATE is not set: after MarkDormant with a reason the config carries it and has the whole
-- Vault section of the file, where that loads, and else an empty one, so that a file that cannot be
-- read or parsed loses its section; a second MarkDormant with the same reason writes nothing; and,
-- where the reason is not empty, the next boot is dormant for that reason.
pub mark_dormant-survives :
    (reason now later : Text) (l : Loaded) (a : Answers) (n : ℕ) (m : Boot)
    → a.config ≡ load [] (saved (mark_dormant reason now (load [] l)) l)
    → IsMarked reason (section_of l) a.config
      × (mark_dormant reason later a.config ≡ none)
      × (is_empty reason ≡ false
          → ((boot_once a n m).0 ≡ BootResult.boot_dormant)
            × ((boot_once a n m).1.boot_error ≡ some (BootCause.dormant_reason reason)))
mark_dormant-survives reason now later l a n m e =
    let kept : a.config ≡ saved (mark_dormant reason now l) l =
      e ∙ load-unset _ ∙ ap (λ k. saved (mark_dormant reason now k) l) (load-unset l) in
    let marked : IsMarked reason (section_of l) a.config =
      rw (← fresh-section_of l) (rw kept (mark_dormant-IsMarked reason now l)) in
    (
      marked,
      marked-again reason later (section_of l) a.config marked,
      λ full. marked-boot reason (section_of l) a n m full marked,
    )

active_boot :
    (c : Config) (a : Answers) (n : ℕ) (m : Boot)
    → teq c.state (codes "active") ≡ true
    → (is_empty c.endpoint || is_empty c.token) ≡ false
    → boot_loaded (Loaded.loaded c) a n m ≡ boot_vault a n m
unfolding boot_loaded
active_boot c a n m s full = rw s (rw full refl)

cleared-boot :
    (c : Config) (a : Answers) (n : ℕ) (m : Boot)
    → (is_empty c.endpoint || is_empty c.token) ≡ false
    → boot_loaded (saved (clear_dormant c) (Loaded.loaded c)) a n m ≡ boot_vault a n m
unfolding clear_dormant
cleared-boot c a n m full =
    if-elim (λ o. boot_loaded (saved o (Loaded.loaded c)) a n m ≡ boot_vault a n m)
      (teq c.state (codes "active") && is_empty c.dormant_reason && is_empty c.dormant_since)
      (λ t. active_boot c a n m (ground arith) full)
      (λ _.
        active_boot (record c { state = codes "active"; dormant_reason = []; dormant_since = [] }) a
          n m (teq_refl (codes "active")) full)

-- A boot from a config with an endpoint and a token goes on to Vault where ClearDormant was called
-- before and RUNE_STATE is not set; it also does where RUNE_STATE is "active", whatever state and
-- dormant reason the file holds.
pub clear_dormant-boots :
    (c : Config) (a : Answers) (n : ℕ) (m : Boot)
    → (is_empty c.endpoint || is_empty c.token) ≡ false
    → (a.config ≡ load [] (saved (clear_dormant c) (Loaded.loaded c))
        → boot_once a n m ≡ boot_vault a n m)
      × (a.config ≡ load (codes "active") (Loaded.loaded c) → boot_once a n m ≡ boot_vault a n m)
unfolding load codes boot_once
clear_dormant-boots c a n m full = (
  λ e. ap (λ l. boot_loaded l a n m) (e ∙ load-unset _) ∙ cleared-boot c a n m full,
  λ e.
      ap (λ l. boot_loaded l a n m) e
      ∙ active_boot (record c { state = codes "active" }) a n m (teq_refl (codes "active")) full,
)
