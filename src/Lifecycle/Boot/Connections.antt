-- ===== src/Lifecycle/Boot/Connections.antt =====
-- The connections that a failed attempt leaves open.
use rune_mcp.Prelude.{ℕ, true, false, ◌||◌, none, some, ◌∷◌, ◌≡◌, refl}
use rune_mcp.Prelude.Text.{codes, is_empty, teq}
use rune_mcp.Adapters.Config.{Config, Loaded}
use rune_mcp.Domain.Errors.{Error}
use rune_mcp.Lifecycle.Boot.{Answers, Boot, Client, boot_keys, boot_loaded, boot_once, boot_vault}

-- The config lets the attempt reach Vault.
abbrev pub IsReady : Answers → Config → Type 0
IsReady a c =
    (a.config ≡ Loaded.loaded c)
    × (teq c.state (codes "active") ≡ true)
    × ((is_empty c.endpoint || is_empty c.token) ≡ false)

ready-boot_vault :
    (a : Answers) (c : Config) (n : ℕ) (m : Boot) → IsReady a c → boot_once a n m ≡ boot_vault a n m
unfolding boot_once boot_loaded
ready-boot_vault a c n m (e, s, p) = rw e (rw s (rw p refl))

-- Of an attempt that reaches Vault: where the dial, the manifest or the save of the key fails, the
-- connections are those from before it. Where the directory of the key cannot be resolved, the
-- connection to Vault stays open, and no service has received its client.
pub boot_once-connections :
    (a : Answers) (c : Config) (n : ℕ) (m : Boot) (e : Error)
    → IsReady a c
    → (a.vault_new ≡ some e → (boot_once a n m).1.connections ≡ m.connections)
      × (a.vault_new ≡ none → a.manifest ≡ some e → (boot_once a n m).1.connections ≡ m.connections)
      × (a.vault_new ≡ none
          → a.manifest ≡ none
          → a.save_enc_key ≡ some e
          → (boot_once a n m).1.connections ≡ m.connections)
      × (a.vault_new ≡ none
          → a.manifest ≡ none
          → a.save_enc_key ≡ none
          → a.key_dir ≡ some e
          → ((boot_once a n m).1.connections ≡ Client.vault_client ∷ m.connections)
            × ((boot_once a n m).1.injected ≡ m.injected))
unfolding boot_vault boot_keys
boot_once-connections a c n m e ready =
    let run = ready-boot_vault a c n m ready in
    (
      λ v. rw run (rw v refl),
      λ v g. rw run (rw v (rw g refl)),
      λ v g s. rw run (rw v (rw g (rw s refl))),
      λ v g s k. (rw run (rw v (rw g (rw s (rw k refl)))), rw run (rw v (rw g (rw s (rw k refl))))),
    )
