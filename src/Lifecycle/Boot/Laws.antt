-- ===== src/Lifecycle/Boot/Laws.antt =====
-- How a boot attempt and the boot loop can end.
use rune_mcp.Prelude.{
  ℕ, suc, ◌+◌, false, ◌||◌, Option, none, some, List, [], ◌∷◌, ◌++◌, ◌≡◌, refl, ap, ◌∙◌, arith,
  if-elim, ◌⊎◌, inl, inr, All, length,
}
use rune_mcp.Prelude.Text.{Text, codes, is_empty, teq, teq_iff}
use rune_mcp.Adapters.Config.{Config, Loaded}
use rune_mcp.Domain.Errors.{Error}
use rune_mcp.Lifecycle.Boot.{
  Answers, Boot, BootPhase, BootResult, Client, State, after_attempt, boot_envector, boot_keys,
  boot_loaded, boot_loop, boot_once, boot_vault, check, mark_after, opened, inject, reason_of,
  run_boot_loop, set_state, with_attempts,
}
use rune_mcp.Lifecycle.Boot.Outcomes.{
  IsBooting, calls_of, first_failure, HasConfig, IsGood, IsFailed, IsReason, IsMark, IsDormant,
  state_after, IsLeft, IsAttempt,
}

-- The end of the part of an attempt that makes these calls.
abbrev IsStep :
    List (Text × BootPhase × Option Error) → ℕ → State → Option Text → BootResult × Boot → Type 0
IsStep calls n s k (BootResult.boot_active, m) =
    (first_failure calls ≡ none) × (m.state ≡ s) × (m.marked ≡ k)
IsStep calls n s k (BootResult.boot_dormant, m) = ⊥
IsStep calls n s k (BootResult.boot_retry, m) =
    (what : Text) × (phase : BootPhase) × (e : Error) × (first_failure calls
      ≡ some (what, phase, e))
    × IsLeft n s k what phase e m

module _ (n : ℕ) (s : State) (k : Option Text) where
  check-IsStep :
      (o : Option Error) (what : Text) (phase : BootPhase)
      (calls : List (Text × BootPhase × Option Error)) (on_error : Boot → Boot)
      (next : Boot → BootResult × Boot) (m : Boot)
      → (on_error m).state ≡ state_after phase s
      → (on_error m).marked ≡ k
      → IsStep calls n s k (next m)
      → IsStep ((what, phase, o) ∷ calls) n s k (check o what phase n on_error next m)
  check-IsStep none what phase calls on_error next m hs hk later = later
  check-IsStep (some e) what phase calls on_error next m hs hk later =
      (what, phase, e, refl, (refl, refl, hs, hk))

  boot_vault-IsStep :
      (a : Answers) (m : Boot)
      → m.state ≡ s
      → m.marked ≡ k
      → IsStep (calls_of a) n s k (boot_vault a n m)
  unfolding boot_vault boot_keys boot_envector
  boot_vault-IsStep a m hs hk =
      let m₁ = opened Client.vault_client m in
      let m₂ = inject Client.vault_client m₁ in
      let m₃ = inject Client.embedder_client (opened Client.embedder_client m₂) in
      let m₄ = opened Client.envector_client m₃ in
      check-IsStep a.vault_new _ BootPhase.vault_dial _ _ _ m refl hk (
        check-IsStep a.manifest _ BootPhase.vault_manifest _ _ _ m₁ refl hk (
          check-IsStep a.save_enc_key _ BootPhase.key_save _ _ _ m₁ hs hk (
            check-IsStep a.key_dir _ BootPhase.key_save _ _ _ m₁ hs hk (
              check-IsStep a.embedder_new _ BootPhase.embedder_dial _ _ _ m₂ hs hk (
                check-IsStep a.envector_new _ BootPhase.envector_init _ _ _ m₃ hs hk (
                  check-IsStep a.open_index _ BootPhase.envector_index [] _ _ m₄ hs hk
                    (refl, hs, hk)))))))

IsStep-IsAttempt :
    (a : Answers) (n : ℕ) (m : Boot) (r : BootResult × Boot)
    → HasConfig a
    → IsStep (calls_of a) n m.state m.marked r
    → IsAttempt a n m r.0 r.1
IsStep-IsAttempt a n m (BootResult.boot_active, m') c (f, s, k) = ((c, f), s, k)
IsStep-IsAttempt a n m (BootResult.boot_dormant, m') c h = absurd h
IsStep-IsAttempt a n m (BootResult.boot_retry, m') c (what, phase, e, f, left) =
    (what, phase, e, inr (c, f), left)

reason_of-IsReason :
    (c : Config) → teq c.state (codes "active") ≡ false → IsReason (Loaded.loaded c) (reason_of c)
unfolding reason_of
reason_of-IsReason c f =
    if-elim (IsReason (Loaded.loaded c)) (teq c.state (codes "dormant"))
      (λ d.
        let is_dormant = (teq_iff c.state (codes "dormant")).0 d in
        if-elim (IsReason (Loaded.loaded c)) (is_empty c.dormant_reason)
          (λ e. inr (inl (is_dormant, e, refl))) (λ e. inl (is_dormant, e, refl)))
      (λ d.
        if-elim (IsReason (Loaded.loaded c)) (is_empty c.state) (λ e. inr (inr (inl (e, refl))))
          (λ e. inr (inr (inr (inl (f, d, e, refl))))))

go_dormant-IsMark :
    (o : Option Error) (reason : Text) (before : Option Text)
    → IsMark o before reason (mark_after o reason before)
go_dormant-IsMark none reason before = refl
go_dormant-IsMark (some e) reason before = refl

boot_loaded-IsAttempt :
    (l : Loaded) (a : Answers) (n : ℕ) (m : Boot)
    → a.config ≡ l
    → IsAttempt a n m (boot_loaded l a n m).0 (boot_loaded l a n m).1
unfolding boot_loaded
boot_loaded-IsAttempt Loaded.not_found a n m e =
    (codes "not_configured", rw e refl, refl, refl, go_dormant-IsMark a.mark_dormant _ m.marked)
boot_loaded-IsAttempt (Loaded.load_failed er) a n m e =
    (codes "config load", BootPhase.config_load, er, inl (e, refl, refl), (refl, refl, refl, refl))
boot_loaded-IsAttempt (Loaded.loaded c) a n m e =
    if-elim {A = BootResult × Boot} (λ r. IsAttempt a n m r.0 r.1) (teq c.state (codes "active"))
      (λ s.
        let is_active = (teq_iff c.state (codes "active")).0 s in
        if-elim {A = BootResult × Boot} (λ r. IsAttempt a n m r.0 r.1)
          (is_empty c.endpoint || is_empty c.token)
          (λ t. (
            codes "vault_unconfigured",
            rw e (inr (inr (inr (inr (is_active, t, refl))))),
            refl,
            refl,
            go_dormant-IsMark a.mark_dormant _ m.marked,
          ))
          (λ f.
            IsStep-IsAttempt a n m (boot_vault a n m) (c, e, is_active, ground arith, ground arith)
              (boot_vault-IsStep n m.state m.marked a m refl refl)))
      (λ f. (
        reason_of c,
        rw e (reason_of-IsReason c f),
        refl,
        refl,
        go_dormant-IsMark a.mark_dormant _ m.marked,
      ))

-- An attempt ends in one of three ways. Active: the config was active and complete and every call
-- succeeded; state and mark are as they were. Dormant: so is the state; the boot error carries the
-- reason that the config gives, and so does the mark in the config, unless MarkDormant failed, which
-- leaves it as it was. Retry: the boot error carries the error and the phase of the load, or of the
-- first call, that failed, and the number of the attempt; the last error is its text after the call's
-- name; the state is waiting_for_vault after a failed dial or manifest of Vault and else, as the mark,
-- unchanged.
pub boot_once-IsAttempt :
    (a : Answers) (n : ℕ) (m : Boot) → IsAttempt a n m (boot_once a n m).0 (boot_once a n m).1
unfolding boot_once
boot_once-IsAttempt a n m = boot_loaded-IsAttempt a.config a n m refl

abbrev pub HasFailed : Answers → Type 0
HasFailed a = (what : Text) × (phase : BootPhase) × (e : Error) × IsFailed a what phase e

-- The last attempt of a loop that was not cancelled, with the number `n`.
abbrev pub IsLast : Answers → ℕ → Option Text → Boot → Type 0
IsLast a n k m =
    (m.attempts ≡ n)
    × ((IsGood a
          × (m.state ≡ State.active)
          × (m.last_error ≡ [])
          × (m.boot_error ≡ none)
          × (m.marked ≡ k))
        ⊎ IsDormant a k m)

-- The end of the loop from attempt `n` on, where the config was marked with `k`: some attempts that
-- failed, and one more that did not; or, where the context was cancelled, nothing but failed attempts.
abbrev pub IsLoopEnd : List Answers → ℕ → Option Text → Boot → Type 0
IsLoopEnd answers n k m =
    ((failed : List Answers) × (a : Answers) × (later : List Answers) × (answers
        ≡ failed ++ a ∷ later)
      × All HasFailed failed
      × IsLast a (n + length failed) k m)
    ⊎ (All HasFailed answers × IsBooting m.state × (m.marked ≡ k))

loop_later :
    (a : Answers) (later : List Answers) (n : ℕ) (k : Option Text) (m : Boot)
    → HasFailed a
    → IsLoopEnd later (suc n) k m
    → IsLoopEnd (a ∷ later) n k m
loop_later a later n k m h (inl (failed, last, rest, e, all, (count, end))) =
    inl (a ∷ failed, last, rest, ap (◌∷◌ a) e, (h, all), (omega (arith, count), end))
loop_later a later n k m h (inr (all, b, kept)) = inr ((h, all), b, kept)

state_after-IsBooting :
    (phase : BootPhase) (s : State) → IsBooting s → IsBooting (state_after phase s)
state_after-IsBooting BootPhase.vault_dial s b = inr refl
state_after-IsBooting BootPhase.vault_manifest s b = inr refl
state_after-IsBooting BootPhase.config_load s b = b
state_after-IsBooting BootPhase.config_check s b = b
state_after-IsBooting BootPhase.key_save s b = b
state_after-IsBooting BootPhase.embedder_dial s b = b
state_after-IsBooting BootPhase.envector_init s b = b
state_after-IsBooting BootPhase.envector_index s b = b

after_attempt-IsLoopEnd :
    (a : Answers) (later : List Answers) (n : ℕ) (k : Option Text) (m : Boot) (r : BootResult)
    (again : Boot → Boot) (m' : Boot)
    → IsBooting m.state
    → m.marked ≡ k
    → IsAttempt a n m r m'
    → (IsBooting m'.state → m'.marked ≡ k → IsLoopEnd later (suc n) k (again m'))
    → IsLoopEnd (a ∷ later) n k (after_attempt r n again m')
after_attempt-IsLoopEnd a later n k m BootResult.boot_active again m' b e (good, s, kept) next =
    inl ([], a, later, refl, tt, (omega arith, inl (good, refl, refl, refl, kept ∙ e)))
after_attempt-IsLoopEnd a later n k m BootResult.boot_dormant again m' b e h next =
    inl ([], a, later, refl, tt, (omega arith, inr (rw (← e) h)))
after_attempt-IsLoopEnd a later n k m BootResult.boot_retry again m' b e
      (what, phase, er, f, (_, _, s, kept)) next =
    loop_later a later n k (again m') (what, phase, er, f)
      (next (rw s (state_after-IsBooting phase m.state b)) (kept ∙ e))

boot_loop-IsLoopEnd :
    (answers : List Answers) (n : ℕ) (k : Option Text) (m : Boot)
    → IsBooting m.state
    → m.marked ≡ k
    → IsLoopEnd answers n k (boot_loop answers n m)
unfolding boot_loop
boot_loop-IsLoopEnd [] n k m b e = inr (tt, b, e)
boot_loop-IsLoopEnd (a ∷ later) n k m b e =
    let o = boot_once a n (with_attempts n m) in
    after_attempt-IsLoopEnd a later n k (with_attempts n m) o.0 (boot_loop later (suc n)) o.1 b e
      (boot_once-IsAttempt a n (with_attempts n m)) (boot_loop-IsLoopEnd later (suc n) k o.1)

-- From whatever state it is started in: the boot loop ends active only after an attempt in which the
-- config was active and complete and every call succeeded, and then no error is left; it ends dormant
-- only after an attempt whose config gives the reason, with which the config is then marked unless
-- MarkDormant failed; all attempts before that one failed, and their number is kept. Else the context
-- was cancelled after attempts that all failed, and the state says that the process is booting. No
-- other end marks the config.
pub run_boot_loop-IsLoopEnd :
    (answers : List Answers) (m : Boot) → IsLoopEnd answers 0 m.marked (run_boot_loop answers m)
unfolding run_boot_loop
run_boot_loop-IsLoopEnd answers m =
    boot_loop-IsLoopEnd answers 0 m.marked (with_attempts 0 (set_state State.starting m)) (inl refl)
      refl
