-- ===== src/Service/Lifecycle/Reload/Wait.antt =====
-- The wait for the boot ends, and how.
use rune_mcp.Prelude.{
  ℕ, zero, suc, ◌+◌, ◌≤◌, ◌<◌, ◌*◌, ◌≡◌, refl, Bool, true, false, arith, ltb, if-elim, ltb→lt, ◌⊎◌,
  inl, inr, if◌then◌else◌,
}
use rune_mcp.Lifecycle.Boot.{State}
use rune_mcp.Service.Lifecycle.Host.{Host, IsClock}
use rune_mcp.Service.Lifecycle.Reload.{
  WaitEnd, is_settled, wait_for_boot_progress, wait_loop, wait_round,
}

-- The boot is over, and it is not.
abbrev pub IsOver : State → Type 0
IsOver s = (s ≡ State.active) ⊎ (s ≡ State.dormant)

abbrev pub IsUnderWay : State → Type 0
IsUnderWay s = (s ≡ State.starting) ⊎ (s ≡ State.waiting_for_vault)

settled_cases : (s : State) (b : Bool) → is_settled s ≡ b → (if b then IsOver s else IsUnderWay s)
settled_cases State.active b e = rw (← e) (inl refl)
settled_cases State.dormant b e = rw (← e) (inr refl)
settled_cases State.starting b e = rw (← e) (inl refl)
settled_cases State.waiting_for_vault b e = rw (← e) (inr refl)

module _ {W : Type 0} (h : Host W) where
  -- The rounds of a wait from a world: the last reads the clock at the deadline or after it, or a
  -- state in which the boot is over, or its sleep of 100 ms is ended by the context; each before it
  -- reads the clock before the deadline and a state in which the boot is under way.
  pub data Rounds (deadline : ℕ) : W → WaitEnd × W → Type 0 where
    at_deadline :
        (w : W) → deadline ≤ (h.clock w).0 → Rounds deadline w (WaitEnd.late, (h.clock w).1)
    boot_over :
        (w : W)
        → (h.clock w).0 < deadline
        → IsOver (h.current (h.clock w).1).0
        → Rounds deadline w (WaitEnd.settled, (h.current (h.clock w).1).1)
    context_done :
        (w : W)
        → (h.clock w).0 < deadline
        → IsUnderWay (h.current (h.clock w).1).0
        → (h.sleep 100 (h.current (h.clock w).1).1).0 ≡ true
        → Rounds deadline w (WaitEnd.cancelled, (h.sleep 100 (h.current (h.clock w).1).1).1)
    another :
        (w : W) (r : WaitEnd × W)
        → (h.clock w).0 < deadline
        → IsUnderWay (h.current (h.clock w).1).0
        → (h.sleep 100 (h.current (h.clock w).1).1).0 ≡ false
        → Rounds deadline (h.sleep 100 (h.current (h.clock w).1).1).1 r
        → Rounds deadline w r

  -- The whole wait: the clock, a sleep of 150 ms that the context may end, and the rounds.
  abbrev pub HasEnded : ℕ → W → WaitEnd × W → Type 0
  HasEnded timeout w r =
      let slept = h.sleep 150 (h.clock w).1 in
      ((slept.0 ≡ true) × (r ≡ (WaitEnd.cancelled, slept.1)))
      ⊎ ((slept.0 ≡ false) × Rounds ((h.clock w).0 + timeout) slept.1 r)

  module _ (time : W → ℕ) (c : IsClock h time) where
    wait_round-Rounds :
        (deadline : ℕ) (again : W → WaitEnd × W) (w : W)
        → ((w' : W) → time w < deadline → time w + 100 ≤ time w' → Rounds deadline w' (again w'))
        → Rounds deadline w (wait_round h deadline again w)
    wait_round-Rounds deadline again w next =
        let w₁ = (h.clock w).1 in
        let s = (h.current w₁).0 in
        let w₂ = (h.current w₁).1 in
        if-elim {A = WaitEnd × W} (Rounds deadline w) (ltb (h.clock w).0 deadline)
          (λ before.
            let early = ltb→lt (h.clock w).0 deadline before in
            if-elim {A = WaitEnd × W} (Rounds deadline w) (is_settled s)
              (λ over. Rounds.boot_over w early (settled_cases s true over))
              (λ not_over.
                let on = settled_cases s false not_over in
                if-elim {A = WaitEnd × W} (Rounds deadline w) (h.sleep 100 w₂).0
                  (λ done. Rounds.context_done w early on done)
                  (λ awake. Rounds.another w _ early on awake (
                    next (h.sleep 100 w₂).1 (omega (arith, early, c.reads w))
                      (omega (arith, c.clock_on w, c.current_on w₁, c.sleep_on 100 w₂ awake))))))
          (λ late. Rounds.at_deadline w (ground arith))

    wait_loop-Rounds :
        (fuel deadline : ℕ) (w : W)
        → deadline ≤ time w + 100 * fuel
        → Rounds deadline w (wait_loop h (suc fuel) deadline w)
    unfolding wait_loop
    wait_loop-Rounds zero deadline w enough =
        wait_round-Rounds deadline (wait_loop h zero deadline) w
          (λ w' early on. absurd (omega arith))
    wait_loop-Rounds (suc fuel) deadline w enough =
        wait_round-Rounds deadline (wait_loop h (suc fuel) deadline) w
          (λ w' early on. wait_loop-Rounds fuel deadline w' (omega arith))

    -- Under a clock that waits advance, waitForBootProgress returns, whatever the state does meanwhile:
    -- as cancelled, where the context ends one of its sleeps; as settled, where it reads the state
    -- active or dormant before the deadline, which is the timeout after its start; as late, where it
    -- reads the clock at the deadline or after it. In each round before the last it read a time before
    -- the deadline and a boot under way. The model's fuel is never used up.
    pub wait_for_boot_progress-HasEnded :
        (timeout : ℕ) (w : W) → HasEnded timeout w (wait_for_boot_progress h timeout w)
    unfolding wait_for_boot_progress
    wait_for_boot_progress-HasEnded timeout w =
        let w₁ = (h.clock w).1 in
        if-elim {A = WaitEnd × W} (HasEnded timeout w) (h.sleep 150 w₁).0 (λ done. inl (done, refl))
          (λ awake. inr (
            awake,
            wait_loop-Rounds timeout ((h.clock w).0 + timeout) (h.sleep 150 w₁).1
                (omega (arith, c.reads w, c.clock_on w, c.sleep_on 150 w₁ awake)),
          ))
