-- ===== src/Lifecycle/Retrigger.antt =====
-- Manager.Retrigger and the boot loops it spawns (internal/lifecycle/boot.go), as steps that
-- interleave. A loop is live from its spawn to its last write of the state: the write of Active, the
-- write of Dormant, or the return after a cancelled context.
use rune_mcp.Prelude.{ℕ, suc, Bool, true, false, ◌≡◌, refl, ap, arith, ◌⊎◌, inl, inr, if◌then◌else◌}
use rune_mcp.Lifecycle.Boot.{State}
use rune_mcp.Lifecycle.Boot.Outcomes.{IsBooting}

abbrev same_state : State → State → Bool
same_state State.starting State.starting = true
same_state State.waiting_for_vault State.waiting_for_vault = true
same_state State.active State.active = true
same_state State.dormant State.dormant = true
same_state _ _ = false

-- CompareAndSwap(old, new): the new value, and whether it was swapped.
unfoldable pub compare_and_swap : State → State → State → State × Bool
compare_and_swap s old new = if same_state s old then (new, true) else (s, false)

-- The two swaps of Retrigger; the second is tried where the first fails.
unfoldable pub claim : State → State × Bool
unfolding compare_and_swap
claim s =
    let first = compare_and_swap s State.active State.starting in
    let second = compare_and_swap s State.dormant State.starting in
    if first.1 then first else second

-- The state, and the loops that are live.
pub record System : Type 0 where
  pub state : State
  pub live : ℕ

-- Retrigger, once the callback is set: the winner of the claim spawns a loop.
unfoldable pub retrigger : System → System
unfolding claim
retrigger s =
    let (state, won) = claim s.state in
    if won
    then record { state = state; live = suc s.live }
    else record { state = state; live = s.live }

-- A step of the process: a call of Retrigger, or a write of one of the live loops.
pub data Step : System → System → Type 0 where
  retriggers : {s : System} → Step s (retrigger s)
  writes_booting :
      {s : State} {n : ℕ} (t : State)
      → IsBooting t
      → Step (record { state = s; live = suc n }) (record { state = t; live = suc n })
  ends_active :
      {s : State} {n : ℕ}
      → Step (record { state = s; live = suc n }) (record { state = State.active; live = n })
  ends_dormant :
      {s : State} {n : ℕ}
      → Step (record { state = s; live = suc n }) (record { state = State.dormant; live = n })
  cancelled :
      {s : State} {n : ℕ}
      → Step (record { state = s; live = suc n }) (record { state = s; live = n })

-- main.go spawns the first loop.
abbrev pub spawned : System
spawned = record { state = State.starting; live = 1 }

pub data Reachable : System → Type 0 where
  start : Reachable spawned
  next : {s t : System} → Reachable s → Step s t → Reachable t

-- At most one loop is live, and none where the state is a terminal one.
abbrev pub IsExclusive : System → Type 0
IsExclusive s = (s.live ≡ 0) ⊎ ((s.live ≡ 1) × IsBooting s.state)

is_terminal : State → Bool
is_terminal State.active = true
is_terminal State.dormant = true
is_terminal _ = false

not_booting : (s : State) → is_terminal s ≡ true → IsBooting s → ⊥
unfolding is_terminal
not_booting State.active h (inl e) = absurd cc
not_booting State.active h (inr e) = absurd cc
not_booting State.dormant h (inl e) = absurd cc
not_booting State.dormant h (inr e) = absurd cc
not_booting State.starting h b = absurd cc
not_booting State.waiting_for_vault h b = absurd cc

retrigger-IsExclusive :
    (st : State) (n : ℕ)
    → IsExclusive (record { state = st; live = n })
    → IsExclusive (retrigger (record { state = st; live = n }))
unfolding retrigger claim compare_and_swap is_terminal
retrigger-IsExclusive State.starting n h = h
retrigger-IsExclusive State.waiting_for_vault n h = h
retrigger-IsExclusive State.active n (inl e) = inr (ap suc e, inl refl)
retrigger-IsExclusive State.active n (inr (e, b)) = absurd (not_booting State.active refl b)
retrigger-IsExclusive State.dormant n (inl e) = inr (ap suc e, inl refl)
retrigger-IsExclusive State.dormant n (inr (e, b)) = absurd (not_booting State.dormant refl b)

Step-IsExclusive : {s t : System} → Step s t → IsExclusive s → IsExclusive t
Step-IsExclusive (Step.retriggers {s}) h = retrigger-IsExclusive s.state s.live h
Step-IsExclusive (Step.writes_booting t b) (inl e) = absurd (omega arith)
Step-IsExclusive (Step.writes_booting t b) (inr (e, b')) = inr (e, b)
Step-IsExclusive Step.ends_active (inl e) = absurd (omega arith)
Step-IsExclusive Step.ends_active (inr (e, b)) = inl (omega arith)
Step-IsExclusive Step.ends_dormant (inl e) = absurd (omega arith)
Step-IsExclusive Step.ends_dormant (inr (e, b)) = inl (omega arith)
Step-IsExclusive Step.cancelled (inl e) = absurd (omega arith)
Step-IsExclusive Step.cancelled (inr (e, b)) = inl (omega arith)

-- However the calls of Retrigger and the writes of the loops interleave: at most one loop can still
-- write the state, and where one can, the state says that the process is booting. So of the callers
-- that race on a terminal state only one spawns a loop.
pub Reachable-IsExclusive : {s : System} → Reachable s → IsExclusive s
Reachable-IsExclusive Reachable.start = inr (refl, inl refl)
Reachable-IsExclusive (Reachable.next r st) = Step-IsExclusive st (Reachable-IsExclusive r)
