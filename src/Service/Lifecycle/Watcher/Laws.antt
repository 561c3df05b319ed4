-- ===== src/Service/Lifecycle/Watcher/Laws.antt =====
-- The watcher ends, and where the daemon becomes ready it ends with a new boot.
use rune_mcp.Prelude.{
  ℕ, suc, ◌+◌, ◌*◌, ◌≤◌, ◌<◌, true, Option, none, some, List, [], ◌∷◌, ◌++◌, ◌≡◌, refl, arith, leb,
  ltb, length, map, All, if-elim, ◌⊎◌, inl, inr,
}
use rune_mcp.Prelude.Text.{Text, codes, teq}
use rune_mcp.Adapters.Embedder.{HealthSnapshot}
use rune_mcp.Domain.Errors.{Result, err, ok, panic}
use rune_mcp.Lifecycle.Boot.Outcomes.{IsBooting}
use rune_mcp.Lifecycle.Interceptor.{retrigger-IsBooting}
use rune_mcp.Lifecycle.Retrigger.{System}
use rune_mcp.Service.Lifecycle.Watcher.{
  ended, Tick, WatchEnd, health_end, is_ready, run_bootstrap_watcher, status_end, watch,
}

abbrev pub HasStopped : WatchEnd → Type 0
HasStopped WatchEnd.watching = ⊥
HasStopped _ = Unit {0}

-- The ticks from the i-th on, of a ticker that was made at `start`: the i-th comes 15 i seconds later or
-- after that.
abbrev pub AreTicks : ℕ → ℕ → List Tick → Type 0
AreTicks start i [] = Unit {0}
AreTicks start i (t ∷ ts) = (start + 15 * i ≤ t.now) × AreTicks start (suc i) ts

health_end-HasStopped :
    (o : Option (Result HealthSnapshot)) (errors : ℕ) (again : ℕ → WatchEnd)
    → ((e : ℕ) → HasStopped (again e))
    → HasStopped (health_end o errors again)
health_end-HasStopped none errors again h = tt
health_end-HasStopped (some (ok s)) errors again h =
    if-elim HasStopped (teq s.status (codes "LOADING")) (λ _. h 0)
      (λ _. if-elim HasStopped (is_ready s.status) (λ _. tt) (λ _. tt))
health_end-HasStopped (some (err e)) errors again h =
    if-elim HasStopped (leb 3 (suc errors)) (λ _. tt) (λ _. h (suc errors))
health_end-HasStopped (some panic) errors again h = tt

watch-HasStopped :
    (start i errors : ℕ) (ts : List Tick)
    → AreTicks start i ts
    → 122 ≤ i + length ts
    → 0 < length ts
    → HasStopped (watch (30 * 60 + start) ts errors)
unfolding watch
watch-HasStopped start i errors [] h n p = absurd (omega arith)
watch-HasStopped start i errors (t ∷ []) h n p =
    if-elim HasStopped (ltb (30 * 60 + start) t.now) (λ _. tt)
      (λ early. absurd (ground (arith, h.0, n)))
watch-HasStopped start i errors (t ∷ u ∷ ts) h n p =
    if-elim HasStopped (ltb (30 * 60 + start) t.now) (λ _. tt)
      (λ _.
        health_end-HasStopped t.health errors (watch (30 * 60 + start) (u ∷ ts))
          (λ e. watch-HasStopped start (suc i) e (u ∷ ts) h.1 (omega arith) (omega arith)))

-- By its 121st tick, half an hour after the start, the watcher has ended, whatever Health answers.
pub run_bootstrap_watcher-HasStopped :
    (start : ℕ) (ts : List Tick)
    → AreTicks start 1 ts
    → 121 ≤ length ts
    → HasStopped (run_bootstrap_watcher start ts)
unfolding run_bootstrap_watcher
run_bootstrap_watcher-HasStopped start ts h n =
    watch-HasStopped start 1 0 ts h (omega arith) (omega arith)

-- Health answers that the daemon is loading, or fails; `errors` have failed just before, and never three
-- in a row do.
abbrev pub IsLoading : Option (Result HealthSnapshot) → Type 0
IsLoading (some (ok s)) = teq s.status (codes "LOADING") ≡ true
IsLoading _ = ⊥

abbrev pub FewErrors : ℕ → List (Option (Result HealthSnapshot)) → Type 0
FewErrors errors [] = Unit {0}
FewErrors errors (none ∷ os) = ⊥
FewErrors errors (some (ok s) ∷ os) = IsLoading (some (ok s)) × FewErrors 0 os
FewErrors errors (some (err e) ∷ os) = (errors < 2) × FewErrors (suc errors) os
FewErrors errors (some panic ∷ os) = ⊥

abbrev pub AreEarly : ℕ → List Tick → Type 0
AreEarly deadline ts = All (λ t. t.now ≤ deadline) ts

abbrev pub answers_of : List Tick → List (Option (Result HealthSnapshot))
answers_of ts = map (λ (t : Tick). t.health) ts

later_end :
    (deadline errors : ℕ) (t : Tick) (r : WatchEnd) (ts : List Tick)
    → t.now ≤ deadline
    → health_end t.health errors (watch deadline ts) ≡ r
    → watch deadline (t ∷ ts) errors ≡ r
unfolding watch
later_end deadline errors t r ts early e = ground arith

-- The daemon is up.
abbrev pub IsUp : Text → Type 0
IsUp s = (s ≡ codes "OK") ⊎ (s ≡ codes "IDLE")

up_end : (x : Text) (again : WatchEnd) → IsUp x → status_end x again ≡ WatchEnd.ready
unfolding teq codes
up_end x again (inl e) = rw e refl
up_end x again (inr e) = rw e refl

ready_end :
    (o : Option (Result HealthSnapshot)) (errors : ℕ) (again : ℕ → WatchEnd) (s : HealthSnapshot)
    → o ≡ some (ok s)
    → IsUp s.status
    → health_end o errors again ≡ WatchEnd.ready
ready_end o errors again s e up = rw e (up_end s.status (again 0) up)

loading_end :
    (o : Option (Result HealthSnapshot)) (os : List (Option (Result HealthSnapshot))) (errors : ℕ)
    (again : ℕ → WatchEnd)
    → FewErrors errors (o ∷ os)
    → ((e : ℕ) → FewErrors e os → again e ≡ WatchEnd.ready)
    → health_end o errors again ≡ WatchEnd.ready
loading_end none os errors again few h = absurd few
loading_end (some (ok s)) os errors again few h = rw few.0 (h 0 few.1)
loading_end (some (err e)) os errors again few h =
    if-elim (λ r. r ≡ WatchEnd.ready) (leb 3 (suc errors)) (λ many. absurd (ground (arith, few.0)))
      (λ _. h (suc errors) few.1)
loading_end (some panic) os errors again few h = absurd few

watch-ready :
    (deadline errors : ℕ) (before after : List Tick) (t : Tick) (s : HealthSnapshot)
    → AreEarly deadline (before ++ t ∷ [])
    → FewErrors errors (answers_of before)
    → t.health ≡ some (ok s)
    → IsUp s.status
    → watch deadline (before ++ t ∷ after) errors ≡ WatchEnd.ready
watch-ready deadline errors [] after t s early few e up =
    later_end deadline errors t WatchEnd.ready after early.0
      (ready_end t.health errors (watch deadline after) s e up)
watch-ready deadline errors (u ∷ us) after t s early few e up =
    later_end deadline errors u WatchEnd.ready (us ++ t ∷ after) early.0 (
      loading_end u.health (answers_of us) errors (watch deadline (us ++ t ∷ after)) few
        (λ n more. watch-ready deadline n us after t s early.1 more e up))

-- Where Health only answers that the daemon is loading, or fails less than three times in a row, until
-- it answers OK or IDLE within half an hour: the watcher ends there as ready, whatever ticks come
-- after, and whatever state the manager is in, the process is booting then.
pub run_bootstrap_watcher-ready :
    (start : ℕ) (before after : List Tick) (t : Tick) (s : HealthSnapshot) (m : System)
    → AreEarly (30 * 60 + start) (before ++ t ∷ [])
    → FewErrors 0 (answers_of before)
    → t.health ≡ some (ok s)
    → IsUp s.status
    → (let end = run_bootstrap_watcher start (before ++ t ∷ after) in
        (end ≡ WatchEnd.ready) × IsBooting (ended end m).state)
unfolding run_bootstrap_watcher ended
run_bootstrap_watcher-ready start before after t s m early few e up =
    let r = watch-ready (30 * 60 + start) 0 before after t s early few e up in
    (r, rw r (retrigger-IsBooting m.state m.live))
