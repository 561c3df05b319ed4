-- ===== src/Lifecycle/Shutdown.antt =====
-- internal/lifecycle/shutdown.go: the drain of the calls in flight, the close of the adapters, and the
-- zeroed keys. int32 keeps its wrap-around.
use rune_mcp.Prelude.{
  ℕ, suc, ◌+◌, ◌-◌, ◌%◌, ◌^◌, Option, none, some, List, [], ◌∷◌, All, map, ◌==◌, ◌≡◌, refl, ap,
  length, if◌then◌else◌,
}
use rune_mcp.Adapters.AesCtr.{Bytes}
use rune_mcp.Domain.Errors.{Error}

-- InflightTracker: an int32, as the number that its 32 bits make.
abbrev pub begin_call : ℕ → ℕ
begin_call active = (active + 1) % 2 ^ 32

abbrev pub end_call : ℕ → ℕ
end_call active = (active + (2 ^ 32 - 1)) % 2 ^ 32

-- What the select of the wait receives: a tick, with the calls in flight then, or the context's end.
pub data Wake : Type 0 where
  ticked : ℕ → Wake
  done : Error → Wake

-- How the wait ends; `waiting` is that it has not ended after what was received so far.
pub data DrainEnd : Type 0 where
  drained waiting : DrainEnd
  timed_out : Error → DrainEnd

unfoldable pub drain_loop : List Wake → DrainEnd
drain_loop [] = DrainEnd.waiting
drain_loop (ticked active ∷ ws) =
    let rest = drain_loop ws in if active == 0 then DrainEnd.drained else rest
drain_loop (done e ∷ ws) = DrainEnd.timed_out e

-- waitInflight
unfoldable pub wait_inflight : ℕ → List Wake → DrainEnd
unfolding drain_loop
wait_inflight active ws = if active == 0 then DrainEnd.drained else drain_loop ws

unfoldable pub zeroize_dek : Bytes → Bytes
zeroize_dek [] = []
zeroize_dek (b ∷ bs) = 0 ∷ zeroize_dek bs

module _ {C W : Type 0} (close : C → W → Option Error × W) where
  -- A nil closer is skipped, an error of Close is dropped.
  abbrev pub close_one : Option C → W → W
  close_one none w = w
  close_one (some c) w = (close c w).1

  unfoldable pub close_all : List (Option C) → W → W
  close_all [] w = w
  close_all (c ∷ cs) w = close_all cs (close_one c w)

  -- GracefulShutdown after the wait, of which it uses nothing: the world and the keys.
  unfoldable pub graceful_shutdown : List (Option C) → List Bytes → W → W × List Bytes
  unfolding close_all zeroize_dek
  graceful_shutdown closers deks w = (close_all closers w, map zeroize_dek deks)

abbrev pub IsZero : Bytes → Type 0
IsZero bs = All (λ b. b ≡ 0) bs

zeroize_dek-IsZero : (bs : Bytes) → IsZero (zeroize_dek bs) × (length (zeroize_dek bs) ≡ length bs)
unfolding zeroize_dek
zeroize_dek-IsZero [] = (tt, refl)
zeroize_dek-IsZero (b ∷ bs) = let h = zeroize_dek-IsZero bs in ((refl, h.0), ap suc h.1)

-- The drain ends where a tick finds no call in flight or the context ends.
abbrev pub IsEnd : Wake → Type 0
IsEnd (ticked active) = active ≡ 0
IsEnd (done e) = Unit {0}
