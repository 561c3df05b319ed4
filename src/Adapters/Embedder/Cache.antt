-- ===== src/Adapters/Embedder/Cache.antt =====
-- The cache of the daemon's Info, against what it promises: the answer of the last call since the
-- daemon restarted.
use rune_mcp.Prelude.{
  ℕ, true, false, Option, none, some, ◌≡◌, refl, ◌⊎◌, inl, inr, if◌then◌else◌, if-elim, ltb, ◌&&◌,
  ◌-◌, ◌<◌, ◌≤◌, arith, ltb→lt,
}
use rune_mcp.Adapters.Embedder.{
  Client, InfoCache, InfoSnapshot, get_info, in_cooldown, invalidated, kept_error, loaded_info,
  note_uptime,
}
use rune_mcp.Domain.Errors.{Error, Result, err, ok, panic}

-- What the cache knows.
abbrev pub view : InfoCache → Option InfoSnapshot
view ic = if ic.is_loaded then some ic.snap else none

-- Where an attempt is noted and no answer is kept, its error is.
abbrev pub IsCoherent : InfoCache → Type 0
IsCoherent ic =
    (ic.is_loaded ≡ true) ⊎ ((ic.last_attempt ≡ none) ⊎ ((e : Error) × (ic.last_err ≡ some e)))

-- The caches of a client whose calls do not panic.
pub data Reachable (W : Type 0) : InfoCache → Type 0 where
  fresh : Reachable W invalidated
  got :
      {ic ic' : InfoCache} (now later : ℕ) (rpc : W → Result InfoSnapshot × W) (w : W)
      → Reachable W ic
      → ((rpc w).0 ≡ panic → ⊥)
      → ic' ≡ (get_info now later rpc (ic, w)).1.0
      → Reachable W ic'
  noted :
      {ic ic' : InfoCache} (last uptime : ℕ)
      → Reachable W ic
      → ic' ≡ (note_uptime uptime (record { info = ic; last_uptime = last })).info
      → Reachable W ic'

note_uptime-IsCoherent :
    (c : Client) (uptime : ℕ) → IsCoherent c.info → IsCoherent (note_uptime uptime c).info
unfolding note_uptime
note_uptime-IsCoherent c uptime co =
    if-elim IsCoherent (ltb 0 c.last_uptime && ltb uptime c.last_uptime) (λ _. inr (inl refl))
      (λ _. co)

-- No attempt was noted in the last 3 seconds.
abbrev pub IsRested : ℕ → Option ℕ → Type 0
IsRested now none = Unit {0}
IsRested now (some t) = 3000 ≤ now - t

cooldown-IsRested :
    (now : ℕ) (attempt : Option ℕ) → in_cooldown now attempt ≡ false → IsRested now attempt
cooldown-IsRested now none d = tt
cooldown-IsRested now (some t) d = ground arith

module _ {W : Type 0} where
  -- A Get, on what is known before and after: the known answer; or the error that the cache keeps
  -- from an attempt less than 3 seconds ago; or, where there is no such attempt, that of a call.
  pub data Serves (rpc : W → Result InfoSnapshot × W) (w : W) (now : ℕ) (ic : InfoCache)
      : Option InfoSnapshot → Result InfoSnapshot → Option InfoSnapshot → W → Type 0 where
    cached : (s : InfoSnapshot) → Serves rpc w now ic (some s) (ok s) (some s) w
    refused :
        (e : Error) (t : ℕ)
        → ic.last_err ≡ some e
        → ic.last_attempt ≡ some t
        → now - t < 3000
        → Serves rpc w now ic none (err e) none w
    fetched :
        (s : InfoSnapshot)
        → IsRested now ic.last_attempt
        → (rpc w).0 ≡ ok s
        → Serves rpc w now ic none (ok s) (some s) (rpc w).1
    failed :
        (e : Error)
        → IsRested now ic.last_attempt
        → (rpc w).0 ≡ err e
        → Serves rpc w now ic none (err e) none (rpc w).1

  abbrev IsServed :
      (W → Result InfoSnapshot × W)
      → W
      → ℕ
      → InfoCache
      → Result InfoSnapshot × (InfoCache × W)
      → Type 0
  IsServed rpc w now ic r = Serves rpc w now ic (view ic) r.0 (view r.1.0) r.1.1 × IsCoherent r.1.0

  call-IsServed :
      (rpc : W → Result InfoSnapshot × W) (w : W) (now : ℕ) (ic : InfoCache) (later : ℕ)
      → ((rpc w).0 ≡ panic → ⊥)
      → (a : Result InfoSnapshot) → (rpc w).0 ≡ a
      → ic.is_loaded ≡ false
      → IsRested now ic.last_attempt
      → IsServed rpc w now ic
          (a, (loaded_info (record ic { last_attempt = some later }) a, (rpc w).1))
  call-IsServed rpc w now ic later calm (ok s) e n d = rw n (Serves.fetched s d e, inl refl)
  call-IsServed rpc w now ic later calm (err x) e n d =
      rw n (Serves.failed x d e, inr (inr (x, refl)))
  call-IsServed rpc w now ic later calm panic e n d = absurd (calm e)

  kept-IsServed :
      (rpc : W → Result InfoSnapshot × W) (w : W) (now : ℕ) (ic : InfoCache) (attempt : Option ℕ)
      → ic.last_attempt ≡ attempt
      → in_cooldown now attempt ≡ true
      → ic.is_loaded ≡ false
      → IsCoherent ic
      → IsServed rpc w now ic (kept_error ic.last_err, (ic, w))
  kept-IsServed rpc w now ic none a c n co = absurd cc
  kept-IsServed rpc w now ic (some t) a c n (inl y) = absurd cc
  kept-IsServed rpc w now ic (some t) a c n (inr (inl o)) = absurd cc
  kept-IsServed rpc w now ic (some t) a c n (inr (inr (e, k))) =
      rw n (rw k (Serves.refused e t refl a (ltb→lt (now - t) 3000 c), inr (inr (e, refl))))

  get_info-IsServed :
      (now later : ℕ) (rpc : W → Result InfoSnapshot × W) (w : W) (ic : InfoCache)
      → ((rpc w).0 ≡ panic → ⊥)
      → IsCoherent ic
      → IsServed rpc w now ic (get_info now later rpc (ic, w))
  unfolding get_info
  get_info-IsServed now later rpc w ic calm co =
      if-elim (IsServed rpc w now ic) ic.is_loaded (λ y. rw y (Serves.cached ic.snap, inl refl))
        (λ n.
          if-elim (IsServed rpc w now ic) (in_cooldown now ic.last_attempt)
            (λ c. kept-IsServed rpc w now ic ic.last_attempt refl c n co)
            (λ d.
              call-IsServed rpc w now ic later calm (rpc w).0 refl n
                (cooldown-IsRested now ic.last_attempt d)))

  Reachable-IsCoherent : {ic : InfoCache} → Reachable W ic → IsCoherent ic
  Reachable-IsCoherent Reachable.fresh = inr (inl refl)
  Reachable-IsCoherent (Reachable.got {ic} now later rpc w r calm e) =
      rw e (get_info-IsServed now later rpc w ic calm (Reachable-IsCoherent r)).1
  Reachable-IsCoherent (Reachable.noted {ic} last uptime r e) = rw e (
      note_uptime-IsCoherent (record { info = ic; last_uptime = last }) uptime
        (Reachable-IsCoherent r))

  -- Any cache that Get and the invalidation of Health reach, whatever the calls answer short of a
  -- panic, serves a Get as the abstract view promises: a known answer is given without a call and
  -- stays known. Where none is known and an attempt was noted less than 3 seconds ago, the error that
  -- the cache keeps is given without a call. Else one call is made: an answer of it is given and is
  -- known from then on, an error of it is given and leaves none known.
  pub get_info-Serves :
      (now later : ℕ) (rpc : W → Result InfoSnapshot × W) (w : W) (ic : InfoCache)
      → Reachable W ic
      → ((rpc w).0 ≡ panic → ⊥)
      → (let r = get_info now later rpc (ic, w) in
          Serves rpc w now ic (view ic) r.0 (view r.1.0) r.1.1)
  get_info-Serves now later rpc w ic reach calm =
      (get_info-IsServed now later rpc w ic calm (Reachable-IsCoherent reach)).0
