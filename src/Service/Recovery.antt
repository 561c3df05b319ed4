-- ===== src/Service/Recovery.antt =====
-- internal/service/recovery.go: one retry of a streaming call, after the pipelines are active
-- again. The services are wired with a state manager (`state` is not nil).
pub mod Once
use rune_mcp.Prelude.{Bool, false, Option, none, some, List, [], if◌then◌else◌}
use rune_mcp.Prelude.Text.{Text}
use rune_mcp.Domain.Errors.{Adapter, AdapterError, Error, Sentinel, as_adapter, is_sentinel, err}
use rune_mcp.Service.Backend.{Action, Backend, InsertRequest, either, fail, pure}

abbrev retryable_of : Option AdapterError → Bool
retryable_of none = false
retryable_of (some a) = a.retryable

unfoldable pub is_envector_retryable : Error → Bool
is_envector_retryable e = retryable_of (as_adapter Adapter.envector e)

module _ {F : Type 0} (b : Backend F) where
  -- The second half of both helpers: wait, and call again if the wait succeeds.
  abbrev after_wait : {A : Type 0} → Error → Action b.W A → Action b.W A
  after_wait e again w =
      let (active, w') = b.wait_for_active w in if active then again w' else (err e, w')

  -- ErrAlreadyExists means that the request was committed: an empty result.
  unfoldable pub insert_with_recovery : InsertRequest b.Vec → Action b.W (List Text)
  unfolding is_envector_retryable
  insert_with_recovery req = either (b.insert req) pure λ e.
      if is_sentinel Sentinel.sdk_already_exists e
      then pure []
      else if is_envector_retryable e
      then after_wait e (
          either (b.insert req) pure
            λ e'. if is_sentinel Sentinel.sdk_already_exists e' then pure [] else fail e')
      else fail e

  unfoldable pub score_with_recovery : b.Vec → Action b.W (List b.Blob)
  unfolding is_envector_retryable
  score_with_recovery vec =
      either (b.envector_score vec) pure
        λ e. if is_envector_retryable e then after_wait e (b.envector_score vec) else fail e
