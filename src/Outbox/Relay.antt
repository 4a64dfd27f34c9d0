-- ===== src/Outbox/Relay.antt =====
-- packages/outbox/src/relay.ts: publishing a batch in order, a sweep, and a tenant's loop.
pub mod Order
use btravstack.Common.{
  ◌-◌, ℕ, ◌+◌, ◌*◌, ◌^◌, ◌≡◌, ◌<◌, ◌≤◌, min, max, String, Bool, true, false, not, ◌&&◌, Option,
  none, some, List, [], ◌∷◌, Result, ok, fail, length, ltb, leb, if◌then◌else◌, ◌==◌, nat_eq,
}
use btravstack.Outbox.{OutboxMessage}
use btravstack.Outbox.Store.{MemoryStore, begin_claim, end_claim}

abbrev pub batch_size : ℕ
batch_size = 32

abbrev pub max_backoff_ms : ℕ
max_backoff_ms = 30000

pub data Swept : Type 0 where
  idle full failed : Swept

module _ (publish : OutboxMessage → Bool) where
  -- The ids that went out, up to the first refusal.
  pub publish_in_order : List OutboxMessage → List ℕ
  publish_in_order [] = []
  publish_in_order (m ∷ ms) =
      let rest = publish_in_order ms in if publish m then m.id ∷ rest else []

  abbrev pub swept_of : List OutboxMessage → List ℕ → Swept
  swept_of batch published =
      if ltb (length published) (length batch)
      then failed
      else if length batch == batch_size
      then full
      else idle

  abbrev pub relay_batch :
      String → ℕ → Option (List OutboxMessage × MemoryStore) → MemoryStore → Swept × MemoryStore
  relay_batch tenant_id now none s = (idle, s)
  relay_batch tenant_id now (some (batch, claimed)) s = (
    swept_of batch (publish_in_order batch),
    end_claim {E = Unit} tenant_id now (ok (publish_in_order batch)) claimed,
  )

  -- A sweep over the in-process store, whose claim never fails.
  pub sweep : String → ℕ → MemoryStore → Swept × MemoryStore
  sweep tenant_id now s = relay_batch tenant_id now (begin_claim tenant_id batch_size s) s

pub backoff : ℕ → ℕ → ℕ
backoff poll_ms failures = min (poll_ms * 2 ^ failures) (max poll_ms max_backoff_ms)

abbrev pub prune_every_ms : ℕ
prune_every_ms = 60000

abbrev pub prune_backlog_ms : ℕ
prune_backlog_ms = 1000

-- What a tenant's loop keeps; no `prune_due` is a deadline at infinity.
pub record LoopState : Type 0 where
  pub due : ℕ
  pub prune_due : Option ℕ
  pub swept : Swept
  pub failures : ℕ

unfoldable pub start_loop : (retain_ms now : ℕ) → LoopState
start_loop retain_ms now = record {
  due = now;
  prune_due = if ltb 0 retain_ms then some now else none;
  swept = idle;
  failures = 0;
}

abbrev pub failures_after : Swept → ℕ → ℕ
failures_after failed failures = failures + 1
failures_after _ failures = 0

abbrev pub pause_after : ℕ → Swept → ℕ → ℕ
pause_after poll_ms full failures = 0
pause_after poll_ms _ failures = backoff poll_ms failures

-- The sweep of a round: `outcome` is what it answers, at `after` on the clock.
unfoldable pub sweep_round :
    (poll_ms now : ℕ) → (outcome : Swept) (after : ℕ) → LoopState → LoopState
sweep_round poll_ms now outcome after l =
    if leb l.due now
    then record {
      due = after + pause_after poll_ms outcome (failures_after outcome l.failures);
      prune_due = l.prune_due;
      swept = outcome;
      failures = failures_after outcome l.failures;
    }
    else l

abbrev is_full : Swept → Bool
is_full full = true
is_full _ = false

abbrev is_due : Option ℕ → ℕ → Bool
is_due none now = false
is_due (some at) now = leb at now

-- The prune of a round; `backlog` is whether the store pruned a whole batch.
pub prune_round : (stopping : Bool) (now : ℕ) (backlog : Bool) (after : ℕ) → LoopState → LoopState
prune_round stopping now backlog after l =
    if not stopping && (not (is_full l.swept) && is_due l.prune_due now)
    then record l {
      prune_due = some (after + (if backlog then prune_backlog_ms else prune_every_ms));
    }
    else l

-- The health check: each tenant that is behind, with its lag.
behind : (max_lag_ms now : ℕ) → List (String × ℕ) → List (String × ℕ)
behind max_lag_ms now [] = []
behind max_lag_ms now ((tenant_id, occurred_at) ∷ oldest) =
    let rest = behind max_lag_ms now oldest in
    if ltb max_lag_ms (now - occurred_at) then (tenant_id, now - occurred_at) ∷ rest else rest
