-- ===== src/Outbox/Store.antt =====
-- packages/outbox/src/memory.ts: the outbox held in the process. An instant is its milliseconds.
use btravstack.Common.{
  ℕ, ◌+◌, String, Bool, false, not, ◌&&◌, Option, none, some, List, [], ◌∷◌, ◌++◌, map, Result, ok,
  fail, keep, take, length, elem, get, set, has, delete, ltb, if◌then◌else◌, ◌==◌, nat_eq,
  string_eq,
}
use btravstack.Outbox.{OutboxMessage}

pub record OutboxAppend : Type 0 where
  pub tenant_id : String
  pub kind : String
  pub subject_id : String
  pub payload : Option String
  pub occurred_at : Option ℕ

pub record MemoryStore : Type 0 where
  pub messages : List OutboxMessage
  pub sequence : ℕ
  pub published : List (ℕ × ℕ)
  pub claimed : List String

abbrev pub memory_outbox_store : MemoryStore
memory_outbox_store = record { messages = []; sequence = 0; published = []; claimed = [] }

abbrev pub is_pending : List (ℕ × ℕ) → String → OutboxMessage → Bool
is_pending published tenant_id message =
    (message.tenant_id == tenant_id) && not (has message.id published)

-- All of a tenant's messages that are not published, in outbox order.
abbrev pub all_pending : MemoryStore → String → List OutboxMessage
all_pending s tenant_id = keep (is_pending s.published tenant_id) s.messages

unfoldable pub pending_of : MemoryStore → String → ℕ → List OutboxMessage
pending_of s tenant_id limit = take limit (all_pending s tenant_id)

unfoldable pub append : OutboxAppend → ℕ → MemoryStore → MemoryStore
append message now s = record s {
  sequence = s.sequence + 1;
  messages =
      s.messages
      ++ (record {
        id = s.sequence + 1;
        tenant_id = message.tenant_id;
        kind = message.kind;
        subject_id = message.subject_id;
        payload = message.payload;
        occurred_at = elim message.occurred_at [ none ↦ now | some at ↦ at ];
      })
        ∷ [];
}

-- The `reduce` for the earliest instant.
abbrev earlier : Option ℕ → ℕ → Option ℕ
earlier none at = some at
earlier (some earliest) at = if ltb at earliest then some at else some earliest

pub earliest_of : Option ℕ → List OutboxMessage → Option ℕ
earliest_of earliest [] = earliest
earliest_of earliest (m ∷ ms) = earliest_of (earlier earliest m.occurred_at) ms

abbrev oldest_entry : String → Option ℕ → List (String × ℕ)
oldest_entry tenant_id none = []
oldest_entry tenant_id (some at) = (tenant_id, at) ∷ []

pub oldest_pending : MemoryStore → List String → List (String × ℕ)
oldest_pending s [] = []
oldest_pending s (t ∷ ts) =
    oldest_entry t (earliest_of none (pending_of s t (length s.messages))) ++ oldest_pending s ts

-- `claim` up to the call of the relay: the batch, or `none` where the tenant is claimed.
unfoldable pub begin_claim : String → ℕ → MemoryStore → Option (List OutboxMessage × MemoryStore)
begin_claim tenant_id limit s =
    if elem tenant_id s.claimed
    then none
    else some (pending_of s tenant_id limit, record s { claimed = s.claimed ++ tenant_id ∷ [] })

abbrev pub mark_all : ℕ → List ℕ → List (ℕ × ℕ) → List (ℕ × ℕ)
mark_all now [] published = published
mark_all now (id ∷ ids) published = mark_all now ids (set id now published)

abbrev pub release : String → MemoryStore → MemoryStore
release tenant_id s = record s { claimed = keep (λ t. not (t == tenant_id)) s.claimed }

-- `claim` behind the relay: what it published is marked, and the tenant released either way.
unfoldable pub end_claim : {E : Type 0} → String → ℕ → Result E (List ℕ) → MemoryStore → MemoryStore
end_claim tenant_id now (fail e) s = release tenant_id s
end_claim tenant_id now (ok ids) s =
    release tenant_id (record s { published = mark_all now ids s.published })

-- `published.get(id) < now - olderThanMs`, where a difference below zero is before all marks.
abbrev pub is_prunable : List (ℕ × ℕ) → String → ℕ → ℕ → OutboxMessage → Bool
is_prunable published tenant_id older_than_ms now m =
    (m.tenant_id == tenant_id)
    && elim (get m.id published) [ none ↦ false | some at ↦ ltb (at + older_than_ms) now ]

abbrev pub unmark_all : List ℕ → List (ℕ × ℕ) → List (ℕ × ℕ)
unmark_all [] published = published
unmark_all (id ∷ ids) published = unmark_all ids (delete id published)

abbrev pub gone_of : String → ℕ → ℕ → ℕ → MemoryStore → List ℕ
gone_of tenant_id older_than_ms limit now s =
    map (λ m. m.id)
      (take limit (keep (is_prunable s.published tenant_id older_than_ms now) s.messages))

unfoldable pub prune : String → ℕ → ℕ → ℕ → MemoryStore → ℕ × MemoryStore
prune tenant_id older_than_ms limit now s = if elem tenant_id s.claimed then (0, s) else (
  length (gone_of tenant_id older_than_ms limit now s),
  record s {
    messages = keep (λ m. not (elem m.id (gone_of tenant_id older_than_ms limit now s))) s.messages;
    published = unmark_all (gone_of tenant_id older_than_ms limit now s) s.published;
  },
)
