-- ===== src/Repository/Journal.antt =====
-- The two append-only tables: `Log` of internal/repository/audit.go, and the appending of events of
-- internal/repository/events.go with `getCurrentVersion`.
use insider_banking_project.Base.{
  ℕ, ◌+◌, ⊤, Bool, String, str_eq, List, [], ◌∷◌, ◌++◌, ◌&&◌, ◌||◌, ◌==◌, ltb, leb, not,
  if◌then◌else◌,
}
use insider_banking_project.Domain.Error.{plain}
use insider_banking_project.Domain.Event.{Event, AuditLog, Detail}
use insider_banking_project.Repository.World.{
  Env, ok, err, M, pure, with_context, ◌>>=◌, ◌>>◌, call, time_now, new_uuid,
}

abbrev pub put_audit_log : AuditLog → M ⊤
put_audit_log a w =
    (ok tt, record w { db = record (w.db) { audit_logs = w.db.audit_logs ++ a ∷ [] } })

abbrev pub entity_type_ok : String → Bool
entity_type_ok s = str_eq s "user" || (str_eq s "transaction" || str_eq s "balance")

-- migrations/007: the id is the primary key, and the version an INTEGER.
unfoldable pub event_row_ok : List Event → Event → Bool
event_row_ok [] v = leb v.version 2147483647
event_row_ok (x ∷ xs) v = let rest = event_row_ok xs v in not (x.id == v.id) && rest

abbrev pub put_event : Event → M ⊤
put_event v w = (ok tt, record w { db = record (w.db) { events = w.db.events ++ v ∷ [] } })

-- SELECT COALESCE(MAX(version), 0) ... WHERE aggregate_type = type AND aggregate_id = id
unfoldable pub max_version : String → ℕ → List Event → ℕ
max_version type id [] = 0
max_version type id (v ∷ vs) =
    let rest = max_version type id vs in
    if str_eq v.aggregate_type type && v.aggregate_id == id
    then (if ltb rest v.version then v.version else rest)
    else rest

abbrev pub select_version : String → ℕ → M ℕ
select_version type id w = (ok (max_version type id w.db.events), w)

module _ (e : Env) where
  abbrev pub insert_audit_log : AuditLog → M ⊤
  insert_audit_log a w =
      if entity_type_ok a.entity_type then put_audit_log a w else (err (plain e.violation), w)

  -- `Log`
  unfoldable pub audit_log : String → ℕ → String → List (String × Detail) → M ⊤
  audit_log entity_type entity_id action details = do
    id ← new_uuid e
    now ← time_now e
    with_context "failed to create audit log" (
        call e (
          insert_audit_log (record {
            id = id;
            entity_type = entity_type;
            entity_id = entity_id;
            action = action;
            details = details;
            created_at = now;
          })))

  abbrev pub insert_event : Event → M ⊤
  insert_event v w =
      if event_row_ok w.db.events v then put_event v w else (err (plain e.violation), w)

  -- `AppendEvent`: the version is one more than the aggregate's last.
  unfoldable pub append_event : Event → M Event
  append_event v = do
    current ← with_context "failed to get current version" (
        with_context "failed to get current version"
          (call e (select_version v.aggregate_type v.aggregate_id)))
    now ← time_now e
    let v' = record v { version = current + 1; created_at = now }
    with_context "failed to append event" (call e (insert_event v'))
    pure v'

  -- `tx.Begin`: the transaction sees the events as they are.
  abbrev pub begin_events : M (List Event)
  begin_events = call e λ w. (ok w.db.events, w)

  -- The INSERT of `AppendEvents`, where the open transaction sees these events.
  abbrev pub insert_in_batch : Event → List Event → M ⊤
  insert_in_batch v seen w =
      if event_row_ok seen v then (ok tt, w) else (err (plain e.violation), w)

  -- The loop of `AppendEvents`, on what the open transaction sees of the table.
  abbrev pub append_each : List Event → List Event → M (List Event)
  append_each [] seen = pure seen
  append_each (v ∷ vs) seen = do
    current ← with_context "failed to get current version" (
        with_context "failed to get current version"
          (call e (pure (max_version v.aggregate_type v.aggregate_id seen))))
    now ← time_now e
    let v' = record v { version = current + 1; created_at = now }
    with_context "failed to append event" (call e (insert_in_batch v' seen))
    append_each vs (seen ++ v' ∷ [])

  abbrev pub commit_events : List Event → M ⊤
  commit_events seen = call e λ w. (ok tt, record w { db = record (w.db) { events = seen } })

  -- `AppendEvents`: all the events, in one transaction, or none.
  unfoldable pub append_events : List Event → M ⊤
  append_events [] = pure tt
  append_events (v ∷ vs) = do
    seen ← with_context "failed to begin transaction" begin_events
    written ← append_each (v ∷ vs) seen
    with_context "failed to commit transaction" (commit_events written)
