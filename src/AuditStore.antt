-- ===== src/AuditStore.antt =====
-- app/audit_store.py: events are appended with the provenance of the request.
use enterprise_agentops.Base.{◌+◌, String, Option, [], ◌∷◌, ◌++◌, map, maximum}
use enterprise_agentops.Values.{Fields}
use enterprise_agentops.Columns.{fields_column}
use enterprise_agentops.Exec.{Exec, lift, modify, ◌>>=◌}
use enterprise_agentops.Storage.{AuditEvent, Storage}
use enterprise_agentops.Storage.Host.{Host}

module _ {Outside : Type 0} (host : Host) where
  -- `record`; the primary key counts up
  unfoldable pub record_event :
      String → Fields → Option String → Option String → Exec (Storage Outside) Unit
  record_event event_type details run_id actor_user_id = do
    column ← lift (fields_column details)
    modify (λ s.
        let row : AuditEvent = record {
          id = maximum (map (λ (r : AuditEvent). r.id) s.audit_events) + 1;
          run_id = run_id;
          actor_user_id = actor_user_id;
          event_type = event_type;
          details = column;
          request_id = host.request_id;
          actor_source = host.actor_source;
          instance_id = host.instance_id;
        } in
        record s { audit_events = s.audit_events ++ row ∷ [] })
