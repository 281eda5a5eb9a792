-- ===== src/Lifecycle/Application.antt =====
-- `transition_application` of app/services.py.
pub mod Traces
pub mod Order
use moneybee_backend.Base.{ℕ, ◌+◌, String, Bool, Option, List, equal, mem?, if◌then◌else◌}
use moneybee_backend.Base.Action.{pure, raise, ◌>>◌, modify}
use moneybee_backend.Principal.{Principal}
use moneybee_backend.Lifecycle.Status.{
  ApplicationStatus, ApplicationStatus-discrete, application_transitions,
}
use moneybee_backend.Lifecycle.Db.{
  Application, ApplicationStatusHistory, Service, Problem, invalid_application_transition,
  save_application, add_history,
}

-- `to_status in APPLICATION_TRANSITIONS.get(previous, frozenset())`
unfoldable pub may_move : ApplicationStatus → ApplicationStatus → Bool
unfolding ApplicationStatus-discrete application_transitions
may_move previous to_status =
    mem? ApplicationStatus-discrete to_status (application_transitions previous)

-- `previous == to_status`
unfoldable pub same_status : ApplicationStatus → ApplicationStatus → Bool
unfolding ApplicationStatus-discrete
same_status previous to_status = equal ApplicationStatus-discrete previous to_status

abbrev pub moved : Application → ApplicationStatus → Application
moved application to_status = record application {
  status = to_status;
  version = application.version + 1;
}

abbrev pub history_row :
    Application → ApplicationStatus → Principal → Option String → ApplicationStatusHistory
history_row application to_status principal reason = record {
  application_id = application.id;
  from_status = application.status;
  to_status = to_status;
  reason = reason;
  changed_by = principal.subject;
}

-- The object that the caller holds is handed back as it is after the call.
unfoldable pub transition_application :
    Application → ApplicationStatus → Principal → Option String → Service Application
transition_application application to_status principal reason =
    if same_status application.status to_status
    then pure application
    else if may_move application.status to_status
    then modify (save_application (moved application to_status))
      >> modify (add_history (history_row application to_status principal reason))
      >> pure (moved application to_status)
    else raise (invalid_application_transition application.status to_status)
