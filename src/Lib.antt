-- ===== src/Lib.antt =====
-- DiskPulse is a monitor of storage clusters: collectors fill tables with the use of quotas, Celery
-- tasks compare the use with alert rules and notify people, and a FastAPI application shows projects
-- and directories to their members. This library models the parts of backend/ that decide who is
-- notified and who may do what.
--
-- Prelude: shared tests on numbers, tables as lists of rows, service functions that may raise
--   (`Exec`), texts, and time in microseconds.
-- Alerts.Rule: schemas/storageAlertRuleSchema.py and the rule functions of
--   services/storageAlertRuleService.py: validation, the rule of a target, and the level of a ratio.
-- Alerts.Transition: `transition_alert_state` of the same file. The state of a target is a record,
--   and a sample makes a new one and perhaps an event. The digest that json and hashlib make of a rule
--   is a parameter.
-- Alerts.Recipients: `resolve_recipient_usernames`.
-- Alerts.Evaluation: `_evaluate_one` of celery_tasks/tasks/storage_alerts.py, with the message of an
--   alert in Alerts.Evaluation.Notice and the loops of `evaluate_storage_alerts` in
--   Alerts.Evaluation.Pass. How numbers are formatted, in which order the database lists the names of
--   clusters, and which row of a state another transaction inserts at the same time are arguments.
-- Alerts.Delivery: the transactions and tasks of celery_tasks/tasks/storage_alerts.py that send an
--   alert. Each reading of the clock and the answer of Feishu is an argument.
-- Access.Db: the rows of models.py that authorization reads, and `is_super_admin` of
--   utils/auth_service.py.
-- Access.Service: services/project_access_service.py.
-- Access.Members: services/project_membership_service.py.
-- Access.Roles is the abstract view of the memberships: a partial map from a project and a user to a
--   role. The theorems about the services are stated on it.
--
-- Incidents.Db: the tables of incidents of models.py, and the queries of crud/forecastIncidentCrud.py.
-- Incidents.Correlation: `correlate_incident` of services/forecastIncidentService.py. What other
--   transactions commit while it waits for its lock is an argument.
-- Incidents.Update: `update_incident`, `require_visible_incident`, `incident_capabilities` and
--   `create_maintenance_window` of the same file, on top of the permissions.
-- Incidents.Admission: `should_admit_incident` of the same file.
-- Incidents.Reconciliation: services/incidentReconciliationService.py.
-- Incidents.Diagnosis, Incidents.Quality: `build_diagnosis` and `evaluate_telemetry_quality` of
--   services/forecastIncidentService.py.
-- Incidents.Notification: services/incidentNotificationService.py.
--
-- Quota.Request: schemas/quotaSchema.py, and the checks and defaults of services/quotaService.py.
-- Quota.Rows: the rows that an adjustment reads and writes, in the session and in the database.
-- Quota.Lock: the lock of a device's rule and the script that releases it, over the commands of Redis as
--   parameters.
-- Quota.Adjustment: `_execute_adjustment_locked` and `_reconcile_quota`. What the device answers is an
--   argument, and so is the exception that a commit may raise.
-- Quota.Entry: the entry points, utils/storageTarget.py, and the permissions.
--
-- Audit.Redaction: `redact_audit_payload` of services/audit_service.py, on a data type of payloads.
-- Audit.Service: how that file appends, reads and lists events, with the list of crud/auditCrud.py. The
--   order of the database is a parameter.
-- Confirmation.Traces: the trail of a confirmation in services/ai_quota_confirmation_service.py. json is
--   a parameter with the law that it reads what it wrote.
-- Confirmation.Decision: `decide_confirmation`; the commands of Redis and the tools are parameters.
-- Confirmation.Once: the two commands of several such requests, in any order.
--
-- Prediction.Db: the tables of models.py about capacity predictions, and the queries of
--   crud/capacityPredictionCrud.py.
-- Prediction.Gate, Prediction.Governance: the candidates of
--   services/capacityPredictionGovernanceService.py, their evaluations and their activation. What other
--   transactions commit before a flush is an argument.
-- Prediction.Curve: the curve that a model answers. What json, fromisoformat and float make of the
--   answer is an argument.
-- Prediction.Resource, Prediction.View, Prediction.Risk: who sees a prediction, the plans, the final
--   predictions, and the conclusion about the risk.
--
-- The parts meet in the database: the evaluation of alerts and a quota adjustment write alerts that
-- the delivery tasks send, the permission checks read what the member services write, and the incident
-- services ask the permission checks.
--
-- Numbers are natural numbers. A use ratio, which the program rounds to two digits, is a number of
-- hundredths of a percent, the score of a diagnosis is one of hundredths, and a limit is a number of
-- bytes. The floats of a prediction are whole numbers of the smallest positive float, without rounding.
-- No definition runs on fuel: the loops are recursions on lists.
--
-- Not modelled: the database engine (a table is a list of rows, and a transaction is a function), the
-- network, the clients of the storage devices, the texts of messages but an alert's paragraphs, the
-- serialized answers, the schedule of the evaluation of alerts, the associations of an audit event, the
-- histories of a quota, the preview of a confirmation, the statistics behind a forecast, and the
-- assistant's conversations.
pub mod Access
pub mod Alerts
pub mod Audit
pub mod Confirmation
pub mod Incidents
pub mod Prediction
pub mod Prelude
pub mod Quota
