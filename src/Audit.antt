-- ===== src/Audit.antt =====
-- src/audit: the event of audit-event.ts, with the pipeline and the storage sink in the children. Of
-- the free-form details, only their text.
pub mod Pipeline
pub mod StorageSink
mod EventBusSink
use openclaw_enterprise_plug.Common.{ℕ, String, Option}

pub data AuditCategory : Type 0 where
  authentication authorization data_access data_mutation : AuditCategory
  agent_action tool_execution config_change admin_action system_event : AuditCategory

-- The text that stands for a category.
abbrev pub category_name : AuditCategory → String
category_name authentication = "authentication"
category_name authorization = "authorization"
category_name data_access = "data_access"
category_name data_mutation = "data_mutation"
category_name agent_action = "agent_action"
category_name tool_execution = "tool_execution"
category_name config_change = "config_change"
category_name admin_action = "admin_action"
category_name system_event = "system_event"

pub data AuditOutcome : Type 0 where
  success failure denied : AuditOutcome

abbrev pub outcome_name : AuditOutcome → String
outcome_name success = "success"
outcome_name failure = "failure"
outcome_name denied = "denied"

pub data ActorType : Type 0 where
  user agent system api_key : ActorType

pub record AuditActor : Type 0 where
  pub kind : ActorType
  pub id : String
  pub name : Option String
  pub ip : Option String
  pub user_agent : Option String

pub record AuditResource : Type 0 where
  pub kind : String
  pub id : Option String
  pub name : Option String
  pub tenant_id : String

pub record AuditSource : Type 0 where
  pub service : String
  pub instance_name : Option String
  pub request_id : String

pub record AuditEvent : Type 0 where
  pub id : String
  pub timestamp : ℕ
  pub version : String
  pub tenant_id : String
  pub actor : AuditActor
  pub action : String
  pub category : AuditCategory
  pub outcome : AuditOutcome
  pub resource : AuditResource
  pub source : AuditSource
  pub details : Option String
  pub duration : Option ℕ
  pub error : Option String
