-- ===== src/Models/Naming.antt =====
-- vsm/agent_naming.py and vsm/notifications.py: identities that the agent-name registry issues, and
-- the notifications between agents and from channels.
use nanihold_os.Prelude.{ℕ, String, Bool, true, false, Option, String-discrete}
use native.Mathlib.Decide.{ℕ_discrete}

-- The columns 日, 英 and 羅 of the name table.
pub data NameColumn : Type 0 where
  japanese english latin : NameColumn

pub record AgentNameAssignment : Type 0 where
  pub assignment_id : String
  pub data_space_id : String
  pub work_item_id : String
  pub execution_id : String
  pub node_id : String
  pub pilot_id : String
  pub agent_name : String
  pub base_name : String
  pub suffix : ℕ
  pub name_column : NameColumn
  pub scale : ℕ
  pub provider : String
  pub model_candidate_key : String

pub AgentNameAssignment-discrete : Discrete AgentNameAssignment
AgentNameAssignment-discrete = hlevel (String-discrete, ℕ_discrete)

-- The field `source` has one value, "out_of_pipeline", and is left out.
pub record AgentIdentityRegistration : Type 0 where
  pub registration_id : String
  pub data_space_id : String
  pub node_id : String
  pub pilot_id : String
  pub agent_name : String
  pub base_name : String
  pub suffix : ℕ
  pub name_column : NameColumn
  pub scale : ℕ
  pub provider : String
  pub model_candidate_key : String

pub AgentIdentityRegistration-discrete : Discrete AgentIdentityRegistration
AgentIdentityRegistration-discrete = hlevel (String-discrete, ℕ_discrete)

pub data NotificationSourceKind : Type 0 where
  channel_inbound agent_to_agent : NotificationSourceKind

abbrev pub is_agent_to_agent : NotificationSourceKind → Bool
is_agent_to_agent NotificationSourceKind.agent_to_agent = true
is_agent_to_agent NotificationSourceKind.channel_inbound = false

pub data NotificationPlatform : Type 0 where
  discord slack internal : NotificationPlatform

pub data NotificationResolutionKind : Type 0 where
  explicit_mention bot_reply thread_inheritance agent_address : NotificationResolutionKind

-- The field `owner_visible` has one value, `True`, and is left out.
pub record AgentNotification : Type 0 where
  pub notification_id : String
  pub data_space_id : String
  pub source_kind : NotificationSourceKind
  pub source_platform : NotificationPlatform
  pub source_instance_id : String
  pub source_channel : String
  pub source_message_id : String
  pub source_observation_subject : Option String
  pub sender_actor_id : String
  pub sender_agent_name : Option String
  pub recipient_agent_name : String
  pub body : String
  pub resolution_kind : NotificationResolutionKind
  pub requires_work_item : Bool
  pub related_work_item_id : Option String
  pub related_execution_id : Option String
  pub promoted_work_item_id : Option String

pub AgentNotification-discrete : Discrete AgentNotification
AgentNotification-discrete = hlevel (String-discrete, ℕ_discrete)
