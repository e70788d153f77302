-- ===== src/Api.antt =====
-- api/v1alpha1/types.go: the PostgresMemoryPolicy resource, over the type of `resource.Quantity`.
-- The condition type of apimachinery and the parts of the VPA and workload objects that the
-- controller reads stand here too. An instant (`metav1.Time`) is its nanoseconds since the epoch.
use zalando_vertical_autosca.Common.{String, Bool, Option, List}
use zalando_vertical_autosca.Common.Int.{ℤ}
use zalando_vertical_autosca.Float64.{Float64}

pub record MaintenanceWindowSpec : Type 0 where
  pub cron : String
  pub timeout_minutes : ℤ

pub record SafetyGatesSpec (Q : Type 0) : Type 0 where
  pub require_healthy_cluster : Bool
  pub min_ready_replicas : ℤ
  pub absolute_threshold : Option Q
  pub relative_threshold : Option ℤ

pub record ActionTargetRef : Type 0 where
  pub kind : String
  pub name : String
  pub namespace : String

-- The action is a string type whose one constant is "RolloutRestart".
pub record PostActionSpec : Type 0 where
  pub action : String
  pub target : ActionTargetRef

abbrev pub post_action_rollout_restart : String
post_action_rollout_restart = "RolloutRestart"

pub record PostgresMemoryPolicySpec (Q : Type 0) : Type 0 where
  pub target_cluster : String
  pub vpa_name : String
  pub vpa_container_name : String
  pub memory_min : Q
  pub memory_max : Q
  pub overcommit : Float64
  pub memory_buffer : Float64
  pub initial_memory : Option Q
  pub maintenance_window : MaintenanceWindowSpec
  pub safety_gates : SafetyGatesSpec Q
  pub post_actions : List PostActionSpec
  pub postgres_parameters : List (String × String)  -- a map, in the order of one iteration

-- A string type; the CRD's enum admits the named values.
pub data MaintenanceStatus : Type 0 where
  pending in_progress completed failed skipped : MaintenanceStatus
  other_status : String → MaintenanceStatus

-- A string type. A record of a skipped run has the empty phase; one that has ended keeps its last.
pub data MaintenancePhase : Type 0 where
  patch_applied post_actions_triggered : MaintenancePhase
  other_phase : String → MaintenancePhase

pub record MaintenanceRecord : Type 0 where
  pub started_at : ℤ
  pub completed_at : Option ℤ
  pub status : MaintenanceStatus
  pub phase : MaintenancePhase
  pub reason : String
  pub previous_memory : String
  pub applied_memory : String

-- `metav1.ConditionStatus`
pub data ConditionStatus : Type 0 where
  condition_true condition_false condition_unknown : ConditionStatus

-- `metav1.Condition`
pub record Condition : Type 0 where
  pub type : String
  pub status : ConditionStatus
  pub reason : String
  pub message : String
  pub last_transition_time : ℤ
  pub observed_generation : ℤ

pub record PostgresMemoryPolicyStatus (Q : Type 0) : Type 0 where
  pub memory_target : Option Q
  pub current_memory : Option Q
  pub maintenance_history : List MaintenanceRecord
  pub conditions : List Condition

pub record PostgresMemoryPolicy (Q : Type 0) : Type 0 where
  pub name : String
  pub namespace : String
  pub generation : ℤ
  pub spec : PostgresMemoryPolicySpec Q
  pub status : PostgresMemoryPolicyStatus Q

abbrev pub condition_maintenance_in_progress : String
condition_maintenance_in_progress = "MaintenanceInProgress"

abbrev pub condition_last_maintenance_failed : String
condition_last_maintenance_failed = "LastMaintenanceFailed"

abbrev pub condition_vpa_recommendation_ready : String
condition_vpa_recommendation_ready = "VPARecommendationReady"

abbrev pub reason_vpa_not_found : String
reason_vpa_not_found = "VPANotFound"

abbrev pub reason_no_recommendation_yet : String
reason_no_recommendation_yet = "NoRecommendationYet"

abbrev pub reason_cluster_unhealthy : String
reason_cluster_unhealthy = "ClusterUnhealthy"

abbrev pub reason_change_gate_absolute_diff : String
reason_change_gate_absolute_diff = "ChangeGateAbsoluteDiff"

abbrev pub reason_change_gate_relative_diff : String
reason_change_gate_relative_diff = "ChangeGateRelativeDiff"

abbrev pub reason_maintenance_timeout : String
reason_maintenance_timeout = "MaintenanceTimeout"

abbrev pub reason_post_action_failed : String
reason_post_action_failed = "PostActionFailed"

-- `vpav1.RecommendedContainerResources`: the target is a map from resource names.
pub record ContainerResources (Q : Type 0) : Type 0 where
  pub container_name : String
  pub target : List (String × Q)

-- `vpav1.VerticalPodAutoscaler`: its name, and its recommendation if it has one.
pub record VerticalPodAutoscaler (Q : Type 0) : Type 0 where
  pub name : String
  pub recommendation : Option (List (ContainerResources Q))

-- What the executor reads of `appsv1.Deployment`, `appsv1.StatefulSet` and `appsv1.DaemonSet`.
pub record Deployment : Type 0 where
  pub replicas : Option ℤ
  pub updated_replicas : ℤ
  pub available_replicas : ℤ

pub record StatefulSet : Type 0 where
  pub replicas : Option ℤ
  pub updated_replicas : ℤ
  pub ready_replicas : ℤ

pub record DaemonSet : Type 0 where
  pub desired_number_scheduled : ℤ
  pub updated_number_scheduled : ℤ
  pub number_ready : ℤ
