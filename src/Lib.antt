-- ===== src/Lib.antt =====
-- Verification of the vertical autoscaler for Zalando postgres clusters: a Kubernetes controller
-- that, in a maintenance window, sets the memory of a postgres cluster to what a
-- VerticalPodAutoscaler (VPA) recommends.
--
-- The program. `Reconcile` reads a PostgresMemoryPolicy, runs `reconcilePolicy` on it and writes the
-- policy's status back. `reconcilePolicy` reads the cluster's memory; if none is set and the policy
-- has an initial memory, it applies that at once. Otherwise it reads the VPA's recommendation,
-- evaluates the cron window, monitors a maintenance run that is in progress, and, if the window is
-- open and no run that started in it has been completed, asks the health and change gates and starts
-- a run. A run patches the postgresql resource, waits for the cluster, triggers the post-actions,
-- waits for them, and is recorded in the history of the status.
--
-- The modules:
--   Api           api/v1alpha1/types.go, and what the code reads of the VPA and workload objects
--   Window        internal/controller/cron.go: `evaluate` is Evaluate, `requeue_after` RequeueAfter
--   Conditions    internal/controller/conditions.go, on the lists of the status
--   Vpa           internal/controller/vpa.go: `read_recommendation` is ReadRecommendation
--   Zalando       internal/controller/zalando.go: reads of the resource; Zalando.Gates has
--                 EvaluateChangeGates, Zalando.Patch has PatchResources, Zalando.Waiting has
--                 WaitForClusterReady
--   Parameters    internal/controller/parameters.go
--   PostActions   internal/controller/postactions.go: the calls that do not block, and in
--                 PostActions.Blocking those that do; Order says what an order of restarts is,
--                 and the proofs are in Laws, Triggers, Readiness, Blocking.Waits (they end),
--                 Blocking.Polls and Blocking.Restarts (what success means)
--   Context       context.Context and timers, as an interface with its laws
--   Reconcile     internal/controller/postgresmemorpolicy_controller.go: Reconcile.Status has the
--                 writes of conditions.go to the policy, Reconcile.Maintenance the start, the phases
--                 and the ends of a run, Reconcile.Policy has reconcilePolicy and Reconcile;
--                 the proofs are in Effects, Once, Permission and Safety (whether the cluster is
--                 patched), in Intents, Gating, Updates and Limits (with what); in Runs, Progress
--                 (the history as a state machine), Coherence, Ends, Monitoring, Starts, Refinement
--                 and Invariant (the status in one reconcile); in Windows, Slots, Storage and
--                 Sequence (in the life of a policy); in Beginning, Watching, Closing and Expiry (how
--                 a run begins and ends); in Stored (Reconcile), and in Cores and Bootstrap (the CPU)
--   Memory        memory with pointers: Memory.Copies says what it is to copy, Memory.Writes what
--                 others may write meanwhile
--   DeepCopy      api/v1alpha1/zz_generated.deepcopy.go: DeepCopy.Cells has the types of types.go as
--                 they lie in memory, DeepCopy.Into the functions, DeepCopy.Reads the values of Api
--                 that they stand for; the proofs are in Laws, Specs, Statuses and Policies
--   Entry         cmd/main.go and api/v1alpha1/groupversion_info.go: the flags, the scheme and the
--                 start of the manager, with NewPostgresMemoryPolicyReconciler and SetupWithManager
--   Float64       Go's float64: IEEE 754 binary64 with rounding to nearest even
--   Platform      what the code calls and does not implement, as interfaces with their laws
--   Monad         the state of a call and its operations; Monad.Trace reads off what a run did,
--                 Monad.Order what it did last
--   Common        shared names, tests, lists, int64 with its wrap-around, Go's errors
--   Tests         a small platform, runs on it, and an example for each result
--
-- State. A call of the controller is a function on the world behind the API client, the policy that
-- the pointer `policy` refers to, and the trace of the interactions with the outside so far. It
-- returns a value or panics; a Go error is a value. Each interaction may find a world that others
-- have changed, since the client of Platform is any function of the world. A write through a
-- pointer into the history is a write to the first record in progress, the one that
-- findInProgressRecord finds. `if` chains and early returns of a long function are
-- one function for each step.
--
-- Numbers. int64, durations and instants are integers, with the wrap-around of int64 where Go
-- computes in it; an instant is in nanoseconds, and `time.Time` arithmetic on it does not wrap.
-- Lists stand for Go maps in the order of one iteration. Rounding to 53 bits searches the grid with
-- fuel 4096: magnitudes stay below 2^2098 units and a quotient below 2^(53 + 4096) ends the search.
-- The waits of the post-actions run on fuel, one unit for a round: 121 rounds are enough, since two
-- polls are five seconds apart and the context expires after ten minutes. WaitForClusterReady does
-- not pause, and its fuel is the nanoseconds until its context expires. Other loops are structural
-- recursion. The horizon of a wait, 9 * 10^18 ns, keeps the wait and its
-- five seconds in int64.
--
-- Parameters of the model: quantities of apimachinery, the cron library gronx, text/template, text
-- formatting and json.Marshal, the API server with the clock, contexts and timers, the deep copies
-- of apimachinery, and the packages flag, client-go and controller-runtime that the process is built
-- on. Theorems that rely on them name what they rely on (Platform.IsOrder, Platform.FindsTicks,
-- Context.KeepsTime, Reconcile.Storage.KeepsSeconds, DeepCopy.Reads.CopiesDeep).
--
-- Aliasing. The controller reads and writes one policy through one pointer, so the model of Reconcile
-- has the policy as a value. The one other object of it, the base of the status patch, is a deep copy;
-- DeepCopy has the pointers written out, and says why the base is a value of its own.
--
-- The life of a policy. Between two reconciles the status is on the API server, which keeps whole
-- seconds; a reconcile may be lost, and users may edit the spec. Each reconcile is taken to read the
-- stored policy: a client cache that lags behind is not modelled.
--
-- Not modelled: log lines and the logger; the CRD markers, which the API server acts on; the Helm
-- chart and the manifests.
pub mod Common
pub mod Float64
pub mod Api
pub mod Platform
pub mod Monad
pub mod Window
pub mod Conditions
pub mod Vpa
pub mod Zalando
pub mod Parameters
pub mod Context
pub mod PostActions
pub mod Reconcile
pub mod Tests
pub mod Memory
pub mod DeepCopy
pub mod Entry
