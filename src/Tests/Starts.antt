-- ===== src/Tests/Starts.antt =====
-- Examples for the start of a run, and for a start that fails.
use zalando_vertical_autosca.Common.{◌≡◌, refl, false, none, some, List, [], ◌∷◌, String, arith}
use zalando_vertical_autosca.Common.Int.{ℤ}
use zalando_vertical_autosca.Common.Errors.{ok, err, plain, wrapped, GoError}
use zalando_vertical_autosca.Float64.{
  of_int, make, mul, lt, to_int64, round_ratio, round_on, nearest, unit, overflow,
}
use zalando_vertical_autosca.Monad.{State, Exec, returned, panicked, patch_postgresql}
use zalando_vertical_autosca.Monad.Post.{Post}
use zalando_vertical_autosca.Conditions.{is_condition_true_list}
use zalando_vertical_autosca.Vpa.{VpaRecommendation}
use zalando_vertical_autosca.Zalando.Patch.{
  patch_resources, patch_data, mem_limit_bytes, build_memory_patch, add_postgres_parameters_patch,
}
use zalando_vertical_autosca.Parameters.{
  calculate_postgres_parameters, evaluate_all, evaluate_parameter, trim_space, trim_left,
  trim_right, is_space, template_funcs,
}
use zalando_vertical_autosca.Reconcile.Maintenance.{
  calculate_pg_params, cpu_cores, start_maintenance,
}
use zalando_vertical_autosca.Reconcile.Runs.{Runs}
use zalando_vertical_autosca.Reconcile.Beginning.{
  Begins, FailsToBegin, start_maintenance-Answers, start_maintenance-FailsToBegin,
}
use zalando_vertical_autosca.Tests.Sample.{policy, policy_spec, start}
use zalando_vertical_autosca.Tests.World.{gi, small_platform, whole_units}

none_running : Runs 0 false start.policy
unfolding is_condition_true_list
none_running = record { distinct = tt; short = omega arith; number = refl; flag = refl }

abbrev twenty : VpaRecommendation ℤ
twenty = record { memory = gi 20; cpu = none }

abbrev computed : List (String × String)
computed = ("shared_buffers", "20Gi") ∷ []

parameters_computed :
    calculate_pg_params small_platform start.policy
      (whole_units.value (gi 20))
      (cpu_cores whole_units.milli_value twenty)
    ≡ ok computed
unfolding calculate_pg_params calculate_postgres_parameters evaluate_all evaluate_parameter
    trim_space trim_left trim_right is_space template_funcs cpu_cores
parameters_computed = refl

abbrev state_of : {A : Type 0} → Exec small_platform A → State small_platform
state_of (returned a s) = s
state_of (panicked s) = s

abbrev after_patch : State small_platform
after_patch = state_of (patch_resources small_platform twenty computed start)

patch_accepted : patch_resources small_platform twenty computed start ≡ returned (ok tt) after_patch
unfolding patch_resources patch_postgresql patch_data mem_limit_bytes build_memory_patch
    add_postgres_parameters_patch of_int make mul lt to_int64 round_ratio round_on nearest unit
    overflow
patch_accepted = refl

start_maintenance-Answers_example :
    Post
      (λ _. ⊥)
      (Begins small_platform twenty (some (gi 10)) start)
      (start_maintenance small_platform twenty (some (gi 10)) start)
start_maintenance-Answers_example =
    start_maintenance-Answers small_platform twenty (some (gi 10)) start after_patch computed
      (ok tt) none_running parameters_computed patch_accepted

-- A policy with a template that does not parse.
abbrev wrong_start : State small_platform
wrong_start = record start {
  policy = record policy {
    spec = record policy_spec { postgres_parameters = ("shared_buffers", "{{ .disk }}") ∷ [] };
  };
}

none_running_wrong : Runs 0 false wrong_start.policy
unfolding is_condition_true_list
none_running_wrong = record { distinct = tt; short = omega arith; number = refl; flag = refl }

abbrev the_failure : GoError
the_failure =
    wrapped "evaluating parameter 'shared_buffers'"
      (wrapped "parsing template" (plain "bad template"))

parameters_fail :
    calculate_pg_params small_platform wrong_start.policy
      (whole_units.value (gi 20))
      (cpu_cores whole_units.milli_value twenty)
    ≡ err the_failure
unfolding calculate_pg_params calculate_postgres_parameters evaluate_all evaluate_parameter
    trim_space trim_left trim_right is_space template_funcs cpu_cores
parameters_fail = refl

start_maintenance-FailsToBegin_example :
    Post
      (λ _. ⊥)
      (FailsToBegin small_platform twenty (some (gi 10)) wrong_start)
      (start_maintenance small_platform twenty (some (gi 10)) wrong_start)
start_maintenance-FailsToBegin_example =
    start_maintenance-FailsToBegin small_platform twenty (some (gi 10)) wrong_start the_failure
      none_running_wrong parameters_fail
