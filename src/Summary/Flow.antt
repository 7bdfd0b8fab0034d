-- ===== src/Summary/Flow.antt =====
-- The tick, and the tree of jobs that it adds for each active group.
use internship_project.Base.{
  ℕ, ◌-◌, ◌*◌, ◌/◌, Bool, true, false, if◌then◌else◌, List, [], ◌∷◌, ◌++◌, Option, none, some, Text,
  codes, map,
}
use internship_project.Schema.{Db}
use internship_project.Summary.{find_active_groups}

-- The queues and the job names.
pub data QueueName : Type 0 where
  scheduler_queue ai_queue summary_queue notification_queue : QueueName

abbrev pub job_group_summary : Text
job_group_summary = codes "group-summary"

abbrev pub job_publish : Text
job_publish = codes "publish-summary"

abbrev pub job_save : Text
job_save = codes "save-summary"

abbrev pub job_generate : Text
job_generate = codes "generate-ai-summary"

abbrev pub job_fetch : Text
job_fetch = codes "fetch-messages"

-- A group's id is its spelling here, and an instant its number of milliseconds.
pub record JobData : Type 0 where
  pub group_id : Text
  pub since : Option ℕ

pub record JobOptions : Type 0 where
  pub job_id : Text
  pub attempts : ℕ
  pub delay : ℕ
  pub remove_on_complete : Bool
  pub remove_on_fail : ℕ
  pub fail_parent_on_failure : Bool

mutual
  pub data FlowJob : Type 0 where
    job : (name : Text) → QueueName → JobData → JobOptions → FlowJobs → FlowJob

  pub data FlowJobs : Type 0 where
    none_below : FlowJobs
    below : FlowJob → FlowJobs → FlowJobs

-- fanOutSummaries(): the flows that `flow.add` accepted, in their order; one that it refuses is
-- logged, and the loop goes on.
abbrev pub since_of : (window_ms now : ℕ) → ℕ
since_of window_ms now = now - window_ms

abbrev pub bucket_start_of : (window_ms now : ℕ) → ℕ
bucket_start_of window_ms now = (now / window_ms) * window_ms

abbrev pub enqueue : (FlowJob → Bool) → (Text → FlowJob) → List Text → List FlowJob
enqueue add flow_of [] = []
enqueue add flow_of (g ∷ gs) =
    if add (flow_of g) then flow_of g ∷ enqueue add flow_of gs else enqueue add flow_of gs

module _ (decimal : ℕ → Text) where
  -- stageJobId()
  abbrev pub stage_job_id : (stage group_id : Text) → (bucket_start : ℕ) → Text
  stage_job_id stage group_id bucket_start =
      stage ++ (codes ":" ++ (group_id ++ (codes ":" ++ decimal bucket_start)))

  -- jobOpts(), and what a stage adds to it.
  abbrev pub job_opts : Text → JobOptions
  job_opts job_id = record {
    job_id = job_id;
    attempts = 3;
    delay = 2000;
    remove_on_complete = true;
    remove_on_fail = 100;
    fail_parent_on_failure = false;
  }

  abbrev pub stage_opts : Text → JobOptions
  stage_opts job_id = record (job_opts job_id) { fail_parent_on_failure = true }

  -- buildSummaryFlow()
  unfoldable pub build_summary_flow : Text → (since bucket_start : ℕ) → FlowJob
  build_summary_flow group_id since bucket_start =
      let plain : JobData = record { group_id = group_id; since = none } in
      let id : Text → Text = λ stage. stage_job_id stage group_id bucket_start in
      job job_group_summary summary_queue plain (job_opts (id job_group_summary)) (
        below
          (job job_publish notification_queue plain (stage_opts (id job_publish)) (
            below
              (job job_save summary_queue plain (stage_opts (id job_save)) (
                below
                  (job job_generate ai_queue plain (stage_opts (id job_generate)) (
                    below
                      (job job_fetch summary_queue
                        (record { group_id = group_id; since = some since })
                        (stage_opts (id job_fetch)) none_below)
                      none_below))
                  none_below))
              none_below))
          none_below)

  unfoldable pub fan_out_summaries :
      (FlowJob → Bool) → (spell : ℕ → Text) → (window_ms now : ℕ) → Db → List FlowJob
  unfolding build_summary_flow
  fan_out_summaries add spell window_ms now db =
      enqueue add
        (λ g. build_summary_flow g (since_of window_ms now) (bucket_start_of window_ms now))
        (map (λ g. spell g.id) (find_active_groups (since_of window_ms now) db))

-- The order in which the jobs of a flow run: those below first.
abbrev mutual
  pub run_order : FlowJob → List Text
  run_order (job name queue data_ opts children) = run_orders children ++ name ∷ []

  pub run_orders : FlowJobs → List Text
  run_orders none_below = []
  run_orders (below j js) = run_order j ++ run_orders js

-- The ids of a flow's jobs, the root first.
abbrev mutual
  pub job_ids : FlowJob → List Text
  job_ids (job name queue data_ opts children) = opts.job_id ∷ job_ids_below children

  pub job_ids_below : FlowJobs → List Text
  job_ids_below none_below = []
  job_ids_below (below j js) = job_ids j ++ job_ids_below js
