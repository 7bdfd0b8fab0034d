-- ===== src/Summary/Tick.antt =====
-- What a tick enqueues, which ticks share their job ids, and what the tick after a summary finds.
use internship_project.Base.{
  ℕ, ◌+◌, ◌≤◌, ◌≡◌, refl, ap, subst, ◌↔◌, inl, inr, Bool, true, arith, List, [], ◌∷◌, ◌++◌, Text,
  codes, Bool-cases, map, any, Has, Has-keep,
}
use internship_project.Http.{Result}
use internship_project.Schema.{Group, Message, Db}
use internship_project.Summary.{is_activity, find_active_groups, run_flow}
use internship_project.Summary.Once.{silent, run_flow_again}
use internship_project.Summary.Flow.{
  FlowJob, build_summary_flow, since_of, bucket_start_of, enqueue, fan_out_summaries, run_order,
  job_ids, job_fetch, job_generate, job_save, job_publish, job_group_summary,
}

abbrev pub flow_of : (decimal spell : ℕ → Text) → (window_ms now : ℕ) → Group → FlowJob
flow_of decimal spell window_ms now g =
    build_summary_flow decimal (spell g.id) (since_of window_ms now) (bucket_start_of window_ms now)

Has-map : {A B : Type 0} (f : A → B) (a : A) (xs : List A) → Has a xs → Has (f a) (map f xs)
Has-map f a [] i = absurd i
Has-map f a (x ∷ xs) (inl e) = inl (ap f e)
Has-map f a (x ∷ xs) (inr i) = inr (Has-map f a xs i)

Has-enqueue :
    (add : FlowJob → Bool) (f : Text → FlowJob) (g : Text) (gs : List Text)
    → Has g gs
    → add (f g) ≡ true
    → Has (f g) (enqueue add f gs)
Has-enqueue add f g [] i e = absurd i
Has-enqueue add f g (x ∷ xs) (inl h) e = rw (subst (λ y. add (f y) ≡ true) h e) (inl (ap f h))
Has-enqueue add f g (x ∷ xs) (inr i) e = elim (Bool-cases (add (f x))) [
  | inl t ↦ rw t (inr (Has-enqueue add f g xs i e))
  | inr t ↦ rw t (Has-enqueue add f g xs i e)
]

-- A group with a USER message in the window gets its flow whenever `flow.add` accepts that flow,
-- whatever becomes of the other groups' flows in the same tick.
pub fan_out_summaries-active :
    (decimal spell : ℕ → Text) (add : FlowJob → Bool) (window_ms now : ℕ) (db : Db) (g : Group)
    → Has g db.groups
    → any (is_activity g.id (since_of window_ms now)) db.messages ≡ true
    → add (flow_of decimal spell window_ms now g) ≡ true
    → Has
        (flow_of decimal spell window_ms now g)
        (fan_out_summaries decimal add spell window_ms now db)
unfolding fan_out_summaries find_active_groups
fan_out_summaries-active decimal spell add window_ms now db g i active accepted =
    Has-enqueue add
      (λ t. build_summary_flow decimal t (since_of window_ms now) (bucket_start_of window_ms now))
      (spell g.id) _
      (Has-map (λ x. spell x.id) g _
        (Has-keep (λ x. any (is_activity x.id (since_of window_ms now)) db.messages) g db.groups i
          active))
      accepted

-- The jobs of a flow run in the order fetch, generate, save, publish, root.
run_order-flow :
    (decimal : ℕ → Text) (group_id : Text) (since bucket_start : ℕ)
    → run_order (build_summary_flow decimal group_id since bucket_start)
      ≡ job_fetch ∷ job_generate ∷ job_save ∷ job_publish ∷ job_group_summary ∷ []
unfolding build_summary_flow
run_order-flow decimal group_id since bucket_start = refl

append-cancel : (s : Text) {t u : Text} → s ++ t ≡ s ++ u → t ≡ u
append-cancel [] e = e
append-cancel (c ∷ s) e = append-cancel s (cc e)

-- Two flows of a group carry the same job ids exactly when their ticks fall in the same bucket;
-- `since` plays no part. It takes a decimal spelling that tells numbers apart.
pub job_ids-same_bucket :
    (decimal : ℕ → Text)
    → ((m n : ℕ) → decimal m ≡ decimal n → m ≡ n)
    → (group_id : Text) (since since' window_ms now now' : ℕ)
    → (job_ids (build_summary_flow decimal group_id since (bucket_start_of window_ms now))
        ≡ job_ids (build_summary_flow decimal group_id since' (bucket_start_of window_ms now')))
      ↔ (bucket_start_of window_ms now ≡ bucket_start_of window_ms now')
unfolding build_summary_flow
job_ids-same_bucket decimal injective group_id since since' window_ms now now' = (
  (λ e. injective _ _ (
      append-cancel (codes ":") (
        append-cancel group_id
          (append-cancel (codes ":") (append-cancel job_group_summary (cc e)))))),
  λ e. ap (λ b. job_ids (build_summary_flow decimal group_id since b)) e,
)

-- The tick that follows a summary by one window finds that summary in its window, if the row was
-- written no earlier than its own tick: that tick's flow posts nothing, whatever was written in the
-- group since.
pub run_flow-next_tick :
    (reply reply' : Text → Result Text) (window_ms tick id now group_id : ℕ) (db later : Db)
    (m : Message) (id' now' : ℕ) (db' later' : Db)
    → tick ≤ now
    → (run_flow reply id now group_id (since_of window_ms tick) db later).broadcast ≡ m ∷ []
    → Has m db'.messages
    → run_flow reply' id' now' group_id (since_of window_ms (tick + window_ms)) db' later'
      ≡ silent later'
run_flow-next_tick reply reply' window_ms tick id now group_id db later m id' now' db' later' h e
      i =
    run_flow_again reply reply' id now group_id (since_of window_ms tick) db later m id' now'
      (since_of window_ms (tick + window_ms)) db' later' e i (omega arith)
