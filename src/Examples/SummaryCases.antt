-- ===== src/Examples/SummaryCases.antt =====
-- The theorems on summaries, with a model that always gives the same reply.
use internship_project.Base.{
  ℕ, ◌+◌, ◌≡◌, ◌⊎◌, refl, inl, inr, true, arith, [], ◌∷◌, ◌++◌, Text, codes, trim, sort_by, Has,
}
use internship_project.Http.{Result, ok}
use internship_project.Schema.{Message, Db}
use internship_project.Summary.{
  run_flow, new_summary, fetch, generate, save, publish, group_summary, has_summary_since,
  find_for_summary, summarize,
}
use internship_project.Messages.{insert_message}
use internship_project.Summary.Flow.{since_of, fan_out_summaries}
use internship_project.Summary.Once.{HasPosted, HasSkipped, silent, run_flow-cases, run_flow_again}
use internship_project.Summary.Tick.{fan_out_summaries-active, run_flow-next_tick, flow_of}
use internship_project.Examples.{sample_group, sample_db}

abbrev reply : Text → Result Text
reply prompt = ok (codes "Hello")

abbrev day : ℕ
day = 86400000

abbrev posted : Message
posted = new_summary 203 8 10 (codes "Hello")

abbrev later_db : Db
later_db = record sample_db { messages = sample_db.messages ++ posted ∷ [] }

run_flow-cases_example :
    HasPosted 203 8 10 sample_db (run_flow reply 203 8 10 4 sample_db sample_db)
    ⊎ HasSkipped sample_db (run_flow reply 203 8 10 4 sample_db sample_db)
run_flow-cases_example = run_flow-cases reply 203 8 10 4 sample_db sample_db

run_flow_again_example : run_flow reply 204 9 10 5 later_db later_db ≡ silent later_db
unfolding run_flow fetch generate save publish group_summary has_summary_since find_for_summary
    insert_message summarize sort_by trim
run_flow_again_example =
    run_flow_again reply reply 203 8 10 4 sample_db sample_db posted 204 9 5 later_db later_db refl
      (inr (inr (inr (inl refl)))) (omega arith)

run_flow-next_tick_example :
    run_flow reply 204 (day + 8) 10 (since_of day (7 + day)) later_db later_db ≡ silent later_db
unfolding run_flow fetch generate save publish group_summary has_summary_since find_for_summary
    insert_message summarize sort_by trim
run_flow-next_tick_example =
    run_flow-next_tick reply reply day 7 203 8 10 sample_db sample_db posted 204 (day + 8) later_db
      later_db (omega arith) refl (inr (inr (inr (inl refl))))

abbrev digits : ℕ → Text
digits n = n ∷ []

fan_out_summaries-active_example :
    Has
      (flow_of digits digits day 8 sample_group)
      (fan_out_summaries digits (λ j. true) digits day 8 sample_db)
fan_out_summaries-active_example =
    fan_out_summaries-active digits digits (λ j. true) day 8 sample_db sample_group (inl refl) refl
      refl
