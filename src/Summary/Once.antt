-- ===== src/Summary/Once.antt =====
-- What a flow leaves behind, and which later flows of the group it silences.
use internship_project.Base.{
  ℕ, ◌≤◌, ◌≡◌, ◌≢◌, refl, sym, ap, ◌∙◌, ◌⊎◌, inl, inr, true, false, ◌&&◌, arith, List, [], ◌∷◌,
  ◌++◌, none, Text, Bool-cases, ◌==◌, any, any_of_Has, any-eq-count, Has, subst,
}
use mathlib.Core.Bool.{false≢true}
use internship_project.Http.{Result, ok, err, Exception, prisma, p2003, ok-injective}
use internship_project.Schema.{Message, Db}
use internship_project.Messages.{insert_message, known_sender}
use internship_project.Summary.{
  FetchResult, GenerateResult, not_generated, generated, not_fetched, fetched, is_summary_since,
  has_summary_since, find_for_summary, fetch_rows, fetch, generate, save, new_summary, Run,
  save_run, run_flow, publish, group_summary, reply_result, summarize,
}

-- A flow that posted: one new row, broadcast once.
pub record HasPosted (id now group_id : ℕ) (later : Db) (r : Run) : Type 0 where
  pub content : Text
  pub rows : r.db.messages ≡ later.messages ++ new_summary id now group_id content ∷ []
  pub broadcast : r.broadcast ≡ new_summary id now group_id content ∷ []
  pub published : r.published ≡ ok true
  pub not_blank : content ≢ []

-- A flow that posted nothing: no row, no broadcast, and it does not report one.
pub record HasSkipped (later : Db) (r : Run) : Type 0 where
  pub db : r.db ≡ later
  pub broadcast : r.broadcast ≡ []
  pub published : r.published ≢ ok true

-- The group of what the stages hand on.
abbrev IsFetchOf : ℕ → FetchResult → Type 0
IsFetchOf group_id (not_fetched reason) = Unit {0}
IsFetchOf group_id (fetched g lines) = g ≡ group_id

abbrev IsGenerateOf : ℕ → Result GenerateResult → Type 0
IsGenerateOf group_id (err e) = Unit {0}
IsGenerateOf group_id (ok (not_generated reason)) = Unit {0}
IsGenerateOf group_id (ok (generated g text)) = (g ≡ group_id) × (text ≢ [])

reply_result-IsGenerateOf :
    (group_id : ℕ) (r : Result Text) → IsGenerateOf group_id (reply_result group_id r)
reply_result-IsGenerateOf group_id (err e) = tt
reply_result-IsGenerateOf group_id (ok []) = tt
reply_result-IsGenerateOf group_id (ok (c ∷ t)) = (refl, λ e. cc)

generate-IsGenerateOf :
    (generate_text : Text → Result Text) (group_id : ℕ) (f : FetchResult)
    → IsFetchOf group_id f
    → IsGenerateOf group_id (generate generate_text (f ∷ []))
unfolding generate
generate-IsGenerateOf generate_text group_id (not_fetched reason) h = tt
generate-IsGenerateOf generate_text group_id (fetched g lines) h =
    subst (λ x. IsGenerateOf x (generate generate_text (fetched g lines ∷ []))) h
      (reply_result-IsGenerateOf g (summarize generate_text lines))

fetch_rows-IsFetchOf :
    (group_id : ℕ) (db : Db) (ms : List Message) → IsFetchOf group_id (fetch_rows group_id db ms)
fetch_rows-IsFetchOf group_id db [] = tt
fetch_rows-IsFetchOf group_id db (m ∷ ms) = refl

fetch-IsFetchOf : (group_id since : ℕ) (db : Db) → IsFetchOf group_id (fetch group_id since db)
unfolding fetch
fetch-IsFetchOf group_id since db = elim (Bool-cases (has_summary_since group_id since db)) [
  | inl e ↦ rw e tt
  | inr e ↦ rw e (fetch_rows-IsFetchOf group_id db (find_for_summary group_id since db))
]

-- What the insertion of the row decides.
insert_message-cases :
    (m : Message) (db : Db)
    → (insert_message m db ≡ ok (record db { messages = db.messages ++ m ∷ [] }))
      ⊎ ((e : Exception) × (insert_message m db ≡ err e))
unfolding insert_message
insert_message-cases m db =
    elim (Bool-cases (any (λ g. g.id == m.group_id) db.groups && known_sender m.sender_id db)) [
      | inl e ↦ inl (rw e refl)
      | inr e ↦ inr (prisma p2003 none, rw e refl)
    ]

save_run-cases :
    (id now group_id : ℕ) (later : Db) (g : Result GenerateResult)
    → IsGenerateOf group_id g
    → HasPosted id now group_id later (save_run id now later g)
      ⊎ HasSkipped later (save_run id now later g)
unfolding save publish group_summary
save_run-cases id now group_id later (err e) h =
    inr (record { db = refl; broadcast = refl; published = λ e. cc })
save_run-cases id now group_id later (ok (not_generated reason)) h =
    inr (record {
      db = refl;
      broadcast = refl;
      published = λ e. absurd (false≢true (ok-injective e));
    })
save_run-cases id now group_id later (ok (generated g text)) (same, filled) =
    elim (insert_message-cases (new_summary id now g text) later) [
      | inl e ↦ inl (
          rw e (record {
            content = text;
            rows = ap (λ x. later.messages ++ new_summary id now x text ∷ []) same;
            broadcast = ap (λ x. new_summary id now x text ∷ []) same;
            published = refl;
            not_blank = filled;
          }))
      | inr (x, e) ↦ inr (rw e (record { db = refl; broadcast = refl; published = λ e. cc }))
    ]

-- A flow that runs to its root posts at most one summary: either it adds one row to what `save`
-- finds, an AI_SUMMARY of the group with no sender and a text that is not empty, broadcasts that
-- row once and reports the post; or it leaves the rows as it finds them, broadcasts nothing and
-- reports no post.
pub run_flow-cases :
    (generate_text : Text → Result Text) (id now group_id since : ℕ) (db later : Db)
    → HasPosted id now group_id later (run_flow generate_text id now group_id since db later)
      ⊎ HasSkipped later (run_flow generate_text id now group_id since db later)
unfolding run_flow
run_flow-cases generate_text id now group_id since db later =
    save_run-cases id now group_id later (generate generate_text (fetch group_id since db ∷ [])) (
      generate-IsGenerateOf generate_text group_id (fetch group_id since db)
        (fetch-IsFetchOf group_id since db))

has_summary_since_of_Has :
    (group_id since : ℕ) (db : Db) (m : Message)
    → Has m db.messages
    → is_summary_since group_id since m ≡ true
    → has_summary_since group_id since db ≡ true
unfolding has_summary_since
has_summary_since_of_Has group_id since db m i e = ground (
  arith,
  any_of_Has (is_summary_since group_id since) m db.messages i e,
  any-eq-count (is_summary_since group_id since) db.messages,
)

-- The run of a flow that finds a summary in its window.
abbrev pub silent : Db → Run
silent later = record { db = later; broadcast = []; published = ok false }

run_flow-silent :
    (generate_text : Text → Result Text) (id now group_id since : ℕ) (db later : Db)
    → has_summary_since group_id since db ≡ true
    → run_flow generate_text id now group_id since db later ≡ silent later
unfolding run_flow fetch generate save publish group_summary
run_flow-silent generate_text id now group_id since db later h = rw h refl

is_summary-new :
    (id now group_id since : ℕ) (content : Text)
    → since ≤ now
    → is_summary_since group_id since (new_summary id now group_id content) ≡ true
is_summary-new id now group_id since content h = ground arith

-- A flow that finds a row which an earlier flow of the group broadcast, with its own window
-- reaching back to the moment of that row or further, posts nothing: a flow that fires again in
-- the same window adds no second summary, whatever the model replies.
pub run_flow_again :
    (reply reply' : Text → Result Text) (id now group_id since : ℕ) (db later : Db) (m : Message)
    (id' now' since' : ℕ) (db' later' : Db)
    → (run_flow reply id now group_id since db later).broadcast ≡ m ∷ []
    → Has m db'.messages
    → since' ≤ now
    → run_flow reply' id' now' group_id since' db' later' ≡ silent later'
run_flow_again reply reply' id now group_id since db later m id' now' since' db' later' h i before =
    elim (run_flow-cases reply id now group_id since db later) [
      | inl posted ↦ run_flow-silent reply' id' now' group_id since' db' later' (
          has_summary_since_of_Has group_id since' db' m i (
            subst (λ x. is_summary_since group_id since' x ≡ true)
              (head_eq (sym posted.broadcast ∙ h))
              (is_summary-new id now group_id since' posted.content before)))
      | inr skipped ↦ absurd (cc (skipped.broadcast, h))
    ]
  where
    head_eq : {a b : Message} → a ∷ [] ≡ b ∷ [] → a ≡ b
    head_eq e = cc
