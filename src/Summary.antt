-- ===== src/Summary.antt =====
-- backend/src/summary, messages/summary-messages.service.ts, queues/queue.constants.ts and
-- ai/ai-summary.service.ts: the jobs that post a summary in a group. BullMQ runs a job when its
-- child has returned; the model's reply is a parameter, and so is the decimal spelling of a number.
pub mod Flow
pub mod Once
pub mod Tick
use internship_project.Base.{
  ℕ, ◌+◌, ◌-◌, ◌*◌, ◌/◌, Bool, true, false, not, ◌&&◌, List, [], ◌∷◌, ◌++◌, map, Option, none, some,
  Text, codes, ltb, leb, ◌==◌, if◌then◌else◌, is_some, or_default, keep, find, any, count, sort_by,
  trim,
}
use internship_project.Http.{Result, ok, err, Exception}
use internship_project.Schema.{ai_summary, User, Group, Message, Db, is_user_type, is_summary_type}
use internship_project.Messages.{insert_message}

-- findActiveGroups()
abbrev pub is_activity : (group_id since : ℕ) → Message → Bool
is_activity group_id since m =
    (m.group_id == group_id) && (is_user_type m.type && leb since m.created_at)

unfoldable pub find_active_groups : (since : ℕ) → Db → List Group
find_active_groups since db = keep (λ g. any (is_activity g.id since) db.messages) db.groups

-- hasSummarySince()
abbrev pub is_summary_since : (group_id since : ℕ) → Message → Bool
is_summary_since group_id since m =
    (m.group_id == group_id) && (is_summary_type m.type && leb since m.created_at)

unfoldable pub has_summary_since : (group_id since : ℕ) → Db → Bool
has_summary_since group_id since db = ltb 0 (count (is_summary_since group_id since) db.messages)

-- findForSummary()
abbrev pub is_summarized : (group_id since : ℕ) → Message → Bool
is_summarized group_id since m =
    (m.group_id == group_id)
    && (is_user_type m.type && (leb since m.created_at && not (is_some m.deleted_at)))

abbrev pub oldest_first : Message → Message → Bool
oldest_first m n = leb m.created_at n.created_at

unfoldable pub find_for_summary : (group_id since : ℕ) → Db → List Message
find_for_summary group_id since db =
    sort_by oldest_first (keep (is_summarized group_id since) db.messages)

-- persistAiSummary()
abbrev pub new_summary : (id now group_id : ℕ) → Text → Message
new_summary id now group_id content = record {
  id = id;
  group_id = group_id;
  sender_id = none;
  content = content;
  type = ai_summary;
  created_at = now;
  edited_at = none;
  deleted_at = none;
  attachment_url = none;
  attachment_name = none;
  attachment_mime = none;
}

-- What the stages return: stage.types.ts.
pub data SkipReason : Type 0 where
  exists empty blank : SkipReason

pub record Line : Type 0 where
  pub sender : Text
  pub content : Text

pub data FetchResult : Type 0 where
  not_fetched : SkipReason → FetchResult
  fetched : (group_id : ℕ) → List Line → FetchResult

pub data GenerateResult : Type 0 where
  not_generated : SkipReason → GenerateResult
  generated : (group_id : ℕ) → Text → GenerateResult

pub data SaveResult : Type 0 where
  not_saved : SaveResult
  saved : Message → SaveResult

-- firstChildValue(), on `Object.values`.
abbrev pub first_child_value : {A : Type 0} → List A → Option A
first_child_value [] = none
first_child_value (a ∷ values) = some a

-- fetch-messages
abbrev transcript_unknown_sender : Text
transcript_unknown_sender = codes "Unknown"

abbrev user_name : Option User → Text
user_name none = transcript_unknown_sender
user_name (some u) = u.name

abbrev sender_name : Db → Option ℕ → Text
sender_name db none = transcript_unknown_sender
sender_name db (some id) = user_name (find (λ u. u.id == id) db.users)

abbrev pub line_of : Db → Message → Line
line_of db m = record { sender = sender_name db m.sender_id; content = m.content }

abbrev pub fetch_rows : ℕ → Db → List Message → FetchResult
fetch_rows group_id db [] = not_fetched empty
fetch_rows group_id db (m ∷ ms) = fetched group_id (map (line_of db) (m ∷ ms))

unfoldable pub fetch : (group_id since : ℕ) → Db → FetchResult
unfolding has_summary_since find_for_summary
fetch group_id since db =
    if has_summary_since group_id since db
    then not_fetched exists
    else fetch_rows group_id db (find_for_summary group_id since db)

-- generate-ai-summary: transcriptLine(), the join, summaryUserPrompt() and summarize().
abbrev transcript_line : Line → Text
transcript_line l = l.sender ++ (codes ": " ++ l.content)

abbrev joined_lines : List Text → Text
joined_lines [] = []
joined_lines (t ∷ []) = t
joined_lines (t ∷ u ∷ ts) = t ++ (10 ∷ joined_lines (u ∷ ts))

abbrev summary_user_prompt : Text → Text
summary_user_prompt transcript = codes "Summarize this conversation:" ++ (10 ∷ 10 ∷ transcript)

abbrev trimmed : Result Text → Result Text
trimmed (err e) = err e
trimmed (ok t) = ok (trim t)

abbrev reply_result : ℕ → Result Text → Result GenerateResult
reply_result group_id (err e) = err e
reply_result group_id (ok []) = ok (not_generated blank)
reply_result group_id (ok (c ∷ t)) = ok (generated group_id (c ∷ t))

module _ (generate_text : Text → Result Text) where
  unfoldable pub summarize : List Line → Result Text
  summarize lines =
      trimmed (generate_text (summary_user_prompt (joined_lines (map transcript_line lines))))

  abbrev generate_from : Option FetchResult → Result GenerateResult
  generate_from none = ok (not_generated empty)
  generate_from (some (not_fetched reason)) = ok (not_generated reason)
  generate_from (some (fetched group_id lines)) = reply_result group_id (summarize lines)

  unfoldable pub generate : List FetchResult → Result GenerateResult
  generate values = generate_from (first_child_value values)

-- save-summary
abbrev saved_result : Message → Db → Result Db → Db × Result SaveResult
saved_result m db (err e) = (db, err e)
saved_result m db (ok db') = (db', ok (saved m))

abbrev save_from : (id now : ℕ) → Db → Option GenerateResult → Db × Result SaveResult
save_from id now db none = (db, ok not_saved)
save_from id now db (some (not_generated reason)) = (db, ok not_saved)
save_from id now db (some (generated group_id text)) =
    let m = new_summary id now group_id text in saved_result m db (insert_message m db)

unfoldable pub save : (id now : ℕ) → List GenerateResult → Db → Db × Result SaveResult
save id now values db = save_from id now db (first_child_value values)

-- publish-summary: the rows that it broadcasts, and `published`.
abbrev publish_from : Option SaveResult → List Message × Bool
publish_from none = ([], false)
publish_from (some not_saved) = ([], false)
publish_from (some (saved m)) = (m ∷ [], true)

unfoldable pub publish : List SaveResult → List Message × Bool
publish values = publish_from (first_child_value values)

-- group-summary: `published` of its child.
unfoldable pub group_summary : List Bool → Bool
group_summary values = or_default (first_child_value values) false

-- One flow from its leaf to its root. `db` is what fetch reads and `later` what save finds; the
-- exception of a stage fails the stages above it.
pub record Run : Type 0 where
  pub db : Db
  pub broadcast : List Message
  pub published : Result Bool

abbrev pub end_run : Db × Result SaveResult → Run
end_run (db, err e) = record { db = db; broadcast = []; published = err e }
end_run (db, ok s) =
    let p = publish (s ∷ []) in
    record { db = db; broadcast = p.0; published = ok (group_summary (p.1 ∷ [])) }

abbrev pub save_run : (id now : ℕ) → Db → Result GenerateResult → Run
save_run id now later (err e) = record { db = later; broadcast = []; published = err e }
save_run id now later (ok g) = end_run (save id now (g ∷ []) later)

unfoldable pub run_flow : (Text → Result Text) → (id now group_id since : ℕ) → (db later : Db) → Run
run_flow generate_text id now group_id since db later =
    save_run id now later (generate generate_text (fetch group_id since db ∷ []))
