-- ===== src/Routes.antt =====
-- The controllers of backend/src/groups and backend/src/messages behind the global JwtAuthGuard,
-- and groups/group-member.guard.ts. A form is what multer has let through, whose limit for a field is
-- 1 MiB. A request is a route with its raw parameters and the user
-- that the access token names, `none` where there is no valid token.
pub mod Spares
pub mod Rows
pub mod Effects
pub mod Isolation
pub mod Captions
use internship_project.Base.{
  ℕ, Bool, true, false, not, List, Option, none, some, Text, codes, if◌then◌else◌, trim, [],
}
use internship_project.Http.{
  Result, ok, err, Exception, unknown, throw_http, unauthorized, or_throw, throw_if, ◌>>=◌, ◌>>◌,
}
use internship_project.Schema.{Group, Message, Reaction, Db}
use internship_project.Events.{RequestId, Outcome, unchanged}
use internship_project.Cursor.{Field, absent, string, other, Platform}
use internship_project.Bodies.{
  Validators, parse_uuid, create_message_dto, create_group_dto, search_messages_dto,
  toggle_reaction_dto, transfer_ownership_dto, pagination_query_dto,
}
use internship_project.Groups
use internship_project.Groups.{GroupListing, GroupDetail, LeaveOutcome, assert_member}
use internship_project.Messages
use internship_project.Messages.{Page, Attachment, and_then}
use internship_project.Reactions.{toggle}
use internship_project.Storage.{UploadedFile, StoredFile, Backend, upload}

pub data Route : Type 0 where
  create_group : (name : Field) → Route
  my_groups : Route
  read_group join_group mark_read leave_group : RequestId → Route
  transfer_ownership : RequestId → (user_id : Option RequestId) → Route
  post_message : RequestId → (content : Field) → Route
  list_messages : RequestId → (limit cursor : Field) → Route
  search_messages : RequestId → (q : Field) → Route
  upload_file : RequestId → (caption : Field) → Option UploadedFile → Route
  edit_message : RequestId → (message_id : RequestId) → (content : Field) → Route
  delete_message : RequestId → (message_id : RequestId) → Route
  react : RequestId → (message_id : RequestId) → (emoji : Field) → Route

pub data Reply : Type 0 where
  group : Group → Reply
  groups : List GroupListing → Reply
  detail : GroupDetail → Reply
  read_at : ℕ → Reply
  left : LeaveOutcome → Reply
  moved : ℕ × ℕ → Reply
  message : Message → Reply
  page : Page → Reply
  hits : List Message → Reply
  reactions : List Reaction → Reply

-- What the handlers take from outside: the libraries, the storage, the clock and the fresh ids.
pub record Env : Type 0 where
  pub validators : Validators
  pub platform : Platform
  pub matches : Text → Text → Bool
  pub to_lower : Text → Text
  pub encode_uri : Text → Text
  pub backend : Backend
  -- The two validators of ParseFilePipe.
  pub accepts_file : UploadedFile → Bool
  pub id : ℕ
  pub row_id : ℕ
  pub uuid : Text
  pub now : ℕ

abbrev pub reply_with : {A : Type 0} → (A → Reply) → Result A → Result Reply
reply_with f (ok a) = ok (f a)
reply_with f (err e) = err e

abbrev pub replied : {A : Type 0} → (A → Reply) → Outcome A → Outcome Reply
replied f o = record { db = o.db; events = o.events; result = reply_with f o.result }

-- A read leaves everything as it is.
abbrev pub reads : {A : Type 0} → Db → (A → Reply) → Result A → Outcome Reply
reads db f r = record { db = db; events = []; result = reply_with f r }

-- GroupMemberGuard.canActivate(), and then the pipes and the handler.
abbrev pub member_only : ℕ → RequestId → Db → Outcome Reply → Outcome Reply
member_only user_id at db o = and_then db (assert_member user_id at db) (λ _. o)

-- `(content ?? '').trim()`
abbrev pub caption_text : Field → Result Text
caption_text absent = ok []
caption_text (string t) = ok (trim t)
caption_text other = err unknown

abbrev pub parsed_file : (UploadedFile → Bool) → Option UploadedFile → Result UploadedFile
parsed_file accepts none = err (throw_http 422 "File is required")
parsed_file accepts (some file) = do
  throw_if (not (accepts file)) (throw_http 422 "Validation failed")
  ok file

module _ (e : Env) where
  abbrev v : Validators
  v = e.validators

  -- MessagesController.upload(): the bytes first, then the row.
  abbrev pub upload_message : ℕ → RequestId → Field → Option UploadedFile → Db → Outcome Message
  upload_message user_id at caption upload_of db =
      and_then db
        (do
          at' ← parse_uuid at
          file ← parsed_file e.accepts_file upload_of
          stored ← upload e.to_lower e.encode_uri e.backend at'.raw e.uuid file
          content ← caption_text caption
          ok (content, stored))
        (λ (c : Text × StoredFile).
          Messages.create_with_attachment e.id e.now at user_id c.0
            (record { url = c.1.url; name = c.1.name; mime = c.1.mime }) db)

  unfoldable pub handle_as : ℕ → Route → Db → Outcome Reply
  handle_as user_id (create_group name) db =
      and_then db (create_group_dto v name)
        (λ n. replied group (Groups.create e.id e.row_id e.now user_id n db))
  handle_as user_id my_groups db = reads db groups (ok (Groups.find_my_groups user_id db))
  handle_as user_id (read_group at) db =
      member_only user_id at db (reads db detail (parse_uuid at >>= λ at. Groups.find_one at db))
  handle_as user_id (join_group at) db =
      and_then db (parse_uuid at) (λ at. replied group (Groups.join e.id e.now user_id at db))
  handle_as user_id (mark_read at) db =
      member_only user_id at db
        (and_then db (parse_uuid at) (λ at. replied read_at (Groups.mark_read e.now user_id at db)))
  handle_as user_id (leave_group at) db =
      member_only user_id at db
        (and_then db (parse_uuid at) (λ at. replied left (Groups.leave user_id at db)))
  handle_as user_id (transfer_ownership at target) db = member_only user_id at db (
      and_then db (parse_uuid at >>= λ at. transfer_ownership_dto v target >>= λ t. ok (at, t))
        (λ (c : RequestId × ℕ). replied moved (Groups.transfer_ownership user_id c.0 c.1 db)))
  handle_as user_id (post_message at content) db = member_only user_id at db (
      and_then db (parse_uuid at >>= λ _. create_message_dto v content)
        (λ c. replied message (Messages.create e.id e.now at user_id c db)))
  handle_as user_id (list_messages at limit cursor) db = member_only user_id at db (
      reads db page (do
        at' ← parse_uuid at
        query ← pagination_query_dto v limit cursor
        Messages.find_page e.platform at' query.0 query.1 db))
  handle_as user_id (search_messages at q) db = member_only user_id at db (
      reads db hits (do
        at' ← parse_uuid at
        text ← search_messages_dto v q
        ok (Messages.search e.matches at' text db)))
  handle_as user_id (upload_file at caption file) db =
      member_only user_id at db (replied message (upload_message user_id at caption file db))
  handle_as user_id (edit_message at id content) db = member_only user_id at db (
      and_then db (parse_uuid at >>= λ _. parse_uuid id >>= λ _. create_message_dto v content)
        (λ c. replied message (Messages.edit e.now at.value id.value user_id c db)))
  handle_as user_id (delete_message at id) db = member_only user_id at db (
      and_then db (parse_uuid at >>= λ _. parse_uuid id)
        (λ id. replied message (Messages.soft_delete e.now at.value id.value user_id db)))
  handle_as user_id (react at id emoji) db = member_only user_id at db (
      and_then db (parse_uuid at >>= λ _. parse_uuid id >>= λ _. toggle_reaction_dto v emoji) (λ t.
        replied reactions
          (toggle e.row_id at (record { message_id = id.value; user_id = user_id; emoji = t }) db)))

  -- JwtAuthGuard in front of every route.
  unfoldable pub handle : Option ℕ → Route → Db → Outcome Reply
  unfolding handle_as
  handle none route db = unchanged db (unauthorized "Unauthorized")
  handle (some user_id) route db = handle_as user_id route db
