-- ===== src/Routes/Isolation.antt =====
-- Every route of the two controllers: what a user who is not a member of a group can change there
-- and learn of it.
use internship_project.Base.{ℕ, ◌⊎◌, ◌≡◌, refl, sym, ◌∙◌, ◌≢◌, Option, none, some, Text, Distinct}
use internship_project.Http.{Result, ok, ◌>>=◌}
use internship_project.Schema.{Db}
use internship_project.Events.{RequestId, Outcome}
use internship_project.Bodies.{
  parse_uuid, pagination_query_dto, search_messages_dto, create_message_dto, create_group_dto,
  toggle_reaction_dto, transfer_ownership_dto,
}
use internship_project.Groups
use internship_project.Groups.{
  find_membership, member_id, assert_member, not_a_member, GroupListing, GroupDetail,
}
use internship_project.Groups.Untouched.{
  create-messages, join-messages, transfer_ownership-messages, mark_read-messages,
  leave-SameMessages,
}
use internship_project.Messages
use internship_project.Messages.{message_id, Page, and_then, search, find_page}
use internship_project.Messages.Effects.{edit-SameMessages, soft_delete-SameMessages}
use internship_project.Messages.Edit.{IsOwnMessage, edit-Changes, soft_delete-Changes}
use internship_project.Reactions.{toggle}
use internship_project.Routes
use internship_project.Routes.Rows.{KeepsRows, JoinsGroup}
use internship_project.Routes.Effects.{handle_as-rows}
use internship_project.Routes.Spares.{
  Spares, parse_uuid-value, Spares-and_then, Spares-member_only, Hides-reply, Spares-same,
  Hides-my_groups, Hides-detail, Spares-create, Spares-changed, Hides-page, Hides-hits,
  Spares-upload, Spares-react,
}

module _ (e : Routes.Env) (g user_id : ℕ) (db : Db) (outside : find_membership g user_id db ≡ none)
    (distinct : Distinct message_id db.messages) where
  -- Behind the guard: the handler's effect on a group that is not the one it serves.
  Spares-behind :
      {A : Type 0} (at : RequestId) (r : Result A) (f : A → Outcome Routes.Reply)
      → (at.value ≢ g → (a : A) → r ≡ ok a → Spares g db (f a))
      → Spares g db (Routes.member_only user_id at db (and_then db r f))
  Spares-behind at r f h =
      Spares-member_only g db user_id at _ outside (λ away. Spares-and_then g db r f (h away))

  handle_as-Spares : (route : Routes.Route) → Spares g db (Routes.handle_as e user_id route db)
  unfolding Routes.handle_as
  handle_as-Spares (Routes.create_group name) =
      Spares-and_then g db (create_group_dto e.validators name)
        (λ n. Routes.replied Routes.group (Groups.create e.id e.row_id e.now user_id n db))
        (λ n h.
          Spares-same g db Routes.group (Groups.create e.id e.row_id e.now user_id n db)
            (create-messages e.id e.row_id e.now user_id n db) (λ x k. tt))
  handle_as-Spares Routes.my_groups = (refl, Hides-my_groups g db user_id outside)
  handle_as-Spares (Routes.read_group at) =
      Spares-member_only g db user_id at
        (Routes.reads db Routes.detail (parse_uuid at >>= λ at. Groups.find_one at db)) outside
        (λ away. (refl, Hides-detail g db at away distinct (parse_uuid at) (parse_uuid-value at)))
  handle_as-Spares (Routes.join_group at) =
      Spares-and_then g db (parse_uuid at)
        (λ a. Routes.replied Routes.group (Groups.join e.id e.now user_id a db))
        (λ a h.
          Spares-same g db Routes.group (Groups.join e.id e.now user_id a db)
            (join-messages e.id e.now user_id a db) (λ x k. tt))
  handle_as-Spares (Routes.mark_read at) =
      Spares-behind at (parse_uuid at)
        (λ a. Routes.replied Routes.read_at (Groups.mark_read e.now user_id a db))
        (λ away a h.
          Spares-same g db Routes.read_at (Groups.mark_read e.now user_id a db)
            (mark_read-messages e.now user_id a db) (λ x k. tt))
  handle_as-Spares (Routes.leave_group at) =
      Spares-behind at (parse_uuid at) (λ a. Routes.replied Routes.left (Groups.leave user_id a db))
        (λ away a h. (
          leave-SameMessages user_id a g db (λ k. away (sym (parse_uuid-value at a h) ∙ k)),
          Hides-reply g db Routes.left (Groups.leave user_id a db).result (λ x k. tt),
        ))
  handle_as-Spares (Routes.transfer_ownership at target) =
      Spares-behind {A = RequestId × ℕ} at
        (parse_uuid at >>= λ at. transfer_ownership_dto e.validators target >>= λ t. ok (at, t))
        (λ c. Routes.replied Routes.moved (Groups.transfer_ownership user_id c.0 c.1 db))
        (λ away c h.
          Spares-same g db Routes.moved (Groups.transfer_ownership user_id c.0 c.1 db)
            (transfer_ownership-messages user_id c.0 c.1 db) (λ x k. tt))
  handle_as-Spares (Routes.post_message at content) =
      Spares-behind {A = Text} at (parse_uuid at >>= λ _. create_message_dto e.validators content)
        (λ c. Routes.replied Routes.message (Messages.create e.id e.now at user_id c db))
        (λ away c h. Spares-create g db at away distinct e.id e.now user_id c)
  handle_as-Spares (Routes.list_messages at limit cursor) =
      Spares-member_only g db user_id at
        (Routes.reads db Routes.page (do
          at' ← parse_uuid at
          query ← pagination_query_dto e.validators limit cursor
          find_page e.platform at' query.0 query.1 db))
        outside (λ away. (refl, Hides-page g db at away distinct e limit cursor))
  handle_as-Spares (Routes.search_messages at q) =
      Spares-member_only g db user_id at
        (Routes.reads db Routes.hits (do
          at' ← parse_uuid at
          text ← search_messages_dto e.validators q
          ok (search e.matches at' text db)))
        outside (λ away. (refl, Hides-hits g db at away distinct e q))
  handle_as-Spares (Routes.upload_file at caption file) =
      Spares-member_only g db user_id at
        (Routes.replied Routes.message (Routes.upload_message e user_id at caption file db)) outside
        (λ away. Spares-upload g db at away distinct e user_id caption file)
  handle_as-Spares (Routes.edit_message at id content) =
      Spares-behind {A = Text} at
        (parse_uuid at >>= λ _. parse_uuid id >>= λ _. create_message_dto e.validators content)
        (λ c. Routes.replied Routes.message (Messages.edit e.now at.value id.value user_id c db))
        (λ away c h.
          Spares-changed g db at away distinct id.value user_id (Messages.edited e.now c)
            (λ m. IsOwnMessage at.value id.value user_id db m × (m.deleted_at ≡ none))
            (Messages.edit e.now at.value id.value user_id c db)
            (edit-SameMessages e.now at.value id.value user_id c g db away distinct) (λ x. refl)
            (λ m q. q.0) (edit-Changes e.now at.value id.value user_id c db))
  handle_as-Spares (Routes.delete_message at id) =
      Spares-behind {A = RequestId} at (parse_uuid at >>= λ _. parse_uuid id)
        (λ a.
          Routes.replied Routes.message (Messages.soft_delete e.now at.value a.value user_id db))
        (λ away a h.
          Spares-changed g db at away distinct a.value user_id (Messages.tombstoned e.now)
            (IsOwnMessage at.value a.value user_id db)
            (Messages.soft_delete e.now at.value a.value user_id db)
            (soft_delete-SameMessages e.now at.value a.value user_id g db away distinct) (λ x. refl)
            (λ m q. q) (soft_delete-Changes e.now at.value a.value user_id db))
  handle_as-Spares (Routes.react at id emoji) =
      Spares-behind {A = Text} at
        (parse_uuid at >>= λ _. parse_uuid id >>= λ _. toggle_reaction_dto e.validators emoji)
        (λ t.
          Routes.replied Routes.reactions (
            toggle e.row_id at (record { message_id = id.value; user_id = user_id; emoji = t }) db))
        (λ away t h. Spares-react g db at away distinct e.row_id _)

-- What a request does about the rows of a group.
abbrev pub RowsAfter : (group_id : ℕ) → Option ℕ → Routes.Route → Db → Outcome Routes.Reply → Type 0
RowsAfter g none route db o = KeepsRows g db o
RowsAfter g (some user_id) route db o = KeepsRows g db o ⊎ JoinsGroup g user_id route db o.db

-- Of a group that the caller is not a member of, a request to the group and message routes leaves every
-- message, every membership row and every reaction to a message as it is, and no reply holds a message,
-- a membership row, a listing or a reaction of it; with or without a token, with well-formed parameters
-- or not. The one exception is a request to join that group, which may add one row, of the caller and
-- with the role MEMBER. Ids of messages and of membership rows are distinct, and a new id is not the
-- group's.
pub handle-Spares :
    (e : Routes.Env) (user : Option ℕ) (route : Routes.Route) (g : ℕ) (db : Db)
    → ((user_id : ℕ) → user ≡ some user_id → find_membership g user_id db ≡ none)
    → Distinct message_id db.messages
    → Distinct member_id db.members
    → e.id ≢ g
    → Spares g db (Routes.handle e user route db)
      × RowsAfter g user route db (Routes.handle e user route db)
unfolding Routes.handle
handle-Spares e none route g db outside messages members fresh =
    ((refl, tt), record { members = refl; reactions = refl; hidden = tt })
handle-Spares e (some user_id) route g db outside messages members fresh = (
  handle_as-Spares e g user_id db (outside user_id refl) messages route,
  handle_as-rows e g user_id db (outside user_id refl) messages members fresh route,
)
