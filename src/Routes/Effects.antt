-- ===== src/Routes/Effects.antt =====
-- Every route of the controllers, one after another: the rows of a group that the caller is not in.
use internship_project.Base.{ℕ, ◌≡◌, refl, List, ◌≢◌, ap, ◌∙◌, ◌⊎◌, inl, none, Text, Distinct, keep}
use internship_project.Http.{Result, ok, err, ◌>>=◌, >>=-eq-ok, ok-injective}
use internship_project.Schema.{Reaction, Db}
use internship_project.Events.{RequestId, Outcome}
use internship_project.Bodies.{
  parse_uuid, create_message_dto, create_group_dto, toggle_reaction_dto, transfer_ownership_dto,
}
use internship_project.Storage.{StoredFile}
use internship_project.Groups
use internship_project.Groups.{find_membership, member_id}
use internship_project.Groups.Apart.{
  is_member_in, is_reaction_in, create-SameMembers, create-reactions, mark_read-SameMembers,
  mark_read-reactions, transfer_ownership-SameMembers, transfer_ownership-reactions,
  leave-SameMembers, leave-SameReactions,
}
use internship_project.Messages
use internship_project.Messages.{message_id, and_then, search, find_page}
use internship_project.Messages.Effects.{
  create-IsBeside, create_with_attachment-IsBeside, Changes-IsBeside,
}
use internship_project.Messages.Edit.{edit-Changes, soft_delete-Changes}
use internship_project.Reactions.{Tap, toggle}
use internship_project.Reactions.Apart.{
  toggle-members, toggle-SameReactions, toggle-IsElsewhere, IsElsewhere,
}
use internship_project.Routes
use internship_project.Routes.Rows.{
  KeepsRows, JoinsGroup, HidesReactions, KeepsRows-and_then, KeepsRows-replied, KeepsRows-beside,
  KeepsRows-reads, guarded, behind, reads_behind, elsewhere, joins,
}

module _ (e : Routes.Env) (g user_id : ℕ) (db : Db) (outside : find_membership g user_id db ≡ none)
    (messages : Distinct message_id db.messages) (members : Distinct member_id db.members)
    (fresh : e.id ≢ g) where
  -- A write of GroupsService on the group of the path.
  of_service :
      {A : Type 0} (f : A → Routes.Reply) (o : Outcome A)
      → keep (is_member_in g) o.db.members ≡ keep (is_member_in g) db.members
      → o.db.reactions ≡ db.reactions
      → ((a : A) → HidesReactions g db (ok (f a)))
      → KeepsRows g db (Routes.replied f o)
  of_service f o m r h = KeepsRows-replied g db f o m (ap (keep (is_reaction_in g db)) r) h

  uploaded :
      (at : RequestId) (r : Result (Text × StoredFile))
      → KeepsRows g db (
          Routes.replied Routes.message (
            and_then db r (λ (c : Text × StoredFile).
              Messages.create_with_attachment e.id e.now at user_id c.0
                (record { url = c.1.url; name = c.1.name; mime = c.1.mime })
                db)))
  uploaded at (err x) = record { members = refl; reactions = refl; hidden = tt }
  uploaded at (ok c) =
      KeepsRows-beside g db _ (create_with_attachment-IsBeside e.id e.now at user_id c.0 _ db)

  toggled :
      (at : RequestId) (t : Tap)
      → at.value ≢ g
      → KeepsRows g db (Routes.replied Routes.reactions (toggle e.row_id at t db))
  toggled at t away = record {
    members = ap (keep (is_member_in g)) (toggle-members e.row_id at t db);
    reactions = toggle-SameReactions e.row_id at t g db messages away;
    hidden =
        hides (toggle e.row_id at t db).result
          (toggle-IsElsewhere e.row_id at t g db messages away);
  }
    where
      hides :
          (r : Result (List Reaction))
          → IsElsewhere g db r
          → HidesReactions g db (Routes.reply_with Routes.reactions r)
      hides (ok rs) h = h
      hides (err x) h = tt

  pub handle_as-rows :
      (route : Routes.Route)
      → KeepsRows g db (Routes.handle_as e user_id route db)
        ⊎ JoinsGroup g user_id route db (Routes.handle_as e user_id route db).db
  unfolding Routes.handle_as
  handle_as-rows (Routes.create_group name) = inl (
      KeepsRows-and_then g db (create_group_dto e.validators name) _ (λ n h.
        of_service Routes.group (Groups.create e.id e.row_id e.now user_id n db)
          (create-SameMembers e.id e.row_id e.now user_id n g db fresh)
          (create-reactions e.id e.row_id e.now user_id n db) (λ x. tt)))
  handle_as-rows Routes.my_groups =
      inl (KeepsRows-reads g db Routes.groups (ok (Groups.find_my_groups user_id db)) (λ x. tt))
  handle_as-rows (Routes.read_group at) =
      inl (reads_behind e g user_id db outside at Routes.detail _ (λ x. tt))
  handle_as-rows (Routes.join_group at) = joins e g user_id db outside at
  handle_as-rows (Routes.mark_read at) = inl (
      behind e g user_id db outside at (parse_uuid at) _ (λ away a h.
        of_service Routes.read_at (Groups.mark_read e.now user_id a db)
          (mark_read-SameMembers e.now user_id a g db
            (elsewhere e g user_id db outside at a h away))
          (mark_read-reactions e.now user_id a db) (λ x. tt)))
  handle_as-rows (Routes.leave_group at) = inl (
      behind e g user_id db outside at (parse_uuid at) _ (λ away a h.
        let other = elsewhere e g user_id db outside at a h away in
        KeepsRows-replied g db Routes.left (Groups.leave user_id a db)
          (leave-SameMembers a g db members other user_id)
          (leave-SameReactions user_id a g db messages other) (λ x. tt)))
  handle_as-rows (Routes.transfer_ownership at target) = inl (
      behind e g user_id db outside {A = RequestId × ℕ} at
        (parse_uuid at >>= λ at. transfer_ownership_dto e.validators target >>= λ t. ok (at, t)) _
        (λ away c h.
          let (a, parsed, rest) = >>=-eq-ok (parse_uuid at) _ h in
          let (t, _, pair) = >>=-eq-ok (transfer_ownership_dto e.validators target) _ rest in
          let same : a ≡ c.0 = ap (λ (c : RequestId × ℕ). c.0) (ok-injective pair) in
          let other : c.0.value ≢ g =
            λ k. elsewhere e g user_id db outside at a parsed away (ap RequestId.value same ∙ k) in
          of_service Routes.moved (Groups.transfer_ownership user_id c.0 c.1 db)
            (transfer_ownership-SameMembers c.0 g db members other user_id c.1)
            (transfer_ownership-reactions user_id c.0 c.1 db) (λ x. tt)))
  handle_as-rows (Routes.post_message at content) = inl (
      behind e g user_id db outside {A = Text} at
        (parse_uuid at >>= λ _. create_message_dto e.validators content) _
        (λ away c h. KeepsRows-beside g db _ (create-IsBeside e.id e.now at user_id c db)))
  handle_as-rows (Routes.list_messages at limit cursor) =
      inl (reads_behind e g user_id db outside at Routes.page _ (λ x. tt))
  handle_as-rows (Routes.search_messages at q) =
      inl (reads_behind e g user_id db outside at Routes.hits _ (λ x. tt))
  handle_as-rows (Routes.upload_file at caption file) =
      inl (guarded e g user_id db outside at _ (λ away. uploaded at _))
  handle_as-rows (Routes.edit_message at id content) = inl (
      behind e g user_id db outside {A = Text} at
        (parse_uuid at >>= λ _. parse_uuid id >>= λ _. create_message_dto e.validators content) _
        (λ away c h.
          KeepsRows-beside g db _
            (Changes-IsBeside _ _ db _ (edit-Changes e.now at.value id.value user_id c db))))
  handle_as-rows (Routes.delete_message at id) = inl (
      behind e g user_id db outside {A = RequestId} at (parse_uuid at >>= λ _. parse_uuid id) _
        (λ away a h.
          KeepsRows-beside g db _
            (Changes-IsBeside _ _ db _ (soft_delete-Changes e.now at.value a.value user_id db))))
  handle_as-rows (Routes.react at id emoji) = inl (
      behind e g user_id db outside {A = Text} at
        (parse_uuid at >>= λ _. parse_uuid id >>= λ _. toggle_reaction_dto e.validators emoji) _
        (λ away t h.
          toggled at (record { message_id = id.value; user_id = user_id; emoji = t }) away))
