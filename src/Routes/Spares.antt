-- ===== src/Routes/Spares.antt =====
-- What a handler leaves of a group that it does not serve, and what its reply tells of it.
use internship_project.Base.{
  ℕ, ◌≡◌, refl, sym, ap, subst, ◌∙◌, ◌≢◌, inl, inr, true, arith, Option, none, some, Text,
  Bool-cases, Option-cases, ◌==◌, any, keep, All, All-map, Distinct, find-eq-none, any-eq-count,
}
use internship_project.Http.{Result, ok, err, Exception, ◌>>=◌, >>=-eq-ok, ok-injective}
use internship_project.Schema.{GroupMember, Message, Db}
use internship_project.Events.{RequestId, Outcome, unchanged}
use internship_project.Uuid.{is_uuid}
use internship_project.Cursor.{Field}
use internship_project.Bodies.{parse_uuid, pagination_query_dto, search_messages_dto}
use internship_project.Storage.{UploadedFile, StoredFile}
use internship_project.Groups
use internship_project.Groups.{
  find_membership, assert_member, not_a_member, GroupListing, GroupDetail,
}
use internship_project.Groups.Untouched.{SameMessages}
use internship_project.Groups.Views.{find_one-members, find_my_groups-members}
use internship_project.Messages
use internship_project.Messages.{message_id, Page, and_then, search, find_page}
use internship_project.Messages.Effects.{
  create-SameMessages, create_with_attachment-SameMessages, persist_and_emit-result,
}
use internship_project.Messages.PageRows.{find_page-rows}
use internship_project.Messages.Edit.{search-hits, IsOwnMessage, Changes}
use internship_project.Reactions.{Tap, toggle}
use internship_project.Reactions.Sets.{toggle-Taps}
use internship_project.Routes

-- No message row, membership row or listing in a reply is of the group.
abbrev pub Hides : (group_id : ℕ) → Result Routes.Reply → Type 0
Hides g (err e) = Unit {0}
Hides g (ok (Routes.group x)) = Unit {0}
Hides g (ok (Routes.groups ls)) = All (λ l. l.group.id ≢ g) ls
Hides g (ok (Routes.detail d)) = (d.group.id ≢ g) × All (λ m. m.group_id ≢ g) d.members
Hides g (ok (Routes.read_at t)) = Unit {0}
Hides g (ok (Routes.left o)) = Unit {0}
Hides g (ok (Routes.moved p)) = Unit {0}
Hides g (ok (Routes.message m)) = m.group_id ≢ g
Hides g (ok (Routes.page pg)) = All (λ m. m.group_id ≢ g) pg.rows
Hides g (ok (Routes.hits ms)) = All (λ m. m.group_id ≢ g) ms
Hides g (ok (Routes.reactions rs)) = Unit {0}

-- What a request leaves of the group, and what it tells.
abbrev pub Spares : (group_id : ℕ) → Db → Outcome Routes.Reply → Type 0
Spares g db o = SameMessages g db o.db × Hides g o.result

pub parse_uuid-value : (at a : RequestId) → parse_uuid at ≡ ok a → a.value ≡ at.value
parse_uuid-value at a h = elim (Bool-cases (is_uuid at.raw)) [
  | inl e ↦ ap RequestId.value (sym (ok-injective (rw e at h)))
  | inr e ↦ cc (rw e at h)
]

module _ (g : ℕ) (db : Db) where
  pub Spares-and_then :
      {A : Type 0} (r : Result A) (f : A → Outcome Routes.Reply)
      → ((a : A) → r ≡ ok a → Spares g db (f a))
      → Spares g db (and_then db r f)
  Spares-and_then (err e) f h = (refl, tt)
  Spares-and_then (ok a) f h = h a refl

  -- The guard refuses the group itself, so a handler behind it works on another one.
  pub behind_guard :
      (P : Outcome Routes.Reply → Type 0)
      → ((x : Exception) → P (unchanged db x))
      → (user_id : ℕ) (at : RequestId) (o : Outcome Routes.Reply)
      → find_membership g user_id db ≡ none
      → (at.value ≢ g → P o)
      → P (Routes.member_only user_id at db o)
  unfolding assert_member
  behind_guard P idle user_id at o outside h = elim (Bool-cases (is_uuid at.raw)) [
    | inr e ↦ rw e (idle _)
    | inl e ↦ elim (Option-cases (find_membership at.value user_id db)) [
      | inl f ↦ rw (e, f) (idle _)
      | inr (m, f) ↦ rw (e, f) (h (λ same. other m f same))
    ]
  ]
    where
      other : (m : GroupMember) → find_membership at.value user_id db ≡ some m → at.value ≡ g → ⊥
      other m f same =
          let clash : none ≡ some m =
            sym outside ∙ ap (λ k. find_membership k user_id db) (sym same) ∙ f in
          cc

  pub Spares-member_only :
      (user_id : ℕ) (at : RequestId) (o : Outcome Routes.Reply)
      → find_membership g user_id db ≡ none
      → (at.value ≢ g → Spares g db o)
      → Spares g db (Routes.member_only user_id at db o)
  Spares-member_only = behind_guard (Spares g db) (λ x. (refl, tt))

  pub Hides-reply :
      {A : Type 0} (f : A → Routes.Reply) (r : Result A)
      → ((a : A) → r ≡ ok a → Hides g (ok (f a)))
      → Hides g (Routes.reply_with f r)
  Hides-reply f (err e) h = tt
  Hides-reply f (ok a) h = h a refl

  -- A write that keeps the group's messages, and whose reply is hidden.
  pub Spares-same :
      {A : Type 0} (f : A → Routes.Reply) (o : Outcome A)
      → o.db.messages ≡ db.messages
      → ((a : A) → o.result ≡ ok a → Hides g (ok (f a)))
      → Spares g db (Routes.replied f o)
  Spares-same f o e h = (ap (keep (λ m. m.group_id == g)) e, Hides-reply f o.result h)

  -- The caller's own groups are other groups.
  pub Hides-my_groups :
      (user_id : ℕ)
      → find_membership g user_id db ≡ none
      → All (λ l. l.group.id ≢ g) (Groups.find_my_groups user_id db)
  Hides-my_groups user_id outside =
      All-map (λ l i same. absent l.group.id i.1 same) (Groups.find_my_groups user_id db)
        (find_my_groups-members user_id db).0
    where
      absent : (k : ℕ) → any (Groups.is_pair k user_id) db.members ≡ true → k ≡ g → ⊥
      absent k t same =
          let none_here = find-eq-none (Groups.is_pair g user_id) db.members outside in
          let counted = any-eq-count (Groups.is_pair g user_id) db.members in
          let moved : any (Groups.is_pair g user_id) db.members ≡ true =
            ap (λ k. any (Groups.is_pair k user_id) db.members) (sym same) ∙ t in
          ground (arith, none_here, counted, moved)

  module _ (at : RequestId) (away : at.value ≢ g) (distinct : Distinct message_id db.messages) where
    pub Hides-detail :
        (r : Result RequestId)
        → ((a : RequestId) → r ≡ ok a → a.value ≡ at.value)
        → Hides g (Routes.reply_with Routes.detail (r >>= λ at. Groups.find_one at db))
    Hides-detail (err e) same = tt
    Hides-detail (ok a) same = Hides-reply Routes.detail (Groups.find_one a db) (λ d e.
        let (group, members, _, _) = find_one-members a db d e in
        let here = same a refl in
        (
          (λ k. away (sym here ∙ sym group ∙ k)),
          All-map (λ m i k. away (sym here ∙ sym i.1 ∙ k)) d.members members,
        ))

    -- A message that a write returns is one of the other group.
    Spares-created :
        (o : Outcome Message) (m : Message)
        → SameMessages g db o.db
        → m.group_id ≡ at.value
        → ((x : Message) → o.result ≡ ok x → x ≡ m)
        → Spares g db (Routes.replied Routes.message o)
    Spares-created o m same group result = (
      same,
      Hides-reply Routes.message o.result
          (λ x e k. away (sym group ∙ ap Message.group_id (sym (result x e)) ∙ k)),
    )

    pub Spares-create :
        (id now sender_id : ℕ) (content : Text)
        → Spares g db
            (Routes.replied Routes.message (Messages.create id now at sender_id content db))
    unfolding Messages.create Messages.persist_and_emit
    Spares-create id now sender_id content =
        let m = Messages.new_message id now at.value sender_id content in
        Spares-created (Messages.create id now at sender_id content db) m
          (create-SameMessages id now at sender_id content g db away) refl
          (λ x e. persist_and_emit-result m x db e)

    Spares-attach :
        (id now sender_id : ℕ) (content : Text) (a : Messages.Attachment)
        → Spares g db (
            Routes.replied Routes.message
              (Messages.create_with_attachment id now at sender_id content a db))
    unfolding Messages.create_with_attachment
    Spares-attach id now sender_id content a =
        let m = Messages.attached_message id now at.value sender_id content a in
        Spares-created (Messages.create_with_attachment id now at sender_id content a db) m
          (create_with_attachment-SameMessages id now at sender_id content a g db away) refl
          (λ x e. persist_and_emit-result m x db e)

    pub Spares-changed :
        (id user_id : ℕ) (f : Message → Message) (P : Message → Type 0) (o : Outcome Message)
        → SameMessages g db o.db
        → ((x : Message) → (f x).group_id ≡ x.group_id)
        → ((m : Message) → P m → IsOwnMessage at.value id user_id db m)
        → Changes f P db o
        → Spares g db (Routes.replied Routes.message o)
    Spares-changed id user_id f P o same keeps own (inl (m, q, r, _, _)) =
        Spares-created o (f m) same (keeps m ∙ (own m q).in_group) (λ x e. ok-injective (sym e ∙ r))
    Spares-changed id user_id f P o same keeps own (inr (x, r, _, _)) =
        (same, Hides-reply Routes.message o.result (λ m e. cc))

    pub Hides-page :
        (e : Routes.Env) (limit cursor : Field)
        → Hides g (
            Routes.reply_with Routes.page (do
              at' ← parse_uuid at
              query ← pagination_query_dto e.validators limit cursor
              find_page e.platform at' query.0 query.1 db))
    Hides-page e limit cursor = Hides-reply Routes.page _ (λ pg h.
        let (at', p, h1) = >>=-eq-ok (parse_uuid at) _ h in
        let (query, _, h2) = >>=-eq-ok (pagination_query_dto e.validators limit cursor) _ h1 in
        All-map (λ m i k. away (sym (parse_uuid-value at at' p) ∙ sym i.1 ∙ k)) pg.rows
          (find_page-rows e.platform at' query.0 query.1 db pg h2))

    pub Hides-hits :
        (e : Routes.Env) (q : Field)
        → Hides g (
            Routes.reply_with Routes.hits (do
              at' ← parse_uuid at
              text ← search_messages_dto e.validators q
              ok (search e.matches at' text db)))
    Hides-hits e q = Hides-reply Routes.hits _ (λ ms h.
        let (at', p, h1) = >>=-eq-ok (parse_uuid at) _ h in
        let (text, _, h2) = >>=-eq-ok (search_messages_dto e.validators q) _ h1 in
        subst (All (λ m. m.group_id ≢ g)) (ok-injective h2) (
          All-map (λ m i k. away (sym (parse_uuid-value at at' p) ∙ sym i.1 ∙ k))
            (search e.matches at' text db) (search-hits e.matches at' text db).1))

    pub Spares-upload :
        (e : Routes.Env) (user_id : ℕ) (caption : Field) (file : Option UploadedFile)
        → Spares g db
            (Routes.replied Routes.message (Routes.upload_message e user_id at caption file db))
    Spares-upload e user_id caption file = attach _
      where
        attach :
            (r : Result (Text × StoredFile))
            → Spares g db (
                Routes.replied Routes.message (
                  and_then db r (λ (c : Text × StoredFile).
                    Messages.create_with_attachment e.id e.now at user_id c.0
                      (record { url = c.1.url; name = c.1.name; mime = c.1.mime })
                      db)))
        attach (err x) = (refl, tt)
        attach (ok c) = Spares-attach e.id e.now user_id c.0 _

    pub Spares-react :
        (id : ℕ) (t : Tap) → Spares g db (Routes.replied Routes.reactions (toggle id at t db))
    Spares-react id t = elim (toggle-Taps id at t db) [
      | inl (m, found, tapped, e) ↦ (
        ap (keep (λ m. m.group_id == g)) (ap Db.messages tapped.rest),
        Hides-reply Routes.reactions (toggle id at t db).result (λ rs h. tt),
      )
      | inr (d, e) ↦ (
        ap (λ (d : Db). keep (λ m. m.group_id == g) d.messages) d,
        Hides-reply Routes.reactions (toggle id at t db).result (λ rs h. tt),
      )
    ]
