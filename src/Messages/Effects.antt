-- ===== src/Messages/Effects.antt =====
-- The writes of MessagesService: what a new message adds, and what the other groups see of a write.
use internship_project.Base.{
  ℕ, ◌≡◌, refl, sym, ap, ◌∙◌, ◌≢◌, ◌⊎◌, inl, inr, true, arith, List, [], ◌∷◌, ◌++◌, Text, ◌&&◌, any,
  some, Bool-cases, ◌==◌, ==_iff, keep, update, keyed, All, All-of_Has, Distinct, eq_of_key,
}
use internship_project.Http.{ok}
use internship_project.Schema.{Message, Db}
use internship_project.Events.{RequestId, message_created, Outcome}
use internship_project.Groups.{in_group}
use internship_project.Groups.Untouched.{SameMessages}
use internship_project.Messages.{
  message_id, Attachment, known_sender, insert_message, persist_and_emit, new_message,
  attached_message, create, create_with_attachment, edited, tombstoned, edit, soft_delete,
}
use internship_project.Messages.Edit.{IsOwnMessage, Changes, edit-Changes, soft_delete-Changes}

-- What a new message does to the database, or nothing.
abbrev pub Stores : Message → Db → Outcome Message → Type 0
Stores m db o =
    ((o.db ≡ record db { messages = db.messages ++ m ∷ [] }) × (o.events ≡ message_created m ∷ []))
    ⊎ ((o.db ≡ db) × (o.events ≡ []))

pub persist_and_emit-Stores : (m : Message) (db : Db) → Stores m db (persist_and_emit m db)
unfolding persist_and_emit
persist_and_emit-Stores m db = ground arith

-- A new message that is returned is the one that was given.
pub persist_and_emit-result :
    (m x : Message) (db : Db) → (persist_and_emit m db).result ≡ ok x → x ≡ m
unfolding persist_and_emit
persist_and_emit-result m x db e = ground arith

-- The members and the reactions of a database are those of another one.
pub record IsBeside (db db' : Db) : Type 0 where
  pub members : db'.members ≡ db.members
  pub reactions : db'.reactions ≡ db.reactions

Stores-IsBeside : (m : Message) (db : Db) (o : Outcome Message) → Stores m db o → IsBeside db o.db
Stores-IsBeside m db o (inl (d, e)) = rw d (record { members = refl; reactions = refl })
Stores-IsBeside m db o (inr (d, e)) = rw d (record { members = refl; reactions = refl })

pub create-IsBeside :
    (id now : ℕ) (at : RequestId) (sender_id : ℕ) (content : Text) (db : Db)
    → IsBeside db (create id now at sender_id content db).db
unfolding create
create-IsBeside id now at sender_id content db =
    let m = new_message id now at.value sender_id content in
    Stores-IsBeside m db (persist_and_emit m db) (persist_and_emit-Stores m db)

pub create_with_attachment-IsBeside :
    (id now : ℕ) (at : RequestId) (sender_id : ℕ) (content : Text) (a : Attachment) (db : Db)
    → IsBeside db (create_with_attachment id now at sender_id content a db).db
unfolding create_with_attachment
create_with_attachment-IsBeside id now at sender_id content a db =
    let m = attached_message id now at.value sender_id content a in
    Stores-IsBeside m db (persist_and_emit m db) (persist_and_emit-Stores m db)

pub Changes-IsBeside :
    (f : Message → Message) (P : Message → Type 0) (db : Db) (o : Outcome Message)
    → Changes f P db o
    → IsBeside db o.db
Changes-IsBeside f P db o (inl (m, q, _, _, e)) = rw e (record { members = refl; reactions = refl })
Changes-IsBeside f P db o (inr (x, _, _, e)) = rw e (record { members = refl; reactions = refl })

keep-snoc_other :
    (g : ℕ) (ms : List Message) (m : Message)
    → m.group_id ≢ g
    → keep (in_group g) (ms ++ m ∷ []) ≡ keep (in_group g) ms
keep-snoc_other g [] m n = ground (arith, n)
keep-snoc_other g (x ∷ ms) m n = ground (arith, keep-snoc_other g ms m n)

Stores-SameMessages :
    (g : ℕ) (m : Message) (db : Db) (o : Outcome Message)
    → m.group_id ≢ g
    → Stores m db o
    → SameMessages g db o.db
Stores-SameMessages g m db o n (inl (d, e)) = rw d (keep-snoc_other g db.messages m n)
Stores-SameMessages g m db o n (inr (d, e)) = rw d refl

pub create-SameMessages :
    (id now : ℕ) (at : RequestId) (sender_id : ℕ) (content : Text) (g : ℕ) (db : Db)
    → at.value ≢ g
    → SameMessages g db (create id now at sender_id content db).db
unfolding create
create-SameMessages id now at sender_id content g db n =
    let m = new_message id now at.value sender_id content in
    Stores-SameMessages g m db (persist_and_emit m db) n (persist_and_emit-Stores m db)

pub create_with_attachment-SameMessages :
    (id now : ℕ) (at : RequestId) (sender_id : ℕ) (content : Text) (a : Attachment) (g : ℕ)
    (db : Db)
    → at.value ≢ g
    → SameMessages g db (create_with_attachment id now at sender_id content a db).db
unfolding create_with_attachment
create_with_attachment-SameMessages id now at sender_id content a g db n =
    let m = attached_message id now at.value sender_id content a in
    Stores-SameMessages g m db (persist_and_emit m db) n (persist_and_emit-Stores m db)

keep-update_other :
    (g k : ℕ) (f : Message → Message) (ms : List Message)
    → ((x : Message) → (f x).group_id ≡ x.group_id)
    → All (λ x. x.id ≡ k → x.group_id ≢ g) ms
    → keep (in_group g) (update (keyed message_id k) f ms) ≡ keep (in_group g) ms
keep-update_other g k f [] same h = refl
keep-update_other g k f (x ∷ ms) same (n, h) = elim (Bool-cases (x.id == k)) [
  | inl e ↦
      let away = n ((==_iff x.id k).0 e) in
      rw e (ground (arith, same x, away, keep-update_other g k f ms same h))
  | inr e ↦ rw e (ground (arith, keep-update_other g k f ms same h))
]

Changes-SameMessages :
    (g group_id id user_id : ℕ) (f : Message → Message) (P : Message → Type 0) (db : Db)
    (o : Outcome Message)
    → group_id ≢ g
    → Distinct message_id db.messages
    → ((x : Message) → (f x).group_id ≡ x.group_id)
    → ((m : Message) → P m → IsOwnMessage group_id id user_id db m)
    → Changes f P db o
    → SameMessages g db o.db
Changes-SameMessages g group_id id user_id f P db o n d same own (inr (_, _, _, e)) = rw e refl
Changes-SameMessages g group_id id user_id f P db o n d same own (inl (m, q, _, _, e)) = rw e (
    keep-update_other g m.id f db.messages same (
      All-of_Has _ db.messages (λ x i h k. n (
        (sym (own m q).in_group
          ∙ ap Message.group_id (sym (eq_of_key message_id x m db.messages d i (own m q).listed h))
          ∙ k)))))

pub edit-SameMessages :
    (now group_id id user_id : ℕ) (content : Text) (g : ℕ) (db : Db)
    → group_id ≢ g
    → Distinct message_id db.messages
    → SameMessages g db (edit now group_id id user_id content db).db
edit-SameMessages now group_id id user_id content g db n d =
    Changes-SameMessages g group_id id user_id (edited now content) _ db
      (edit now group_id id user_id content db) n d (λ x. refl) (λ m q. q.0)
      (edit-Changes now group_id id user_id content db)

pub soft_delete-SameMessages :
    (now group_id id user_id g : ℕ) (db : Db)
    → group_id ≢ g
    → Distinct message_id db.messages
    → SameMessages g db (soft_delete now group_id id user_id db).db
soft_delete-SameMessages now group_id id user_id g db n d =
    Changes-SameMessages g group_id id user_id (tombstoned now) _ db
      (soft_delete now group_id id user_id db) n d (λ x. refl) (λ m q. q)
      (soft_delete-Changes now group_id id user_id db)

-- With its group and its sender in place, an attachment is stored.
pub create_with_attachment-stores :
    (id now : ℕ) (at : RequestId) (sender_id : ℕ) (content : Text) (a : Attachment) (db : Db)
    → any (λ g. g.id == at.value) db.groups && known_sender (some sender_id) db ≡ true
    → (create_with_attachment id now at sender_id content a db).db ≡ record db {
      messages = db.messages ++ attached_message id now at.value sender_id content a ∷ [];
    }
unfolding create_with_attachment persist_and_emit insert_message
create_with_attachment-stores id now at sender_id content a db known = rw known refl
