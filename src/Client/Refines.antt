-- ===== src/Client/Refines.antt =====
-- What a tab shows after any course of events: the list of Client.shown against the rows of the
-- database, over the steps of Client/World.
use internship_project.Base.{Option-cases, ℕ, ◌≡◌, inl, inr, refl, find, keyed, Distinct, IsOrdered}
use internship_project.Schema.{Db}
use internship_project.Events.{RequestId}
use internship_project.Cursor.{Platform, IsLawful}
use internship_project.Messages.{
  message_id, is_message_of, new_message, create, create_with_attachment, edited, tombstoned, edit,
  soft_delete, attached_message,
}
use internship_project.Messages.Effects.{persist_and_emit-Stores}
use internship_project.Messages.Edit.{edit-Changes, soft_delete-Changes}
use internship_project.Reactions.{toggle}
use internship_project.Reactions.Sets.{toggle-Taps}
use internship_project.Client.{empty_cache, view_id, oldest_first, shown}
use internship_project.Client.Cache.{find-shown, shown-IsOrdered, shown-Distinct}
use internship_project.Client.World.{
  World, Step, posted, attached, revised, deleted, reacted, loaded, Reaches, here, next,
}
use internship_project.Client.Mirror.{IsShown, IsMirror, IsMirror-post, IsMirror-change}
use internship_project.Client.Older.{IsMirror-tap, IsMirror-load}

-- A tab that opens the group at a database.
abbrev pub opened : Db → World
opened db = record { db = db; cache = empty_cache }

module _ (p : Platform) (lawful : IsLawful p) (at : RequestId)
    (canonical : at.raw ≡ p.spell at.value) (start : Db) where
  opened-IsMirror : Distinct message_id start.messages → IsMirror at.value start (opened start)
  opened-IsMirror d = record {
    distinct = d;
    mirrors = λ id. elim (Option-cases (find (is_message_of at.value id) start.messages)) [
      | inl e ↦ rw e (inl refl)
      | inr (m, e) ↦ rw e (inr (refl, refl))
    ];
  }

  Step-IsMirror :
      {w v : World} → IsMirror at.value start w → Step p at w v → IsMirror at.value start v
  unfolding create create_with_attachment
  Step-IsMirror {w} m (posted id now g sender_id content fresh) =
      IsMirror-post p lawful at canonical start w m (new_message id now g.value sender_id content)
        (create id now g sender_id content w.db) fresh
        (persist_and_emit-Stores (new_message id now g.value sender_id content) w.db)
  Step-IsMirror {w} m (attached id now g sender_id content a fresh) =
      IsMirror-post p lawful at canonical start w m
        (attached_message id now g.value sender_id content a)
        (create_with_attachment id now g sender_id content a w.db) fresh
        (persist_and_emit-Stores (attached_message id now g.value sender_id content a) w.db)
  Step-IsMirror {w} m (revised now g id user_id content) =
      IsMirror-change p lawful at canonical start w m (edited now content) (λ x. refl) (λ x. refl) _
        (λ x own. own.0.listed) (edit now g id user_id content w.db)
        (edit-Changes now g id user_id content w.db)
  Step-IsMirror {w} m (deleted now g id user_id) =
      IsMirror-change p lawful at canonical start w m (tombstoned now) (λ x. refl) (λ x. refl) _
        (λ x own. own.listed) (soft_delete now g id user_id w.db)
        (soft_delete-Changes now g id user_id w.db)
  Step-IsMirror {w} m (reacted id g t spelled) =
      IsMirror-tap p lawful at canonical start w m g t (toggle id g t w.db) spelled
        (toggle-Taps id g t w.db)
  Step-IsMirror {w} m loaded = IsMirror-load p lawful at canonical start w m

  Reaches-IsMirror :
      {w v : World} → IsMirror at.value start w → Reaches p at w v → IsMirror at.value start v
  Reaches-IsMirror m here = m
  Reaches-IsMirror m (next r s) = Step-IsMirror (Reaches-IsMirror m r) s

-- A tab opens a group at the database `start`; members of any group then post, attach files, edit,
-- delete and react, the tab is given each event as it is emitted, and it asks for older pages, in
-- any order and number. The list that it shows is then sorted, holds no message twice, and agrees
-- with the database: a message is shown exactly as it is stored, unless it is older than the tab
-- and not shown. The group's id is spelled as the server spells ids, in the tab and by those who
-- react; ids are distinct and new messages have fresh ones.
pub shown-refines :
    (p : Platform) (at : RequestId) (start : Db) (w : World)
    → IsLawful p
    → at.raw ≡ p.spell at.value
    → Distinct message_id start.messages
    → Reaches p at (opened start) w
    → ((id : ℕ) → IsShown at.value id start w.db (find (keyed view_id id) (shown w.cache)))
      × Distinct view_id (shown w.cache)
      × IsOrdered oldest_first (shown w.cache)
shown-refines p at start w lawful canonical distinct r =
    let mirror =
      Reaches-IsMirror p lawful at canonical start
        (opened-IsMirror p lawful at canonical start distinct) r in
    (
      (λ id. rw (find-shown w.cache id) (mirror.mirrors id)),
      shown-Distinct w.cache,
      shown-IsOrdered w.cache,
    )
