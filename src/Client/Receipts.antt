-- ===== src/Client/Receipts.antt =====
-- frontend/src/components/messages/message-list.tsx: who has seen the viewer's last message, when the
-- viewer's own reading is reported, and both beside markRead() of the server. Names are left out: a
-- member is its user's id.
use internship_project.Base.{
  Has-map, ℕ, ◌≤◌, ◌≡◌, ◌≢◌, refl, sym, ap, ◌∙◌, inl, inr, Bool, true, false, not, ◌&&◌, arith,
  List, [], ◌∷◌, map, Option, none, some, leb, ◌==◌, ==_iff, ==_refl, if◌then◌else◌, Option-cases,
  keep, Has, Has-keep, Has-find, test-find, keyed, is_some, any, ==_of_ne, find-map, text_eq_refl,
  subst,
}
use internship_project.Schema.{GroupMember}
use mathlib.Core.Option as Opt
use internship_project.Events.{RequestId}
use internship_project.Cursor.{Platform}
use internship_project.Groups.{find_membership, mark_read}
use internship_project.Client.{MessageView, move_receipt, deliver_all}
use internship_project.Client.World.{World, after}
use internship_project.Client.Roster.{user_of, IsRosterOf}

-- `[...messages].reverse().find((m) => m.senderId === user?.id)`
abbrev is_own : ℕ → MessageView → Bool
is_own me v = elim v.row.sender_id [ none ↦ false | some id ↦ id == me ]

abbrev later_own : (later : Option MessageView) → Bool → MessageView → Option MessageView
later_own (some w) own v = some w
later_own none own v = if own then some v else none

unfoldable pub last_own : ℕ → List MessageView → Option MessageView
last_own me [] = none
last_own me (v ∷ vs) = later_own (last_own me vs) (is_own me v) v

-- The members whose lastReadAt has reached a message of the viewer.
abbrev has_read_since : (created_at : ℕ) → Option ℕ → Bool
has_read_since created_at none = false
has_read_since created_at (some t) = leb created_at t

abbrev pub has_seen : (me created_at : ℕ) → GroupMember → Bool
has_seen me created_at m = not (m.user_id == me) && has_read_since created_at m.last_read_at

abbrev seen_of : ℕ → List GroupMember → Option MessageView → List ℕ
seen_of me members none = []
seen_of me members (some v) = map user_of (keep (has_seen me v.row.created_at) members)

unfoldable pub seen_by : ℕ → List MessageView → List GroupMember → List ℕ
unfolding last_own
seen_by me messages members = seen_of me members (last_own me messages)

-- The effect on [newestId, groupId]: it runs when the newest message is another one than at the last
-- run, and reports the reading if the tab is visible then.
pub record Reader : Type 0 where
  pub newest_id : Option ℕ

abbrev same_id : Option ℕ → Option ℕ → Bool
same_id none none = true
same_id none (some b) = false
same_id (some a) none = false
same_id (some a) (some b) = a == b

unfoldable pub rendered : (visible : Bool) → Option ℕ → Reader → Reader × Bool
rendered visible newest_id r =
    if same_id newest_id r.newest_id
    then (r, false)
    else (record { newest_id = newest_id }, is_some newest_id && visible)

-- The renders of a list that stays the same while its tab comes to the front and goes away.
unfoldable pub rendered_all : List Bool → Option ℕ → Reader → List Bool
unfolding rendered
rendered_all [] newest_id r = []
rendered_all (visible ∷ rest) newest_id r =
    let (r', told) = rendered visible newest_id r in told ∷ rendered_all rest newest_id r'

-- No render of the same list reports it once one render has seen it.
no_news :
    (n : ℕ) (vs : List Bool)
    → any (λ told. told) (rendered_all vs (some n) (record { newest_id = some n })) ≡ false
unfolding rendered_all
no_news n [] = refl
no_news n (v ∷ vs) = rw (==_refl n) (no_news n vs)

-- A message that comes while the tab is in the background is not reported as read when the tab comes
-- to the front: as long as no newer message comes, no later render reports it, whether the tab is
-- visible then or not.
pub rendered_all-hidden :
    (n : ℕ) (r : Reader) (visible : List Bool)
    → r.newest_id ≢ some n
    → any (λ told. told) (rendered_all (false ∷ visible) (some n) r) ≡ false
unfolding rendered_all
rendered_all-hidden n r visible new = elim (Option-cases r.newest_id) [
  | inl e ↦ rw e (no_news n visible)
  | inr (k, e) ↦
      let other : (n == k) ≡ false = ==_of_ne n k (λ same. new (e ∙ ap some (sym same))) in
      rw (e, other) (no_news n visible)
]

-- A member whose row has reached the last own message is among those who have seen it.
seen_by-Has :
    (me : ℕ) (messages : List MessageView) (v : MessageView) (members : List GroupMember)
    (m : GroupMember)
    → last_own me messages ≡ some v
    → Has m members
    → has_seen me v.row.created_at m ≡ true
    → Has m.user_id (seen_by me messages members)
unfolding seen_by
seen_by-Has me messages v members m own i t =
    rw own (Has-map user_of m _ (Has-keep (has_seen me v.row.created_at) m members i t))

-- Once a member has marked the group as read, every tab that is told and has the list of members
-- loaded counts that member among those who have seen the viewer's last message, unless the viewer is
-- the member or the message is younger.
pub mark_read-seen_by :
    (p : Platform) (at : RequestId) (w : World) (now user_id me : ℕ) (messages : List MessageView)
    (v : MessageView) (roster : List GroupMember) (m : GroupMember)
    → w.cache.members ≡ some roster
    → IsRosterOf at.value w.db.members roster
    → find_membership at.value user_id w.db ≡ some m
    → user_id ≢ me
    → last_own me messages ≡ some v
    → v.row.created_at ≤ now
    → (roster' : List GroupMember) × ((after p at w.cache
          (mark_read now user_id at w.db)).cache.members
        ≡ some roster')
      × Has user_id (seen_by me messages roster')
unfolding mark_read deliver_all
mark_read-seen_by p at w now user_id me messages v roster m loaded (d, same) found other own old =
    let row = same user_id ∙ found in
    let mine : m.user_id ≡ user_id =
      (==_iff _ _).0 (test-find (keyed user_of user_id) roster m row) in
    let moved =
      find-map (keyed user_of user_id) (move_receipt user_id now) roster (λ x. ground arith) in
    let listed =
      Has-find (keyed user_of user_id) (map (move_receipt user_id now) roster)
        (move_receipt user_id now m) (moved ∙ ap (Opt.map (move_receipt user_id now)) row) in
    let told : (move_receipt user_id now m).user_id ≡ user_id = ground (arith, mine) in
    (
      map (move_receipt user_id now) roster,
      rw (found, text_eq_refl at.raw, loaded) refl,
      subst (λ id. Has id (seen_by me messages (map (move_receipt user_id now) roster))) told
          (seen_by-Has me messages v _ (move_receipt user_id now m) own listed
            (ground (arith, mine, other, old))),
    )
