-- ===== src/Online.antt =====
-- frontend/src/lib/socket/use-group-room.ts: the users whom a group's page shows as online, by what
-- it hears from the gateway. A tab is its socket's id.
pub mod Follows
pub mod Departures
pub mod Invariant
pub mod Spellings
use internship_project.Base.{
  ℕ, ◌≡◌, ◌≢◌, Bool, true, false, not, List, [], ◌∷◌, Text, text_eq, ◌==◌, if◌then◌else◌, any, keep,
  All, Has,
}
use internship_project.Schema.{Db}
use internship_project.Events.{Event, RequestId}
use internship_project.Chat.{
  Socket, Payload, presence, user_typing, new_message, updated_message, other_event, Emission,
  Handled, join_group, leave_group,
}
use internship_project.Chat.Broadcast.{on_event, on_disconnecting}

-- onPresence
unfoldable pub on_presence : (group_id : Text) → Payload → (online : List ℕ) → List ℕ
on_presence group_id (presence told user_ids) online =
    if text_eq told group_id then user_ids else online
on_presence group_id (user_typing told u t) online = online
on_presence group_id (new_message m) online = online
on_presence group_id (updated_message m) online = online
on_presence group_id (other_event e) online = online

-- What every tab shows after an emission, and after several.
abbrev pub reaches_socket : Emission → ℕ → Bool
reaches_socket e id = any (λ i. i == id) e.to_sockets

unfoldable pub deliver : (group_id : Text) → Emission → (ℕ → List ℕ) → ℕ → List ℕ
unfolding on_presence
deliver group_id e online id =
    if reaches_socket e id then on_presence group_id e.payload (online id) else online id

unfoldable pub deliver_all : (group_id : Text) → List Emission → (ℕ → List ℕ) → ℕ → List ℕ
unfolding deliver
deliver_all group_id [] online = online
deliver_all group_id (e ∷ es) online = deliver_all group_id es (deliver group_id e online)

-- The connected sockets, and whom the page of the group shows in the tab of each.
pub record World : Type 0 where
  pub sockets : List Socket
  pub online : ℕ → List ℕ

module _ (spell : ℕ → Text) (group_id : Text) where
  abbrev pub after : List Socket → List Emission → World → World
  after sockets emissions w = record {
    sockets = sockets;
    online = deliver_all group_id emissions w.online;
  }

  abbrev pub after_handler : {A : Type 0} → Handled A → World → World
  after_handler h w = after h.sockets h.emissions w

  pub data Step (w : World) : World → Type 0 where
    connected :
        (s : Socket)
        → s.rooms ≡ []
        → All (λ t. t.id ≢ s.id) w.sockets
        → Step w (after (s ∷ w.sockets) [] w)
    joined :
        (s : Socket) (user_id : ℕ) (told : RequestId) (db : Db)
        → Step w (after_handler (join_group s user_id told db w.sockets) w)
    left : (s : Socket) (told : Text) → Step w (after_handler (leave_group s told w.sockets) w)
    happened :
        (e : Event) → Step w (after (on_event spell e w.sockets).0 (on_event spell e w.sockets).1 w)
    disconnected :
        (s : Socket)
        → Has s w.sockets
        → Step w (after (keep (λ t. not (t.id == s.id)) w.sockets) (on_disconnecting s w.sockets) w)

  pub data Reaches (w : World) : World → Type 0 where
    here : Reaches w w
    next : {v u : World} → Reaches w v → Step v u → Reaches w u

abbrev pub nobody : World
nobody = record { sockets = []; online = λ id. [] }
