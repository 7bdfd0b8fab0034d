-- ===== src/MessageRow.antt =====
-- frontend/src/components/messages/message-row.tsx and message-actions.tsx: how a message is rendered,
-- the editing of one in place, and the overlays of its toolbar.
pub mod Edits
use internship_project.Base.{
  ℕ, Bool, true, false, not, ◌||◌, List, [], ◌∷◌, Option, none, some, Text, text_eq, trim,
  if◌then◌else◌,
}
use internship_project.Schema.{MessageType, user, system, ai_summary, Message}
use internship_project.Chat.{is_blank}

-- The four render modes, and the text that is to be read in each.
pub data Mode : Type 0 where
  summary_card : Text → Mode
  notice : Text → Mode
  tombstone : Mode
  bubble : Text → Mode

abbrev spoken : Text → Option ℕ → Mode
spoken content none = bubble content
spoken content (some t) = tombstone

abbrev of_sender : Message → Option ℕ → Mode
of_sender m none = notice m.content
of_sender m (some id) = spoken m.content m.deleted_at

abbrev of_type : Message → MessageType → Mode
of_type m ai_summary = summary_card m.content
of_type m user = of_sender m m.sender_id
of_type m system = of_sender m m.sender_id

unfoldable pub render : Message → Mode
render m = of_type m m.type

-- MessageOverlay, and the state of a row.
pub data Overlay : Type 0 where
  closed palette confirm : Overlay

pub record Row : Type 0 where
  pub editing : Bool
  pub draft : Text
  pub overlay : Overlay

abbrev pub mounted : Message → Row
mounted m = record { editing = false; draft = m.content; overlay = closed }

-- onStartEdit, onChange, save() with the text that is given to onEdit, Cancel and Escape.
unfoldable pub start_edit : Message → Row → Row
start_edit m r = record r { draft = m.content; editing = true }

abbrev pub change_draft : Text → Row → Row
change_draft text r = record r { draft = text }

unfoldable pub save : Message → Row → Row × Option Text
save m r = (
  record r { editing = false },
  if is_blank (trim r.draft) || text_eq (trim r.draft) m.content then none else some (trim r.draft),
)

abbrev pub cancel : Message → Row → Row
cancel m r = record r { draft = m.content; editing = false }

abbrev pub escape : Row → Row
escape r = record r { editing = false }

-- The buttons of the toolbar and of its overlays; `some` is what is given to onReact or onDelete.
abbrev toggled : Overlay → Overlay
toggled palette = closed
toggled closed = palette
toggled confirm = palette

abbrev pub press_react : Row → Row
press_react r = record r { overlay = toggled r.overlay }

abbrev pub press_delete : Row → Row
press_delete r = record r { overlay = confirm }

abbrev pub leave_row : Row → Row
leave_row r = record r { overlay = closed }

unfoldable pub pick_emoji : Text → Row → Row × Option Text
pick_emoji emoji r = elim r.overlay [
  | palette ↦ (record r { overlay = closed }, some emoji)
  | closed ↦ (r, none)
  | confirm ↦ (r, none)
]

unfoldable pub confirm_delete : Row → Row × Bool
confirm_delete r = elim r.overlay [
  | confirm ↦ (record r { overlay = closed }, true)
  | closed ↦ (r, false)
  | palette ↦ (r, false)
]
