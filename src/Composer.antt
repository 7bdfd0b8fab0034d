-- ===== src/Composer.antt =====
-- frontend/src/components/messages/message-composer.tsx: the input of a group's page. The texts of a
-- failed upload's error are an argument.
pub mod Flight
use internship_project.Base.{
  ℕ, Bool, true, false, not, ◌&&◌, ◌||◌, List, [], ◌∷◌, Option, none, some, Text, codes, trim,
  if◌then◌else◌,
}
use internship_project.Schema.{Message}
use internship_project.Chat.{Ack, accepted, refused, is_blank}

-- MESSAGE_MAX_LENGTH, the `maxLength` of the text area.
abbrev pub message_max_length : ℕ
message_max_length = 4000

pub record Composer : Type 0 where
  pub content : Text
  pub error : Option Text
  pub sending : Bool
  pub uploading : Bool

abbrev pub empty : Composer
empty = record { content = []; error = none; sending = false; uploading = false }

-- onChange
abbrev pub change : Text → Composer → Composer
change text c = record c { content = text }

-- submit(): the new state, and the content of the send_message that is emitted; `ready` says that
-- there is a socket and that it is connected.
unfoldable pub submit : (ready : Bool) → Composer → Composer × Option Text
submit ready c =
    if is_blank (trim c.content) || (not ready || c.sending)
    then (c, none)
    else (record c { sending = true; error = none }, some (trim c.content))

-- What the callback of the emit is given: an error after five seconds, or an acknowledgement, which
-- may be missing.
pub data Reply : Type 0 where
  timed_out : Reply
  no_ack : Reply
  acked : Ack Message → Reply

abbrev failed : Text → Composer → Composer
failed text c = record c { sending = false; error = some text }

unfoldable pub on_reply : Reply → Composer → Composer
on_reply timed_out c = failed (codes "Couldn't reach the server") c
on_reply no_ack c = failed (codes "Couldn't send message") c
on_reply (acked (refused text)) c = failed text c
on_reply (acked (accepted m)) c = record c { sending = false; content = [] }

-- onPickFile(): the new state, and the caption of the upload that is started.
unfoldable pub pick_file : Composer → Composer × Option Text
pick_file c =
    if c.uploading
    then (c, none)
    else (record c { uploading = true; error = none }, some (trim c.content))

-- What follows the upload: its message, or the text of its error.
unfoldable pub on_uploaded : Option Text → Composer → Composer
on_uploaded none c = record c { content = []; uploading = false }
on_uploaded (some text) c = record c { error = some text; uploading = false }
