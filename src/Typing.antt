-- ===== src/Typing.antt =====
-- frontend/src/lib/socket/use-typing.ts: who is shown as typing, and what a tab sends of its
-- own user's keystrokes. A timer is the user that it is for and the instant at which it fires; an
-- instant is the number of its milliseconds.
pub mod Expiry
pub mod Bursts
use internship_project.Base.{
  ℕ, ◌+◌, Bool, true, false, not, ◌&&◌, List, [], ◌∷◌, ◌++◌, Option, none, some, Text, text_eq, leb,
  ltb, ◌==◌, if◌then◌else◌, keep, any,
}

abbrev pub expire_after : ℕ
expire_after = 5000

pub record TypingEvent : Type 0 where
  pub group_id : Text
  pub user_id : ℕ
  pub typing : Bool

pub record Timer : Type 0 where
  pub user_id : ℕ
  pub due : ℕ

pub record Typists : Type 0 where
  pub user_ids : List ℕ
  pub timers : List Timer

abbrev pub is_for : ℕ → Timer → Bool
is_for user_id t = t.user_id == user_id

abbrev pub is_other : ℕ → ℕ → Bool
is_other user_id id = not (id == user_id)

-- onTyping(): the user's timer is cleared, and a start sets it again.
abbrev pub without_timer : ℕ → List Timer → List Timer
without_timer user_id timers = keep (λ t. not (is_for user_id t)) timers

abbrev start_typing : (now user_id : ℕ) → Typists → Typists
start_typing now user_id s = record {
  user_ids =
      if any (λ id. id == user_id) s.user_ids then s.user_ids else s.user_ids ++ user_id ∷ [];
  timers =
      without_timer user_id s.timers ++ record { user_id = user_id; due = now + expire_after } ∷ [];
}

abbrev stop_typing : ℕ → Typists → Typists
stop_typing user_id s = record {
  user_ids = keep (is_other user_id) s.user_ids;
  timers = without_timer user_id s.timers;
}

unfoldable pub on_typing : (group_id : Text) (now : ℕ) → TypingEvent → Typists → Typists
on_typing group_id now e s =
    if not (text_eq e.group_id group_id)
    then s
    else if e.typing
    then start_typing now e.user_id s
    else stop_typing e.user_id s

-- The timers that are due by an instant fire: each takes itself and its user away.
abbrev pub has_fired : (now user_id : ℕ) → Timer → Bool
has_fired now user_id t = is_for user_id t && leb t.due now

unfoldable pub fire : (now : ℕ) → Typists → Typists
fire now s = record {
  user_ids = keep (λ id. not (any (has_fired now id) s.timers)) s.user_ids;
  timers = keep (λ t. not (leb t.due now)) s.timers;
}

-- What is sent: typing_start or typing_stop, and when.
pub record Sent : Type 0 where
  pub at : ℕ
  pub typing : Bool

abbrev pub stop_after : ℕ
stop_after = 2500

-- `started`, and the instant for which the stop timer is set.
pub record Typist : Type 0 where
  pub started : Bool
  pub stop_timer : Option ℕ

unfoldable pub stop_typing_now : (now : ℕ) → Typist → Typist × List Sent
stop_typing_now now s = (
  record { started = false; stop_timer = none },
  if s.started then record { at = now; typing = false } ∷ [] else [],
)

-- notifyTyping(); `ready` says that there is a socket and that it is connected.
unfoldable pub notify_typing : (ready : Bool) (now : ℕ) → Typist → Typist × List Sent
notify_typing ready now s = if not ready then (s, []) else (
  record { started = true; stop_timer = some (now + stop_after) },
  if not s.started then record { at = now; typing = true } ∷ [] else [],
)

-- The stop timer fires at its own instant, if that has come.
abbrev fired : Typist → Option ℕ → (now : ℕ) → Typist × List Sent
unfolding stop_typing_now
fired s none now = (s, [])
fired s (some due) now = if leb due now then stop_typing_now due s else (s, [])

unfoldable pub elapse : (now : ℕ) → Typist → Typist × List Sent
unfolding stop_typing_now
elapse now s = fired s s.stop_timer now
