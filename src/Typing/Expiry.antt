-- ===== src/Typing/Expiry.antt =====
-- The expiry of use-typing.ts: nobody stays shown as typing.
use internship_project.Base.{
  ℕ, ◌+◌, ◌≤◌, ◌≡◌, refl, inl, inr, true, false, not, arith, List, [], ◌∷◌, ◌++◌, Text, text_eq,
  leb, ◌==◌, Bool-cases, keep, any, any-append, any-snoc, any-keep, All, All-append, All-map,
  All-keep, All-keep_if,
}
use internship_project.Typing.{
  expire_after, TypingEvent, Timer, Typists, is_for, is_other, without_timer, start_typing,
  stop_typing, on_typing, has_fired, fire,
}

-- The shown users, and the clock.
pub record World : Type 0 where
  pub now : ℕ
  pub typists : Typists

abbrev pub wait : ℕ → World → World
wait ms w = record { now = w.now + ms; typists = fire (w.now + ms) w.typists }

pub data Step (group_id : Text) (w : World) : World → Type 0 where
  heard :
      (e : TypingEvent)
      → Step group_id w (record w { typists = on_typing group_id w.now e w.typists })
  waited : (ms : ℕ) → Step group_id w (wait ms w)

pub data Reaches (group_id : Text) (w : World) : World → Type 0 where
  here : Reaches group_id w w
  next : {v u : World} → Reaches group_id w v → Step group_id v u → Reaches group_id w u

-- Each shown user has a timer, and each timer fires within five seconds.
record IsTimed (w : World) : Type 0 where
  timed : All (λ id. any (is_for id) w.typists.timers ≡ true) w.typists.user_ids
  soon : All (λ t. t.due ≤ w.now + 5000) w.typists.timers

-- The timer of one user is not for another one.
kept_timer :
    (user_id id : ℕ) (timers : List Timer)
    → (id == user_id) ≡ false
    → any (is_for id) timers ≡ true
    → any (is_for id) (without_timer user_id timers) ≡ true
kept_timer user_id id timers other t =
    any-keep (is_for id) (λ t. not (is_for user_id t)) timers (λ x e. ground (arith, e, other)) t

restarted :
    (user_id due id : ℕ) (timers : List Timer)
    → any (is_for id) timers ≡ true
    → any (is_for id) (without_timer user_id timers ++ record { user_id = user_id; due = due } ∷ [])
      ≡ true
restarted user_id due id timers t = elim (Bool-cases (id == user_id)) [
  | inl same ↦ any-snoc (is_for id) (without_timer user_id timers) _ (ground (arith, same))
  | inr other ↦
      any-append (is_for id) (without_timer user_id timers) _ (kept_timer user_id id timers other t)
]

start-IsTimed :
    (user_id : ℕ) (w : World)
    → IsTimed w
    → IsTimed (record w { typists = start_typing w.now user_id w.typists })
start-IsTimed user_id w i = record {
  timed = elim (Bool-cases (any (λ id. id == user_id) w.typists.user_ids)) [
    | inl e ↦ rw e old
    | inr e ↦ rw e (
        All-append _ w.typists.user_ids (user_id ∷ []) old
          (any-snoc (is_for user_id) (without_timer user_id w.typists.timers) _ (ground arith), tt))
  ];
  soon =
      All-append _ (without_timer user_id w.typists.timers) _
        (All-keep _ (λ t. not (is_for user_id t)) w.typists.timers i.soon) (omega arith, tt);
}
  where
    old :
        All
          (λ id.
            any (is_for id) (
              without_timer user_id w.typists.timers
              ++ record { user_id = user_id; due = w.now + expire_after } ∷ [])
            ≡ true)
          w.typists.user_ids
    old =
        All-map (λ id t. restarted user_id (w.now + expire_after) id w.typists.timers t)
          w.typists.user_ids i.timed

stop-IsTimed :
    (user_id : ℕ) (w : World)
    → IsTimed w
    → IsTimed (record w { typists = stop_typing user_id w.typists })
stop-IsTimed user_id w i = record {
  timed =
      All-keep_if (is_other user_id)
        (λ id e t. kept_timer user_id id w.typists.timers (ground (arith, e)) t) w.typists.user_ids
        i.timed;
  soon = All-keep _ (λ t. not (is_for user_id t)) w.typists.timers i.soon;
}

-- A user whose timers have not fired has one left.
unfired :
    (now id : ℕ) (timers : List Timer)
    → any (has_fired now id) timers ≡ false
    → any (is_for id) timers ≡ true
    → any (is_for id) (keep (λ t. not (leb t.due now)) timers) ≡ true
unfired now id [] e t = t
unfired now id (x ∷ timers) e t = ground (arith, unfired now id timers)

wait-IsTimed : (ms : ℕ) (w : World) → IsTimed w → IsTimed (wait ms w)
unfolding fire
wait-IsTimed ms w i = record {
  timed =
      All-keep_if (λ id. not (any (has_fired (w.now + ms) id) w.typists.timers))
        (λ id e t. unfired (w.now + ms) id w.typists.timers (ground (arith, e)) t)
        w.typists.user_ids i.timed;
  soon =
      All-map (λ t h. omega arith) _
        (All-keep (λ t. t.due ≤ w.now + 5000) (λ t. not (leb t.due (w.now + ms))) w.typists.timers
          i.soon);
}

Step-IsTimed : {group_id : Text} {w v : World} → IsTimed w → Step group_id w v → IsTimed v
unfolding on_typing
Step-IsTimed {group_id} {w} i (heard e) = elim (Bool-cases (text_eq e.group_id group_id)) [
  | inr x ↦ rw x i
  | inl x ↦ elim (Bool-cases e.typing) [
    | inl y ↦ rw (x, y) (start-IsTimed e.user_id w i)
    | inr y ↦ rw (x, y) (stop-IsTimed e.user_id w i)
  ]
]
Step-IsTimed {group_id} {w} i (waited ms) = wait-IsTimed ms w i

Reaches-IsTimed : {group_id : Text} {w v : World} → IsTimed w → Reaches group_id w v → IsTimed v
Reaches-IsTimed i here = i
Reaches-IsTimed i (next r s) = Step-IsTimed (Reaches-IsTimed i r) s

fires_in_time :
    (now at id : ℕ) (timers : List Timer)
    → now + 5000 ≤ at
    → All (λ t. t.due ≤ now + 5000) timers
    → any (is_for id) timers ≡ true
    → any (has_fired at id) timers ≡ true
fires_in_time now at id [] h soon t = t
fires_in_time now at id (x ∷ timers) h (d, soon) t =
    ground (arith, fires_in_time now at id timers h soon)

nobody :
    (now at : ℕ) (ids : List ℕ) (timers : List Timer)
    → now + 5000 ≤ at
    → All (λ t. t.due ≤ now + 5000) timers
    → All (λ id. any (is_for id) timers ≡ true) ids
    → keep (λ id. not (any (has_fired at id) timers)) ids ≡ []
nobody now at [] timers h soon timed = refl
nobody now at (id ∷ ids) timers h soon (t, timed) =
    rw (fires_in_time now at id timers h soon t) (nobody now at ids timers h soon timed)

-- Nobody is shown as typing for ever: whatever typing events have come at whatever instants, with
-- stops lost or not, five seconds without another one leave the list empty.
pub wait-nobody :
    (group_id : Text) (start : ℕ) (w : World) (ms : ℕ)
    → Reaches group_id (record { now = start; typists = record { user_ids = []; timers = [] } }) w
    → 5000 ≤ ms
    → (wait ms w).typists.user_ids ≡ []
unfolding fire
wait-nobody group_id start w ms r h =
    let i = Reaches-IsTimed (record { timed = tt; soon = tt }) r in
    nobody w.now (w.now + ms) w.typists.user_ids w.typists.timers (omega arith) i.soon i.timed
