-- ===== src/Typing/Bursts.antt =====
-- Typing in bursts: the keystrokes of one user, what a tab sends of them, and who another tab shows.
use internship_project.Base.{
  ℕ, ◌+◌, ◌-◌, ◌≤◌, ◌<◌, ◌≡◌, refl, ap, ◌∙◌, inl, inr, Bool, true, false, not, arith, List, [], ◌∷◌,
  ◌++◌, none, some, Text, leb, if◌then◌else◌, Bool-cases, All, count,
}
use internship_project.Typing.{
  on_typing, Sent, Typist, notify_typing, elapse, stop_typing_now, stop_after,
}
use internship_project.Typing.Expiry.{World, wait, wait-nobody, Reaches, next, heard, waited}

-- A key is pressed at an instant; before it the stop timer may have fired.
unfoldable pub press : (now : ℕ) → Typist → Typist × List Sent
press now s =
    let (s1, before) = elapse now s in
    let (s2, own) = notify_typing true now s1 in (s2, before ++ own)

-- A key is pressed after each of the given pauses.
unfoldable pub press_all : (now : ℕ) → (pauses : List ℕ) → Typist → Typist × List Sent
press_all now [] s = (s, [])
press_all now (pause ∷ pauses) s =
    let (s1, sent) = press (now + pause) s in
    let (s2, later) = press_all (now + pause) pauses s1 in (s2, sent ++ later)

-- The state that a keystroke leaves, whatever came before.
abbrev pub typing_at : ℕ → Typist
typing_at now = record { started = true; stop_timer = some (now + stop_after) }

abbrev is_start : Sent → Bool
is_start e = e.typing

abbrev is_stop : Sent → Bool
is_stop e = not e.typing

press-typing_at :
    (now pause : ℕ)
    → press (now + pause) (typing_at now) ≡ (
      typing_at (now + pause),
      if leb 2500 pause
          then record { at = now + 2500; typing = false }
            ∷ record { at = now + pause; typing = true }
            ∷ []
          else [],
    )
unfolding press elapse notify_typing stop_typing_now
press-typing_at now pause = elim (Bool-cases (leb 2500 pause)) [
  | inl e ↦ let f : leb (now + 2500) (now + pause) ≡ true = ground (arith, e) in rw (e, f) refl
  | inr e ↦ let f : leb (now + 2500) (now + pause) ≡ false = ground (arith, e) in rw (e, f) refl
]

press-idle :
    (now : ℕ)
    → press now (record { started = false; stop_timer = none })
      ≡ (typing_at now, record { at = now; typing = true } ∷ [])
unfolding press elapse notify_typing
press-idle now = refl

-- The pauses after which the tab takes the user for having stopped.
abbrev pub is_pause : ℕ → Bool
is_pause pause = leb 2500 pause

count_sent :
    (now : ℕ) (pauses : List ℕ)
    → (count is_start (press_all now pauses (typing_at now)).1 ≡ count is_pause pauses)
      × (count is_stop (press_all now pauses (typing_at now)).1 ≡ count is_pause pauses)
unfolding press_all
count_sent now [] = (refl, refl)
count_sent now (pause ∷ pauses) =
    let (i, j) = count_sent (now + pause) pauses in
    rw (press-typing_at now pause) (elim (Bool-cases (leb 2500 pause)) [
      | inl e ↦ rw e (omega (arith, i), omega (arith, j))
      | inr e ↦ rw e (omega (arith, i), omega (arith, j))
    ])

-- The keys of a user who was not typing: the first at an instant, the others after pauses.
abbrev pub idle : Typist
idle = record { started = false; stop_timer = none }

unfoldable pub press_keys : (now : ℕ) → (pauses : List ℕ) → Typist × List Sent
press_keys now pauses =
    let (s, first) = press now idle in
    let (s', later) = press_all now pauses s in (s', first ++ later)

abbrev pub sum : List ℕ → ℕ
sum [] = 0
sum (n ∷ ns) = n + sum ns

press_all-state :
    (now : ℕ) (pauses : List ℕ)
    → (press_all now pauses (typing_at now)).0 ≡ typing_at (now + sum pauses)
unfolding press_all
press_all-state now [] = ap typing_at (omega arith)
press_all-state now (pause ∷ pauses) =
    rw (press-typing_at now pause)
      (press_all-state (now + pause) pauses ∙ ap typing_at (omega arith))

elapse-typing_at :
    (now ms : ℕ)
    → 2500 ≤ ms
    → elapse (now + ms) (typing_at now) ≡ (idle, record { at = now + 2500; typing = false } ∷ [])
unfolding elapse stop_typing_now
elapse-typing_at now ms h = let f : leb (now + 2500) (now + ms) ≡ true = ground arith in rw f refl

-- The tab throttles what it sends to one start and one stop for each burst of keys, that is up to
-- a pause of two and a half seconds or more: there is a start more than there are such pauses, and
-- a stop for each of them; and the last stop follows when the last key lies that far back.
pub press_keys-bursts :
    (now : ℕ) (pauses : List ℕ)
    → (count is_start (press_keys now pauses).1 ≡ count is_pause pauses + 1)
      × (count is_stop (press_keys now pauses).1 ≡ count is_pause pauses)
      × ((ms : ℕ)
          → 2500 ≤ ms
          → elapse (now + sum pauses + ms) (press_keys now pauses).0
            ≡ (idle, record { at = now + sum pauses + 2500; typing = false } ∷ []))
unfolding press_keys
press_keys-bursts now pauses =
    let (i, j) = count_sent now pauses in
    rw (press-idle now) (
      omega (arith, i),
      omega (arith, j),
      λ ms h. rw (press_all-state now pauses) (elapse-typing_at (now + sum pauses) ms h),
    )

-- Without such a pause nothing is sent after the start.
press_all-quiet :
    (now : ℕ) (pauses : List ℕ)
    → All (λ pause. pause < 2500) pauses
    → (press_all now pauses (typing_at now)).1 ≡ []
unfolding press_all
press_all-quiet now [] h = refl
press_all-quiet now (pause ∷ pauses) (h, hs) =
    let f : leb 2500 pause ≡ false = ground arith in
    rw (press-typing_at now pause, f) (press_all-quiet (now + pause) pauses hs)

-- Another tab of the group hears each thing when it is sent.
abbrev pub heard_from : (group_id : Text) → (user_id : ℕ) → Sent → World → World
heard_from group_id user_id e w =
    let w' = wait (e.at - w.now) w in
    record w' {
      typists =
          on_typing group_id w'.now
            (record { group_id = group_id; user_id = user_id; typing = e.typing }) w'.typists;
    }

abbrev pub hear : (group_id : Text) → (user_id : ℕ) → List Sent → World → World
hear group_id user_id [] w = w
hear group_id user_id (e ∷ sent) w = hear group_id user_id sent (heard_from group_id user_id e w)

-- Whoever types on for five seconds without a pause is no longer shown to another tab of the group:
-- the tab of the typist has sent its one start and no stop and counts as typing, but the other tab,
-- that has heard all of it when it was sent, shows nobody.
pub hear-expires :
    (group_id : Text) (user_id start : ℕ) (w : World) (pauses : List ℕ)
    → Reaches group_id (record { now = start; typists = record { user_ids = []; timers = [] } }) w
    → All (λ pause. pause < 2500) pauses
    → 5000 ≤ sum pauses
    → ((press_keys w.now pauses).0 ≡ typing_at (w.now + sum pauses))
      × ((press_keys w.now pauses).1 ≡ record { at = w.now; typing = true } ∷ [])
      × ((wait (sum pauses) (hear group_id user_id (press_keys w.now pauses).1 w)).typists.user_ids
          ≡ [])
unfolding press_keys
hear-expires group_id user_id start w pauses r h long =
    rw (press-idle w.now, press_all-quiet w.now pauses h)
      (
        press_all-state w.now pauses,
        refl,
        wait-nobody group_id start (heard_from group_id user_id _ w) (sum pauses)
            (next (next r (waited _)) (heard _)) long,
      )
