-- ===== src/Chat/Presence.antt =====
-- PresenceService: the list that it broadcasts.
use internship_project.Base.{
  ℕ, ◌≡◌, refl, ap, ◌∙◌, inl, inr, Bool, not, ◌&&◌, arith, List, [], ◌∷◌, Option, Text,
  Option-cases, ◌==◌, if◌then◌else◌, keep, any, count, indicator,
}
use internship_project.Chat.{
  Socket, is_in, is_excluded, fetch_sockets, unique, user_ids_of, present_users,
}
use internship_project.Chat.Broadcast.{is_user}

abbrev pub is_id : ℕ → ℕ → Bool
is_id x y = y == x

count-keep_other :
    (x z : ℕ) (xs : List ℕ)
    → count (is_id x) (keep (λ y. not (y == z)) xs) ≡ (if x == z then 0 else count (is_id x) xs)
count-keep_other x z [] = ground arith
count-keep_other x z (y ∷ xs) = ground (arith, count-keep_other x z xs)

count-unique : (x : ℕ) (xs : List ℕ) → count (is_id x) (unique xs) ≡ indicator (any (is_id x) xs)
unfolding unique
count-unique x [] = refl
count-unique x (y ∷ xs) = ground (arith, count-unique x xs, count-keep_other x y (unique xs))

-- A socket that makes its user present.
abbrev pub makes_present : Text → Option ℕ → ℕ → Socket → Bool
makes_present room exclude user_id s =
    is_in room s && (not (is_excluded exclude s) && is_user user_id s.user_id)

any-user_ids_of :
    (user_id : ℕ) (sockets : List Socket)
    → any (is_id user_id) (user_ids_of sockets) ≡ any (λ s. is_user user_id s.user_id) sockets
any-user_ids_of user_id [] = refl
any-user_ids_of user_id (s ∷ ss) = elim (Option-cases s.user_id) [
  | inl e ↦ rw e (any-user_ids_of user_id ss)
  | inr (u, e) ↦ rw (e, any-user_ids_of user_id ss) refl
]

any-keep :
    {A : Type 0} (p q : A → Bool) (xs : List A) → any q (keep p xs) ≡ any (λ x. p x && q x) xs
any-keep p q [] = refl
any-keep p q (x ∷ xs) = ground (arith, any-keep p q xs)

-- The presence list names each user once who has a socket in the room that is not excluded, and
-- nobody else.
pub count-present_users :
    (room : Text) (exclude : Option ℕ) (sockets : List Socket) (user_id : ℕ)
    → count (is_id user_id) (present_users room exclude sockets)
      ≡ indicator (any (makes_present room exclude user_id) sockets)
unfolding present_users
count-present_users room exclude sockets user_id =
    count-unique user_id
      (user_ids_of (keep (λ s. not (is_excluded exclude s)) (fetch_sockets room sockets)))
    ∙ ap indicator (
        any-user_ids_of user_id
          (keep (λ s. not (is_excluded exclude s)) (fetch_sockets room sockets))
        ∙ any-keep (λ s. not (is_excluded exclude s)) (λ s. is_user user_id s.user_id)
            (fetch_sockets room sockets)
        ∙ any-keep (is_in room) (λ s. not (is_excluded exclude s) && is_user user_id s.user_id)
            sockets)
