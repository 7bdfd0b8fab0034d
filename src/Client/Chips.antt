-- ===== src/Client/Chips.antt =====
-- frontend/src/components/messages/reaction-chips.tsx: one chip for each emoji.
use internship_project.Base.{
  ℕ, zero, suc, ◌+◌, Bool, false, ◌&&◌, ◌||◌, List, [], ◌∷◌, Option, none, some, Text, text_eq,
  ◌==◌, if◌then◌else◌, count, any,
}
use internship_project.Client.{ReactionView}

pub record Chip : Type 0 where
  pub emoji : Text
  pub count_of : ℕ
  pub mine : Bool

-- `r.userId === userId`, where the viewer may be unknown.
abbrev pub is_mine : Option ℕ → ReactionView → Bool
is_mine none r = false
is_mine (some user_id) r = r.user_id == user_id

abbrev pub has_emoji : Text → ReactionView → Bool
has_emoji emoji r = text_eq r.emoji emoji

abbrev pub shows_emoji : Text → Chip → Bool
shows_emoji emoji c = text_eq c.emoji emoji

module _ (user_id : Option ℕ) where
  -- `map.get(r.emoji) ?? …`, and `map.set`: a new emoji comes last.
  abbrev pub count_in : ReactionView → List Chip → List Chip
  count_in r [] = record { emoji = r.emoji; count_of = 1; mine = is_mine user_id r } ∷ []
  count_in r (c ∷ chips) =
      if text_eq c.emoji r.emoji
      then record c { count_of = c.count_of + 1; mine = is_mine user_id r || c.mine } ∷ chips
      else c ∷ count_in r chips

  -- aggregate()
  unfoldable pub add_all : List Chip → List ReactionView → List Chip
  add_all chips [] = chips
  add_all chips (r ∷ rs) = add_all (count_in r chips) rs

  unfoldable pub aggregate : List ReactionView → List Chip
  unfolding add_all
  aggregate = add_all []

  abbrev pub own : Text → ReactionView → Bool
  own emoji r = has_emoji emoji r && is_mine user_id r

  -- A chip of an emoji with some more of its reactions.
  abbrev merged : Text → Option Chip → ℕ → Bool → Option Chip
  merged emoji none zero mine = none
  merged emoji none (suc n) mine = some (record { emoji = emoji; count_of = suc n; mine = mine })
  merged emoji (some c) n mine =
      some (record { emoji = c.emoji; count_of = c.count_of + n; mine = mine || c.mine })

  -- What the chip of an emoji has to be: none without a reaction, and otherwise their number and
  -- whether one is the viewer's.
  abbrev pub expected : Text → List ReactionView → Option Chip
  expected emoji rs =
      if count (has_emoji emoji) rs == 0
      then none
      else some (record {
        emoji = emoji;
        count_of = count (has_emoji emoji) rs;
        mine = any (own emoji) rs;
      })
