-- ===== src/Examples/TabCases.antt =====
-- The theorems on a tab that stays open: its member list, its keystrokes and a page that comes late.
use internship_project.Base.{
  ◌≡◌, refl, true, false, arith, [], ◌∷◌, none, some, codes, find, keyed, sort_by,
}
use internship_project.Groups.{transfer_ownership}
use internship_project.Client.{empty_cache, view_id, select_message, shown, deliver_all}
use internship_project.Client.World.{World, after, page_size, add_page}
use internship_project.Client.Roster
use internship_project.Client.Roster.{load_detail, user_of, Mirrors}
use internship_project.Client.Roster.Refines.{roster-refines}
use internship_project.Client.Races.{add_page-stale}
use internship_project.Messages.{Page, find_page, soft_delete, tombstoned, assert_own_user_message}
use internship_project.Typing.Bursts.{press_keys, hear-expires}
use internship_project.Typing.Expiry
use internship_project.Examples.{sample_db, sample_message}
use internship_project.Examples.MessageCases.{list_platform, list_platform-IsLawful}
use internship_project.Examples.ClientCases.{at_ten}

-- The tab loads the list, and the ownership goes from user 1 to user 2.
abbrev loaded_world : World
loaded_world = record { db = sample_db; cache = load_detail at_ten sample_db empty_cache }

abbrev handed_world : World
handed_world =
    after list_platform at_ten loaded_world.cache (transfer_ownership 1 at_ten 2 sample_db)

roster-refines_example :
    Mirrors 10 handed_world.db.groups handed_world.db.members handed_world.cache.members
roster-refines_example =
    roster-refines list_platform at_ten sample_db handed_world list_platform-IsLawful refl
      (record { distinct = omega arith; single = λ g u. ground arith })
      (Roster.next (Roster.next Roster.here Roster.fetched) (Roster.transferred 1 at_ten 2 refl))

hear-expires_example :
    (press_keys 0 (2000 ∷ 2000 ∷ 2000 ∷ [])).1 ≡ record { at = 0; typing = true } ∷ []
hear-expires_example =
    (hear-expires (codes "g") 2 0
      (record { now = 0; typists = record { user_ids = []; timers = [] } })
      (2000 ∷ 2000 ∷ 2000 ∷ []) Expiry.here (omega arith) (omega arith)).1

-- The first page of the sample group, newest first.
abbrev first_page : Page
first_page = record {
  rows = sample_message 202 6 ∷ sample_message 201 5 ∷ sample_message 200 5 ∷ [];
  limit = 20;
  next_cursor = none;
  has_more = false;
}

add_page-stale_example :
    find (keyed view_id 200) (
      shown (
        add_page sample_db (find_page list_platform at_ten page_size none sample_db) (
          deliver_all list_platform.spell at_ten.raw
            (soft_delete 9 10 200 1 sample_db).db
            (soft_delete 9 10 200 1 sample_db).events
            empty_cache)))
    ≡ some (select_message sample_db (sample_message 200 5))
unfolding find_page soft_delete assert_own_user_message sort_by
add_page-stale_example =
    add_page-stale list_platform at_ten 9 200 1 sample_db empty_cache first_page
      (sample_message 200 5) (tombstoned 9 (sample_message 200 5)) refl refl refl refl refl
