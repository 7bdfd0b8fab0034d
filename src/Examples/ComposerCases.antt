-- ===== src/Examples/ComposerCases.antt =====
-- The theorems on a group's page: the composer, the editing of a message, receipts and paging.
use internship_project.Base.{
  ◌≡◌, refl, arith, true, [], ◌∷◌, List, some, Text, codes, text_eq, trim, map, sort_by, Has,
}
use internship_project.Schema.{GroupMember, owner, member}
use internship_project.Messages.{create}
use internship_project.Groups.{assert_member, find_one, mark_read}
use internship_project.Uuid.{is_uuid}
use internship_project.Chat.{send_message, written}
use internship_project.Composer.{empty, change, submit}
use internship_project.Composer.Flight
use internship_project.Composer.Flight.{submit-send_message, idle}
use internship_project.MessageRow.{Row, closed, save}
use internship_project.MessageRow.Edits.{save-over_long}
use internship_project.Client.{MessageView, empty_cache, select_message, history_rows}
use internship_project.Client.Roster.{load_detail}
use internship_project.Client.World.{World, after}
use internship_project.Client.Receipts.{seen_by, last_own, mark_read-seen_by}
use internship_project.Client.Paging.{load_times, load_times-history}
use internship_project.Examples.{sample_db, sample_id, sample_member, sample_message}
use internship_project.Examples.MessageCases.{list_platform, list_platform-IsLawful}
use internship_project.Examples.ClientCases.{at_ten}
use internship_project.Examples.RouteCases.{sample_env, letters}

-- User 2 has typed two spaces and a greeting.
abbrev typed_text : Text
typed_text = codes "  hi"

abbrev typed_world : Flight.World
typed_world = record { composer = change typed_text empty; messages = 0; uploads = 0 }

submit-send_message_example :
    send_message 203 9 2 sample_id (codes "hi") sample_db
    ≡ written (create 203 9 sample_id 2 (codes "hi") sample_db)
unfolding submit trim assert_member is_uuid
submit-send_message_example =
    (submit-send_message typed_world true (codes "hi") 203 9 2 sample_id sample_db
      (sample_member 101 2 member) (Flight.next Flight.here (Flight.typed typed_text (omega arith)))
      refl refl).2

abbrev long_row : Row
long_row = record { editing = true; draft = letters 4001; overlay = closed }

save-over_long_example : (save (sample_message 200 5) long_row).1 ≡ some (trim (letters 4001))
unfolding trim text_eq
save-over_long_example =
    (save-over_long sample_env 1 sample_id sample_id (sample_message 200 5) long_row sample_db refl
      refl (omega arith)).0

abbrev rows : List GroupMember
rows = sample_member 100 1 owner ∷ sample_member 101 2 member ∷ sample_member 102 3 member ∷ []

abbrev loaded_world : World
loaded_world = record { db = sample_db; cache = load_detail at_ten sample_db empty_cache }

abbrev own_message : MessageView
own_message = select_message sample_db (sample_message 200 5)

mark_read-seen_by_example :
    (roster : List GroupMember) × ((after list_platform at_ten loaded_world.cache
        (mark_read 9 2 at_ten sample_db)).cache.members
      ≡ some roster)
    × Has 2 (seen_by 1 (own_message ∷ []) roster)
unfolding load_detail find_one sort_by last_own
mark_read-seen_by_example =
    mark_read-seen_by list_platform at_ten loaded_world 9 2 1 (own_message ∷ []) own_message rows
      (sample_member 101 2 member) refl (omega arith, λ user_id. ground arith) refl (omega arith)
      refl (omega arith)

load_times-history_example :
    history_rows (load_times list_platform at_ten sample_db 4 empty_cache).history
    ≡ map
        (select_message sample_db)
        (sample_message 202 6 ∷ sample_message 201 5 ∷ sample_message 200 5 ∷ [])
unfolding sort_by
load_times-history_example =
    (load_times-history list_platform at_ten sample_db list_platform-IsLawful
      (((λ e. omega arith), ((λ e. omega arith), tt)), (((λ e. omega arith), tt), (tt, tt)))).1
