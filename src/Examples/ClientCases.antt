-- ===== src/Examples/ClientCases.antt =====
-- The theorems on a tab: one that opens the sample group, sees a post and loads a page; and its
-- session.
use internship_project.Base.{◌≡◌, refl, false, arith, [], ◌∷◌, none, some, codes, find, keyed}
use internship_project.Messages.{create}
use internship_project.Tokens.{rotate, check_token, claim, insert_token, sign_access_token}
use internship_project.Client.{view_id, empty_cache, shown}
use internship_project.Client.World
use internship_project.Client.World.{after}
use internship_project.Client.Mirror.{IsShown}
use internship_project.Client.Refines.{shown-refines}
use internship_project.Session.{Tab, authenticated, on_unauthorized}
use internship_project.Session.Flight
use internship_project.Session.Flight.{Reaches-offers_once, idle}
use internship_project.Session.Tabs.{rotate-two_tabs}
use internship_project.Session.Browser.{Browser, first_posts}
use internship_project.Examples.{sample_user, sample_db}
use internship_project.Examples.MessageCases.{list_platform, list_platform-IsLawful}
use internship_project.Examples.TokenCases.{digest, draw}
use internship_project.Events.{RequestId}

abbrev pub at_ten : RequestId
at_ten = record { raw = 10 ∷ []; value = 10 }

abbrev after_post : World.World
after_post = after list_platform at_ten empty_cache (create 203 7 at_ten 1 (codes "new") sample_db)

shown-refines_example :
    IsShown 10 203 sample_db after_post.db (find (keyed view_id 203) (shown after_post.cache))
shown-refines_example =
    (shown-refines list_platform at_ten sample_db after_post list_platform-IsLawful refl
        (((λ e. omega arith), ((λ e. omega arith), tt)), (((λ e. omega arith), tt), (tt, tt)))
        (World.next World.here (
          World.posted 203 7 at_ten 1 (codes "new")
            ((λ e. omega arith), ((λ e. omega arith), ((λ e. omega arith), tt)))))).0
      203

abbrev sample_tab : Tab
sample_tab = record {
  access = some 6;
  refresh = some 7;
  stored_user = some 1;
  user = some 1;
  status = authenticated;
  refresh_in_flight = none;
  waiting = 0;
}

abbrev posted_tab : Flight.World
posted_tab = record { tab = (on_unauthorized false sample_tab).0; offered = 7 ∷ [] }

Reaches-offers_once_example :
    Flight.IsAwaited posted_tab.tab.refresh_in_flight posted_tab.tab.waiting
unfolding on_unauthorized
Reaches-offers_once_example =
    (Reaches-offers_once sample_tab posted_tab
      (Flight.next Flight.here (Flight.unauthorized false))).1

abbrev sample_browser : Browser
sample_browser = record {
  access = some 6;
  refresh = some 7;
  stored_user = some 1;
  first = sample_tab;
  second = sample_tab;
}

rotate-two_tabs_example : first_posts sample_browser ≡ 7 ∷ []
unfolding rotate check_token claim insert_token
rotate-two_tabs_example =
    (rotate-two_tabs digest (λ c. c.sub) 100 10 20 (draw 301 8) (draw 302 9) 7 sample_db
      (record {
        user = sample_user 1;
        tokens = record { access_token = sign_access_token (sample_user 1); refresh_token = 8 };
      })
      sample_browser refl refl refl refl).0
