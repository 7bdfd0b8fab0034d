-- ===== src/Examples/TokenCases.antt =====
-- The theorems on the sample session, with a digest that is the token itself.
use internship_project.Base.{ℕ, ◌≡◌, refl, arith, some}
use internship_project.Http.{err}
use internship_project.Tokens.{
  Draw, claim, insert_token, sign_access_token, reuse, rotate, revoke_by_token, check_token,
}
use internship_project.Tokens.Rotation.{rotate_twice}
use internship_project.Tokens.Family.{IsSound}
use internship_project.Tokens.Sessions.{rotates, here, next, Avoids, session-IsSound, logout_final}
use internship_project.Examples.{sample_user, sample_token, sample_db}

abbrev pub digest : ℕ → ℕ
digest raw = raw

abbrev pub draw : ℕ → ℕ → Draw
draw id raw = record { id = id; raw = raw }

rotate_twice_example :
    (rotate digest 100 20 (draw 302 9) 7 (rotate digest 100 10 (draw 301 8) 7 sample_db).0).1
    ≡ err reuse
unfolding rotate check_token claim insert_token
rotate_twice_example =
    (rotate_twice digest 100 10 20 (draw 301 8) (draw 302 9) 7 sample_db
      (record {
        user = sample_user 1;
        tokens = record { access_token = sign_access_token (sample_user 1); refresh_token = 8 };
      })
      refl).2

session-IsSound_example : IsSound (rotate digest 100 10 (draw 301 8) 7 sample_db).0.tokens
session-IsSound_example =
    session-IsSound digest 100 {kind = Avoids digest 100 999}
      (record { distinct = (tt, tt); single = λ f. ground arith })
      (next here (rotates 10 (draw 301 8) 7) tt ((λ e. omega arith), tt))

logout_final_example :
    (rotate digest 100 20 (draw 301 8) 7 (revoke_by_token digest 10 7 sample_db)).1 ≡ err reuse
unfolding revoke_by_token
logout_final_example =
    logout_final digest 100 10 20 7 7 (draw 301 8) sample_db (revoke_by_token digest 10 7 sample_db)
      sample_token (record sample_token { revoked_at = some 10 }) refl here refl refl
