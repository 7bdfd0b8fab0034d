-- ===== src/Examples/HttpCases.antt =====
-- The theorems on ids, cursors and answers.
use internship_project.Base.{◌≡◌, arith, [], ◌∷◌}
use internship_project.Http.{violations, http}
use internship_project.Http.Filter.{build_error, is_fault}
use internship_project.Http.Filter.Faults.{is_internal, build_error-internal}

build_error-internal_example :
    is_internal (build_error (http 400 (violations ("name" ∷ [])) "Bad Request")).code
    ≡ is_fault (build_error (http 400 (violations ("name" ∷ [])) "Bad Request")).status
build_error-internal_example =
    build_error-internal (http 400 (violations ("name" ∷ [])) "Bad Request") (omega arith)
