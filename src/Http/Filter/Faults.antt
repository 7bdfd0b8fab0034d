-- ===== src/Http/Filter/Faults.antt =====
-- What the answer says of the fault, and what the log does.
use internship_project.Base.{ℕ, ◌≡◌, refl, Bool, true, false, ◌<◌, arith}
use internship_project.Http.{
  text, object, violations, p2002, p2025, p2003, unmapped, Exception, http, prisma, unknown,
}
use internship_project.Http.Filter.{
  ErrorCode, validation_error, unauthorized, forbidden, not_found, conflict, bad_request,
  internal_error, service_unavailable, code_for_status, build_error, is_fault,
}

abbrev pub is_internal : ErrorCode → Bool
is_internal internal_error = true
is_internal validation_error = false
is_internal unauthorized = false
is_internal forbidden = false
is_internal not_found = false
is_internal conflict = false
is_internal bad_request = false
is_internal service_unavailable = false

-- ValidationPipe throws its lists as a 4xx.
abbrev pub IsValidation4xx : Exception → Type 0
IsValidation4xx (http status (violations details) own) = status < 500
IsValidation4xx (http status (text t) own) = Unit {0}
IsValidation4xx (http status (object m) own) = Unit {0}
IsValidation4xx (prisma code target) = Unit {0}
IsValidation4xx unknown = Unit {0}

code_for_status-internal : (status : ℕ) → is_internal (code_for_status status) ≡ is_fault status
code_for_status-internal status = ground arith

-- The client is told INTERNAL_ERROR exactly when the log records a fault, for every exception,
-- given that ValidationPipe's own carry a status below 500.
pub build_error-internal :
    (e : Exception)
    → IsValidation4xx e
    → is_internal (build_error e).code ≡ is_fault (build_error e).status
unfolding build_error
build_error-internal (http status (violations details) own) h = ground arith
build_error-internal (http status (text t) own) h = code_for_status-internal status
build_error-internal (http status (object m) own) h = code_for_status-internal status
build_error-internal (prisma p2002 target) h = refl
build_error-internal (prisma p2025 target) h = refl
build_error-internal (prisma p2003 target) h = refl
build_error-internal (prisma unmapped target) h = refl
build_error-internal unknown h = refl
