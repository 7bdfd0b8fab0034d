-- ===== src/Http/Filter.antt =====
-- backend/src/common/filters: the answer that a thrown exception becomes. A thrown value is an
-- Exception of the parent; where a payload has no message, the exception's own stands in.
pub mod Faults
use Prim.Native.String.{◌++◌}
use internship_project.Base.{
  ℕ, Bool, true, false, not, ◌&&◌, String, List, Option, none, some, leb, ◌==◌, if◌then◌else◌,
  or_default,
}
use internship_project.Http.{
  Payload, text, object, violations, PrismaCode, p2002, p2025, p2003, unmapped, Exception, http,
  prisma, unknown,
}

-- ErrorCode
pub data ErrorCode : Type 0 where
  validation_error unauthorized forbidden not_found conflict bad_request : ErrorCode
  internal_error service_unavailable : ErrorCode

-- The status, and the `error` of the body.
pub record ErrorReply : Type 0 where
  pub status : ℕ
  pub code : ErrorCode
  pub message : String
  pub details : Option (List String)

-- mapPrismaError(); the empty target is falsy.
abbrev target_message : Option String → String
target_message none = "A record with these values already exists"
target_message (some String.[]) = "A record with these values already exists"
target_message (some target) = "A record with this " ++ (target ++ " already exists")

abbrev pub map_prisma_error : PrismaCode → Option String → ErrorReply
map_prisma_error p2002 target = record {
  status = 409;
  code = conflict;
  message = target_message target;
  details = none;
}
map_prisma_error p2025 target = record {
  status = 404;
  code = not_found;
  message = "The requested record does not exist";
  details = none;
}
map_prisma_error p2003 target = record {
  status = 400;
  code = bad_request;
  message = "Referenced record does not exist";
  details = none;
}
map_prisma_error unmapped target = record {
  status = 500;
  code = internal_error;
  message = "A database error occurred";
  details = none;
}

-- codeForStatus()
abbrev pub code_for_status : ℕ → ErrorCode
code_for_status status =
    if status == 400
    then bad_request
    else if status == 401
    then unauthorized
    else if status == 403
    then forbidden
    else if status == 404
    then not_found
    else if status == 409
    then conflict
    else if status == 503
    then service_unavailable
    else if leb 500 status
    then internal_error
    else bad_request

-- fromHttpException()
abbrev plain_reply : ℕ → String → ErrorReply
plain_reply status message = record {
  status = status;
  code = code_for_status status;
  message = message;
  details = none;
}

abbrev pub from_http_exception : ℕ → Payload → String → ErrorReply
from_http_exception status (violations details) own = record {
  status = status;
  code = validation_error;
  message = "Request validation failed";
  details = some details;
}
from_http_exception status (text t) own = plain_reply status t
from_http_exception status (object message) own = plain_reply status (or_default message own)

-- buildError()
unfoldable pub build_error : Exception → ErrorReply
build_error (prisma code target) = map_prisma_error code target
build_error (http status payload own) = from_http_exception status payload own
build_error unknown = record {
  status = 500;
  code = internal_error;
  message = "An unexpected error occurred";
  details = none;
}

-- `isFault`: what catch() logs as an error, with its stack.
abbrev pub is_fault : ℕ → Bool
is_fault status = leb 500 status && not (status == 503)
