-- ===== src/Http.antt =====
-- What a service throws, and how a throw ends a method: the NestJS exceptions that the services
-- raise and the two Prisma error codes that the tables' constraints raise.
pub mod Filter
use internship_project.Base.{
  ℕ, ◌≡◌, refl, ap, Bool, true, false, String, List, Option, none, some, arith,
}

-- What `HttpException.getResponse()` returns: a text, or an object whose `message` is absent, a
-- text, or the array that ValidationPipe builds.
pub data Payload : Type 0 where
  text : String → Payload
  object : Option String → Payload
  violations : List String → Payload

-- Prisma's codes for a unique constraint, a missing row and a foreign key, and all others.
pub data PrismaCode : Type 0 where
  p2002 p2025 p2003 unmapped : PrismaCode

pub data Exception : Type 0 where
  http : (status : ℕ) → Payload → (own_message : String) → Exception
  prisma : PrismaCode → (target : Option String) → Exception
  unknown : Exception

-- `new ForbiddenException('...')` and its like.
abbrev pub throw_http : ℕ → String → Exception
throw_http status message = http status (object (some message)) message

abbrev pub bad_request : String → Exception
bad_request = throw_http 400

abbrev pub unauthorized : String → Exception
unauthorized = throw_http 401

abbrev pub forbidden : String → Exception
forbidden = throw_http 403

abbrev pub not_found : String → Exception
not_found = throw_http 404

abbrev pub conflict : String → Exception
conflict = throw_http 409

pub data Result {ℓ} (A : Type ℓ) : Type ℓ where
  ok : A → Result A
  err : Exception → Result A

-- What follows a call that may throw.
infixl 5 ◌>>=◌ ◌>>◌
abbrev pub ◌>>=◌ {ℓ κ} : {A : Type ℓ} {B : Type κ} → Result A → (A → Result B) → Result B
err thrown >>= rest = err thrown
ok value >>= rest = rest value

-- `if (!x) throw e`.
abbrev pub or_throw {ℓ} : {A : Type ℓ} → Option A → Exception → Result A
or_throw none e = err e
or_throw (some a) e = ok a

abbrev pub throw_if : Bool → Exception → Result (Unit {0})
throw_if true e = err e
throw_if false e = ok tt

abbrev pub ◌>>◌ {ℓ} : {B : Type ℓ} → Result (Unit {0}) → Result B → Result B
call >> rest = call >>= λ _. rest

-- `catch (error)` where a unique constraint's code becomes `e` and the rest is thrown again.
abbrev pub on_p2002 : Exception → Exception → Exception
on_p2002 e (prisma p2002 target) = e
on_p2002 e (http status payload own) = http status payload own
on_p2002 e (prisma p2025 target) = prisma p2025 target
on_p2002 e (prisma p2003 target) = prisma p2003 target
on_p2002 e (prisma unmapped target) = prisma unmapped target
on_p2002 e unknown = unknown

abbrev pub catch_p2002 {ℓ} : {A : Type ℓ} → Exception → Result A → Result A
catch_p2002 e (ok a) = ok a
catch_p2002 e (err x) = err (on_p2002 e x)

pub >>=-eq-ok {ℓ κ} :
    {A : Type ℓ} {B : Type κ} (first_call : Result A) (rest : A → Result B) {last_value : B}
    → (first_call >>= rest) ≡ ok last_value
    → (value : A) × (first_call ≡ ok value) × (rest value ≡ ok last_value)
>>=-eq-ok (err thrown) rest returned = cc
>>=-eq-ok (ok value) rest returned = (value, refl, returned)

pub or_throw-eq-ok {ℓ} :
    {A : Type ℓ} (o : Option A) (e : Exception) {a : A} → or_throw o e ≡ ok a → o ≡ some a
or_throw-eq-ok none e h = cc
or_throw-eq-ok (some a) e h = cc

pub throw_if-eq-ok : (b : Bool) (e : Exception) → throw_if b e ≡ ok tt → b ≡ false
throw_if-eq-ok true e h = cc
throw_if-eq-ok false e h = refl

abbrev value_or {ℓ} : {A : Type ℓ} → A → Result A → A
value_or d (ok a) = a
value_or d (err e) = d

pub ok-injective {ℓ} : {A : Type ℓ} {a b : A} → ok a ≡ ok b → a ≡ b
ok-injective {a} h = ap (value_or a) h
