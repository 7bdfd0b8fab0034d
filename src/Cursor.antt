-- ===== src/Cursor.antt =====
-- backend/src/common/utils/cursor.ts. Node's JSON, Buffer and Date, and the uuids of Postgres, are
-- a parameter with the laws that the cursor relies on.
pub mod RoundTrip
use internship_project.Base.{
  false, ℕ, ◌≡◌, ◌≢◌, List, [], ◌∷◌, Option, none, some, Text, codes, text_eq, if◌then◌else◌,
}
use internship_project.Http.{Result, ok, err, Exception, bad_request}

-- A field of a parsed JSON object: absent, a string, or a value of another type.
pub data Field : Type 0 where
  absent : Field
  string : Text → Field
  other : Field

-- An object of strings by its properties, in their order, and what reading a property of it gives.
abbrev pub field_of : List (Text × Text) → Text → Field
field_of [] name = absent
field_of ((key, value) ∷ rest) name = if text_eq key name then string value else field_of rest name

pub record Platform : Type 0 where
  -- `JSON.stringify()` of an object of strings, and `JSON.parse`, with `none` for a throw: the parsed
  -- value by what reading a property of it gives.
  pub stringify : List (Text × Text) → Text
  pub parse : Text → Option (Text → Field)
  -- `Buffer.from(s, 'utf8').toString('base64url')` and `Buffer.from(s, 'base64url')`.
  pub to_base64url : Text → Text
  pub from_base64url : Text → Text
  -- `toISOString()`, and `new Date(s)` with `none` for a NaN time.
  pub to_iso : ℕ → Text
  pub to_date : Text → Option ℕ
  -- How Postgres writes a uuid, and reads one, with `none` where it refuses the text.
  pub spell : ℕ → Text
  pub read_uuid : Text → Option ℕ

-- The documented round trips of those parts.
pub record IsLawful (p : Platform) : Type 0 where
  pub parse-stringify :
      (j k a b : Text)
      → text_eq j k ≡ false
      → p.parse (p.stringify ((j, a) ∷ (k, b) ∷ [])) ≡ some (field_of ((j, a) ∷ (k, b) ∷ []))
  pub from-to_base64url : (t : Text) → p.from_base64url (p.to_base64url t) ≡ t
  pub to_base64url-ne-nil : (o : List (Text × Text)) → p.to_base64url (p.stringify o) ≢ []
  pub to_date-to_iso : (n : ℕ) → p.to_date (p.to_iso n) ≡ some n
  pub read_uuid-spell : (n : ℕ) → p.read_uuid (p.spell n) ≡ some n

pub record KeysetCursor : Type 0 where
  pub created_at : ℕ
  pub id : Text

module _ (p : Platform) where
  unfoldable pub encode_cursor : KeysetCursor → Text
  encode_cursor cursor =
      p.to_base64url (
        p.stringify
          ((codes "createdAt", p.to_iso cursor.created_at) ∷ (codes "id", cursor.id) ∷ []))

  abbrev with_date : Option ℕ → Text → Result KeysetCursor
  with_date none id = err (bad_request "Invalid pagination cursor")
  with_date (some created_at) id = ok (record { created_at = created_at; id = id })

  -- The three checks on the parsed payload; a failed one is thrown, and caught like a parse error.
  abbrev checked : (created_at id : Field) → Result KeysetCursor
  checked (string created_at) (string id) = with_date (p.to_date created_at) id
  checked (string created_at) absent = err (bad_request "Invalid pagination cursor")
  checked (string created_at) other = err (bad_request "Invalid pagination cursor")
  checked absent id = err (bad_request "Invalid pagination cursor")
  checked other id = err (bad_request "Invalid pagination cursor")

  abbrev from_parsed : Option (Text → Field) → Result KeysetCursor
  from_parsed none = err (bad_request "Invalid pagination cursor")
  from_parsed (some parsed) = checked (parsed (codes "createdAt")) (parsed (codes "id"))

  unfoldable pub decode_cursor : Text → Result KeysetCursor
  decode_cursor raw = from_parsed (p.parse (p.from_base64url raw))
