-- ===== src/Cursor/RoundTrip.antt =====
-- encodeCursor() and decodeCursor() against each other.
use internship_project.Base.{◌≡◌, refl, ◌⊎◌, inl, inr, Text, codes, text_eq, Option-cases}
use internship_project.Http.{Result, ok, err, bad_request}
use internship_project.Cursor.{
  Field, absent, string, other, Platform, IsLawful, KeysetCursor, encode_cursor, decode_cursor,
  checked,
}

-- A cursor that was encoded decodes to itself, if JSON, base64url and ISO dates round-trip.
pub decode_cursor-encode_cursor :
    (p : Platform)
    → IsLawful p
    → (cursor : KeysetCursor) → decode_cursor p (encode_cursor p cursor) ≡ ok cursor
unfolding decode_cursor encode_cursor text_eq
decode_cursor-encode_cursor p h cursor =
    let parsed =
      h.parse-stringify (codes "createdAt") (codes "id") (p.to_iso cursor.created_at) cursor.id
        refl in
    rw (h.from-to_base64url, parsed, h.to_date-to_iso) refl

abbrev pub IsClean : Result KeysetCursor → Type 0
IsClean r = ((c : KeysetCursor) × (r ≡ ok c)) ⊎ (r ≡ err (bad_request "Invalid pagination cursor"))

checked-IsClean : (p : Platform) (created_at id : Field) → IsClean (checked p created_at id)
checked-IsClean p (string d) (string id) = elim (Option-cases (p.to_date d)) [
  | inl e ↦ inr (rw e refl)
  | inr (n, e) ↦ inl (record { created_at = n; id = id }, rw e refl)
]
checked-IsClean p (string d) absent = inr refl
checked-IsClean p (string d) other = inr refl
checked-IsClean p absent id = inr refl
checked-IsClean p other id = inr refl

-- Whatever a client sends as a cursor, decoding gives a cursor or one and the same 400.
pub decode_cursor-IsClean : (p : Platform) (raw : Text) → IsClean (decode_cursor p raw)
unfolding decode_cursor
decode_cursor-IsClean p raw = elim (Option-cases (p.parse (p.from_base64url raw))) [
  | inl e ↦ rw e (inr refl)
  | inr (parsed, e) ↦ rw e (checked-IsClean p (parsed (codes "createdAt")) (parsed (codes "id")))
]
