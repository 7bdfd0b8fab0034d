-- ===== src/Messages/Refusals.antt =====
-- findPage() on a cursor that a client has made up.
use internship_project.Base.{
  ℕ, suc, take, keep, sort_by, ◌≡◌, refl, ap, ◌∙◌, Option, none, some, Text,
}
use internship_project.Http.{ok, err, Exception, prisma, unmapped, ◌>>=◌}
use internship_project.Http.Filter.{build_error}
use internship_project.Schema.{Db}
use internship_project.Events.{RequestId}
use internship_project.Cursor.{Platform, IsLawful, KeysetCursor, encode_cursor}
use internship_project.Cursor.RoundTrip.{decode_cursor-encode_cursor}
use internship_project.Messages.{newest_first, predicate, page_of, find_page}
use internship_project.Messages.Pages.{position-some}

-- decodeCursor() lets every text through as an id: a cursor that is encoded like the server's own,
-- of any instant and of a text that Postgres does not read as a uuid, is not refused as a bad
-- cursor; the request for a page at it, of any group and size, ends in the status 500. Node's codecs
-- round-trip.
pub find_page-forged :
    (p : Platform) (group_id : RequestId) (limit created_at : ℕ) (id : Text) (db : Db)
    → IsLawful p
    → p.read_uuid id ≡ none
    → let raw = encode_cursor p (record { created_at = created_at; id = id }) in
      (e : Exception) × (find_page p group_id limit (some raw) db ≡ err e)
      × ((build_error e).status ≡ 500)
unfolding find_page build_error encode_cursor
find_page-forged p group_id limit created_at id db lawful refused =
    let c : KeysetCursor = record { created_at = created_at; id = id } in
    let decoded =
      position-some p group_id limit db (encode_cursor p c) (lawful.to_base64url-ne-nil _)
      ∙ ap (λ r. r >>= λ (c : KeysetCursor). ok (some c))
          (decode_cursor-encode_cursor p lawful c) in
    (
      prisma unmapped none,
      ap
            (λ r. r >>= λ (o : Option KeysetCursor). predicate p group_id.value o >>= λ test.
              ok
                (page_of p limit (take (suc limit) (sort_by newest_first (keep test db.messages)))))
            decoded
          ∙ rw refused refl,
      refl,
    )
