-- ===== src/MessageRow/Edits.antt =====
-- An edit in place, from the row to the server: save() of the row, and the route that
-- backend/src/messages/messages.controller.ts has for it.
use internship_project.Base.{ℕ, ◌<◌, ◌≡◌, refl, false, some, text_eq, trim, trim-trim}
use internship_project.Http.{Result, ok, err, Exception, ◌>>=◌}
use internship_project.Schema.{Message, Db}
use internship_project.Events.{RequestId, Outcome}
use internship_project.Cursor.{string}
use internship_project.Bodies.{invalid, parse_uuid}
use internship_project.Groups.{assert_member}
use internship_project.Messages.{and_then}
use internship_project.Routes
use internship_project.Routes.Captions.{dto-refuses}
use internship_project.Chat.{is_blank}
use internship_project.MessageRow.{Row, start_edit, save}

refused_body :
    {A B C : Type 0} (db : Db) (a b : Result A) (x : Exception) (k : C → Outcome B)
    → (and_then db (a >>= λ _. b >>= λ _. err x) k).db ≡ db
refused_body db (err e) b x k = refl
refused_body db (ok a) (err e) x k = refl
refused_body db (ok a) (ok b) x k = refl

guarded :
    {A B : Type 0} (db : Db) (a : Result A) (o : Outcome B)
    → o.db ≡ db
    → (and_then db a (λ _. o)).db ≡ db
guarded db (err e) o h = refl
guarded db (ok a) o h = h

-- The text area of an edit has no upper bound, while the server has one: where the new text is longer
-- than 4000 characters, the row closes its editor and sends it, the server refuses it and changes
-- nothing, and when the editor is opened again it holds the old text.
pub save-over_long :
    (e : Routes.Env) (user_id : ℕ) (at id : RequestId) (m : Message) (r : Row) (db : Db)
    → is_blank (trim r.draft) ≡ false
    → text_eq (trim r.draft) m.content ≡ false
    → 4000 < e.validators.size (trim r.draft)
    → ((save m r).1 ≡ some (trim r.draft))
      × ((save m r).0.editing ≡ false)
      × ((Routes.handle e (some user_id) (Routes.edit_message at id (string (trim r.draft))) db).db
          ≡ db)
      × ((start_edit m (save m r).0).draft ≡ m.content)
unfolding save start_edit Routes.handle
save-over_long e user_id at id m r db filled changed long =
    let refused = dto-refuses e.validators (trim r.draft) (rw (trim-trim r.draft) long) in
    (
      rw (filled, changed) refl,
      refl,
      rw refused (
          guarded db (assert_member user_id at db) _
            (refused_body db (parse_uuid at) (parse_uuid id) invalid _)),
      refl,
    )
