-- ===== src/Routes/Captions.antt =====
-- MessagesController.upload() and its caption, against the bounds of CreateMessageDto.
use internship_project.Base.{
  ℕ, ◌≡◌, ◌<◌, refl, true, false, ◌&&◌, arith, [], ◌∷◌, ◌++◌, some, Text, any, trim, ◌==◌,
}
use internship_project.Http.{ok, err}
use internship_project.Schema.{GroupMember, Db}
use internship_project.Events.{RequestId}
use internship_project.Uuid.{is_uuid}
use internship_project.Cursor.{string}
use internship_project.Bodies.{
  Validators, invalid, has_size, content_max_length, create_message_dto,
}
use internship_project.Groups.{find_membership, assert_member}
use internship_project.Messages.{attached_message, known_sender}
use internship_project.Messages.Effects.{create_with_attachment-stores}
use internship_project.Storage.{UploadedFile, StoredFile, upload}
use internship_project.Routes

pub dto-refuses :
    (v : Validators) (t : Text)
    → 4000 < v.size (trim t)
    → create_message_dto v (string t) ≡ err invalid
unfolding create_message_dto
dto-refuses v t h =
    let long : has_size v 1 content_max_length (trim t) ≡ false = ground arith in rw long refl

-- A member uploads an accepted file that the storage takes, with a caption of more than 4000
-- characters after trimming. The message is stored with the whole caption, although the same text
-- is refused as a message.
pub handle-upload_file :
    (e : Routes.Env) (user_id : ℕ) (at : RequestId) (t : Text) (file : UploadedFile)
    (stored : StoredFile) (m : GroupMember) (db : Db)
    → is_uuid at.raw ≡ true
    → find_membership at.value user_id db ≡ some m
    → e.accepts_file file ≡ true
    → upload e.to_lower e.encode_uri e.backend at.raw e.uuid file ≡ ok stored
    → any (λ g. g.id == at.value) db.groups && known_sender (some user_id) db ≡ true
    → 4000 < e.validators.size (trim t)
    → ((Routes.handle e (some user_id) (Routes.upload_file at (string t) (some file)) db).db
        ≡ record db {
          messages =
              db.messages
              ++ attached_message e.id e.now at.value user_id
                  (trim t)
                  (record { url = stored.url; name = stored.name; mime = stored.mime })
                ∷ [];
        })
      × (create_message_dto e.validators (string t) ≡ err invalid)
unfolding Routes.handle assert_member
handle-upload_file e user_id at t file stored m db id member accepted kept known long = (
  rw (id, member, accepted, kept)
      (create_with_attachment-stores e.id e.now at user_id (trim t)
        (record { url = stored.url; name = stored.name; mime = stored.mime }) db known),
  dto-refuses e.validators t long,
)
