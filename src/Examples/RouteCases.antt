-- ===== src/Examples/RouteCases.antt =====
-- The theorems on requests and uploads, with validators that count code units and take each file.
use internship_project.Base.{
  ℕ, zero, suc, ◌≡◌, refl, true, false, arith, [], ◌∷◌, ◌++◌, none, some, Text, codes, length, trim,
  text_eq,
}
use mathlib.Core.Option.{some-injective}
use internship_project.Http.{err}
use internship_project.Schema.{owner}
use internship_project.Uuid.{is_uuid}
use internship_project.Cursor.{string, absent}
use internship_project.Bodies.{Validators, invalid, create_message_dto}
use internship_project.Storage.{UploadedFile, local_disk, object_path, upload}
use internship_project.Storage.Names.{IsSafePath, object_path-IsSafe}
use internship_project.Routes
use internship_project.Routes.Spares.{Spares}
use internship_project.Routes.Isolation.{RowsAfter, handle-Spares}
use internship_project.Routes.Captions.{handle-upload_file}
use internship_project.Examples.{sample_db, sample_id, sample_member}
use internship_project.Examples.MessageCases.{list_platform}

abbrev pub sample_validators : Validators
sample_validators = record {
  size = length;
  is_any_uuid = λ t. true;
  to_integer = λ t. none;
  code_points = λ t. t;
  is_pictographic = λ c. true;
  is_modifier = λ c. false;
}

abbrev pub sample_env : Routes.Env
sample_env = record {
  validators = sample_validators;
  platform = list_platform;
  matches = λ t q. true;
  to_lower = λ t. t;
  encode_uri = λ t. t;
  backend = local_disk;
  accepts_file = λ f. true;
  id = 203;
  row_id = 900;
  uuid = codes "u";
  now = 9;
}

handle-Spares_example :
    Spares 10 sample_db
      (Routes.handle sample_env (some 9) (Routes.list_messages sample_id absent absent) sample_db)
    × RowsAfter 10
        (some 9)
        (Routes.list_messages sample_id absent absent)
        sample_db
        (Routes.handle sample_env (some 9) (Routes.list_messages sample_id absent absent) sample_db)
handle-Spares_example =
    handle-Spares sample_env (some 9) (Routes.list_messages sample_id absent absent) 10 sample_db
      (λ user_id e. rw (← some-injective _ _ e) refl)
      (((λ e. omega arith), ((λ e. omega arith), tt)), (((λ e. omega arith), tt), (tt, tt)))
      (((λ e. omega arith), ((λ e. omega arith), tt)), (((λ e. omega arith), tt), (tt, tt)))
      (omega arith)

abbrev sample_file : UploadedFile
sample_file = record {
  originalname = codes "../evil.html";
  mimetype = codes "image/png";
  size = 12;
}

object_path-IsSafe_example :
    IsSafePath (codes "g") (codes "u") (object_path (λ t. t) (codes "g") (codes "u") sample_file)
object_path-IsSafe_example = object_path-IsSafe (λ t. t) (codes "g") (codes "u") sample_file refl

object_path_evil : object_path (λ t. t) (codes "g") (codes "u") sample_file ≡ codes "g/u-_evil.png"
unfolding object_path text_eq
object_path_evil = refl

abbrev pub letters : ℕ → Text
letters zero = []
letters (suc n) = 104 ∷ letters n

handle-upload_file_example :
    create_message_dto sample_validators (string (letters 4001)) ≡ err invalid
unfolding upload is_uuid trim
handle-upload_file_example =
    (handle-upload_file sample_env 1 sample_id (letters 4001) sample_file
      (record {
        url = codes "/api/uploads/" ++ object_path (λ t. t) sample_id.raw (codes "u") sample_file;
        name = sample_file.originalname;
        mime = sample_file.mimetype;
        size = 12;
      })
      (sample_member 100 1 owner) sample_db refl refl refl refl refl (omega arith)).1
