-- ===== src/Storage.antt =====
-- backend/src/storage/storage.service.ts: under which name an upload is stored, and what is told of
-- it. The random uuid, `toLowerCase`, `encodeURI`, the configuration and the two backends' answers
-- are arguments.
pub mod Names
use internship_project.Base.{
  ℕ, ◌-◌, Bool, true, false, not, ◌&&◌, ◌||◌, List, [], ◌∷◌, ◌++◌, Option, none, some, Text, codes,
  text_eq, leb, ◌==◌, if◌then◌else◌, length, drop, any, or_default,
}
use internship_project.Http.{Result, ok, err, throw_http}

pub record UploadedFile : Type 0 where
  pub originalname : Text
  pub mimetype : Text
  pub size : ℕ

pub record StoredFile : Type 0 where
  pub url : Text
  pub name : Text
  pub mime : Text
  pub size : ℕ

abbrev dot : ℕ
dot = 46

abbrev underscore : ℕ
underscore = 95

abbrev pub slash : ℕ
slash = 47

-- `[\w-]`
abbrev pub is_word : ℕ → Bool
is_word c =
    (leb 48 c && leb c 57)
    || ((leb 65 c && leb c 90) || ((leb 97 c && leb c 122) || ((c == 95) || (c == 45))))

abbrev has_dot : Text → Bool
has_dot t = any (λ c. c == dot) t

-- `.replace(/\.[^.]*$/, '')`: the last dot and what follows it go.
unfoldable pub drop_extension : Text → Text
drop_extension [] = []
drop_extension (c ∷ t) = if (c == dot) && not (has_dot t) then [] else c ∷ drop_extension t

-- `.replace(/[^\w-]+/g, '_')`: each run of other units becomes one underscore; `inside` says
-- whether the unit before was one of a run.
unfoldable pub sanitise : (inside : Bool) → Text → Text
sanitise inside [] = []
sanitise inside (c ∷ t) =
    let word = c ∷ sanitise false t in
    let run = if inside then sanitise true t else underscore ∷ sanitise true t in
    if is_word c then word else run

-- `.slice(-80)`
abbrev pub max_stem : ℕ
max_stem = 80

abbrev last_units : ℕ → Text → Text
last_units n t = drop (length t - n) t

abbrev or_file : Text → Text
or_file [] = codes "file"
or_file (c ∷ t) = c ∷ t

unfoldable pub stem_of : Text → Text
unfolding drop_extension sanitise
stem_of originalname = or_file (last_units max_stem (sanitise false (drop_extension originalname)))

-- What a plain object answers for a key that it inherits, as text; the other inherited keys have
-- capitals, so no lower-case key is one of them.
abbrev inherited : Text → Option Text
inherited key =
    if text_eq key (codes "constructor")
    then some (codes "function Object() { [native code] }")
    else if text_eq key (codes "__proto__")
    then some (codes "[object Object]")
    else none

-- EXTENSION_FOR_MIME and FALLBACK_EXTENSION
unfoldable pub extension_for_mime : Text → Text
extension_for_mime mime =
    if text_eq mime (codes "image/png")
    then codes "png"
    else if text_eq mime (codes "image/jpeg") || text_eq mime (codes "image/jpg")
    then codes "jpg"
    else if text_eq mime (codes "image/gif")
    then codes "gif"
    else if text_eq mime (codes "image/webp")
    then codes "webp"
    else if text_eq mime (codes "application/pdf")
    then codes "pdf"
    else or_default (inherited mime) (codes "bin")

-- What the service reads of its surroundings: SUPABASE_URL without its trailing slash and
-- SUPABASE_BUCKET where the keys are set, and whether the Storage API accepted the bytes.
pub data Backend : Type 0 where
  supabase : (root bucket : Text) → (accepted : Bool) → Backend
  local_disk : Backend

-- `<groupId>/<uuid>-<stem>.<ext>`
unfoldable pub object_path : (to_lower : Text → Text) (group_id uuid : Text) → UploadedFile → Text
unfolding stem_of extension_for_mime
object_path to_lower group_id uuid file =
    group_id
    ++ (slash
        ∷ (uuid
            ++ (45
                ∷ (stem_of file.originalname
                    ++ (dot ∷ extension_for_mime (to_lower file.mimetype))))))

abbrev stored_at : Text → UploadedFile → Result StoredFile
stored_at url file =
    ok (record { url = url; name = file.originalname; mime = file.mimetype; size = file.size })

module _ (to_lower encode_uri : Text → Text) where
  -- upload(), uploadToSupabase() and uploadToLocal()
  abbrev store : Backend → Text → UploadedFile → Result StoredFile
  store (supabase root bucket false) path file = err (throw_http 503 "Upload failed")
  store (supabase root bucket true) path file =
      stored_at
        (root ++ (codes "/storage/v1/object/public/" ++ (bucket ++ (slash ∷ encode_uri path)))) file
  store local_disk path file = stored_at (codes "/api/uploads/" ++ path) file

  unfoldable pub upload : Backend → (group_id uuid : Text) → UploadedFile → Result StoredFile
  unfolding object_path
  upload backend group_id uuid file = store backend (object_path to_lower group_id uuid file) file
