-- ===== src/Bodies.antt =====
-- backend/src/common/dto, messages/dto and groups/dto: what ValidationPipe lets through of a body
-- and of a query, and common/pipes/parse-uuid.pipe.ts. class-validator, class-transformer and the
-- Unicode tables of the engine are a parameter; unknown keys and the texts of the complaints are
-- left out.
use internship_project.Base.{
  ℕ, Bool, true, false, not, ◌&&◌, ◌||◌, List, [], ◌∷◌, Option, none, some, Text, leb, ◌==◌,
  if◌then◌else◌, trim,
}
use internship_project.Http.{
  Result, ok, err, Exception, http, violations, bad_request, or_throw, throw_if, ◌>>=◌, ◌>>◌,
}
use internship_project.Events.{RequestId}
use internship_project.Cursor.{Field, absent, string, other}
use internship_project.Uuid.{is_uuid}

pub record Validators : Type 0 where
  -- The length that @MinLength, @MaxLength and @Length measure: a surrogate pair is one.
  pub size : Text → ℕ
  -- @IsUUID() of any version.
  pub is_any_uuid : Text → Bool
  -- `Number(s)`, where that is a natural number.
  pub to_integer : Text → Option ℕ
  -- The code points of a text, \p{Extended_Pictographic} and \p{Emoji_Modifier}.
  pub code_points : Text → List ℕ
  pub is_pictographic : ℕ → Bool
  pub is_modifier : ℕ → Bool

abbrev pub default_page_size : ℕ
default_page_size = 20

abbrev pub max_page_size : ℕ
max_page_size = 100

abbrev pub group_name_max_length : ℕ
group_name_max_length = 80

abbrev pub content_max_length : ℕ
content_max_length = 4000

abbrev pub search_query_max_length : ℕ
search_query_max_length = 100

abbrev pub invalid : Exception
invalid = http 400 (violations []) "Bad Request Exception"

-- ParseUuidPipe.transform()
abbrev pub parse_uuid : RequestId → Result RequestId
parse_uuid id = do
  throw_if (not (is_uuid id.raw)) (bad_request "Invalid id: expected a UUID")
  ok id

module _ (v : Validators) where
  abbrev pub has_size : (low high : ℕ) → Text → Bool
  has_size low high t = leb low (v.size t) && leb (v.size t) high

  -- @Trim() @IsString() @MinLength(1) @MaxLength(high)
  abbrev pub trimmed_field : (high : ℕ) → Field → Result Text
  trimmed_field high absent = err invalid
  trimmed_field high other = err invalid
  trimmed_field high (string t) = if has_size 1 high (trim t) then ok (trim t) else err invalid

  -- CreateMessageDto and CreateGroupDto
  unfoldable pub create_message_dto : Field → Result Text
  create_message_dto = trimmed_field content_max_length

  unfoldable pub create_group_dto : Field → Result Text
  create_group_dto = trimmed_field group_name_max_length

  -- SearchMessagesDto
  unfoldable pub search_messages_dto : Field → Result Text
  search_messages_dto absent = err invalid
  search_messages_dto other = err invalid
  search_messages_dto (string t) =
      if has_size 1 search_query_max_length t then ok t else err invalid

  -- SINGLE_EMOJI, after its first pictograph; `joined` says that a joiner came last.
  abbrev emoji_rest : (joined : Bool) → List ℕ → Bool
  emoji_rest joined [] = not joined
  emoji_rest joined (c ∷ cs) =
      let after_joiner = v.is_pictographic c && emoji_rest false cs in
      let after_base =
        ((v.is_modifier c || (c == 0xFE0F)) && emoji_rest false cs)
        || ((c == 0x200D) && emoji_rest true cs) in
      if joined then after_joiner else after_base

  abbrev is_single_emoji : List ℕ → Bool
  is_single_emoji [] = false
  is_single_emoji (c ∷ cs) = v.is_pictographic c && emoji_rest false cs

  -- ToggleReactionDto
  unfoldable pub toggle_reaction_dto : Field → Result Text
  toggle_reaction_dto absent = err invalid
  toggle_reaction_dto other = err invalid
  toggle_reaction_dto (string t) =
      if has_size 1 16 t && is_single_emoji (v.code_points t) then ok t else err invalid

  -- TransferOwnershipDto; `none` is a body without a text there.
  unfoldable pub transfer_ownership_dto : Option RequestId → Result ℕ
  transfer_ownership_dto none = err invalid
  transfer_ownership_dto (some id) = if v.is_any_uuid id.raw then ok id.value else err invalid

  -- PaginationQueryDto
  abbrev page_limit : Field → Result ℕ
  page_limit absent = ok default_page_size
  page_limit other = err invalid
  page_limit (string t) = do
    n ← or_throw (v.to_integer t) invalid
    throw_if (not (leb 1 n && leb n max_page_size)) invalid
    ok n

  abbrev page_cursor : Field → Result (Option Text)
  page_cursor absent = ok none
  page_cursor (string t) = ok (some t)
  page_cursor other = err invalid

  unfoldable pub pagination_query_dto : (limit cursor : Field) → Result (ℕ × Option Text)
  pagination_query_dto limit cursor = do n ← page_limit limit; c ← page_cursor cursor; ok (n, c)
