-- ===== src/Schema.antt =====
-- backend/prisma/schema.prisma: the tables. An id is the number that its uuid is, an instant is
-- the number of its milliseconds; a table is the list of its rows.
use internship_project.Base.{ℕ, Text, List, Option, Bool, true, false}

pub data AuthProvider : Type 0 where
  local google : AuthProvider

pub data MemberRole : Type 0 where
  owner admin member : MemberRole

pub data MessageType : Type 0 where
  user system ai_summary : MessageType

pub record User : Type 0 where
  pub id : ℕ
  pub email : Text
  pub password : Option Text
  pub name : Text
  pub provider : AuthProvider
  pub provider_id : Option Text
  pub created_at : ℕ

pub record Group : Type 0 where
  pub id : ℕ
  pub name : Text
  pub created_by : ℕ
  pub created_at : ℕ

pub record GroupMember : Type 0 where
  pub id : ℕ
  pub group_id : ℕ
  pub user_id : ℕ
  pub role : MemberRole
  pub joined_at : ℕ
  pub last_read_at : Option ℕ

pub record Message : Type 0 where
  pub id : ℕ
  pub group_id : ℕ
  pub sender_id : Option ℕ
  pub content : Text
  pub type : MessageType
  pub created_at : ℕ
  pub edited_at : Option ℕ
  pub deleted_at : Option ℕ
  pub attachment_url : Option Text
  pub attachment_name : Option Text
  pub attachment_mime : Option Text

pub record RefreshToken : Type 0 where
  pub id : ℕ
  pub user_id : ℕ
  pub token_hash : ℕ
  pub family_id : ℕ
  pub expires_at : ℕ
  pub revoked_at : Option ℕ

pub record Reaction : Type 0 where
  pub id : ℕ
  pub message_id : ℕ
  pub user_id : ℕ
  pub emoji : Text

pub record Db : Type 0 where
  pub users : List User
  pub groups : List Group
  pub members : List GroupMember
  pub messages : List Message
  pub tokens : List RefreshToken
  pub reactions : List Reaction

-- `role === MemberRole.OWNER`, and `type === MessageType.USER` or `AI_SUMMARY`.
abbrev pub is_owner_role : MemberRole → Bool
is_owner_role owner = true
is_owner_role admin = false
is_owner_role member = false

abbrev pub is_user_type : MessageType → Bool
is_user_type user = true
is_user_type system = false
is_user_type ai_summary = false

abbrev pub is_summary_type : MessageType → Bool
is_summary_type user = false
is_summary_type system = false
is_summary_type ai_summary = true
