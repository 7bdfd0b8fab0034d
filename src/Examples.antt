-- ===== src/Examples.antt =====
-- The data of the examples: one group of three members, three messages, one session.
mod GroupCases
mod MessageCases
mod TokenCases
mod ReactionCases
mod SummaryCases
mod ChatCases
mod HttpCases
mod AccountCases
mod ClientCases
mod RouteCases
mod TabCases
mod ConfigCases
mod ComposerCases
mod PanelCases
mod OnlineCases
use internship_project.Base.{ℕ, List, [], ◌∷◌, Option, none, some, Text, codes}
use internship_project.Schema.{
  local, MemberRole, owner, member, user, User, Group, GroupMember, Message, RefreshToken, Db,
}
use internship_project.Events.{RequestId}

abbrev pub sample_user : ℕ → User
sample_user id = record {
  id = id;
  email = codes "a@b.c";
  password = none;
  name = codes "Ann";
  provider = local;
  provider_id = none;
  created_at = 0;
}

abbrev pub sample_group : Group
sample_group = record { id = 10; name = codes "Team"; created_by = 1; created_at = 0 }

abbrev pub sample_member : (id user_id : ℕ) → MemberRole → GroupMember
sample_member id user_id role = record {
  id = id;
  group_id = 10;
  user_id = user_id;
  role = role;
  joined_at = id;
  last_read_at = none;
}

abbrev pub sample_message : (id now : ℕ) → Message
sample_message id now = record {
  id = id;
  group_id = 10;
  sender_id = some 1;
  content = codes "hi";
  type = user;
  created_at = now;
  edited_at = none;
  deleted_at = none;
  attachment_url = none;
  attachment_name = none;
  attachment_mime = none;
}

abbrev pub sample_token : RefreshToken
sample_token = record {
  id = 300;
  user_id = 1;
  token_hash = 7;
  family_id = 400;
  expires_at = 1000;
  revoked_at = none;
}

-- Two of the messages share an instant.
abbrev pub sample_db : Db
sample_db = record {
  users = sample_user 1 ∷ sample_user 2 ∷ sample_user 3 ∷ [];
  groups = sample_group ∷ [];
  members =
      sample_member 100 1 owner ∷ sample_member 101 2 member ∷ sample_member 102 3 member ∷ [];
  messages = sample_message 200 5 ∷ sample_message 201 5 ∷ sample_message 202 6 ∷ [];
  tokens = sample_token ∷ [];
  reactions = [];
}

abbrev pub sample_id : RequestId
sample_id = record { raw = codes "0190a000-0000-7000-8000-00000000000a"; value = 10 }
