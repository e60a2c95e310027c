-- ===== src/Model/Types.antt =====
-- crates/oxide-ssh-core/src/model.rs: identifiers, profiles, tags and settings.
-- An identifier is the number that its UUID is; a fresh one is an argument of the code that makes
-- it. A text is the list of its Unicode scalar values, a path the list of its units.
use oxide_ssh.Prelude.{ℕ, Bool, ◌&&◌, List, Option, ltb}

abbrev pub Uuid : Type 0
Uuid = ℕ

abbrev pub Text : Type 0
Text = List ℕ

abbrev pub ProfileId : Type 0
ProfileId = Uuid

abbrev pub SessionId : Type 0
SessionId = Uuid

abbrev pub TagId : Type 0
TagId = Uuid

pub data TagColor : Type 0 where
  red orange yellow green blue purple pink gray : TagColor

pub record Tag : Type 0 where
  pub id : TagId
  pub name : Text
  pub color : Option TagColor

pub record CredentialRef : Type 0 where
  pub key : Text

pub record Endpoint : Type 0 where
  pub host : Text
  pub port : ℕ

pub data AuthConfig : Type 0 where
  password : Option CredentialRef → AuthConfig
  private_key : Text → Option CredentialRef → AuthConfig
  agent : AuthConfig

pub record ConnectionProfile : Type 0 where
  pub id : ProfileId
  pub name : Text
  pub endpoint : Endpoint
  pub username : Text
  pub auth : AuthConfig
  pub tag_ids : List TagId

pub record TerminalSize : Type 0 where
  pub columns : ℕ
  pub rows : ℕ
  pub pixel_width : ℕ
  pub pixel_height : ℕ

unfoldable pub is_valid : TerminalSize → Bool
is_valid size = ltb 0 size.columns && ltb 0 size.rows

pub data LocaleSetting : Type 0 where
  system en_us zh_cn : LocaleSetting

pub data ThemeSetting : Type 0 where
  system light dark : ThemeSetting

pub data NewTabAction : Type 0 where
  add_connection local_terminal : NewTabAction

pub record AppSettings : Type 0 where
  pub locale : LocaleSetting
  pub theme : ThemeSetting
  pub new_tab_action : NewTabAction

-- Each `Default` of the source.
unfoldable pub default_settings : AppSettings
default_settings = record {
  locale = LocaleSetting.system;
  theme = ThemeSetting.system;
  new_tab_action = add_connection;
}
