-- ===== src/Storage/Types.antt =====
-- crates/oxide-ssh-core/src/storage.rs: the stored data and the errors. Of an error's payload the
-- paths and the sources from serde_json and std::io are left out.
use oxide_ssh.Prelude.{ℕ, List, []}
use oxide_ssh.Model.Types.{
  Text, ProfileId, TagId, AppSettings, default_settings, ConnectionProfile, Tag, Endpoint,
}
use oxide_ssh.Model.Validate.{TagValidationError, ProfileValidationError}

abbrev pub current_schema : ℕ
current_schema = 1

pub record AppConfig : Type 0 where
  pub schema_version : ℕ
  pub settings : AppSettings
  pub profiles : List ConnectionProfile
  pub tags : List Tag

-- The `Default` of the source.
unfoldable pub default_config : AppConfig
default_config = record {
  schema_version = current_schema;
  settings = default_settings;
  profiles = [];
  tags = [];
}

pub record KnownHostEntry : Type 0 where
  pub host : Text
  pub port : ℕ
  pub algorithm : Text
  pub public_key : Text
  pub fingerprint_sha256 : Text
  pub accepted_at_unix : ℕ

pub record KnownHosts : Type 0 where
  pub schema_version : ℕ
  pub hosts : List KnownHostEntry

unfoldable pub default_known_hosts : KnownHosts
default_known_hosts = record { schema_version = current_schema; hosts = [] }

abbrev pub endpoint_of : KnownHostEntry → Endpoint
endpoint_of e = record { host = e.host; port = e.port }

pub data StorageError : Type 0 where
  unsupported_schema : ℕ → StorageError
  corrupt io serialize invalid_endpoint : StorageError
  duplicate_profile : ProfileId → StorageError
  duplicate_tag : TagId → StorageError
  duplicate_tag_name : Text → StorageError
  unknown_tag_ref : ProfileId → TagId → StorageError
  invalid_credential_ref : ProfileId → StorageError
  host_key_conflict : StorageError
  invalid_profile : ProfileValidationError → StorageError
  invalid_tag : TagValidationError → StorageError
