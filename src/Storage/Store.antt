-- ===== src/Storage/Store.antt =====
-- crates/oxide-ssh-core/src/storage.rs: `AppStore`. Each operation holds the lock of its file from
-- its first read to its last write, so it is one step on the two files.
use oxide_ssh.Prelude.{
  Bool, true, false, not, ◌&&◌, List, [], ◌∷◌, ◌++◌, Option, none, some, Result, ok, err, ◌==◌,
  if◌then◌else◌, find, retain, length, ◌>>=◌, ◌>>◌,
}
use oxide_ssh.Model.Types.{Endpoint}
use oxide_ssh.Model.Text.{text_eq}
use oxide_ssh.Model.Validate.{Texts}
use oxide_ssh.Storage.Types.{
  AppConfig, default_config, KnownHosts, default_known_hosts, KnownHostEntry, endpoint_of,
  StorageError, host_key_conflict,
}
use oxide_ssh.Storage.Config.{canonicalize_endpoint, validate_config, prune_dangling_tag_refs}
use oxide_ssh.Storage.Files.{File, Codec, Io, read_versioned, guard_existing, atomic_write}

pub record AppStore : Type 0 where
  pub config : File
  pub known_hosts : File

-- `host.host == endpoint.host && host.port == endpoint.port`.
abbrev pub is_at : Endpoint → KnownHostEntry → Bool
is_at e h = text_eq h.host e.host && h.port == e.port

abbrev pub same_key : KnownHostEntry → KnownHostEntry → Bool
same_key existing entry =
    text_eq existing.algorithm entry.algorithm
    && text_eq existing.public_key entry.public_key
    && text_eq existing.fingerprint_sha256 entry.fingerprint_sha256

abbrev pub at_endpoint : KnownHostEntry → Endpoint → KnownHostEntry
at_endpoint entry e = record entry { host = e.host; port = e.port }

abbrev pub with_hosts : KnownHosts → List KnownHostEntry → KnownHosts
with_hosts known hosts = record known { hosts = hosts }

abbrev pub set_config :
    AppStore → File × Result StorageError (Unit {0}) → AppStore × Result StorageError (Unit {0})
set_config s (file, answer) = (record s { config = file }, answer)

abbrev pub set_known_hosts : {A : Type 0} → AppStore → File × A → AppStore × A
set_known_hosts s (file, answer) = (record s { known_hosts = file }, answer)

module _ ⦃texts : Texts⦄ ⦃configs : Codec AppConfig⦄ where
  unfoldable pub load_config : Io → AppStore → Result StorageError AppConfig
  load_config sys s = do
    config ← read_versioned sys s.config default_config
    validate_config (prune_dangling_tag_refs config)
    ok (prune_dangling_tag_refs config)

  -- Writes the configuration if the answer before it is a success.
  abbrev pub write_config :
      Io
      → AppStore
      → AppConfig
      → Result StorageError (Unit {0})
      → AppStore × Result StorageError (Unit {0})
  write_config sys s config (err e) = (s, err e)
  write_config sys s config (ok u) = set_config s (atomic_write sys s.config config)

  unfoldable pub save_config : Io → AppStore → AppConfig → AppStore × Result StorageError (Unit {0})
  save_config sys s config =
      write_config sys s config
        (guard_existing sys s.config default_config >> validate_config config)

  -- The function behind its read.
  abbrev pub update_read :
      Io
      → AppStore
      → (AppConfig → AppConfig)
      → Result StorageError AppConfig
      → AppStore × Result StorageError (Unit {0})
  update_read sys s update (err e) = (s, err e)
  update_read sys s update (ok config) =
      write_config sys s (update config) (validate_config (update config))

  unfoldable pub update_config :
      Io → AppStore → (AppConfig → AppConfig) → AppStore × Result StorageError (Unit {0})
  update_config sys s update = update_read sys s update (read_versioned sys s.config default_config)

module _ ⦃texts : Texts⦄ ⦃hosts : Codec KnownHosts⦄ where
  unfoldable pub load_known_hosts : Io → AppStore → Result StorageError KnownHosts
  load_known_hosts sys s = read_versioned sys s.known_hosts default_known_hosts

  unfoldable pub known_host : Io → AppStore → Endpoint → Result StorageError (Option KnownHostEntry)
  unfolding load_known_hosts
  known_host sys s endpoint = do
    e ← canonicalize_endpoint endpoint
    known ← load_known_hosts sys s
    ok (find (is_at e) known.hosts)

  -- The function behind its search.
  abbrev pub accept_found :
      Io
      → File
      → KnownHosts
      → KnownHostEntry
      → Option KnownHostEntry
      → File × Result StorageError (Unit {0})
  accept_found sys file known entry (some existing) =
      (file, if same_key existing entry then ok tt else err host_key_conflict)
  accept_found sys file known entry none =
      atomic_write sys file (with_hosts known (known.hosts ++ entry ∷ []))

  -- The function from its search on, with the entry at its canonical endpoint.
  unfoldable pub accept_entry :
      Io → File → KnownHosts → KnownHostEntry → File × Result StorageError (Unit {0})
  accept_entry sys file known entry =
      accept_found sys file known entry (find (is_at (endpoint_of entry)) known.hosts)

  -- The function behind its read and the canonical form of the entry's endpoint.
  abbrev pub accept_read :
      Io
      → AppStore
      → KnownHostEntry
      → Result StorageError KnownHosts
      → Result StorageError Endpoint
      → AppStore × Result StorageError (Unit {0})
  accept_read sys s entry (err e) endpoint = (s, err e)
  accept_read sys s entry (ok known) (err e) = (s, err e)
  accept_read sys s entry (ok known) (ok endpoint) =
      set_known_hosts s (accept_entry sys s.known_hosts known (at_endpoint entry endpoint))

  unfoldable pub accept_host_key :
      Io → AppStore → KnownHostEntry → AppStore × Result StorageError (Unit {0})
  accept_host_key sys s entry =
      accept_read sys s entry (read_versioned sys s.known_hosts default_known_hosts)
        (canonicalize_endpoint (endpoint_of entry))

  -- `Ok(true)` behind the `?` of the write.
  abbrev deleted : File × Result StorageError (Unit {0}) → File × Result StorageError Bool
  deleted (file, ok u) = (file, ok true)
  deleted (file, err e) = (file, err e)

  -- The function from `retain` on.
  unfoldable pub delete_at : Io → File → KnownHosts → Endpoint → File × Result StorageError Bool
  delete_at sys file known endpoint =
      let left = retain (λ h. not (is_at endpoint h)) known.hosts in
      if length left == length known.hosts
      then (file, ok false)
      else deleted (atomic_write sys file (with_hosts known left))

  -- The function behind its read and the canonical form of the endpoint.
  abbrev pub delete_read :
      Io
      → AppStore
      → Result StorageError KnownHosts
      → Result StorageError Endpoint
      → AppStore × Result StorageError Bool
  delete_read sys s (err e) endpoint = (s, err e)
  delete_read sys s (ok known) (err e) = (s, err e)
  delete_read sys s (ok known) (ok endpoint) =
      set_known_hosts s (delete_at sys s.known_hosts known endpoint)

  unfoldable pub delete_known_host : Io → AppStore → Endpoint → AppStore × Result StorageError Bool
  delete_known_host sys s endpoint =
      delete_read sys s (read_versioned sys s.known_hosts default_known_hosts)
        (canonicalize_endpoint endpoint)
