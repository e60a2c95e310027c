-- ===== src/Storage/Files.antt =====
-- crates/oxide-ssh-core/src/storage.rs: `read_versioned`, `guard_existing` and `atomic_write`, on the
-- content of one file; `none` is a file that is not there. serde_json is a parameter, and what the
-- system does on a call is an argument of it.
use oxide_ssh.Prelude.{
  ℕ, Bool, not, [], ◌∷◌, ◌++◌, Option, none, some, Result, ok, err, ◌==◌, if◌then◌else◌, is_some,
  fail_if, ok_or, ◌>>=◌, ◌>>◌,
}
use oxide_ssh.Input.Keys.{Bytes}
use oxide_ssh.Storage.Types.{
  StorageError, unsupported_schema, corrupt, io, serialize, current_schema,
}

abbrev pub File : Type 0
File = Option Bytes

-- `from_slice` for the probe and for the data, `to_writer_pretty` for the data.
pub record Codec (A : Type 0) : Type 0 where
  pub probe : Bytes → Option ℕ
  pub decode : Bytes → Option A
  pub encode : A → Option Bytes

-- Which steps the system lets pass in a call: the test that the file exists, the read of a file
-- that is there, the new temporary file with its mode, its content on the disk and in place of the
-- old file, and at last the directory on the disk.
pub record Io : Type 0 where
  pub exists_ok : Bool
  pub read_ok : Bool
  pub create_ok : Bool
  pub replace_ok : Bool
  pub sync_ok : Bool

module _ {A : Type 0} ⦃codec : Codec A⦄ where
  -- The function behind the read.
  unfoldable pub parse : Bytes → Result StorageError A
  parse bytes = do
    version ← ok_or (codec.probe bytes) corrupt
    fail_if (not (version == current_schema)) (unsupported_schema version)
    ok_or (codec.decode bytes) corrupt

  unfoldable pub read_versioned : Io → File → A → Result StorageError A
  unfolding parse
  read_versioned sys none default = ok default
  read_versioned sys (some bytes) default = if sys.read_ok then parse bytes else err io

  unfoldable pub guard_existing : Io → File → A → Result StorageError (Unit {0})
  guard_existing sys file default = do
    fail_if (not sys.exists_ok) io
    if is_some file then (read_versioned sys file default >>= λ a. ok tt) else ok tt

  -- The file after the call, and the answer. The last step can fail when the new content stands.
  unfoldable pub atomic_write : Io → File → A → File × Result StorageError (Unit {0})
  atomic_write sys file value =
      if not sys.create_ok then (file, err io) else elim (codec.encode value) [
        | none ↦ (file, err serialize)
        | some bytes ↦
            if not sys.replace_ok
            then (file, err io)
            else (some (bytes ++ 0x0a ∷ []), fail_if (not sys.sync_ok) io)
      ]
