-- ===== src/Storage/StoreLaws.antt =====
-- `load_config`, `save_config` and `update_config`: what is read, and what a write leaves.
use oxide_ssh.Prelude.{
  true, not, List, [], ◌∷◌, Result, ok, err, fail_if, map, retain-eq_self, All, ◌>>=◌, ◌>>◌,
  ok_of_then, ◌≡◌, refl, ap, ◌⊎◌, inl, inr,
}
use oxide_ssh.Model.Types.{TagId, ConnectionProfile}
use oxide_ssh.Model.Validate.{Texts}
use oxide_ssh.Storage.Types.{AppConfig, default_config, StorageError, io}
use oxide_ssh.Storage.Config.{prune_profile, prune_dangling_tag_refs, validate_config, has_uuid}
use oxide_ssh.Storage.Files.{Codec, Io, read_versioned, guard_existing, atomic_write}
use oxide_ssh.Storage.Store.{
  AppStore, load_config, write_config, save_config, update_read, update_config,
}
use oxide_ssh.Storage.ConfigLaws.{Fits, IsSound, validate_config-IsSound, tag_ids}
use oxide_ssh.Storage.FileLaws.{IsFaithful, write-cases}

module _ ⦃texts : Texts⦄ where
  prune_fit :
      (known : List TagId) (ps : List ConnectionProfile)
      → All (Fits known) ps
      → map (prune_profile known) ps ≡ ps
  unfolding prune_profile
  prune_fit known [] f = refl
  prune_fit known (p ∷ ps) f =
      rw (retain-eq_self (λ id. has_uuid id known) p.tag_ids f.0.refs, prune_fit known ps f.1) refl

  prune-IsSound : (c : AppConfig) → IsSound c → prune_dangling_tag_refs c ≡ c
  unfolding prune_dangling_tag_refs
  prune-IsSound c s = rw (prune_fit (tag_ids c.tags) c.profiles s.profiles_fit) refl

  module _ ⦃configs : Codec AppConfig⦄ where
    loaded :
        (read : Result StorageError AppConfig) (c : AppConfig)
        → (read >>= λ raw.
            (validate_config (prune_dangling_tag_refs raw) >> ok (prune_dangling_tag_refs raw)))
          ≡ ok c
        → validate_config c ≡ ok tt
    loaded (err e) c h = cc
    loaded (ok raw) c h =
        let (a, b) =
          ok_of_then (validate_config (prune_dangling_tag_refs raw))
            (ok (prune_dangling_tag_refs raw)) h in
        cc

    -- A configuration that `load_config` gives is sound, whatever the file holds.
    pub load_config-IsSound :
        (sys : Io) (s : AppStore) (c : AppConfig) → load_config sys s ≡ ok c → IsSound c
    unfolding load_config
    load_config-IsSound sys s c h =
        (validate_config-IsSound c).0 (loaded (read_versioned sys s.config default_config) c h)

    module _ (faithful : IsFaithful configs (λ c. c.schema_version)) where
      -- The outcomes of a write behind a validation.
      write-outcome :
          (sys : Io) (s : AppStore) (c : AppConfig)
          → validate_config c ≡ ok tt
          → let (file, answer) = atomic_write sys s.config c in
            ((file ≡ s.config) × (e : StorageError) × (answer ≡ err e))
            ⊎ (((next : Io)
                  → next.read_ok ≡ true
                  → load_config next (record s { config = file }) ≡ ok c)
                × (answer ≡ fail_if (not sys.sync_ok) io))
      unfolding load_config
      write-outcome sys s c v =
          let sound = (validate_config-IsSound c).0 v in
          elim (write-cases (λ x. x.schema_version) faithful sys s.config c sound.schema) [
            | inl old ↦ inl old
            | inr new ↦
                inr (
                  (λ next r. rw (new.0 next default_config r, prune-IsSound c sound, v) refl),
                  new.1,
                )
          ]

      stored :
          (sys : Io) (s : AppStore) (c : AppConfig) (v : Result StorageError (Unit {0}))
          → (v ≡ ok tt → validate_config c ≡ ok tt)
          → let (after, answer) = write_config sys s c v in
            ((after ≡ s) × (e : StorageError) × (answer ≡ err e))
            ⊎ (((next : Io) → next.read_ok ≡ true → load_config next after ≡ ok c)
                × (answer ≡ fail_if (not sys.sync_ok) io))
      stored sys s c (err e) valid = inl (refl, e, refl)
      stored sys s c (ok u) valid = elim (write-outcome sys s c (valid refl)) [
        | inl old ↦ inl (ap (λ f. record s { config = f }) old.0, old.1, old.2)
        | inr new ↦ inr new
      ]

      updated :
          (sys : Io) (s : AppStore) (update : AppConfig → AppConfig)
          (read : Result StorageError AppConfig)
          → let (after, answer) = update_read sys s update read in
            ((after ≡ s) × (e : StorageError) × (answer ≡ err e))
            ⊎ ((raw : AppConfig) × (read ≡ ok raw)
                × ((next : Io) → next.read_ok ≡ true → load_config next after ≡ ok (update raw))
                × (answer ≡ fail_if (not sys.sync_ok) io))
      updated sys s update (err e) = inl (refl, e, refl)
      updated sys s update (ok raw) =
          elim (stored sys s (update raw) (validate_config (update raw)) (λ k. k)) [
            | inl old ↦ inl old
            | inr new ↦ inr (raw, refl, new.0, new.1)
          ]

      -- An update, on every branch: it changes nothing and fails, or the next load that can read the
      -- file gives the configuration that was read with the update applied, and the call fails only
      -- if the directory could not be brought to the disk. The format of the file reads back what it
      -- writes.
      pub update_config-cases :
          (sys : Io) (s : AppStore) (update : AppConfig → AppConfig)
          → let (after, answer) = update_config sys s update in
            ((after ≡ s) × (e : StorageError) × (answer ≡ err e))
            ⊎ ((raw : AppConfig) × (read_versioned sys s.config default_config ≡ ok raw)
                × ((next : Io) → next.read_ok ≡ true → load_config next after ≡ ok (update raw))
                × (answer ≡ fail_if (not sys.sync_ok) io))
      unfolding update_config
      update_config-cases sys s update =
          updated sys s update (read_versioned sys s.config default_config)

      -- The same for `save_config`.
      pub save_config-cases :
          (sys : Io) (s : AppStore) (c : AppConfig)
          → let (after, answer) = save_config sys s c in
            ((after ≡ s) × (e : StorageError) × (answer ≡ err e))
            ⊎ (((next : Io) → next.read_ok ≡ true → load_config next after ≡ ok c)
                × (answer ≡ fail_if (not sys.sync_ok) io))
      unfolding save_config
      save_config-cases sys s c =
          stored sys s c (guard_existing sys s.config default_config >> validate_config c)
            (λ k. (ok_of_then (guard_existing sys s.config default_config) (validate_config c) k).1)

      -- Where `save_config` succeeds, the next load that can read the file gives what was saved. The
      -- format of the file reads back what it writes.
      pub load_config-save_config :
          (sys next : Io) (s : AppStore) (c : AppConfig)
          → (save_config sys s c).1 ≡ ok tt
          → next.read_ok ≡ true
          → load_config next (save_config sys s c).0 ≡ ok c
      load_config-save_config sys next s c h r = elim (save_config-cases sys s c) [
        | inl (same, e, failed) ↦ cc
        | inr new ↦ new.0 next r
      ]
