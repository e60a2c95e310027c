-- ===== src/Desktop/StateLaws.antt =====
-- The state's configuration is what the next load gives, and its filter has one side at most.
use oxide_ssh.Prelude.{
  Result-cases, Bool, true, false, not, [], none, some, Result, ok, err, fail_if, Bool-cases, ◌≡◌,
  refl, sym, ap, ◌∙◌, subst, ◌⊎◌, inl, inr, ◌>>=◌, ◌>>◌,
}
use oxide_ssh.Model.Types.{TagId, Endpoint}
use oxide_ssh.Model.Validate.{Texts}
use oxide_ssh.Storage.Types.{
  AppConfig, KnownHosts, StorageError, io, default_config, default_known_hosts,
}
use oxide_ssh.Storage.Config.{canonicalize_endpoint, validate_config, prune_dangling_tag_refs}
use oxide_ssh.Storage.Files.{Codec, Io, read_versioned, File}
use oxide_ssh.Storage.FileLaws.{IsFaithful}
use oxide_ssh.Storage.Store.{
  AppStore, load_config, save_config, load_known_hosts, delete_at, delete_read,
}
use oxide_ssh.Storage.Store as Store
use oxide_ssh.Storage.StoreLaws.{save_config-cases}
use oxide_ssh.Desktop.Filter.{TagFilter, has, removed, toggle_tag, toggle_untagged}
use oxide_ssh.Desktop.State.{
  AppState, saved, answering, unfiltered, reloaded, reloaded_hosts, save_change, host_deleted,
}

abbrev pub IsExclusive : TagFilter → Type 0
IsExclusive f = f.untagged ≡ true → f.tags ≡ []

pub toggle_tag-IsExclusive :
    (f : TagFilter) (id : TagId) → IsExclusive f → IsExclusive (toggle_tag f id)
unfolding toggle_tag
toggle_tag-IsExclusive f id x = elim (Bool-cases (has f.tags id)) [
  | inl there ↦ rw there (λ h. ap (λ ts. removed ts id) (x h))
  | inr new ↦ rw new (λ h. cc)
]

pub toggle_untagged-IsExclusive : (f : TagFilter) → IsExclusive f → IsExclusive (toggle_untagged f)
unfolding toggle_untagged
toggle_untagged-IsExclusive f x = elim (Bool-cases f.untagged) [
  | inl on ↦ rw on (λ h. cc)
  | inr off ↦ rw off (λ h. refl)
]

module _ ⦃texts : Texts⦄ ⦃configs : Codec AppConfig⦄ where
  -- Any load that can read the file gives the configuration that the state shows.
  abbrev pub InSync : AppState → Type 0
  InSync s = (next : Io) → next.read_ok ≡ true → load_config next s.store ≡ ok s.config

  pub record IsValid (s : AppState) : Type 0 where
    pub in_sync : InSync s
    pub exclusive : IsExclusive s.tag_filter

  -- A read that succeeded tells what any other read gives.
  read_again :
      (sys next : Io) (file : File) (c : AppConfig)
      → read_versioned sys file default_config ≡ ok c
      → next.read_ok ≡ true
      → read_versioned next file default_config ≡ ok c
  unfolding read_versioned
  read_again sys next none c h r = h
  read_again sys next (some bytes) c h r = elim (Bool-cases sys.read_ok) [
    | inl could ↦ rw r (rw could at h)
    | inr not_read ↦ absurd (err_is_no_ok (rw not_read at h))
  ]
    where
      err_is_no_ok :
          {e : StorageError} {a : AppConfig}
          → ¬ (◌≡◌ {A = Result StorageError AppConfig} (err e) (ok a))
      err_is_no_ok h = cc

  pub load_again :
      (sys next : Io) (store : AppStore) (c : AppConfig)
      → load_config sys store ≡ ok c
      → next.read_ok ≡ true
      → load_config next store ≡ ok c
  unfolding load_config
  load_again sys next store c h r =
      elim (Result-cases (read_versioned sys store.config default_config)) [
        | inl (raw, read) ↦
            let same = read_again sys next store.config raw read r in rw same (rw read at h)
        | inr (e, failed) ↦ absurd (err_is_no_ok (rw failed at h))
      ]
    where
      err_is_no_ok :
          {e : StorageError} {a : AppConfig}
          → ¬ (◌≡◌ {A = Result StorageError AppConfig} (err e) (ok a))
      err_is_no_ok h = cc

  saved-IsValid :
      (s : AppState) (c : AppConfig) (store : AppStore) (answer : Result StorageError (Unit {0}))
      → ((store ≡ s.store) × (e : StorageError) × (answer ≡ err e))
        ⊎ (((next : Io) → next.read_ok ≡ true → load_config next store ≡ ok c) × (answer ≡ ok tt))
      → IsValid s
      → IsValid (saved s c (store, answer)).0
  saved-IsValid s c store (ok u) (inl (same, e, failed)) v = cc
  saved-IsValid s c store (ok u) (inr new) v = record { in_sync = new.0; exclusive = v.exclusive }
  saved-IsValid s c store (err e) (inl (same, f, failed)) v = record {
    in_sync = λ next r. ap (load_config next) same ∙ v.in_sync next r;
    exclusive = v.exclusive;
  }
  saved-IsValid s c store (err e) (inr new) v = let bad : err e ≡ ok tt = new.1 in cc

  pub answering-state :
      {A : Type 0} (a : A) (x : AppState × Result StorageError (Unit {0})) → (answering a x).0 ≡ x.0
  answering-state a (s, ok u) = refl
  answering-state a (s, err e) = refl

  removed_still :
      (f : TagFilter) (id : TagId)
      → IsExclusive f
      → IsExclusive (record f { tags = removed f.tags id })
  removed_still f id x h = ap (λ ts. removed ts id) (x h)

  pub unfiltered-IsValid :
      (id : TagId) (x : AppState × Result StorageError (Unit {0}))
      → IsValid x.0
      → IsValid (unfiltered id x).0
  unfiltered-IsValid id (s, ok u) v = record {
    in_sync = v.in_sync;
    exclusive = removed_still s.tag_filter id v.exclusive;
  }
  unfiltered-IsValid id (s, err e) v = v

  module _ ⦃hosts : Codec KnownHosts⦄ where
    pub reloaded-IsValid :
        (s : AppState) (r : Result StorageError AppConfig)
        → ((c : AppConfig)
            → r ≡ ok c
            → (next : Io) → next.read_ok ≡ true
            → load_config next s.store ≡ ok c)
        → IsValid s
        → IsValid (reloaded s r).0
    reloaded-IsValid s (ok c) read v = record { in_sync = read c refl; exclusive = v.exclusive }
    reloaded-IsValid s (err e) read v = v

    pub reloaded_hosts-IsValid :
        (s : AppState) (r : Result StorageError KnownHosts)
        → IsValid s
        → IsValid (reloaded_hosts s r).0
    reloaded_hosts-IsValid s (ok known) v = record { in_sync = v.in_sync; exclusive = v.exclusive }
    reloaded_hosts-IsValid s (err e) v = v

    -- Deleting a known host leaves the other file alone.
    config_left :
        (sys : Io) (store : AppStore) (read : Result StorageError KnownHosts)
        (endpoint : Result StorageError Endpoint)
        → (delete_read sys store read endpoint).0.config ≡ store.config
    config_left sys store (err e) endpoint = refl
    config_left sys store (ok known) (err e) = refl
    config_left sys store (ok known) (ok endpoint) = refl

    pub host_file_left :
        (sys : Io) (store : AppStore) (endpoint : Endpoint)
        → (Store.delete_known_host sys store endpoint).0.config ≡ store.config
    unfolding Store.delete_known_host
    host_file_left sys store endpoint =
        config_left sys store (read_versioned sys store.known_hosts default_known_hosts)
          (canonicalize_endpoint endpoint)

    moved :
        (s : AppState) (store : AppStore)
        → store.config ≡ s.store.config
        → IsValid s
        → IsValid (record s { store = store })
    unfolding load_config
    moved s store same v = record {
      in_sync = λ next r.
          ap (λ file. read_versioned next file default_config >>= λ config. load_rest config) same
          ∙ v.in_sync next r;
      exclusive = v.exclusive;
    }
      where
        load_rest : AppConfig → Result StorageError AppConfig
        load_rest config =
            validate_config (prune_dangling_tag_refs config) >> ok (prune_dangling_tag_refs config)

    pub host_deleted-IsValid :
        (again : Io) (s : AppState) (store : AppStore) (answer : Result StorageError Bool)
        → store.config ≡ s.store.config
        → IsValid s
        → IsValid (host_deleted again s (store, answer)).0
    host_deleted-IsValid again s store (err e) same v = moved s store same v
    host_deleted-IsValid again s store (ok false) same v = moved s store same v
    host_deleted-IsValid again s store (ok true) same v =
        let x = reloaded_hosts (record s { store = store }) (load_known_hosts again store) in
        subst IsValid (sym (answering-state true x)) (
          reloaded_hosts-IsValid (record s { store = store }) (load_known_hosts again store)
            (moved s store same v))

    module _ (faithful : IsFaithful configs (λ c. c.schema_version)) where
      pub save_change-IsValid :
          (sys : Io) (s : AppState) (c : AppConfig)
          → sys.sync_ok ≡ true
          → IsValid s
          → IsValid (save_change sys s c).0
      unfolding save_change
      save_change-IsValid sys s c synced v =
          let (store, answer) = save_config sys s.store c in
          let fine : fail_if (not sys.sync_ok) io ≡ ok tt = rw synced refl in
          elim (save_config-cases faithful sys s.store c) [
            | inl old ↦ saved-IsValid s c store answer (inl old) v
            | inr new ↦ saved-IsValid s c store answer (inr (new.0, new.1 ∙ fine)) v
          ]
