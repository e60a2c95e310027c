-- ===== src/Desktop/StateSteps.antt =====
-- crates/oxide-ssh-desktop/src/state/mod.rs: the methods of `AppState`, call after call, and writes of its
-- files by others.
use oxide_ssh.Prelude.{
  ◌==◌, true, Option, some, Result, ok, err, any, Bool-cases, ◌≡◌, refl, sym, ap, ◌∙◌, subst, inl,
  inr,
}
use oxide_ssh.Model.Types.{
  Text, TagId, Tag, TagColor, Endpoint, LocaleSetting, ThemeSetting, NewTabAction,
}
use oxide_ssh.Model.Validate.{Texts}
use oxide_ssh.Model.Text.{trim}
use oxide_ssh.Storage.Types.{AppConfig, KnownHosts, StorageError}
use oxide_ssh.Storage.Files.{Codec, Io}
use oxide_ssh.Storage.FileLaws.{IsFaithful}
use oxide_ssh.Storage.Store.{
  AppStore, load_config, save_config, load_known_hosts, delete_at, delete_read,
}
use oxide_ssh.Storage.Store as Store
use oxide_ssh.Desktop.Filter.{default_filter, TagFilter}
use oxide_ssh.Desktop.State.{
  AppState, ready, set_search_query, toggle_tag_filter, toggle_untagged_filter, clear_tag_filter,
  with_tag, recolored, without_tag, with_locale, with_theme, with_action, save_change, create_tag,
  update_tag, delete_tag, set_locale, set_theme, set_new_tab_action, reload_config,
  reload_known_hosts, delete_known_host, reloaded, ready_with, load,
}
use oxide_ssh.Desktop.StateLaws.{
  toggle_tag-IsExclusive, toggle_untagged-IsExclusive, IsExclusive, IsValid, load_again,
  answering-state, unfiltered-IsValid, reloaded-IsValid, reloaded_hosts-IsValid, host_file_left,
  host_deleted-IsValid, save_change-IsValid,
}

module _ ⦃texts : Texts⦄ ⦃configs : Codec AppConfig⦄ ⦃hosts : Codec KnownHosts⦄ where
  -- A call of one of the state's methods, with what the system lets pass in it; or a write of the files by
  -- another holder of the store, such as a transaction on a profile, and a reload that succeeds.
  pub data Step : AppState → AppState → Type 0 where
    searched : {s : AppState} (query : Text) → Step s (set_search_query s query)
    tag_toggled : {s : AppState} (id : TagId) → Step s (toggle_tag_filter s id)
    untagged_toggled : {s : AppState} → Step s (toggle_untagged_filter s)
    cleared : {s : AppState} → Step s (clear_tag_filter s)
    tag_created :
        {s : AppState} (sys : Io)
        → sys.sync_ok ≡ true
        → (fresh : TagId) (name : Text) (color : Option TagColor)
        → Step s (create_tag sys s fresh name color).0
    tag_updated :
        {s : AppState} (sys : Io)
        → sys.sync_ok ≡ true
        → (id : TagId) (name : Text) (color : Option TagColor)
        → Step s (update_tag sys s id name color).0
    tag_deleted :
        {s : AppState} (sys : Io)
        → sys.sync_ok ≡ true
        → (id : TagId) → Step s (delete_tag sys s id).0
    locale_set :
        {s : AppState} (sys : Io)
        → sys.sync_ok ≡ true
        → (locale : LocaleSetting) → Step s (set_locale sys s locale).0
    theme_set :
        {s : AppState} (sys : Io)
        → sys.sync_ok ≡ true
        → (theme : ThemeSetting) → Step s (set_theme sys s theme).0
    action_set :
        {s : AppState} (sys : Io)
        → sys.sync_ok ≡ true
        → (action : NewTabAction) → Step s (set_new_tab_action sys s action).0
    config_reloaded : {s : AppState} (sys : Io) → Step s (reload_config sys s).0
    rewritten :
        {s : AppState} (sys : Io) (store : AppStore)
        → (reload_config sys (record s { store = store })).1 ≡ ok tt
        → Step s (reload_config sys (record s { store = store })).0
    hosts_reloaded : {s : AppState} (sys : Io) → Step s (reload_known_hosts sys s).0
    host_removed :
        {s : AppState} (sys again : Io) (endpoint : Endpoint)
        → Step s (delete_known_host sys again s endpoint).0

  -- A state that a window can have: loaded, and changed by calls.
  pub data Run : AppState → Type 0 where
    loaded :
        (sys again : Io) (store : AppStore) (s : AppState)
        → load sys again (some store) ≡ ready s
        → Run s
    called : {s s' : AppState} → Run s → Step s s' → Run s'

  module _ (faithful : IsFaithful configs (λ c. c.schema_version)) where
    rewritten-IsValid :
        (s : AppState) (r : Result StorageError AppConfig)
        → ((c : AppConfig)
            → r ≡ ok c
            → (next : Io) → next.read_ok ≡ true
            → load_config next s.store ≡ ok c)
        → (reloaded s r).1 ≡ ok tt
        → IsExclusive s.tag_filter
        → IsValid (reloaded s r).0
    rewritten-IsValid s (ok c) read done x = record { in_sync = read c refl; exclusive = x }
    rewritten-IsValid s (err e) read done x = cc

    Step-IsValid : {s s' : AppState} → IsValid s → Step s s' → IsValid s'
    unfolding set_search_query toggle_tag_filter toggle_untagged_filter clear_tag_filter create_tag
        update_tag delete_tag set_locale set_theme set_new_tab_action reload_config
        reload_known_hosts delete_known_host
    Step-IsValid v (searched query) = record { in_sync = v.in_sync; exclusive = v.exclusive }
    Step-IsValid {s = s} v (tag_toggled id) = record {
      in_sync = v.in_sync;
      exclusive = toggle_tag-IsExclusive s.tag_filter id v.exclusive;
    }
    Step-IsValid {s = s} v untagged_toggled = record {
      in_sync = v.in_sync;
      exclusive = toggle_untagged-IsExclusive s.tag_filter v.exclusive;
    }
    Step-IsValid v cleared = record { in_sync = v.in_sync; exclusive = λ h. refl }
    Step-IsValid {s = s} v (tag_created sys synced fresh name color) =
        let t : Tag = record { id = fresh; name = trim name; color = color } in
        subst IsValid (sym (answering-state t (save_change sys s (with_tag s.config t))))
          (save_change-IsValid faithful sys s (with_tag s.config t) synced v)
    Step-IsValid {s = s} v (tag_updated sys synced id name color) =
        elim (Bool-cases (any (λ t. t.id == id) s.config.tags)) [
          | inl known ↦
              rw known
                (save_change-IsValid faithful sys s (recolored s.config id name color) synced v)
          | inr unknown ↦ rw unknown v
        ]
    Step-IsValid {s = s} v (tag_deleted sys synced id) =
        unfiltered-IsValid id (save_change sys s (without_tag s.config id))
          (save_change-IsValid faithful sys s (without_tag s.config id) synced v)
    Step-IsValid {s = s} v (locale_set sys synced locale) =
        save_change-IsValid faithful sys s (with_locale s.config locale) synced v
    Step-IsValid {s = s} v (theme_set sys synced theme) =
        save_change-IsValid faithful sys s (with_theme s.config theme) synced v
    Step-IsValid {s = s} v (action_set sys synced action) =
        save_change-IsValid faithful sys s (with_action s.config action) synced v
    Step-IsValid {s = s} v (config_reloaded sys) =
        reloaded-IsValid s (load_config sys s.store)
          (λ c h next r. load_again sys next s.store c h r) v
    Step-IsValid {s = s} v (rewritten sys store done) =
        rewritten-IsValid (record s { store = store }) (load_config sys store)
          (λ c h next r. load_again sys next store c h r) done v.exclusive
    Step-IsValid {s = s} v (hosts_reloaded sys) =
        reloaded_hosts-IsValid s (load_known_hosts sys s.store) v
    Step-IsValid {s = s} v (host_removed sys again endpoint) =
        host_deleted-IsValid again s (Store.delete_known_host sys s.store endpoint).0
          (Store.delete_known_host sys s.store endpoint).1 (host_file_left sys s.store endpoint) v

    ready_state :
        (store : AppStore) (config : Result StorageError AppConfig)
        (known : Result StorageError KnownHosts) (s : AppState)
        → ready_with store config known ≡ ready s
        → (config ≡ ok s.config) × (s.store ≡ store) × (s.tag_filter ≡ default_filter)
    ready_state store (err e) known s h = cc
    ready_state store (ok config) (err e) s h = cc
    ready_state store (ok config) (ok known) s h =
        let e = sym (ready_inj h) in
        (
          ap (λ (t : AppState). ok t.config) (sym e),
          ap (λ (t : AppState). t.store) e,
          ap (λ (t : AppState). t.tag_filter) e,
        )
      where
        ready_inj : {a b : AppState} → ready a ≡ ready b → a ≡ b
        ready_inj h = cc

    loaded-IsValid :
        (sys again : Io) (store : AppStore) (s : AppState)
        → load sys again (some store) ≡ ready s
        → IsValid s
    unfolding load
    loaded-IsValid sys again store s h =
        let (config, same, filter) =
          ready_state store (load_config sys store) (load_known_hosts again store) s h in
        record {
          in_sync =
              λ next r. ap (load_config next) same ∙ load_again sys next store s.config config r;
          exclusive = λ u. ap (λ (f : TagFilter). f.tags) filter;
        }

    -- Whatever methods of `AppState` are called after it was loaded, and whether they succeed or fail,
    -- it stays in step with its file: a load that can read it gives the configuration that the state
    -- shows. Others may write the files too, where a reload that succeeds follows each such write
    -- before anything else. And the filter never has tags beside the choice of profiles
    -- without tags. The calls that write bring the directory to the disk, and the format of the file
    -- reads back what it writes.
    pub Run-IsValid : {s : AppState} → Run s → IsValid s
    Run-IsValid (loaded sys again store s h) = loaded-IsValid sys again store s h
    Run-IsValid (called r step) = Step-IsValid (Run-IsValid r) step
