-- ===== src/Desktop/State.antt =====
-- crates/oxide-ssh-desktop/src/state/mod.rs: `AppState`. Its `store` is the content of the files, which
-- it shares with the other holders of the store.
use oxide_ssh.Prelude.{
  Bool, true, false, not, List, [], ◌∷◌, ◌++◌, Option, none, some, Result, ok, err, ◌==◌,
  if◌then◌else◌, map, find, any, retain, update_first,
}
use oxide_ssh.Model.Types.{
  Text, TagId, Tag, TagColor, ConnectionProfile, Endpoint, LocaleSetting, ThemeSetting,
  NewTabAction,
}
use oxide_ssh.Model.Text.{trim}
use oxide_ssh.Model.Validate.{Texts}
use oxide_ssh.Storage.Types.{AppConfig, KnownHosts, StorageError}
use oxide_ssh.Storage.Files.{Codec, Io}
use oxide_ssh.Storage.Store.{AppStore, load_config, save_config, load_known_hosts}
use oxide_ssh.Storage.Store as Store
use oxide_ssh.Desktop.Filter.{TagFilter, default_filter, has, removed, toggle_tag, toggle_untagged}

pub record AppState : Type 0 where
  pub store : AppStore
  pub config : AppConfig
  pub known_hosts : KnownHosts
  pub search_query : Text
  pub tag_filter : TagFilter

pub data AppLoadOutcome : Type 0 where
  ready : AppState → AppLoadOutcome
  recovery : AppLoadOutcome

unfoldable pub set_search_query : AppState → Text → AppState
set_search_query s query = record s { search_query = query }

unfoldable pub toggle_tag_filter : AppState → TagId → AppState
toggle_tag_filter s id = record s { tag_filter = toggle_tag s.tag_filter id }

unfoldable pub toggle_untagged_filter : AppState → AppState
toggle_untagged_filter s = record s { tag_filter = toggle_untagged s.tag_filter }

unfoldable pub clear_tag_filter : AppState → AppState
clear_tag_filter s = record s { tag_filter = default_filter }

abbrev pub tag : AppState → TagId → Option Tag
tag s id = find (λ t. t.id == id) s.config.tags

unfoldable pub profiles_with_tag : AppState → TagId → List ConnectionProfile
profiles_with_tag s id = retain (λ p. has p.tag_ids id) s.config.profiles

-- The configuration that each change saves.
abbrev pub with_tag : AppConfig → Tag → AppConfig
with_tag c t = record c { tags = c.tags ++ t ∷ [] }

abbrev pub recolored : AppConfig → TagId → Text → Option TagColor → AppConfig
recolored c id name color = record c {
  tags = update_first (λ t. t.id == id) (λ t. record t { name = trim name; color = color }) c.tags;
}

abbrev pub untagged_profile : TagId → ConnectionProfile → ConnectionProfile
untagged_profile id p = record p { tag_ids = removed p.tag_ids id }

abbrev pub without_tag : AppConfig → TagId → AppConfig
without_tag c id = record c {
  tags = retain (λ t. not (t.id == id)) c.tags;
  profiles = map (untagged_profile id) c.profiles;
}

abbrev pub with_locale : AppConfig → LocaleSetting → AppConfig
with_locale c locale = record c { settings = record c.settings { locale = locale } }

abbrev pub with_theme : AppConfig → ThemeSetting → AppConfig
with_theme c theme = record c { settings = record c.settings { theme = theme } }

abbrev pub with_action : AppConfig → NewTabAction → AppConfig
with_action c action = record c { settings = record c.settings { new_tab_action = action } }

-- `self.store.save_config(&config)?; self.config = config;`
abbrev pub saved :
    AppState
    → AppConfig
    → AppStore × Result StorageError (Unit {0})
    → AppState × Result StorageError (Unit {0})
saved s config (store, ok u) = (record s { store = store; config = config }, ok tt)
saved s config (store, err e) = (record s { store = store }, err e)

-- The answer of a call, with what the call returns on success.
abbrev pub answering :
    {A : Type 0} → A → AppState × Result StorageError (Unit {0}) → AppState × Result StorageError A
answering a (s, ok u) = (s, ok a)
answering a (s, err e) = (s, err e)

-- `self.tag_filter.tags.remove(&id)` behind the `?`.
abbrev pub unfiltered :
    TagId → AppState × Result StorageError (Unit {0}) → AppState × Result StorageError (Unit {0})
unfiltered id (s, ok u) =
    (record s { tag_filter = record s.tag_filter { tags = removed s.tag_filter.tags id } }, ok tt)
unfiltered id (s, err e) = (s, err e)

abbrev pub reloaded :
    AppState → Result StorageError AppConfig → AppState × Result StorageError (Unit {0})
reloaded s (ok config) = (record s { config = config }, ok tt)
reloaded s (err e) = (s, err e)

abbrev pub reloaded_hosts :
    AppState → Result StorageError KnownHosts → AppState × Result StorageError (Unit {0})
reloaded_hosts s (ok known) = (record s { known_hosts = known }, ok tt)
reloaded_hosts s (err e) = (s, err e)

module _ ⦃texts : Texts⦄ ⦃hosts : Codec KnownHosts⦄ where
  unfoldable pub reload_known_hosts : Io → AppState → AppState × Result StorageError (Unit {0})
  reload_known_hosts sys s = reloaded_hosts s (load_known_hosts sys s.store)

  -- The function behind the deletion; the second call of the system is for the reload.
  abbrev pub host_deleted :
      Io → AppState → AppStore × Result StorageError Bool → AppState × Result StorageError Bool
  host_deleted sys s (store, err e) = (record s { store = store }, err e)
  host_deleted sys s (store, ok false) = (record s { store = store }, ok false)
  host_deleted sys s (store, ok true) =
      answering true (reloaded_hosts (record s { store = store }) (load_known_hosts sys store))

  unfoldable pub delete_known_host :
      Io → Io → AppState → Endpoint → AppState × Result StorageError Bool
  delete_known_host sys again s endpoint =
      host_deleted again s (Store.delete_known_host sys s.store endpoint)

module _ ⦃texts : Texts⦄ ⦃configs : Codec AppConfig⦄ where
  unfoldable pub save_change : Io → AppState → AppConfig → AppState × Result StorageError (Unit {0})
  save_change sys s config = saved s config (save_config sys s.store config)

  -- `fresh` is the UUID of the new tag.
  unfoldable pub create_tag :
      Io → AppState → TagId → Text → Option TagColor → AppState × Result StorageError Tag
  unfolding save_change
  create_tag sys s fresh name color =
      let t : Tag = record { id = fresh; name = trim name; color = color } in
      answering t (save_change sys s (with_tag s.config t))

  -- An identifier with no tag is answered with success.
  unfoldable pub update_tag :
      Io → AppState → TagId → Text → Option TagColor → AppState × Result StorageError (Unit {0})
  unfolding save_change
  update_tag sys s id name color =
      if not (any (λ t. t.id == id) s.config.tags)
      then (s, ok tt)
      else save_change sys s (recolored s.config id name color)

  unfoldable pub delete_tag : Io → AppState → TagId → AppState × Result StorageError (Unit {0})
  unfolding save_change
  delete_tag sys s id = unfiltered id (save_change sys s (without_tag s.config id))

  unfoldable pub set_locale :
      Io → AppState → LocaleSetting → AppState × Result StorageError (Unit {0})
  unfolding save_change
  set_locale sys s locale = save_change sys s (with_locale s.config locale)

  unfoldable pub set_theme :
      Io → AppState → ThemeSetting → AppState × Result StorageError (Unit {0})
  unfolding save_change
  set_theme sys s theme = save_change sys s (with_theme s.config theme)

  unfoldable pub set_new_tab_action :
      Io → AppState → NewTabAction → AppState × Result StorageError (Unit {0})
  unfolding save_change
  set_new_tab_action sys s action = save_change sys s (with_action s.config action)

  unfoldable pub reload_config : Io → AppState → AppState × Result StorageError (Unit {0})
  reload_config sys s = reloaded s (load_config sys s.store)

  module _ ⦃hosts : Codec KnownHosts⦄ where
    abbrev pub ready_with :
        AppStore → Result StorageError AppConfig → Result StorageError KnownHosts → AppLoadOutcome
    ready_with store (err e) known = recovery
    ready_with store (ok config) (err e) = recovery
    ready_with store (ok config) (ok known) = ready (record {
      store = store;
      config = config;
      known_hosts = known;
      search_query = [];
      tag_filter = default_filter;
    })

    -- `none` is a store that could not be opened.
    unfoldable pub load : Io → Io → Option AppStore → AppLoadOutcome
    load sys again none = recovery
    load sys again (some store) =
        ready_with store (load_config sys store) (load_known_hosts again store)
