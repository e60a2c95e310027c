-- ===== src/Desktop/SavingLaws.antt =====
-- crates/oxide-ssh-desktop/src/app/editor.rs: one transaction at a time.
use oxide_ssh.Prelude.{
  ℕ, zero, suc, ◌≡◌, refl, sym, subst, inl, inr, Bool, true, false, List, [], ◌∷◌, ◌++◌, Option,
  none, some, Result, ok, err, ◌==◌, get_elem?, erase_idx, Option-cases, ==_iff, append-nil,
  is_some, if◌then◌else◌,
}
use oxide_ssh.Model.Types.{ProfileId, ConnectionProfile}
use oxide_ssh.Model.Validate.{Texts}
use oxide_ssh.Storage.Types.{AppConfig, StorageError}
use oxide_ssh.Storage.Files.{Codec, Io}
use oxide_ssh.Storage.Store.{AppStore}
use oxide_ssh.Credentials.Types.{CredentialTransactionError, SaveProfileRequest, SaveProfileOutcome}
use oxide_ssh.Desktop.State.{AppState, reload_config}
use oxide_ssh.Desktop.Form.{AuthMethod, FormError, save_request}
use oxide_ssh.Desktop.Editor.{EditorId, ConnectionEditor}
use oxide_ssh.Desktop.View.{AppView, Task, save_profile}
use oxide_ssh.Desktop.Controls.{with_files}
use oxide_ssh.Desktop.Saving.{
  with_connect_secret, show_add_connection, show_edit_connection, cancel_editor, select_auth_method,
  save_requested, save_in, save_editor, saving_done, is_editor, close_saved, reread_saved,
  after_reload, profile_saved,
}

-- The transactions that a call started.
abbrev pub saves : List Task → List EditorId
saves [] = []
saves (save_profile id request ∷ ts) = id ∷ saves ts
saves (_ ∷ ts) = saves ts

-- What the user does with editors, and the answers to transactions, in any order.
pub data Action : Type 0 where
  add_connection : EditorId → ProfileId → Action
  edit_connection : EditorId → ConnectionProfile → Action
  choose_method : AuthMethod → Action
  cancel : Action
  save : Bool → Action
  answer : ℕ → Io → AppStore × Result CredentialTransactionError SaveProfileOutcome → Action

-- The invariant of the view and the transactions under way: at most one, which the view keeps.
abbrev pub IsOneSave : Option EditorId → List EditorId → Type 0
IsOneSave none flights = flights ≡ []
IsOneSave (some id) flights = flights ≡ id ∷ []

found_in_none : {id : EditorId} (i : ℕ) → ¬ (get_elem? [] i ≡ some id)
found_in_none i h = cc

found_first : {s id : EditorId} → get_elem? (s ∷ []) 0 ≡ some id → s ≡ id
found_first h = cc

-- The answer to the transaction at a place.
freed :
    (saving : Option EditorId) (flights : List EditorId) (i : ℕ) {id : EditorId}
    → get_elem? flights i ≡ some id
    → IsOneSave saving flights
    → IsOneSave (if is_editor id saving then none else saving) (erase_idx flights i)
freed none flights i {id} g h = absurd (found_in_none i (subst (λ f. get_elem? f i ≡ some id) h g))
freed (some s) flights zero {id} g h =
    let own : s ≡ id = found_first (subst (λ f. get_elem? f 0 ≡ some id) h g) in
    let same : (s == id) ≡ true = (==_iff s id).1 own in rw (same, h) refl
freed (some s) flights (suc i) {id} g h =
    absurd (found_in_none i (subst (λ f. get_elem? f (suc i) ≡ some id) h g))

module _ {T Q : Type 0} ⦃texts : Texts⦄ ⦃configs : Codec AppConfig⦄ where
  unfoldable pub answered :
      AppView T Q
      → List EditorId
      → ℕ
      → Io
      → AppStore × Result CredentialTransactionError SaveProfileOutcome
      → Option EditorId
      → AppView T Q × List EditorId
  unfolding profile_saved
  answered v flights i sys r none = (v, flights)
  answered v flights i sys r (some id) = (profile_saved sys v id r, erase_idx flights i)

  unfoldable pub act : AppView T Q × List EditorId → Action → AppView T Q × List EditorId
  unfolding show_add_connection show_edit_connection cancel_editor select_auth_method save_editor
      answered
  act (v, flights) (add_connection fresh p) = (show_add_connection v fresh p, flights)
  act (v, flights) (edit_connection fresh p) = (show_edit_connection v fresh p, flights)
  act (v, flights) (choose_method m) = (select_auth_method v m, flights)
  act (v, flights) cancel = (cancel_editor v, flights)
  act (v, flights) (save coordinated) =
      let (w, tasks) = save_editor v coordinated in (w, flights ++ saves tasks)
  act (v, flights) (answer i sys r) = answered v flights i sys r (get_elem? flights i)

  unfoldable pub run : AppView T Q × List EditorId → List Action → AppView T Q × List EditorId
  unfolding act
  run d [] = d
  run d (a ∷ rest) = run (act d a) rest

  reread-saving :
      (v : AppView T Q) (id : EditorId) (r : AppState × Result StorageError (Unit {0}))
      → (reread_saved v id r).saving_editor ≡ v.saving_editor
  unfolding reread_saved close_saved
  reread-saving v id (s, ok u) = refl
  reread-saving v id (s, err e) = refl

  reload-saving :
      (sys : Io) (v : AppView T Q) (id : EditorId) (o : Option AppState)
      → (after_reload sys v id o).saving_editor ≡ v.saving_editor
  unfolding after_reload close_saved
  reload-saving sys v id none = refl
  reload-saving sys v id (some s) = reread-saving v id (reload_config sys s)

  profile_saved-saving :
      (sys : Io) (v : AppView T Q) (id : EditorId)
      (r : AppStore × Result CredentialTransactionError SaveProfileOutcome)
      → (profile_saved sys v id r).saving_editor
        ≡ (if is_editor id v.saving_editor then none else v.saving_editor)
  unfolding profile_saved saving_done with_connect_secret
  profile_saved-saving sys v id (store, err e) = refl
  profile_saved-saving sys v id (store, ok outcome) =
      reload-saving sys (with_connect_secret (saving_done v id) outcome) id
        (with_files store v.state)

  requested-OneSave :
      (v : AppView T Q) (id : EditorId) (coordinated : Bool)
      (r : Result FormError SaveProfileRequest)
      → v.saving_editor ≡ none
      → let (w, tasks) = save_requested v id coordinated r in
        IsOneSave w.saving_editor (saves tasks)
  unfolding save_requested
  requested-OneSave v id coordinated (err e) h = rw h refl
  requested-OneSave v id false (ok request) h = rw h refl
  requested-OneSave v id true (ok request) h = refl

  saved-OneSave :
      (v : AppView T Q) (flights : List EditorId) (coordinated : Bool) (e : Option ConnectionEditor)
      → IsOneSave v.saving_editor flights
      → let (w, tasks) = save_in v coordinated e in
        IsOneSave w.saving_editor (flights ++ saves tasks)
  unfolding save_in
  saved-OneSave v flights coordinated none h = rw append-nil h
  saved-OneSave v flights coordinated (some e) h = elim (Option-cases v.saving_editor) [
    | inr (id, busy) ↦
        let now : is_some v.saving_editor ≡ true = rw busy refl in rw (now, append-nil) h
    | inl idle ↦
        let now : is_some v.saving_editor ≡ false = rw idle refl in
        let none_yet : flights ≡ [] = subst (λ o. IsOneSave o flights) idle h in
        rw (now, none_yet) (requested-OneSave v e.id coordinated (save_request e.form) idle)
  ]

  answered-OneSave :
      (v : AppView T Q) (flights : List EditorId) (i : ℕ) (sys : Io)
      (r : AppStore × Result CredentialTransactionError SaveProfileOutcome) (o : Option EditorId)
      → get_elem? flights i ≡ o
      → IsOneSave v.saving_editor flights
      → let (w, left) = answered v flights i sys r o in IsOneSave w.saving_editor left
  unfolding answered
  answered-OneSave v flights i sys r none g h = h
  answered-OneSave v flights i sys r (some id) g h =
      subst (λ s. IsOneSave s (erase_idx flights i)) (sym (profile_saved-saving sys v id r))
        (freed v.saving_editor flights i g h)

  act-OneSave :
      (v : AppView T Q) (flights : List EditorId) (a : Action)
      → IsOneSave v.saving_editor flights
      → let (w, left) = act (v, flights) a in IsOneSave w.saving_editor left
  unfolding act show_add_connection show_edit_connection cancel_editor select_auth_method
      save_editor
  act-OneSave v flights (add_connection fresh p) h = h
  act-OneSave v flights (edit_connection fresh p) h = h
  act-OneSave v flights (choose_method m) h = h
  act-OneSave v flights cancel h = h
  act-OneSave v flights (save coordinated) h = saved-OneSave v flights coordinated v.editor h
  act-OneSave v flights (answer i sys r) h =
      answered-OneSave v flights i sys r (get_elem? flights i) refl h

  -- Whatever is done with editors, and in whatever order transactions are answered, at most one
  -- transaction is under way, and it is the one that the view keeps as being saved.
  pub run-OneSave :
      (v : AppView T Q) (flights : List EditorId) (actions : List Action)
      → IsOneSave v.saving_editor flights
      → let (w, left) = run (v, flights) actions in IsOneSave w.saving_editor left
  unfolding run
  run-OneSave v flights [] h = h
  run-OneSave v flights (a ∷ rest) h =
      let (w, left) = act (v, flights) a in run-OneSave w left rest (act-OneSave v flights a h)
