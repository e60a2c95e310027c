-- ===== src/Desktop/Examples.antt =====
-- The desktop at concrete inputs: tests and witnesses.
use mathlib.Core.List.{Perm}
use oxide_ssh.Prelude.{
  inl, head?, Option, subst, sym, ◌++◌, length, ◌≤◌, ◌<◌, ℕ, true, false, List, [], ◌∷◌, none, some,
  ok, err, ◌≡◌, refl, All, arith, retain, is_some,
}
use oxide_ssh.Model.Types.{zh_cn}
use oxide_ssh.Model.Validate.{validate_profile, bad_host, bad_username}
use oxide_ssh.Session.Events.{SessionEvent, output, SessionState, state_changed, connect_failed}
use oxide_ssh.Storage.Types.{default_known_hosts}
use oxide_ssh.Storage.Config.{validate_config, check_profiles, check_tags, prune_dangling_tag_refs}
use oxide_ssh.Storage.Files.{read_versioned, parse}
use oxide_ssh.Storage.Store.{AppStore, load_config, load_known_hosts}
use oxide_ssh.Storage.Samples.{working, plain_texts, bare, bare_codec, bare-IsFaithful, host_codec}
use oxide_ssh.Credentials.Types.{credential_reference}
use oxide_ssh.Credentials.Samples.{profile_5, with_5}
use oxide_ssh.Tabs.Examples.{quiet_emulator, room_channel, shell, session}
use oxide_ssh.Desktop.Sorting.{IsSorted, cmp_by}
use oxide_ssh.Desktop.Filter.{default_filter, lower_name, profile_id, filtered_profiles}
use oxide_ssh.Desktop.State.{AppState, ready, load, set_locale, toggle_untagged_filter}
use oxide_ssh.Desktop.StateLaws.{IsValid}
use oxide_ssh.Desktop.StateSteps.{loaded, called, locale_set, untagged_toggled, Run-IsValid}
use oxide_ssh.Desktop.Pump.{
  Round, handle_event, handle_batch, Queue, pump_events, run_pump, round, coalesce,
}
use oxide_ssh.Desktop.PumpLaws.{all_handed, present, IsRound, pump_events_lem}
use oxide_ssh.Desktop.Locale.{ResolvedLocale}
use oxide_ssh.Desktop.Theme.{ResolvedTheme}
use oxide_ssh.Desktop.View.{AppView, sessions, general}
use oxide_ssh.Desktop.Handlers.{is_current, handle_output_batch}
use oxide_ssh.Desktop.HandlerLaws.{handle_output_batch-bell}
use oxide_ssh.Tabs.Modals.{
  ModalRequest, host_key, confirm_close, complete_current_if, complete_current,
}
use oxide_ssh.Desktop.Dialogs.{cancel_modal, submit_modal, cancel_tab_close}
use oxide_ssh.Desktop.FilterLaws.{filtered_profiles_lem}
use oxide_ssh.Desktop.DialogLaws.{IsSameRequest, late_answer_lem}
use oxide_ssh.Desktop.Form.{save_request, edit}
use oxide_ssh.Desktop.FormLaws.{IsTrimmed, save_request-edit}

-- With no tag chosen and an empty search every profile is listed.
filtered_profiles_lem_example :
    Perm (filtered_profiles (with_5 1) default_filter []) (retain (λ p. true) (with_5 1).profiles)
    × IsSorted (cmp_by lower_name profile_id) (filtered_profiles (with_5 1) default_filter [])
unfolding plain_texts
filtered_profiles_lem_example =
    filtered_profiles_lem (with_5 1) default_filter [] (λ p. true)
      (λ p. ((λ h. (inl (refl, refl), inl refl)), (λ l. refl)))

-- Files with an empty configuration, and the state that is loaded from them.
abbrev files : AppStore
files = record { config = some (1 ∷ 0x0a ∷ []); known_hosts = none }

abbrev fresh_state : AppState
fresh_state = record {
  store = files;
  config = bare 1;
  known_hosts = default_known_hosts;
  search_query = [];
  tag_filter = default_filter;
}

loads : load working working (some files) ≡ ready fresh_state
unfolding load load_config load_known_hosts read_versioned parse validate_config check_profiles
    check_tags prune_dangling_tag_refs bare_codec host_codec plain_texts default_known_hosts
loads = refl

Run-IsValid_example : IsValid (toggle_untagged_filter (set_locale working fresh_state zh_cn).0)
Run-IsValid_example = Run-IsValid bare-IsFaithful (
    called (called (loaded working working files fresh_state loads) (locale_set working refl zh_cn))
      untagged_toggled)

-- Output, a gap, output twice, and a change of state.
abbrev queue : Queue
queue =
    some (output (b'a' ∷ []))
    ∷ none
    ∷ some (output (b'b' ∷ []))
    ∷ some (output (b'c' ∷ []))
    ∷ some (state_changed SessionState.connected)
    ∷ []

pumps :
    pump_events 9 queue
    ≡ some (
        handle_batch (output (b'a' ∷ []) ∷ [])
        ∷ handle_batch (output (b'b' ∷ []) ∷ output (b'c' ∷ []) ∷ [])
        ∷ handle_event (state_changed SessionState.connected)
        ∷ [])
unfolding pump_events run_pump round coalesce
pumps = refl

-- The view goes away after its first call.
pump_events_lem_example :
    (rounds : List Round) × (lost : List SessionEvent) × (pump_events 1 queue ≡ some rounds)
    × (all_handed rounds ++ lost ≡ present queue)
    × All IsRound rounds
    × (length rounds ≤ 1)
    × (length rounds < 1 → lost ≡ [])
pump_events_lem_example = pump_events_lem 1 queue

abbrev view : AppView ℕ ℕ
view = record {
  state = none;
  tabs = record {
    tabs = record (shell 7 (some (session 3))) { session_id = some 41 } ∷ [];
    active = some 7;
    modals = [];
  };
  secret = [];
  connect_secrets = [];
  connecting_profiles = [];
  editor = none;
  tag_manager = none;
  confirm = none;
  saving_editor = none;
  main_view = sessions;
  settings_category = general;
  pending_terminal_focus = false;
  composing = false;
  compose_tab = none;
  terminal_selecting = false;
  bell = false;
  status_message = none;
  status_rendered = none;
  locale = ResolvedLocale.en_us;
  system_locale = none;
  theme = ResolvedTheme.dark;
  quitting = false;
}

current : is_current view 7 41 ≡ true
unfolding is_current
current = refl

-- The byte 7 rings.
handle_output_batch-bell_example :
    (handle_output_batch view 7 41 ((output (7 ∷ []), 90) ∷ [])).bell ≡ false
handle_output_batch-bell_example = handle_output_batch-bell view 7 41 7 [] 90 [] current

valid_5 : validate_profile (profile_5 none) ≡ ok tt
unfolding validate_profile bad_host bad_username
valid_5 = refl

profile_5-IsTrimmed : IsTrimmed (profile_5 none)
profile_5-IsTrimmed = record { name_trimmed = refl; host_trimmed = refl; username_trimmed = refl }

save_request-edit_example :
    save_request (edit (profile_5 none))
    ≡ ok (record {
      profile = profile_5 none;
      previous = some (profile_5 none);
      secret = none;
      remember = is_some (credential_reference (profile_5 none).auth);
    })
save_request-edit_example =
    save_request-edit (profile_5 none) valid_5 profile_5-IsTrimmed (omega arith)

-- A question whether to close the tab stands where a secret was asked for.
abbrev asked : AppView ℕ ℕ
asked = record view { tabs = record view.tabs { modals = confirm_close 7 ∷ [] } }

-- The dialog of an earlier prompt of the tab, whose answer comes when a new prompt is on top.
abbrev late_prompt : ModalRequest
late_prompt = host_key 7 4 (record { host = b'h' ∷ []; port = 22 }) [] []

abbrev prompted : AppView ℕ ℕ
prompted = record view {
  tabs = record view.tabs {
    modals = host_key 7 5 (record { host = b'h' ∷ []; port = 22 }) [] [] ∷ [];
  };
}

other_prompt :
    (current : ModalRequest)
    → head? prompted.tabs.modals ≡ some current
    → ¬ IsSameRequest late_prompt current
other_prompt current h same =
    absurd (omega (arith, (subst (λ m. IsSameRequest late_prompt m) (sym (top_inj h)) same).1))
  where
    top_inj : {a b : ModalRequest} → ◌≡◌ {A = Option ModalRequest} (some a) (some b) → a ≡ b
    top_inj h = cc

late_answer_lem_example :
    (cancel_modal (λ t prompt decision. ok tt) prompted late_prompt ≡ prompted)
    × (submit_modal
          (λ request. err connect_failed)
          (λ t prompt decision. ok tt)
          prompted
          90
          late_prompt
        ≡ (prompted, []))
late_answer_lem_example =
    late_answer_lem (λ request. err connect_failed) (λ t prompt decision. ok tt) prompted 90
      late_prompt other_prompt

-- The same question answered.
closes : (cancel_modal (λ t prompt decision. ok tt) asked (confirm_close 7)) ≡ view
unfolding cancel_modal cancel_tab_close complete_current_if complete_current
closes = refl
