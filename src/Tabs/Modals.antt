-- ===== src/Tabs/Modals.antt =====
-- crates/oxide-ssh-app/src/tabs.rs: `ModalRequest` and `ModalQueue`.
use oxide_ssh.Prelude.{
  Bool, true, false, not, ◌&&◌, List, [], ◌∷◌, ◌++◌, Option, none, some, ◌==◌, if◌then◌else◌, any,
  retain, head?, is_some_and,
}
use oxide_ssh.Model.Types.{Uuid, Text, Endpoint}

abbrev pub TabId : Type 0
TabId = Uuid

pub data ModalRequest : Type 0 where
  -- The tab, the prompt, the endpoint, the algorithm and the fingerprint.
  host_key : TabId → Uuid → Endpoint → Text → Text → ModalRequest
  -- The tab, the request, the endpoint, the expected and the presented fingerprint.
  changed_host_key : TabId → Uuid → Endpoint → Text → Text → ModalRequest
  secret : TabId → ModalRequest
  confirm_close : TabId → ModalRequest

abbrev pub tab_id : ModalRequest → TabId
tab_id (host_key t p e a f) = t
tab_id (changed_host_key t r e x p) = t
tab_id (secret t) = t
tab_id (confirm_close t) = t

pub data Discriminant : Type 0 where
  host_key changed_host_key secret confirm_close : Discriminant

abbrev pub discriminant : ModalRequest → Discriminant
discriminant (host_key t p e a f) = Discriminant.host_key
discriminant (changed_host_key t r e x p) = Discriminant.changed_host_key
discriminant (secret t) = Discriminant.secret
discriminant (confirm_close t) = Discriminant.confirm_close

-- `mem::discriminant(a) == mem::discriminant(b)`.
abbrev pub same_discriminant : Discriminant → Discriminant → Bool
same_discriminant Discriminant.host_key Discriminant.host_key = true
same_discriminant Discriminant.changed_host_key Discriminant.changed_host_key = true
same_discriminant Discriminant.secret Discriminant.secret = true
same_discriminant Discriminant.confirm_close Discriminant.confirm_close = true
same_discriminant _ _ = false

abbrev pub is_secret_for : TabId → ModalRequest → Bool
is_secret_for expected (secret t) = t == expected
is_secret_for expected _ = false

abbrev pub is_confirm_close_for : TabId → ModalRequest → Bool
is_confirm_close_for expected (confirm_close t) = t == expected
is_confirm_close_for expected _ = false

abbrev pub is_host_key_for : TabId → Uuid → ModalRequest → Bool
is_host_key_for expected prompt (host_key t p e a f) = t == expected && p == prompt
is_host_key_for expected prompt _ = false

abbrev pub is_changed_host_key_for : TabId → Uuid → ModalRequest → Bool
is_changed_host_key_for expected request (changed_host_key t r e x p) =
    t == expected && r == request
is_changed_host_key_for expected request _ = false

-- `requests`, the front first.
abbrev pub ModalQueue : Type 0
ModalQueue = List ModalRequest

-- The closure of `duplicate`.
unfoldable pub is_duplicate : ModalRequest → ModalRequest → Bool
is_duplicate request existing =
    tab_id existing == tab_id request
    && same_discriminant (discriminant existing) (discriminant request)

-- `matches!(existing, HostKey { prompt_id, .. } if prompt_id == new_prompt)`.
abbrev pub has_prompt : Uuid → ModalRequest → Bool
has_prompt prompt (host_key t p e a f) = p == prompt
has_prompt prompt _ = false

-- The second test of `push`, which only a host-key request goes through.
unfoldable pub shares_prompt : ModalRequest → ModalRequest → Bool
shares_prompt (host_key t p e a f) existing = has_prompt p existing
shares_prompt _ existing = false

unfoldable pub push : ModalQueue → ModalRequest → ModalQueue
push requests request =
    if any (is_duplicate request) requests
    then requests
    else if any (shares_prompt request) requests
    then requests
    else requests ++ request ∷ []

unfoldable pub complete_current : ModalQueue → Option ModalRequest × ModalQueue
complete_current [] = (none, [])
complete_current (r ∷ rs) = (some r, rs)

unfoldable pub complete_current_if :
    ModalQueue → (ModalRequest → Bool) → Option ModalRequest × ModalQueue
unfolding complete_current
complete_current_if requests matches_current =
    if is_some_and (head? requests) matches_current
    then complete_current requests
    else (none, requests)

-- The requests that go, and the queue that stays.
unfoldable pub remove_tab : ModalQueue → TabId → List ModalRequest × ModalQueue
remove_tab requests t =
    (retain (λ r. tab_id r == t) requests, retain (λ r. not (tab_id r == t)) requests)
