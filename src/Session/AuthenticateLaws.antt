-- ===== src/Session/AuthenticateLaws.antt =====
-- crates/oxide-ssh-core/src/session.rs: what the server must have answered behind an authentication.
use oxide_ssh.Prelude.{
  ℕ, suc, ◌+◌, Bool, true, false, not, List, [], ◌∷◌, Option, none, some, Result, ok, err, ok_or,
  fail_if, map_err, get_elem?, ◌≡◌, refl, ◌⊎◌, inl, inr, arith, ◌>>=◌, ◌>>◌, Bool-cases,
}
use oxide_ssh.Model.Types.{Text, AuthConfig, password, private_key, agent, ConnectionProfile}
use oxide_ssh.Session.Events.{SessionError}
use oxide_ssh.Session.Authenticate.{
  Server, KeyError, hash_alg, with_password, with_private_key, try_identity, or_next,
  try_identities, with_agent, is_no_identity, accepted, authenticate, key_error,
}

module _ {Key Identity Hash : Type 0} (server : Server Key Identity Hash) where
  -- That the server accepted the user, by the profile's method: with the password that was given; with the
  -- key in the profile's file, read with the passphrase that was given; or with an identity of the agent.
  abbrev pub IsAccepted : Text → AuthConfig → Option Text → Type 0
  IsAccepted username (password reference) secret =
      (s : Text) × (secret ≡ some s) × (server.authenticate_password username s ≡ some true)
  IsAccepted username (private_key path reference) secret =
      (key : Key) × (hash : Option Hash) × (server.load_secret_key path secret ≡ ok key)
      × (server.authenticate_publickey username key hash ≡ some true)
  IsAccepted username agent secret =
      (identities : List Identity) × (attempt : ℕ) × (identity : Identity) × (hash : Option Hash)
      × (server.request_identities ≡ some identities)
      × (get_elem? identities attempt ≡ some identity)
      × (server.authenticate_publickey_with attempt username identity hash ≡ some true)

  answer_given :
      {A : Type 0} (o : Option A) (e : SessionError) (a : A) → ok_or o e ≡ ok a → o ≡ some a
  answer_given none e a h = cc
  answer_given (some b) e a h = cc

  password_accepted :
      (username : Text) (secret : Option Text)
      → with_password server username secret ≡ ok true
      → (s : Text) × (secret ≡ some s) × (server.authenticate_password username s ≡ some true)
  unfolding with_password
  password_accepted username none h = cc
  password_accepted username (some s) h = (s, refl, answer_given _ _ true h)

  key_answer :
      (username : Text) (key : Key) (h : Result SessionError (Option Hash))
      → (do
        hash ← h
        ok_or (server.authenticate_publickey username key hash) SessionError.connect_failed)
        ≡ ok true
      → (hash : Option Hash) × (server.authenticate_publickey username key hash ≡ some true)
  key_answer username key (ok hash) h = (hash, answer_given _ _ true h)
  key_answer username key (err e) h = cc

  loaded_key :
      (username path : Text) (secret : Option Text) (r : Result KeyError Key)
      → server.load_secret_key path secret ≡ r
      → (do
        key ← map_err (key_error secret) r
        hash ← hash_alg server (server.is_rsa key)
        ok_or (server.authenticate_publickey username key hash) SessionError.connect_failed)
        ≡ ok true
      → (key : Key) × (hash : Option Hash) × (server.load_secret_key path secret ≡ ok key)
        × (server.authenticate_publickey username key hash ≡ some true)
  loaded_key username path secret (ok key) e h =
      let (hash, yes_answer) = key_answer username key (hash_alg server (server.is_rsa key)) h in
      (key, hash, e, yes_answer)
  loaded_key username path secret (err x) e h = cc

  key_accepted :
      (username path : Text) (secret : Option Text)
      → with_private_key server username path secret ≡ ok true
      → (key : Key) × (hash : Option Hash) × (server.load_secret_key path secret ≡ ok key)
        × (server.authenticate_publickey username key hash ≡ some true)
  unfolding with_private_key
  key_accepted username path secret h = elim (Bool-cases (server.file_opens path)) [
    | inl opens ↦
        loaded_key username path secret (server.load_secret_key path secret) refl (rw opens at h)
    | inr missing ↦ let failed = rw missing at h in cc
  ]

  identity_answer :
      (username : Text) (attempt : ℕ) (identity : Identity) (h : Result SessionError (Option Hash))
      → (do
        hash ← h
        ok_or
            (server.authenticate_publickey_with attempt username identity hash)
            SessionError.agent_unavailable)
        ≡ ok true
      → (hash : Option Hash) × (server.authenticate_publickey_with attempt username identity hash
          ≡ some true)
  identity_answer username attempt identity (ok hash) h = (hash, answer_given _ _ true h)
  identity_answer username attempt identity (err e) h = cc

  one_of_two :
      (a b : Result SessionError Bool)
      → or_next server a b ≡ ok true
      → (a ≡ ok true) ⊎ (b ≡ ok true)
  one_of_two (err e) b h = cc
  one_of_two (ok true) b h = inl refl
  one_of_two (ok false) b h = inr h

  identity_accepted :
      (username : Text) (attempt : ℕ) (identities : List Identity)
      → try_identities server username attempt identities ≡ ok true
      → (i : ℕ) × (identity : Identity) × (hash : Option Hash) × (get_elem? identities i
          ≡ some identity)
        × (server.authenticate_publickey_with (attempt + i) username identity hash ≡ some true)
  identity_accepted username attempt [] h = cc
  identity_accepted username attempt (identity ∷ rest) h =
      elim (one_of_two (try_identity server username attempt identity)
        (try_identities server username (suc attempt) rest) h) [
          | inl first ↦
              let (hash, answer) =
                identity_answer username attempt identity
                  (hash_alg server (server.is_rsa_identity identity)) first in
              let same : attempt + 0 ≡ attempt = omega arith in
              (0, identity, hash, refl, rw same answer)
          | inr later ↦
              let (i, other, hash, there, answer) =
                identity_accepted username (suc attempt) rest later in
              let same : attempt + suc i ≡ suc attempt + i = omega arith in
              (suc i, other, hash, there, rw same answer)
        ]

  agent_listed :
      (username : Text) (o : Option (List Identity))
      → server.request_identities ≡ o
      → (do
        identities ← ok_or o SessionError.agent_unavailable
        fail_if (is_no_identity server identities) SessionError.agent_empty
        try_identities server username 0 identities)
        ≡ ok true
      → IsAccepted username agent none
  agent_listed username none e h = cc
  agent_listed username (some []) e h = cc
  agent_listed username (some (x ∷ xs)) e h =
      let (i, identity, hash, there, answer) = identity_accepted username 0 (x ∷ xs) h in
      let same : 0 + i ≡ i = omega arith in (x ∷ xs, i, identity, hash, e, there, rw same at answer)

  agent_connected :
      (username : Text) (r : Result SessionError (Unit {0}))
      → (do
        r
        identities ← ok_or server.request_identities SessionError.agent_unavailable
        fail_if (is_no_identity server identities) SessionError.agent_empty
        try_identities server username 0 identities)
        ≡ ok true
      → IsAccepted username agent none
  agent_connected username (ok u) h = agent_listed username server.request_identities refl h
  agent_connected username (err e) h = cc

  accepted_by_server :
      (username : Text) (auth : AuthConfig) (secret : Option Text)
      → accepted server username auth secret ≡ ok true
      → IsAccepted username auth secret
  unfolding with_agent
  accepted_by_server username (password reference) secret h = password_accepted username secret h
  accepted_by_server username (private_key path reference) secret h =
      key_accepted username path secret h
  accepted_by_server username agent secret h = agent_connected username server.connect_agent h

  succeeded :
      (r : Result SessionError Bool)
      → (do success ← r; fail_if (not success) SessionError.authentication_rejected) ≡ ok tt
      → r ≡ ok true
  succeeded (ok true) h = refl
  succeeded (ok false) h = cc
  succeeded (err e) h = cc

  pub authenticate-IsAccepted :
      (p : ConnectionProfile) (secret : Option Text)
      → authenticate server p secret ≡ ok tt
      → IsAccepted p.username p.auth secret
  unfolding authenticate
  authenticate-IsAccepted p secret h =
      accepted_by_server p.username p.auth secret
        (succeeded (accepted server p.username p.auth secret) h)
