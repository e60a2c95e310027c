-- ===== src/Storage/HostLaws.antt =====
-- `known_host` and `accept_host_key`: a host's first key is stored, and no later one replaces it.
use oxide_ssh.Prelude.{
  Bool, true, List, [], ◌∷◌, ◌++◌, Option, none, some, Result, ok, err, find, Bool-cases, ◌>>=◌,
  ◌≡◌, refl, inl, inr, arith,
}
use oxide_ssh.Model.Types.{Endpoint}
use oxide_ssh.Model.Validate.{Texts}
use oxide_ssh.Storage.Types.{KnownHosts, default_known_hosts, KnownHostEntry, StorageError}
use oxide_ssh.Storage.Config.{canonicalize_endpoint}
use oxide_ssh.Storage.Files.{File, Codec, Io, read_versioned}
use oxide_ssh.Storage.Store.{AppStore, is_at, known_host}

pub find-append :
    {A : Type 0} (p : A → Bool) (xs ys : List A) {x : A}
    → find p xs ≡ some x
    → find p (xs ++ ys) ≡ some x
find-append p [] ys h = cc
find-append p (x ∷ xs) ys h = elim (Bool-cases (p x)) [
  | inl hit ↦ rw hit (rw hit at h)
  | inr miss ↦ rw miss (find-append p xs ys (rw miss at h))
]

pub find-snoc :
    {A : Type 0} (p : A → Bool) (xs : List A) (y : A)
    → find p xs ≡ none
    → p y ≡ true
    → find p (xs ++ y ∷ []) ≡ some y
find-snoc p [] y h k = rw k refl
find-snoc p (x ∷ xs) y h k = elim (Bool-cases (p x)) [
  | inl hit ↦ ground arith
  | inr miss ↦ rw miss (find-snoc p xs y (rw miss at h) k)
]

module _ ⦃texts : Texts⦄ ⦃codec : Codec KnownHosts⦄ where
  -- What any read that the system lets pass gives.
  abbrev pub Reads : File → KnownHosts → Type 0
  Reads file known =
      (next : Io) → next.read_ok ≡ true → read_versioned next file default_known_hosts ≡ ok known

  pub Reads-of_read :
      (sys : Io) (file : File) (known : KnownHosts)
      → read_versioned sys file default_known_hosts ≡ ok known
      → Reads file known
  unfolding read_versioned
  Reads-of_read sys none known h next r = h
  Reads-of_read sys (some bytes) known h next r = elim (Bool-cases sys.read_ok) [
    | inl on ↦ rw r (rw on at h)
    | inr off ↦ ground arith
  ]

  -- The entry that is stored for an endpoint.
  pub record Lookup (s : AppStore) (e : Endpoint) (o : Option KnownHostEntry) : Type 0 where
    pub endpoint : Endpoint
    pub known : KnownHosts
    pub canonical : canonicalize_endpoint e ≡ ok endpoint
    pub reads : Reads s.known_hosts known
    pub found : find (is_at endpoint) known.hosts ≡ o

  looked_up :
      (sys : Io) (s : AppStore) (e : Endpoint) (c : Result StorageError Endpoint)
      (r : Result StorageError KnownHosts) {o : Option KnownHostEntry}
      → canonicalize_endpoint e ≡ c
      → read_versioned sys s.known_hosts default_known_hosts ≡ r
      → (c >>= λ x. (r >>= λ known. ok (find (is_at x) known.hosts))) ≡ ok o
      → Lookup s e o
  looked_up sys s e (err x) r p q h = ground arith
  looked_up sys s e (ok x) (err y) p q h = ground arith
  looked_up sys s e (ok x) (ok known) p q h = record {
    endpoint = x;
    known = known;
    canonical = p;
    reads = Reads-of_read sys s.known_hosts known q;
    found = ground arith;
  }

  pub known_host-Lookup :
      (sys : Io) (s : AppStore) (e : Endpoint) {o : Option KnownHostEntry}
      → known_host sys s e ≡ ok o
      → Lookup s e o
  unfolding known_host
  known_host-Lookup sys s e h = looked_up sys s e (canonicalize_endpoint e) _ refl refl h

  pub Lookup-known_host :
      (next : Io) (s : AppStore) (e : Endpoint) {o : Option KnownHostEntry}
      → next.read_ok ≡ true
      → Lookup s e o
      → known_host next s e ≡ ok o
  unfolding known_host
  Lookup-known_host next s e r l = rw (l.canonical, l.reads next r, l.found) refl
