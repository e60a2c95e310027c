-- ===== src/Storage/TrustLaws.antt =====
-- `accept_host_key`: a host's first key is stored, and no later one replaces it.
use oxide_ssh.Prelude.{
  true, [], ◌∷◌, ◌++◌, Option, none, some, Result, ok, err, find, ◌≡◌, refl, sym, ◌∙◌, ◌⊎◌, inl,
  inr, arith, subst,
}
use oxide_ssh.Model.Types.{Endpoint}
use oxide_ssh.Model.Text.{text_eq_refl}
use oxide_ssh.Model.Validate.{Texts}
use oxide_ssh.Storage.Types.{
  KnownHosts, default_known_hosts, KnownHostEntry, endpoint_of, StorageError, current_schema,
}
use oxide_ssh.Storage.Config.{canonicalize_endpoint}
use oxide_ssh.Storage.Files.{File, Codec, Io, read_versioned}
use oxide_ssh.Storage.Store.{
  AppStore, is_at, same_key, at_endpoint, with_hosts, known_host, accept_found, accept_entry,
  accept_read, accept_host_key,
}
use oxide_ssh.Storage.FileLaws.{IsFaithful, write-cases, version_of_read}
use oxide_ssh.Storage.HostLaws.{
  find-append, find-snoc, Reads, Reads-of_read, Lookup, known_host-Lookup, Lookup-known_host,
}

default_version : default_known_hosts.schema_version ≡ current_schema
unfolding default_known_hosts
default_version = refl

is_at_own : (x : KnownHostEntry) → is_at (endpoint_of x) x ≡ true
is_at_own x = ground (arith, text_eq_refl x.host)

same_key_refl : (x : KnownHostEntry) → same_key x x ≡ true
same_key_refl x =
    ground (
      arith,
      text_eq_refl x.algorithm,
      text_eq_refl x.public_key,
      text_eq_refl x.fingerprint_sha256,
    )

abbrev all_pass : Io
all_pass = record {
  exists_ok = true;
  read_ok = true;
  create_ok = true;
  replace_ok = true;
  sync_ok = true;
}

ok_inj : {E A : Type 0} {a b : A} → ◌≡◌ {A = Result E A} (ok a) (ok b) → a ≡ b
ok_inj h = cc

module _ ⦃texts : Texts⦄ ⦃codec : Codec KnownHosts⦄
    (faithful : IsFaithful codec (λ k. k.schema_version)) where
  -- The outcomes: the file stays, and a success means that the same key was there; or the file has
  -- the entry behind the others, and none was there for its endpoint.
  abbrev Outcome :
      File → KnownHosts → KnownHostEntry → File → Result StorageError (Unit {0}) → Type 0
  Outcome file known x file' answer =
      ((file' ≡ file)
        × (answer ≡ ok tt
            → (old : KnownHostEntry) × (find (is_at (endpoint_of x)) known.hosts ≡ some old)
              × (same_key old x ≡ true)))
      ⊎ (Reads file' (with_hosts known (known.hosts ++ x ∷ []))
          × (find (is_at (endpoint_of x)) known.hosts ≡ none))

  found-Outcome :
      (sys : Io) (file : File) (known : KnownHosts) (x : KnownHostEntry) (o : Option KnownHostEntry)
      → known.schema_version ≡ current_schema
      → find (is_at (endpoint_of x)) known.hosts ≡ o
      → let (file', answer) = accept_found sys file known x o in Outcome file known x file' answer
  found-Outcome sys file known x (some old) v h = inl (refl, λ good. (old, h, ground arith))
  found-Outcome sys file known x none v h =
      elim (write-cases (λ k. k.schema_version) faithful sys file
        (with_hosts known (known.hosts ++ x ∷ [])) v) [
          | inl (stays, e, lost) ↦ inl (stays, λ good. cc)
          | inr new ↦ inr ((λ next r. new.0 next default_known_hosts r), h)
        ]

  accept_entry-Outcome :
      (sys : Io) (file : File) (known : KnownHosts) (x : KnownHostEntry)
      → read_versioned sys file default_known_hosts ≡ ok known
      → let (file', answer) = accept_entry sys file known x in Outcome file known x file' answer
  unfolding accept_entry
  accept_entry-Outcome sys file known x h =
      found-Outcome sys file known x (find (is_at (endpoint_of x)) known.hosts)
        (version_of_read (λ k. k.schema_version) faithful sys file default_known_hosts known
          default_version h)
        refl

  one_content : (file : File) (a b : KnownHosts) → Reads file a → Reads file b → a ≡ b
  one_content file a b f g =
      let p = f all_pass refl in let q = g all_pass refl in ok_inj (sym p ∙ q)

  -- A stored key that is found before a call is found after it.
  kept :
      (sys : Io) (s : AppStore) (x : KnownHostEntry) (e : Endpoint) {k : KnownHostEntry}
      (read : Result StorageError KnownHosts) (at : Result StorageError Endpoint)
      → read_versioned sys s.known_hosts default_known_hosts ≡ read
      → Lookup s e (some k)
      → Lookup (accept_read sys s x read at).0 e (some k)
  kept sys s x e (err a) at h l = l
  kept sys s x e (ok known) (err a) h l = l
  kept sys s x e {k} (ok known) (ok there) h l =
      let same : l.known ≡ known =
        one_content s.known_hosts l.known known l.reads (Reads-of_read sys s.known_hosts known h) in
      elim (accept_entry-Outcome sys s.known_hosts known (at_endpoint x there) h) [
        | inl (stays, good) ↦ record {
          endpoint = l.endpoint;
          known = l.known;
          canonical = l.canonical;
          reads = subst (λ f. Reads f l.known) (sym stays) l.reads;
          found = l.found;
        }
        | inr (reads, gone) ↦ record {
          endpoint = l.endpoint;
          known = with_hosts known (known.hosts ++ at_endpoint x there ∷ []);
          canonical = l.canonical;
          reads = reads;
          found =
              find-append (is_at l.endpoint) known.hosts _
                (subst (λ m. find (is_at l.endpoint) m.hosts ≡ some k) same l.found);
        }
      ]

  -- No call of `accept_host_key` replaces a key: whatever it answers, and whatever the system let
  -- pass in it, an entry that was found for an endpoint before is found by the next look that can
  -- read the file. The format of the file reads back what it writes.
  pub known_host-accept_host_key :
      (sys look next : Io) (s : AppStore) (x : KnownHostEntry) (e : Endpoint) {k : KnownHostEntry}
      → known_host look s e ≡ ok (some k)
      → next.read_ok ≡ true
      → known_host next (accept_host_key sys s x).0 e ≡ ok (some k)
  unfolding accept_host_key
  known_host-accept_host_key sys look next s x e h r =
      Lookup-known_host next _ e r (
        kept sys s x e _ (canonicalize_endpoint (endpoint_of x)) refl
          (known_host-Lookup look s e h))

  won :
      (sys : Io) (s : AppStore) (x : KnownHostEntry) (read : Result StorageError KnownHosts)
      (at : Result StorageError Endpoint)
      → read_versioned sys s.known_hosts default_known_hosts ≡ read
      → canonicalize_endpoint (endpoint_of x) ≡ at
      → (accept_read sys s x read at).1 ≡ ok tt
      → (k : KnownHostEntry) × Lookup (accept_read sys s x read at).0 (endpoint_of x) (some k)
        × (same_key k x ≡ true)
  won sys s x (err a) at h c a' = cc
  won sys s x (ok known) (err a) h c a' = cc
  won sys s x (ok known) (ok there) h c a' =
      elim (accept_entry-Outcome sys s.known_hosts known (at_endpoint x there) h) [
        | inl (stays, good) ↦
            let (old, found, same) = good a' in
            (
              old,
              record {
                endpoint = there;
                known = known;
                canonical = c;
                reads =
                    subst (λ f. Reads f known) (sym stays)
                      (Reads-of_read sys s.known_hosts known h);
                found = found;
              },
              same,
            )
        | inr (reads, gone) ↦ (
          at_endpoint x there,
          record {
            endpoint = there;
            known = with_hosts known (known.hosts ++ at_endpoint x there ∷ []);
            canonical = c;
            reads = reads;
            found =
                find-snoc (is_at there) known.hosts (at_endpoint x there) gone
                  (is_at_own (at_endpoint x there));
          },
          same_key_refl x,
        )
      ]

  -- Where `accept_host_key` succeeds, the next look that can read the file finds for the endpoint an
  -- entry with the key that was accepted. The format of the file reads back what it writes.
  pub accept_host_key_lem :
      (sys next : Io) (s : AppStore) (x : KnownHostEntry)
      → (accept_host_key sys s x).1 ≡ ok tt
      → next.read_ok ≡ true
      → (k : KnownHostEntry) × (known_host next (accept_host_key sys s x).0 (endpoint_of x)
          ≡ ok (some k))
        × (same_key k x ≡ true)
  unfolding accept_host_key
  accept_host_key_lem sys next s x h r =
      let (k, l, same) = won sys s x _ _ refl refl h in (k, Lookup-known_host next _ _ r l, same)
