-- ===== src/Storage/ConfigLaws.antt =====
-- What `validate_config` accepts, and what `prune_dangling_tag_refs` repairs.
use oxide_ssh.Prelude.{
  ℕ, not, ◌==◌, true, false, ◌||◌, List, [], ◌∷◌, ok, map, All, All-map, All-zip, Apart, ok_of_then,
  ok_of_bind, false_of_fail_if, ok_of_map_err, ◌≡◌, refl, sym, ◌∙◌, ◌↔◌, inl, inr, Bool-cases,
  arith,
}
use oxide_ssh.Model.Types.{Text, Tag, TagId, ProfileId, ConnectionProfile}
use oxide_ssh.Model.Text.{text_eq, eq_of_text_eq, text_eq_refl}
use oxide_ssh.Model.Validate.{Texts, validate_tag, validate_profile}
use oxide_ssh.Storage.Types.{AppConfig, current_schema}
use oxide_ssh.Storage.Config.{
  has_uuid, has_text, check_refs, name_key, check_tags, has_wrong_ref, check_profile,
  check_profiles, validate_config,
}

not_text_eq : (s t : Text) → ¬ (s ≡ t) → text_eq s t ≡ false
not_text_eq s t h = elim (Bool-cases (text_eq s t)) [
  | inl same ↦ absurd (h (eq_of_text_eq s t same))
  | inr other ↦ other
]

-- The identifiers of the tags.
abbrev pub tag_ids : List Tag → List TagId
tag_ids ts = map (λ t. t.id) ts

-- All references name a registered tag.
abbrev pub RefsKnown : List TagId → List TagId → Type 0
RefsKnown known refs = All (λ t. has_uuid t known ≡ true) refs

refs_known :
    (p : ProfileId) (refs known : List TagId)
    → check_refs p refs known ≡ ok tt
    → RefsKnown known refs
unfolding check_refs
refs_known p [] known h = tt
refs_known p (t ∷ ts) known h = elim (Bool-cases (has_uuid t known)) [
  | inl here ↦ (here, refs_known p ts known (rw here at h))
  | inr gone ↦ ground arith
]

check_known :
    (p : ProfileId) (refs known : List TagId)
    → RefsKnown known refs
    → check_refs p refs known ≡ ok tt
unfolding check_refs
check_known p [] known h = refl
check_known p (t ∷ ts) known h = rw h.0 (check_known p ts known h.1)

module _ ⦃texts : Texts⦄ where
  -- Distinct identifiers and names, none of them among those already seen, and valid names.
  record TagsFit (ids : List TagId) (names : List Text) (ts : List Tag) : Type 0 where
    new_ids : All (λ t. has_uuid t.id ids ≡ false) ts
    new_names : All (λ t. has_text (name_key t) names ≡ false) ts
    valid : All (λ t. validate_tag t ≡ ok tt) ts
    ids_apart : Apart (λ a b. a.id ≡ b.id) ts
    names_apart : Apart (λ a b. name_key a ≡ name_key b) ts

  -- A round of the loop that goes on.
  round :
      (t : Tag) (ts : List Tag) (ids : List TagId) (names : List Text) {seen : List TagId}
      → check_tags (t ∷ ts) ids names ≡ ok seen
      → (has_uuid t.id ids ≡ false)
        × (validate_tag t ≡ ok tt)
        × (has_text (name_key t) names ≡ false)
        × (check_tags ts (t.id ∷ ids) (name_key t ∷ names) ≡ ok seen)
  unfolding check_tags
  round t ts ids names h =
      let (a, h1) = ok_of_then _ _ h in
      let (b, h2) = ok_of_then _ _ h1 in
      let (c, h3) = ok_of_then _ _ h2 in
      (false_of_fail_if _ _ a, ok_of_map_err _ _ b, false_of_fail_if _ _ c, h3)

  tags-TagsFit :
      (ts : List Tag) (ids : List TagId) (names : List Text) {seen : List TagId}
      → check_tags ts ids names ≡ ok seen
      → TagsFit ids names ts
  unfolding check_tags
  tags-TagsFit [] ids names h = record {
    new_ids = tt;
    new_names = tt;
    valid = tt;
    ids_apart = tt;
    names_apart = tt;
  }
  tags-TagsFit (t ∷ ts) ids names h =
      let (a, b, c, d) = round t ts ids names h in
      let r = tags-TagsFit ts (t.id ∷ ids) (name_key t ∷ names) d in
      record {
        new_ids = (a, All-map _ _ ts (λ u k. ground arith) r.new_ids);
        new_names = (c, All-map _ _ ts (λ u k. ground arith) r.new_names);
        valid = (b, r.valid);
        ids_apart = (All-map _ _ ts (λ u k e. ground arith) r.new_ids, r.ids_apart);
        names_apart = (
          All-map _ _ ts (λ u k e. ground (arith, text_eq_refl (name_key u))) r.new_names,
          r.names_apart,
        );
      }

  fit_tags :
      (ts : List Tag) (ids : List TagId) (names : List Text)
      → TagsFit ids names ts
      → (seen : List TagId) × (check_tags ts ids names ≡ ok seen)
  unfolding check_tags
  fit_tags [] ids names f = (ids, refl)
  fit_tags (t ∷ ts) ids names f =
      rw (f.new_ids.0, f.valid.0, f.new_names.0)
        (fit_tags ts (t.id ∷ ids) (name_key t ∷ names) (record {
          new_ids = All-zip _ _ _ ts (λ u k l. ground arith) f.new_ids.1 f.ids_apart.0;
          new_names =
              All-zip _ _ _ ts (λ u k l. rw (not_text_eq (name_key t) (name_key u) l) k)
                f.new_names.1 f.names_apart.0;
          valid = f.valid.1;
          ids_apart = f.ids_apart.1;
          names_apart = f.names_apart.1;
        }))

  -- The identifiers that the loop has seen at its end.
  seen_ids :
      (ts : List Tag) (ids : List TagId) (names : List Text) {seen : List TagId} (x : TagId)
      → check_tags ts ids names ≡ ok seen
      → has_uuid x seen ≡ (has_uuid x (tag_ids ts) || has_uuid x ids)
  unfolding check_tags
  seen_ids [] ids names x h = cc
  seen_ids (t ∷ ts) ids names x h =
      seen_ids ts (t.id ∷ ids) (name_key t ∷ names) x (round t ts ids names h).3 ∙ ground arith

  -- A profile that can stand beside the tags: its tags are registered, `validate` takes it, and its
  -- references to credentials are its own.
  pub record Fits (known : List TagId) (p : ConnectionProfile) : Type 0 where
    pub refs : RefsKnown known p.tag_ids
    pub valid : validate_profile p ≡ ok tt
    pub own_refs : has_wrong_ref p.id p.auth ≡ false

  profile-Fits :
      (p : ConnectionProfile) (known : List TagId) → check_profile p known ≡ ok tt → Fits known p
  unfolding check_profile
  profile-Fits p known h =
      let (a, h1) = ok_of_then _ _ h in
      let (b, h2) = ok_of_then _ _ h1 in
      record {
        refs = refs_known p.id p.tag_ids known a;
        valid = ok_of_map_err _ _ b;
        own_refs = false_of_fail_if _ _ h2;
      }

  fit_profile :
      (p : ConnectionProfile) (known : List TagId) → Fits known p → check_profile p known ≡ ok tt
  unfolding check_profile
  fit_profile p known f = rw (check_known p.id p.tag_ids known f.refs, f.valid, f.own_refs) refl

  record ProfilesFit (known seen : List TagId) (ps : List ConnectionProfile) : Type 0 where
    new_ids : All (λ p. has_uuid p.id seen ≡ false) ps
    fit : All (Fits known) ps
    ids_apart : Apart (λ a b. a.id ≡ b.id) ps

  profiles_fit :
      (ps : List ConnectionProfile) (known seen : List TagId)
      → check_profiles ps known seen ≡ ok tt
      → ProfilesFit known seen ps
  unfolding check_profiles
  profiles_fit [] known seen h = record { new_ids = tt; fit = tt; ids_apart = tt }
  profiles_fit (p ∷ ps) known seen h =
      let (a, h1) = ok_of_then _ _ h in
      let (b, h2) = ok_of_then _ _ h1 in
      let r = profiles_fit ps known (p.id ∷ seen) h2 in
      record {
        new_ids = (false_of_fail_if _ _ a, All-map _ _ ps (λ u k. ground arith) r.new_ids);
        fit = (profile-Fits p known b, r.fit);
        ids_apart = (All-map _ _ ps (λ u k e. ground arith) r.new_ids, r.ids_apart);
      }

  fit_profiles :
      (ps : List ConnectionProfile) (known seen : List TagId)
      → ProfilesFit known seen ps
      → check_profiles ps known seen ≡ ok tt
  unfolding check_profiles
  fit_profiles [] known seen f = refl
  fit_profiles (p ∷ ps) known seen f =
      rw (f.new_ids.0, fit_profile p known f.fit.0)
        (fit_profiles ps known (p.id ∷ seen) (record {
          new_ids = All-zip _ _ _ ps (λ u k l. ground arith) f.new_ids.1 f.ids_apart.0;
          fit = f.fit.1;
          ids_apart = f.ids_apart.1;
        }))

  -- A configuration that may be stored.
  pub record IsSound (c : AppConfig) : Type 0 where
    pub schema : c.schema_version ≡ current_schema
    pub tags_valid : All (λ t. validate_tag t ≡ ok tt) c.tags
    pub tag_ids_apart : Apart (λ a b. a.id ≡ b.id) c.tags
    pub tag_names_apart : Apart (λ a b. name_key a ≡ name_key b) c.tags
    pub profile_ids_apart : Apart (λ a b. a.id ≡ b.id) c.profiles
    pub profiles_fit : All (Fits (tag_ids c.tags)) c.profiles

  refit :
      (known known' : List TagId)
      → ((x : TagId) → has_uuid x known ≡ has_uuid x known')
      → (p : ConnectionProfile) → Fits known p
      → Fits known' p
  refit known known' same p f = record {
    refs = All-map _ _ p.tag_ids (λ t k. sym (same t) ∙ k) f.refs;
    valid = f.valid;
    own_refs = f.own_refs;
  }

  same_known :
      (c : AppConfig) {seen : List TagId}
      → check_tags c.tags [] [] ≡ ok seen
      → (x : TagId) → has_uuid x seen ≡ has_uuid x (tag_ids c.tags)
  same_known c h x = seen_ids c.tags [] [] x h ∙ ground arith

  none_seen : {A : Type 0} (P : A → Type 0) (ps : List A) → ((p : A) → P p) → All P ps
  none_seen P [] f = tt
  none_seen P (p ∷ ps) f = (f p, none_seen P ps f)

  schema_of : (n : ℕ) → not (n == current_schema) ≡ false → n ≡ current_schema
  schema_of n h = ground arith

  IsSound-of_validate : (c : AppConfig) → validate_config c ≡ ok tt → IsSound c
  unfolding validate_config
  IsSound-of_validate c h =
      let (a, h1) = ok_of_then _ _ h in
      let (seen, b, h2) = ok_of_bind _ _ h1 in
      let t = tags-TagsFit c.tags [] [] b in
      let p = profiles_fit c.profiles seen [] h2 in
      record {
        schema =
            schema_of c.schema_version
              (false_of_fail_if (not (c.schema_version == current_schema)) _ a);
        tags_valid = t.valid;
        tag_ids_apart = t.ids_apart;
        tag_names_apart = t.names_apart;
        profile_ids_apart = p.ids_apart;
        profiles_fit = All-map _ _ c.profiles (refit seen (tag_ids c.tags) (same_known c b)) p.fit;
      }

  validate_of_IsSound : (c : AppConfig) → IsSound c → validate_config c ≡ ok tt
  unfolding validate_config
  validate_of_IsSound c s =
      let (seen, b) = fit_tags c.tags [] [] (record {
        new_ids = none_seen _ c.tags (λ t. refl);
        new_names = none_seen _ c.tags (λ t. refl);
        valid = s.tags_valid;
        ids_apart = s.tag_ids_apart;
        names_apart = s.tag_names_apart;
      }) in
      rw (s.schema, b)
        (fit_profiles c.profiles seen [] (record {
          new_ids = none_seen _ c.profiles (λ p. refl);
          fit =
              All-map _ _ c.profiles (refit (tag_ids c.tags) seen (λ x. sym (same_known c b x)))
                s.profiles_fit;
          ids_apart = s.profile_ids_apart;
        }))

  -- The configurations that `validate_config` accepts are those of the current schema in which the
  -- tags' names are valid and, up to case and surrounding space, distinct, the identifiers of tags
  -- and of profiles are distinct, each profile is valid, names registered tags alone, and refers to
  -- no credential but its own.
  pub validate_config-IsSound : (c : AppConfig) → (validate_config c ≡ ok tt) ↔ IsSound c
  validate_config-IsSound c = (IsSound-of_validate c, validate_of_IsSound c)
