-- ===== src/Storage/FileLaws.antt =====
-- Reads and writes of one file. What serde_json is relied on for is `IsFaithful`: what it has
-- written, with a line feed behind it, it reads back, and the probe sees the version that stands in
-- the data.
use oxide_ssh.Prelude.{
  ℕ, true, not, [], ◌∷◌, ◌++◌, Option, none, some, ok, err, ◌==◌, fail_if, ok_or, ◌>>=◌, ◌>>◌,
  ok_of_ok_or, Bool-cases, Option-cases, ◌≡◌, refl, ◌⊎◌, inl, inr, arith,
}
use oxide_ssh.Input.Keys.{Bytes}
use oxide_ssh.Storage.Types.{StorageError, corrupt, unsupported_schema, current_schema, io}
use oxide_ssh.Storage.Files.{File, Codec, Io, parse, read_versioned, atomic_write}

pub record IsFaithful {A : Type 0} (codec : Codec A) (version : A → ℕ) : Type 0 where
  pub reads_back :
      (a : A) (bytes : Bytes)
      → codec.encode a ≡ some bytes
      → codec.decode (bytes ++ 0x0a ∷ []) ≡ some a
  pub probes :
      (a : A) (bytes : Bytes) → codec.decode bytes ≡ some a → codec.probe bytes ≡ some (version a)

module _ {A : Type 0} ⦃codec : Codec A⦄ (version : A → ℕ)
    (faithful : IsFaithful codec version) where
  parse-decode :
      (bytes : Bytes) (a : A)
      → codec.decode bytes ≡ some a
      → version a ≡ current_schema
      → parse bytes ≡ ok a
  unfolding parse
  parse-decode bytes a d v = rw (faithful.probes a bytes d, v, d) refl

  parsed :
      (probe : Option ℕ) (content : Option A) (a : A)
      → (ok_or probe corrupt >>= λ v.
          (fail_if (not (v == current_schema)) (unsupported_schema v) >> ok_or content corrupt))
        ≡ ok a
      → (probe ≡ some current_schema) × (content ≡ some a)
  parsed none content a h = ground arith
  parsed (some v) content a h = elim (Bool-cases (v == current_schema)) [
    | inl same ↦ (ground arith, ok_of_ok_or content corrupt (rw same at h))
    | inr other ↦ ground arith
  ]

  version_of_parse : (bytes : Bytes) (a : A) → parse bytes ≡ ok a → version a ≡ current_schema
  unfolding parse
  version_of_parse bytes a h =
      let (p, d) = parsed (codec.probe bytes) (codec.decode bytes) a h in
      let q = faithful.probes a bytes d in ground arith

  -- What was read has the current version, the default included.
  pub version_of_read :
      (sys : Io) (file : File) (default a : A)
      → version default ≡ current_schema
      → read_versioned sys file default ≡ ok a
      → version a ≡ current_schema
  unfolding read_versioned
  version_of_read sys none default a v h = ground arith
  version_of_read sys (some bytes) default a v h = elim (Bool-cases sys.read_ok) [
    | inl on ↦ version_of_parse bytes a (rw on at h)
    | inr off ↦ ground arith
  ]

  -- A write leaves the file and fails, or stores what the next read gives.
  pub write-cases :
      (sys : Io) (file : File) (a : A)
      → version a ≡ current_schema
      → let (file', answer) = atomic_write sys file a in
        ((file' ≡ file) × (e : StorageError) × (answer ≡ err e))
        ⊎ (((next : Io) (default : A)
              → next.read_ok ≡ true
              → read_versioned next file' default ≡ ok a)
            × (answer ≡ fail_if (not sys.sync_ok) io))
  unfolding atomic_write read_versioned
  write-cases sys file a v = elim (Bool-cases sys.create_ok) [
    | inr off ↦ rw off (inl (refl, _, refl))
    | inl on ↦ elim (Option-cases (codec.encode a)) [
      | inl gone ↦ rw (on, gone) (inl (refl, _, refl))
      | inr (bytes, e) ↦ elim (Bool-cases sys.replace_ok) [
        | inr off ↦ rw (on, e, off) (inl (refl, _, refl))
        | inl there ↦
            rw (on, e, there)
              (inr (
                λ next default r.
                    rw r (parse-decode (bytes ++ 0x0a ∷ []) a (faithful.reads_back a bytes e) v),
                refl,
              ))
      ]
    ]
  ]
