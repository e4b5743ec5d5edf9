-- ===== src/Operations/Releases.antt =====
-- What was released stays: registering more operations leaves every version that a job may name.
use data_analytics_platform.Base.{
  ◌≡◌, ◌⊎◌, refl, sym, ap, ◌∙◌, List, [], ◌∷◌, ◌++◌, String, Bool, true, Option, none, some, arith,
  inl, inr, Option-cases, first_where, first_where-append, first_where_last, eq_refl,
}
use data_analytics_platform.Operations.Parameters.{Fault, Checked, accepted, rejected}
use data_analytics_platform.Operations.Registry.{
  OperationDefinition, OperationRegistry, or_unsupported, is_released, register, register_all,
  resolve,
}

Checked-cases {ℓ} :
    {A : Type ℓ} (c : Checked A) → ((a : A) × (c ≡ accepted a)) ⊎ ((e : Fault) × (c ≡ rejected e))
Checked-cases (accepted a) = inl (a, refl)
Checked-cases (rejected e) = inr (e, refl)

module _ {F : Type 0} where
  found :
      (o : Option (OperationDefinition F)) (d : OperationDefinition F)
      → or_unsupported o ≡ accepted d
      → o ≡ some d
  found none d h = absurd (cc)
  found (some e) d h = ap some (cc)

  abbrev versions_of : Checked (OperationRegistry F) → List (OperationDefinition F)
  versions_of (accepted r) = r.versions
  versions_of (rejected e) = []

  -- A registration that succeeds appends a version that was not there.
  register-versions :
      (d : OperationDefinition F) (current : Bool) (r r' : OperationRegistry F)
      → register d current r ≡ accepted r'
      → (first_where (is_released d.name d.semantic_version) r.versions ≡ none)
        × (r'.versions ≡ r.versions ++ d ∷ [])
  unfolding register
  register-versions d current r r' h =
      elim (Option-cases (first_where (is_released d.name d.semantic_version) r.versions)) [
        | inl e ↦ (e, sym (ap versions_of (rw e at h)))
        | inr (x, e) ↦ let no = rw e at h in absurd (cc)
      ]

  -- What a registry resolves by name and version it still resolves after a registration.
  register_keeps :
      (d e : OperationDefinition F) (current : Bool) (r r' : OperationRegistry F)
      (operation version : String)
      → register d current r ≡ accepted r'
      → resolve operation (some version) r ≡ accepted e
      → resolve operation (some version) r' ≡ accepted e
  unfolding resolve
  register_keeps d e current r r' operation version h k =
      let (fresh, appended) = register-versions d current r r' h in
      let before = found (first_where (is_released operation version) r.versions) e k in
      let after = first_where-append (is_released operation version) r.versions (d ∷ []) e before in
      ap or_unsupported (ap (first_where (is_released operation version)) appended ∙ after)

  register_adds :
      (d : OperationDefinition F) (current : Bool) (r r' : OperationRegistry F)
      → register d current r ≡ accepted r'
      → resolve d.name (some d.semantic_version) r' ≡ accepted d
  unfolding resolve
  register_adds d current r r' h =
      let (fresh, appended) = register-versions d current r r' h in
      let itself : is_released d.name d.semantic_version d ≡ true =
        ground (arith, eq_refl d.name, eq_refl d.semantic_version) in
      ap or_unsupported (
        ap (first_where (is_released d.name d.semantic_version)) appended
        ∙ first_where_last (is_released d.name d.semantic_version) d r.versions itself fresh)

  register_all_keeps :
      (ds : List (OperationDefinition F)) (e : OperationDefinition F) (r r' : OperationRegistry F)
      (operation version : String)
      → register_all ds r ≡ accepted r'
      → resolve operation (some version) r ≡ accepted e
      → resolve operation (some version) r' ≡ accepted e
  unfolding register_all
  register_all_keeps [] e r r' operation version h k = let same : r ≡ r' = cc in rw (← same) k
  register_all_keeps (d ∷ ds) e r r' operation version h k =
      elim (Checked-cases (register d true r)) [
        | inl (r1, a) ↦
            register_all_keeps ds e r1 r' operation version (rw a at h)
              (register_keeps d e true r r1 operation version a k)
        | inr (x, a) ↦ let no = rw a at h in absurd (cc)
      ]

  -- An operation that a registry accepts resolves to that definition by its name and version for good:
  -- whatever operations are registered after it, as long as the registry accepts them.
  pub resolve-register :
      (d : OperationDefinition F) (current : Bool) (ds : List (OperationDefinition F))
      (r r1 r2 : OperationRegistry F)
      → register d current r ≡ accepted r1
      → register_all ds r1 ≡ accepted r2
      → resolve d.name (some d.semantic_version) r2 ≡ accepted d
  resolve-register d current ds r r1 r2 h k =
      register_all_keeps ds d r1 r2 d.name d.semantic_version k (register_adds d current r r1 h)
