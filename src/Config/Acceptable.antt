-- ===== src/Config/Acceptable.antt =====
-- internal/config/config.go: validatePool against a description of the pools that are acceptable.
use tentacles.Base.{
  ◌≡◌, ◌≢◌, ◌↔◌, ◌⊎◌, refl, inl, inr, Bool, true, false, not, ◌&&◌, [], Text, codes, text_eq,
  text_eq_iff, arith, Bool-cases,
}
use tentacles.Base.Int.{ℤ, pos, ◌≤ℤ◌, ltb_ℤ, lt_of_not_le, ltb_of_le, leb_of_lt}
use tentacles.Config.{Pool, Scope}
use tentacles.Config.Names.{label_matches}
use tentacles.Config.Failures.{gather-nil, nil-gather, when-nil, nil-when, when-not-nil}
use tentacles.Config.PoolCheck.{
  validate_pool, pool_checks, check_capacity_of, capacity_checks, check_app, app_checks,
  check_scope, scope_checks, check_kind, check_key, url_empty, client_id_empty, owner_empty,
  installation_id_not_positive, key_not_readable, repository_missing, name_not_label,
}
use tentacles.Config.Accepted.{IsBounded, validate_pool-IsBounded}

-- A path of a private key for which os.Stat returns no error.
abbrev pub IsFound : (Text → Bool) → Text → Type 0
IsFound exists path = (path ≢ []) × (exists path ≡ true)

-- An organization, or a repository with its name.
abbrev pub IsTarget : Scope → Type 0
IsTarget s = (s.kind ≡ codes "organization") ⊎ ((s.kind ≡ codes "repository") × (s.repository ≢ []))

pub record IsAcceptable (exists : Text → Bool) (host_max : ℤ) (p : Pool) : Type 0 where
  pub bounded : IsBounded host_max p
  pub url : p.github.url ≢ []
  pub installation : pos 1 ≤ℤ p.github.app.installation_id
  pub client : p.github.app.client_id ≢ []
  pub key : IsFound exists p.github.app.private_key_path
  pub target : IsTarget p.github.scope
  pub owner : p.github.scope.owner ≢ []
  pub label : label_matches p.scale_set.name ≡ true

ne_of_test : (s t : Text) → text_eq s t ≡ false → s ≢ t
ne_of_test s t h e = cc ((text_eq_iff s t).1 e, h)

test_of_ne : (s t : Text) → s ≢ t → text_eq s t ≡ false
test_of_ne s t h = elim (Bool-cases (text_eq s t)) [
  | inl e ↦ absurd (h ((text_eq_iff s t).0 e))
  | inr e ↦ e
]

key_iff : (exists : Text → Bool) (path : Text) → (check_key exists path ≡ []) ↔ IsFound exists path
unfolding check_key
key_iff exists path = elim (Bool-cases (text_eq path [])) [
  | inl e ↦ rw e (λ h. cc h, λ h. absurd (h.0 ((text_eq_iff path []).0 e)))
  | inr e ↦ rw e (
    λ h. (ne_of_test path [] e, when-not-nil (exists path) key_not_readable h),
    λ h. nil-when (not (exists path)) key_not_readable (rw (h.1) refl),
  )
]

kind_iff : (s : Scope) → (check_kind s ≡ []) ↔ IsTarget s
unfolding check_kind
kind_iff s = elim (Bool-cases (text_eq s.kind (codes "organization"))) [
  | inl e ↦ rw e (λ _. inl ((text_eq_iff s.kind _).0 e), λ _. refl)
  | inr a ↦ elim (Bool-cases (text_eq s.kind (codes "repository"))) [
    | inl e ↦
        rw (a, e)
          (
            λ h. inr (
              (text_eq_iff s.kind _).0 e,
              ne_of_test s.repository [] (when-nil (text_eq s.repository []) repository_missing h),
            ),
            λ h. nil-when (text_eq s.repository []) repository_missing (named a h),
          )
    | inr b ↦ rw (a, b) (λ h. cc h, λ h. absurd (unknown a b h))
  ]
]
  where
    named :
        text_eq s.kind (codes "organization") ≡ false → IsTarget s → text_eq s.repository [] ≡ false
    named a (inl k) = absurd (ne_of_test s.kind _ a k)
    named a (inr (k, r)) = test_of_ne s.repository [] r

    unknown :
        text_eq s.kind (codes "organization") ≡ false
        → text_eq s.kind (codes "repository") ≡ false
        → IsTarget s
        → ⊥
    unknown a b (inl k) = ne_of_test s.kind _ a k
    unknown a b (inr (k, r)) = ne_of_test s.kind _ b k

above_host :
    (host_max m : ℤ)
    → (pos 1 ≤ℤ host_max → m ≤ℤ host_max)
    → (ltb_ℤ (pos 0) host_max && ltb_ℤ host_max m) ≡ false
above_host host_max m h = elim (Bool-cases (ltb_ℤ (pos 0) host_max)) [
  | inl e ↦ rw e (ltb_of_le host_max m (h (ground (arith, e))))
  | inr e ↦ rw e refl
]

module _ (exists : Text → Bool) (host_max : ℤ) (p : Pool) where
  capacity_passes : IsBounded host_max p → check_capacity_of host_max p.capacity ≡ []
  unfolding check_capacity_of
  capacity_passes b = nil-gather (capacity_checks host_max p.capacity) (
    nil-when _ _ (ltb_of_le p.capacity.min_runners (pos 0) b.min_from_zero),
    (
      nil-when _ _ (ltb_of_le p.capacity.max_runners (pos 1) b.max_from_one),
      (
        nil-when _ _ (ltb_of_le p.capacity.max_runners p.capacity.min_runners b.min_within_max),
        (nil-when _ _ (above_host host_max p.capacity.max_runners b.max_within_host), tt),
      ),
    ),
  )

  app_passes : IsAcceptable exists host_max p → check_app exists p.github.app ≡ []
  unfolding check_app
  app_passes a = nil-gather (app_checks exists p.github.app) (
    nil-when _ _ (leb_of_lt p.github.app.installation_id (pos 0) (omega (arith, a.installation))),
    (
      nil-when _ _ (test_of_ne p.github.app.client_id [] a.client),
      ((key_iff exists p.github.app.private_key_path).1 a.key, tt),
    ),
  )

  scope_passes : IsAcceptable exists host_max p → check_scope p.github.scope ≡ []
  unfolding check_scope
  scope_passes a = nil-gather (scope_checks p.github.scope) (
    (kind_iff p.github.scope).1 a.target,
    (nil-when _ _ (test_of_ne p.github.scope.owner [] a.owner), tt),
  )

  acceptable_passes : IsAcceptable exists host_max p → validate_pool exists host_max p ≡ []
  unfolding validate_pool
  acceptable_passes a = nil-gather (pool_checks exists host_max p) (
    nil-when _ _ (rw (a.bounded.id_pattern) refl),
    (
      capacity_passes a.bounded,
      (
        nil-when _ _ (test_of_ne p.github.url [] a.url),
        (app_passes a, (scope_passes a, (nil-when _ _ (rw (a.label) refl), tt))),
      ),
    ),
  )

  app_facts :
      check_app exists p.github.app ≡ []
      → (pos 1 ≤ℤ p.github.app.installation_id)
        × (p.github.app.client_id ≢ [])
        × IsFound exists p.github.app.private_key_path
  unfolding check_app
  app_facts e =
      let checks = gather-nil (app_checks exists p.github.app) e in
      let installed =
        lt_of_not_le p.github.app.installation_id (pos 0)
          (when-nil _ installation_id_not_positive checks.0) in
      (
        omega (arith, installed),
        ne_of_test p.github.app.client_id [] (when-nil _ client_id_empty checks.1.0),
        (key_iff exists p.github.app.private_key_path).0 checks.1.1.0,
      )

  scope_facts :
      check_scope p.github.scope ≡ [] → IsTarget p.github.scope × (p.github.scope.owner ≢ [])
  unfolding check_scope
  scope_facts e =
      let checks = gather-nil (scope_checks p.github.scope) e in
      (
        (kind_iff p.github.scope).0 checks.0,
        ne_of_test p.github.scope.owner [] (when-nil _ owner_empty checks.1.0),
      )

  passes-IsAcceptable : validate_pool exists host_max p ≡ [] → IsAcceptable exists host_max p
  unfolding validate_pool
  passes-IsAcceptable e =
      let checks = gather-nil (pool_checks exists host_max p) e in
      let app = app_facts checks.1.1.1.0 in
      let scope = scope_facts checks.1.1.1.1.0 in
      record {
        bounded = validate_pool-IsBounded exists host_max p e;
        url = ne_of_test p.github.url [] (when-nil _ url_empty checks.1.1.0);
        installation = app.0;
        client = app.1;
        key = app.2;
        target = scope.0;
        owner = scope.1;
        label = when-not-nil _ name_not_label checks.1.1.1.1.1.0;
      }

  -- validatePool reports nothing exactly for the acceptable pools: an ID of the pattern, capacities in
  -- order and within the host's, a URL, a positive installation ID, a client ID, a path of a private key for
  -- which os.Stat returns no error, an organization or a named repository with its owner, and a scale set
  -- name that is a label.
  pub validate_pool_iff : (validate_pool exists host_max p ≡ []) ↔ IsAcceptable exists host_max p
  validate_pool_iff = (passes-IsAcceptable, acceptable_passes)
