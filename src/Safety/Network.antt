-- ===== src/Safety/Network.antt =====
-- What PolicyEngine.endpoint of harness/policy/engine.py lets a request reach.
use mi_harness.Exec.Keeps.{Keeps, keeps_rules}
use mi_harness.Exec.Returns.{
  Returns-or_raise, ReturnsFrom, ReturnsFrom-any, ReturnsFrom-require, ReturnsFrom-skip,
  ReturnsFrom-then,
}
use mi_harness.Policy.Engine.{
  Url, Purpose, ModelSetupGrant, policy_for, well_formed, is_local, is_fake_model, may_be_local,
  check_addresses, endpoint,
}
use mi_harness.Policy.Documents.{Policy}
use mi_harness.Policy.ReadOnly.{current-Keeps, effective-Keeps}
use mi_harness.Exec.{World, ◌>>=◌, require, or_raise, ok}
use mi_harness.Prelude.{
  String, ◌≡◌, refl, ◌≢◌, ◌⊎◌, inl, inr, Bool, true, false, ◌&&◌, ◌||◌, Option, some, List, [], ◌∷◌,
  arith, same, same→eq, Bool-cases, all, contains,
}
use mi_harness.Store.Schema.{Database}
use mi_harness.Core.{AccessContext}
use mi_harness.Host.{Host}
use mi_harness.Safety.Endpoints.{IsGranted, Granted, model_granted_lem, model_granted-Keeps}

module _ (host : Host) (u : Url) (ctx : AccessContext) (purpose : Purpose) (configured : Bool)
    (profile_ref : Option String) (grant : Option ModelSetupGrant) (d : Database) where
  -- An address that a request may be sent to.
  abbrev pub IsAdmitted : String → Type 0
  IsAdmitted a =
      (host.is_global a ≡ true)
      ⊎ ((host.is_loopback a ≡ true) × (configured ≡ true) × (purpose ≢ Purpose.other))
      ⊎ ((host.in_fake_range a ≡ true)
          × (u.scheme ≡ "https")
          × (host.is_official u.text ≡ true)
          × IsGranted d ctx u.text purpose configured profile_ref grant)

  -- The addresses that the name of the URL resolves to, each of which is admitted.
  pub record IsReachable (found : List String) : Type 0 where
    pub some_address : found ≢ []
    pub name : String
    pub of_url : u.hostname ≡ some name
    pub resolved : host.resolve name ≡ some found
    pub by_http : (u.scheme ≡ "http") ⊎ (u.scheme ≡ "https")
    pub without_credentials : u.has_credentials ≡ false
    pub admitted : (a : String) → contains a found ≡ true → IsAdmitted a

all_of :
    (p : String → Bool) (xs : List String) (a : String)
    → all p xs ≡ true
    → contains a xs ≡ true
    → p a ≡ true
unfolding all
all_of p [] a h m = cc
all_of p (x ∷ xs) a h m = ground (arith, all_of p xs a, same→eq x a)

policy-Keeps :
    {P : Database → Type 0} (host : Host) (ctx : AccessContext) → Keeps P (policy_for host ctx)
unfolding policy_for
policy-Keeps host (AccessContext.execution c) = effective-Keeps host c
policy-Keeps host (AccessContext.diagnostic c) = current-Keeps (AccessContext.diagnostic c)

local_endpoint :
    (host : Host) (configured : Bool) (purpose : Purpose)
    → may_be_local host configured purpose ≡ true
    → (configured ≡ true) × (purpose ≢ Purpose.other)
local_endpoint host configured Purpose.model h = (h, λ e. absurd cc)
local_endpoint host configured Purpose.mcp h = (h, λ e. absurd cc)
local_endpoint host configured Purpose.other h = cc

by_scheme :
    (scheme : String)
    → (same scheme "http" || same scheme "https") ≡ true
    → (scheme ≡ "http") ⊎ (scheme ≡ "https")
by_scheme scheme h = elim (Bool-cases (same scheme "http")) [
  | inl y ↦ inl (same→eq scheme "http" y)
  | inr n ↦ inr (same→eq scheme "https" (ground (arith, h)))
]

module _ (host : Host) (u : Url) (ctx : AccessContext) (purpose : Purpose) (configured : Bool)
    (profile_ref : Option String) (grant : Option ModelSetupGrant) (d : Database) where
  address-IsAdmitted :
      (granted : Bool) (found : List String) (a : String)
      → Granted host u ctx purpose configured profile_ref grant d granted
      → (all host.is_global found
          || is_fake_model host granted u found
          || may_be_local host configured purpose && is_local host found)
        ≡ true
      → contains a found ≡ true
      → IsAdmitted host u ctx purpose configured profile_ref grant d a
  address-IsAdmitted granted found a known h m = elim (Bool-cases (all host.is_global found)) [
    | inl y ↦ inl (all_of host.is_global found a y m)
    | inr n ↦ elim (Bool-cases (is_fake_model host granted u found)) [
      | inl fake ↦ elim (Bool-cases (host.is_global a)) [
        | inl y ↦ inl y
        | inr local ↦
            let each =
              all_of (λ x. host.is_global x || host.in_fake_range x) found a (ground (arith, fake))
                m in
            inr (
              inr (
                ground (arith, each),
                same→eq u.scheme "https" (ground (arith, fake)),
                ground (arith, fake),
                known (ground (arith, fake)),
              ))
      ]
      | inr not_fake ↦
          let local : may_be_local host configured purpose && is_local host found ≡ true =
            ground arith in
          let (set_up, served) = local_endpoint host configured purpose (ground (arith, local)) in
          inr (inl (all_of host.is_loopback found a (ground (arith, local)) m, set_up, served))
    ]
  ]

  checked :
      (policy : Policy) (name : String) (granted : Bool) (w : World Database) (found : List String)
      → u.hostname ≡ some name
      → well_formed host u ≡ true
      → Granted host u ctx purpose configured profile_ref grant d granted
      → (check_addresses host policy u name purpose configured granted (host.resolve name) w).0
        ≡ ok found
      → IsReachable host u ctx purpose configured profile_ref grant d found
  unfolding check_addresses ◌>>=◌ require or_raise
  checked policy name granted w found named well known h = record {
    some_address = ground arith;
    name = name;
    of_url = named;
    resolved = ground arith;
    by_http = by_scheme u.scheme (ground (arith, well));
    without_credentials = ground (arith, well);
    admitted = λ a. address-IsAdmitted granted found a known (ground arith);
  }

-- What `endpoint` returns are the addresses of the URL's name, of which there is at least one,
-- and the URL is of HTTP or HTTPS and has no credentials. Each address is public; or a loopback
-- address, for a configured model or MCP endpoint; or one of the synthetic range of a proxy,
-- for an official HTTPS endpoint that the user has granted to this model profile, by a grant that
-- the store holds for the owner or by setting it up in this diagnosis.
pub endpoint_reaches :
    (host : Host) (u : Url) (ctx : AccessContext) (purpose : Purpose) (configured : Bool)
    (profile_ref : Option String) (grant : Option ModelSetupGrant) (w : World Database)
    (found : List String)
    → (endpoint host u ctx purpose configured profile_ref grant w).0 ≡ ok found
    → IsReachable host u ctx purpose configured profile_ref grant w.db found
unfolding endpoint
endpoint_reaches host u ctx purpose configured profile_ref grant w found h =
    let from : ReturnsFrom w.db (IsReachable host u ctx purpose configured profile_ref grant w.db)
        (endpoint host u ctx purpose configured profile_ref grant) =
      ReturnsFrom-require _ _ _ _ (λ well.
        ReturnsFrom-then w.db (λ name. u.hostname ≡ some name) _ _ (search keeps_rules)
          (ReturnsFrom-any _ _ (Returns-or_raise _ _))
          (λ name named. ReturnsFrom-skip w.db _ _ (policy-Keeps host ctx) (λ policy.
            ReturnsFrom-then w.db _ _ _
              (model_granted-Keeps host ctx u.text purpose configured profile_ref grant)
              (model_granted_lem host u ctx purpose configured profile_ref grant w.db)
              (λ granted known. record {
                at = λ v a start e.
                    checked host u ctx purpose configured profile_ref grant w.db policy name granted
                      v a named well known e;
              })))) in
    from.at w found refl h
