-- ===== src/Safety/Endpoints.antt =====
-- The grants of model endpoints that PolicyEngine.endpoint of harness/policy/engine.py looks for.
use mi_harness.Exec.Keeps.{Keeps, Keeps-gets, Keeps-pure, keeps_rules}
use mi_harness.Exec.Returns.{
  Returns-pure, ReturnsFrom, ReturnsFrom-any, ReturnsFrom-gets, ReturnsFrom-then,
}
use mi_harness.Policy.Engine.{
  Url, Purpose, ModelSetupGrant, access_owner, setup_matches, grant_matches, model_granted,
}
use mi_harness.Policy.ReadOnly.{get-Keeps}
use mi_harness.Prelude.{
  String, ◌≡◌, refl, ◌⊎◌, inl, inr, Bool, true, false, Option, none, some, arith, same→eq, sym,
  subst, Bool-cases,
}
use mi_harness.Store.Schema.{Payload, Database}
use mi_harness.Store.Records.{find_record, payload_of, get}
use mi_harness.Core.{AccessContext, DiagnosticContext}
use mi_harness.Host.{Host}

-- The diagnosis that is under way was set up for this very endpoint.
pub record SetUp (ctx : AccessContext) (profile_ref url : String) (grant : Option ModelSetupGrant)
    : Type 0 where
  pub diagnosis : DiagnosticContext
  pub setup : ModelSetupGrant
  pub in_diagnosis : ctx ≡ AccessContext.diagnostic diagnosis
  pub given : grant ≡ some setup
  pub own : setup.owner_id ≡ diagnosis.owner_id
  pub this_diagnosis : setup.diagnostic_id ≡ diagnosis.diagnostic_id
  pub this_profile : setup.profile_ref ≡ profile_ref
  pub this_endpoint : setup.endpoint ≡ url

-- The store holds an enabled grant of the owner for this endpoint of this model profile.
abbrev pub IsSaved : AccessContext → String → String → Option Payload → Type 0
IsSaved ctx profile_ref url p =
    p ≡ some (Payload.endpoint_grant true (access_owner ctx) profile_ref url)

-- The user has granted the model endpoint.
pub record IsGranted (d : Database) (ctx : AccessContext) (url : String) (purpose : Purpose)
    (configured : Bool) (profile_ref : Option String) (grant : Option ModelSetupGrant)
    : Type 0 where
  pub profile : String
  pub for_model : purpose ≡ Purpose.model
  pub is_configured : configured ≡ true
  pub of_profile : profile_ref ≡ some profile
  pub by_user :
      SetUp ctx profile url grant
      ⊎ IsSaved ctx profile url (payload_of (find_record "model_endpoint_grants" profile d))

module _ (host : Host) (u : Url) (ctx : AccessContext) (purpose : Purpose) (configured : Bool)
    (profile_ref : Option String) (grant : Option ModelSetupGrant) (d : Database) where
  abbrev pub Granted : Bool → Type 0
  Granted granted = granted ≡ true → IsGranted d ctx u.text purpose configured profile_ref grant

setup-SetUp :
    (host : Host) (ctx : AccessContext) (profile url : String) (grant : Option ModelSetupGrant)
    → setup_matches host ctx profile url grant ≡ true
    → SetUp ctx profile url grant
setup-SetUp host (AccessContext.execution c) profile url grant h = cc
setup-SetUp host (AccessContext.diagnostic c) profile url none h = cc
setup-SetUp host (AccessContext.diagnostic c) profile url (some g) h = record {
  diagnosis = c;
  setup = g;
  in_diagnosis = refl;
  given = refl;
  own = same→eq g.owner_id c.owner_id (ground (arith, h));
  this_diagnosis = same→eq g.diagnostic_id c.diagnostic_id (ground (arith, h));
  this_profile = same→eq g.profile_ref profile (ground (arith, h));
  this_endpoint = same→eq g.endpoint url (ground (arith, h));
}

grant-IsSaved :
    (host : Host) (ctx : AccessContext) (profile url : String) (p : Option Payload)
    → grant_matches host ctx profile url p ≡ true
    → IsSaved ctx profile url p
grant-IsSaved host ctx profile url (some (Payload.endpoint_grant enabled owner ref e)) h =
    ground (arith, h, same→eq owner (access_owner ctx), same→eq ref profile, same→eq e url)
grant-IsSaved host ctx profile url none h = cc
grant-IsSaved host ctx profile url (some _) h = cc

-- A call of `model_granted` that returns true has found a grant.
pub model_granted_lem :
    (host : Host) (u : Url) (ctx : AccessContext) (purpose : Purpose) (configured : Bool)
    (profile_ref : Option String) (grant : Option ModelSetupGrant) (d : Database)
    → ReturnsFrom d
        (Granted host u ctx purpose configured profile_ref grant d)
        (model_granted host ctx u.text purpose configured profile_ref grant)
unfolding model_granted get
model_granted_lem host u ctx Purpose.model true (some profile) grant d =
    ReturnsFrom-then d _ _ _ (Keeps-gets _) (ReturnsFrom-gets d _) (λ saved e. ReturnsFrom-any d _ (
      Returns-pure _ (λ h. record {
        profile = profile;
        for_model = refl;
        is_configured = refl;
        of_profile = refl;
        by_user =
            subst (λ s. SetUp ctx profile u.text grant ⊎ IsSaved ctx profile u.text s) (sym e)
              (elim (Bool-cases (setup_matches host ctx profile u.text grant)) [
                | inl y ↦ inl (setup-SetUp host ctx profile u.text grant y)
                | inr n ↦ inr (grant-IsSaved host ctx profile u.text saved (ground arith))
              ]);
      })))
model_granted_lem host u ctx Purpose.model true none grant d =
    ReturnsFrom-any d _ (Returns-pure _ (λ h. cc))
model_granted_lem host u ctx Purpose.model false profile_ref grant d =
    ReturnsFrom-any d _ (Returns-pure _ (λ h. cc))
model_granted_lem host u ctx Purpose.mcp configured profile_ref grant d =
    ReturnsFrom-any d _ (Returns-pure _ (λ h. cc))
model_granted_lem host u ctx Purpose.other configured profile_ref grant d =
    ReturnsFrom-any d _ (Returns-pure _ (λ h. cc))

pub model_granted-Keeps :
    {P : Database → Type 0} (host : Host) (ctx : AccessContext) (url : String) (purpose : Purpose)
    (configured : Bool) (profile_ref : Option String) (grant : Option ModelSetupGrant)
    → Keeps P (model_granted host ctx url purpose configured profile_ref grant)
unfolding model_granted
model_granted-Keeps host ctx url Purpose.model true (some profile) grant =
    search (keeps_rules, get-Keeps) depth 14
model_granted-Keeps host ctx url Purpose.model true none grant = Keeps-pure _
model_granted-Keeps host ctx url Purpose.model false profile_ref grant = Keeps-pure _
model_granted-Keeps host ctx url Purpose.mcp configured profile_ref grant = Keeps-pure _
model_granted-Keeps host ctx url Purpose.other configured profile_ref grant = Keeps-pure _
