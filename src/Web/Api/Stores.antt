-- ===== src/Web/Api/Stores.antt =====
-- apps/web/src/api: what a call leaves of the stores.
use remodelator.Base.{◌≡◌, refl, Option, List, [], ◌∷◌, String}
use remodelator.Base.Json.{Json}
use remodelator.Web.App.{App, Runtime, Reply}
use remodelator.Web.Api.Calls.{
  Activity, Admin, Billing, Catalog, Estimates, Llm, Profile, Proposals, Templates, Call,
  get_audit_trail, demo_reset, get_billing_policy, get_catalog_tree, list_estimates, get_llm_status,
  get_profile, render_proposal, list_templates,
}
use remodelator.Web.Api.Send.{
  Encoding, activity_api, admin_api, billing_api, catalog_api, estimates_api, llm_api, profile_api,
  proposals_api, templates_api, perform,
}
use remodelator.Web.Client.{request, receive, get, post, put, del}

receive-auth :
    (js : Runtime) (replies : List Reply) (app : App) → (receive js replies app).1.auth ≡ app.auth
unfolding receive
receive-auth js [] app = refl
receive-auth js (reply ∷ rest) app = refl

request-auth :
    (js : Runtime) (path verb : String) (body : Option Json) (app : App)
    → (request js path verb body app).1.auth ≡ app.auth
unfolding request
request-auth js path verb body app = receive-auth js app.replies _

module _ (js : Runtime) (web : Encoding) (app : App) where
  activity_api-auth : (c : Activity) → (activity_api js web c app).1.auth ≡ app.auth
  unfolding activity_api get post
  activity_api-auth get_audit_trail = request-auth js _ _ _ app
  activity_api-auth _ = request-auth js _ _ _ app

  admin_api-auth : (c : Admin) → (admin_api js web c app).1.auth ≡ app.auth
  unfolding admin_api get post
  admin_api-auth demo_reset = request-auth js _ _ _ app
  admin_api-auth _ = request-auth js _ _ _ app

  billing_api-auth : (c : Billing) → (billing_api js web c app).1.auth ≡ app.auth
  unfolding billing_api get post
  billing_api-auth get_billing_policy = request-auth js _ _ _ app
  billing_api-auth _ = request-auth js _ _ _ app

  catalog_api-auth : (c : Catalog) → (catalog_api js web c app).1.auth ≡ app.auth
  unfolding catalog_api get post
  catalog_api-auth get_catalog_tree = request-auth js _ _ _ app
  catalog_api-auth _ = request-auth js _ _ _ app

  estimates_api-auth : (c : Estimates) → (estimates_api js web c app).1.auth ≡ app.auth
  unfolding estimates_api get post put del
  estimates_api-auth list_estimates = request-auth js _ _ _ app
  estimates_api-auth _ = request-auth js _ _ _ app

  llm_api-auth : (c : Llm) → (llm_api js web c app).1.auth ≡ app.auth
  unfolding llm_api get post
  llm_api-auth get_llm_status = request-auth js _ _ _ app
  llm_api-auth _ = request-auth js _ _ _ app

  profile_api-auth : (c : Profile) → (profile_api js web c app).1.auth ≡ app.auth
  unfolding profile_api get put
  profile_api-auth get_profile = request-auth js _ _ _ app
  profile_api-auth _ = request-auth js _ _ _ app

  proposals_api-auth : (c : Proposals) → (proposals_api js web c app).1.auth ≡ app.auth
  unfolding proposals_api get post
  proposals_api-auth (render_proposal id) = request-auth js _ _ _ app
  proposals_api-auth _ = request-auth js _ _ _ app

  templates_api-auth : (c : Templates) → (templates_api js web c app).1.auth ≡ app.auth
  unfolding templates_api get post
  templates_api-auth list_templates = request-auth js _ _ _ app
  templates_api-auth _ = request-auth js _ _ _ app

  pub perform-auth : (c : Call) → (perform js web c app).1.auth ≡ app.auth
  unfolding perform
  perform-auth (Call.activity c) = activity_api-auth c
  perform-auth (Call.admin c) = admin_api-auth c
  perform-auth (Call.billing c) = billing_api-auth c
  perform-auth (Call.catalog c) = catalog_api-auth c
  perform-auth (Call.estimates c) = estimates_api-auth c
  perform-auth (Call.llm c) = llm_api-auth c
  perform-auth (Call.profile c) = profile_api-auth c
  perform-auth (Call.proposals c) = proposals_api-auth c
  perform-auth (Call.templates c) = templates_api-auth c
