-- ===== src/Web/Routes/Laws.antt =====
-- App.tsx: a visit ends at the page that the visitor may see.
use remodelator.Base.{
  ℕ, suc, ◌≡◌, refl, ap, ◌∙◌, String, Bool, true, some, List, [], ◌∷◌, Bool-cases, inl, inr,
}
use remodelator.Web.App.{
  App, Runtime, is_present, is_text, set_auth, clear_auth, set_admin_api_key, clear_admin_api_key,
}
use remodelator.Web.Api.Send.{Encoding}
use remodelator.Web.Auth.{auth_guard, admin_guard, signed_in, logout}
use remodelator.Web.Api.Stores.{perform-auth}
use remodelator.Web.Routes.{
  Route, arrive, login_page, public_route, guarded_route, admin_route, catch_all, enter, route_of,
  follow, one_segment,
}
use remodelator.Web.Routes.Access.{
  access_with, access_of, permitted, Change, sign_in, sign_out, admin_key, call, change, changes,
  next_access, accesses,
}

-- what react-router documents of the two addresses that the guards send a visitor to
pub record IsRouter (matches : String → String → Bool) (segments : String → List String)
    : Type 0 where
  pub root : segments "/" ≡ []
  pub login : segments "/login" ≡ "login" ∷ []
  pub same : (s : String) → matches s s ≡ true

module _ (matches : String → String → Bool) (segments : String → List String) (app : App)
    (router : IsRouter matches segments) where
  follow-login :
      (fuel : ℕ) → follow matches segments app (suc fuel) (segments "/login") ≡ some login_page
  unfolding follow route_of one_segment enter
  follow-login fuel = rw router.login (rw (router.same "login") refl)

  follow-root :
      (fuel : ℕ)
      → follow matches segments app (suc (suc fuel)) (segments "/")
        ≡ some (permitted (access_of app) catch_all)
  unfolding follow route_of enter auth_guard
  follow-root fuel = rw router.root (elim (Bool-cases (is_present app.auth.token)) [
    | inr out ↦ rw out (follow-login fuel)
    | inl token ↦ elim (Bool-cases (is_text app.auth.role "admin")) [
      | inl boss ↦ rw (token, boss) refl
      | inr plain ↦ rw (token, plain) refl
    ]
  ])

  arrive-permitted :
      (fuel : ℕ) (r : Route)
      → arrive (λ to. follow matches segments app (suc (suc fuel)) (segments to)) (enter app r)
        ≡ some (permitted (access_of app) r)
  unfolding enter auth_guard admin_guard
  arrive-permitted fuel (public_route p) = refl
  arrive-permitted fuel (guarded_route p) = elim (Bool-cases (is_present app.auth.token)) [
    | inr out ↦ rw out (follow-login (suc fuel))
    | inl token ↦ elim (Bool-cases (is_text app.auth.role "admin")) [
      | inl boss ↦ rw (token, boss) refl
      | inr plain ↦ rw (token, plain) refl
    ]
  ]
  arrive-permitted fuel (admin_route p) = elim (Bool-cases (is_present app.auth.token)) [
    | inr out ↦ rw out (follow-login (suc fuel))
    | inl token ↦ elim (Bool-cases (is_text app.auth.role "admin")) [
      | inl boss ↦ rw (token, boss) refl
      | inr plain ↦ rw (token, plain) (follow-root fuel ∙ rw (token, plain) refl)
    ]
  ]
  arrive-permitted fuel catch_all = follow-root fuel

  -- A visit to any path ends, after at most two redirections, at the page that the visitor may see: the
  -- login page without a token for a guarded path, the dashboard for the admin page without the role.
  pub follow-permitted :
      (fuel : ℕ) (path : List String)
      → follow matches segments app (suc (suc (suc fuel))) path
        ≡ some (permitted (access_of app) (route_of matches path))
  unfolding follow
  follow-permitted fuel path = arrive-permitted fuel (route_of matches path)

access_of-change :
    (js : Runtime) (web : Encoding) (c : Change) (app : App)
    → access_of (change js web c app) ≡ next_access c (access_of app)
unfolding change signed_in logout set_auth clear_auth set_admin_api_key clear_admin_api_key
access_of-change js web (sign_in response) app = refl
access_of-change js web sign_out app = refl
access_of-change js web (admin_key value) app = refl
access_of-change js web (call c) app =
    ap (λ auth. access_with (is_present auth.token) (is_text auth.role "admin"))
      (perform-auth js web app c)

access_of-changes :
    (js : Runtime) (web : Encoding) (cs : List Change) (app : App)
    → access_of (changes js web cs app) ≡ accesses cs (access_of app)
unfolding changes
access_of-changes js web [] app = refl
access_of-changes js web (c ∷ cs) app =
    access_of-changes js web cs (change js web c app)
    ∙ ap (accesses cs) (access_of-change js web c app)

-- After any sign-ins, logouts, admin keys and calls, a visit to any path ends at the page that the same
-- changes permit a visitor who is only nobody, a user or an administrator.
pub changes-permitted :
    (js : Runtime) (web : Encoding) (matches : String → String → Bool)
    (segments : String → List String) (cs : List Change) (app : App) (path : List String)
    → IsRouter matches segments
    → follow matches segments (changes js web cs app) 3 path
      ≡ some (permitted (accesses cs (access_of app)) (route_of matches path))
changes-permitted js web matches segments cs app path router =
    follow-permitted matches segments (changes js web cs app) router 0 path
    ∙ ap (λ who. some (permitted who (route_of matches path))) (access_of-changes js web cs app)
