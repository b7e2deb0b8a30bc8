-- ===== src/ApiClient/Endpoints/Calls/Login.antt =====
-- A sign-in and the writes after it (lib/api-client.ts).
use mathlib.Core.Path.{subst}
use purels.ApiClient.Endpoints.{CallResult, Endpoint, call, handle, returned, signs_in}
use purels.ApiClient.Endpoints.Account.{
  account_endpoint, csrf, login, logout, me, mfa_confirm, mfa_disable, mfa_enroll, mfa_status,
  mfa_verify, register, tokens_create, tokens_list, tokens_revoke,
}
use purels.ApiClient.Endpoints.Calls.{ApiCall, account, admin, endpoint, link, makes_session, stats}
use purels.ApiClient.Error.{property, string_of}
use purels.ApiClient.Request.{
  Client, HttpRequest, Options, Outcome, Reply, csrf_header, failure, http_request, is_mutation,
  request, success,
}
use purels.ApiClient.Request.Csrf.{request_stored_token}
use purels.Base.{[], ap, false, refl, some, sym, true, ◌++◌, ◌∙◌, ◌∷◌, ◌≡◌}
use purels.Js.Case.{CaseMapping}
use purels.Js.Headers.{get_entry}
use purels.Js.Json.{Fields, Value, arr, bool, get, null, num, obj, str, undefined}
use purels.Js.Text.{Text, is_empty, text}

module _ {W : Type 0} (case : CaseMapping) (serve : W → HttpRequest → Reply × W) where
  -- A payload that carries a token.
  abbrev pub Carries : Value → Text → Type 0
  Carries v token =
      (fs : Fields) × (v ≡ obj fs)
      × (get fs (text "csrf_token") ≡ str token)
      × (is_empty token ≡ false)

  signs_in_after :
      (v : Value) (token : Text) (c : Client W) (o : Outcome)
      → (handle signs_in o c).0 ≡ returned v
      → Carries v token
      → (handle signs_in o c).1.csrf_token ≡ token
  unfolding handle
  signs_in_after v token c (failure e) h _ = cc
  signs_in_after v token c (success (obj gs)) h (fs, e, t, _) =
      let found : obj gs ≡ obj fs = cc in
      ap string_of (ap (λ (u : Value). property u (text "csrf_token")) found ∙ t)
  signs_in_after v token c (success undefined) h (fs, e, _, _) = cc
  signs_in_after v token c (success null) h (fs, e, _, _) = cc
  signs_in_after v token c (success (bool b)) h (fs, e, _, _) = cc
  signs_in_after v token c (success (num n)) h (fs, e, _, _) = cc
  signs_in_after v token c (success (str s)) h (fs, e, _, _) = cc
  signs_in_after v token c (success (arr vs)) h (fs, e, _, _) = cc

  call_lem :
      (base path : Text) (e : Endpoint) (c : Client W)
      → e.path ≡ some path
      → call case serve base e c
        ≡ handle e.handling
            (request case serve base path e.options c).0
            (request case serve base path e.options c).1
  unfolding call
  call_lem base path e c h = rw h

  abbrev SignsIn : Endpoint → Type 0
  SignsIn e = (path : Text) × (e.path ≡ some path) × (e.handling ≡ signs_in)

  session-SignsIn : (a : ApiCall) → makes_session a ≡ true → SignsIn (endpoint a)
  unfolding account_endpoint
  session-SignsIn (account (login _ _)) h = (_, refl, refl)
  session-SignsIn (account (register _ _ _)) h = (_, refl, refl)
  session-SignsIn (account (mfa_verify _ _)) h = (_, refl, refl)
  session-SignsIn (account csrf) h = cc
  session-SignsIn (account me) h = cc
  session-SignsIn (account logout) h = cc
  session-SignsIn (account mfa_status) h = cc
  session-SignsIn (account mfa_enroll) h = cc
  session-SignsIn (account (mfa_confirm _)) h = cc
  session-SignsIn (account (mfa_disable _ _)) h = cc
  session-SignsIn (account tokens_list) h = cc
  session-SignsIn (account (tokens_create _)) h = cc
  session-SignsIn (account (tokens_revoke _)) h = cc
  session-SignsIn (link l) h = cc
  session-SignsIn (admin a) h = cc
  session-SignsIn (stats s) h = cc

  call_token :
      (base : Text) (a : ApiCall) (c : Client W) (v : Value) (token : Text)
      → makes_session a ≡ true
      → (call case serve base (endpoint a) c).0 ≡ returned v
      → Carries v token
      → (call case serve base (endpoint a) c).1.csrf_token ≡ token
  call_token base a c v token m ok carries =
      let (path, p, h) = session-SignsIn a m in
      let r = request case serve base path (endpoint a).options c in
      let e = call_lem base path (endpoint a) c p ∙ ap (λ k. handle k r.0 r.1) h in
      ap (λ (o : CallResult × Client W). o.1.csrf_token) e
      ∙ signs_in_after v token r.1 r.0 (sym (ap (λ (o : CallResult × Client W). o.0) e) ∙ ok)
          carries

  -- After a login, a registration or the verification of a second factor has returned a payload
  -- that carries a token, the next mutation is sent as one request, with that token in its CSRF
  -- header.
  pub signed_in_write :
      (base target : Text) (a : ApiCall) (o : Options) (c : Client W) (v : Value) (token : Text)
      → makes_session a ≡ true
      → (call case serve base (endpoint a) c).0 ≡ returned v
      → Carries v token
      → is_mutation case serve o.method ≡ true
      → let signed = (call case serve base (endpoint a) c).1 in
        ((request case serve base target o signed).1.sent
          ≡ signed.sent ++ (http_request case serve base target o token ∷ []))
        × (get_entry (http_request case serve base target o token).headers csrf_header ≡ some token)
  signed_in_write base target a o c v token s ok carries m =
      let signed = (call case serve base (endpoint a) c).1 in
      let t = call_token base a c v token s ok carries in
      let filled = ap is_empty t ∙ carries.3 in
      let (sent, header) = request_stored_token case serve base target o signed m filled in
      (
        subst
            (λ u.
              (request case serve base target o signed).1.sent
              ≡ signed.sent ++ (http_request case serve base target o u ∷ []))
            t sent,
        subst
            (λ u. get_entry (http_request case serve base target o u).headers csrf_header ≡ some u)
            t header,
      )
