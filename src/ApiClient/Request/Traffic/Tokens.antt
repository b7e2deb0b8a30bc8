-- ===== src/ApiClient/Request/Traffic/Tokens.antt =====
-- When `request` fetches a token, and which token it takes from the reply.
use purels.ApiClient.Error.{property, string_of}
use purels.ApiClient.Request.{
  Client, HttpRequest, Options, Reply, Response, is_mutation, is_ok, needs_csrf, pre_session_paths,
  replied, token_in, token_of, unreachable,
}
use purels.ApiClient.Request.Traffic.{AsksToken, IsPreSession, IsTokenOf, Writes}
use purels.Base.{
  Bool-cases, Option, [], ap, arith, inl, inr, none, refl, some, true, ◌↔◌, ◌∙◌, ◌∷◌, ◌≡◌, ◌≢◌, ◌⊎◌,
}
use purels.Js.Case.{CaseMapping}
use purels.Js.Json.{Value, arr, bool, null, num, obj, str, undefined}
use purels.Js.Text.{Text, includes, text}
use purels.Js.Text.Equality.{includes_iff, is_empty_iff}

pub is_write_iff :
    {W : Type 0} (case : CaseMapping) (serve : W → HttpRequest → Reply × W) (m : Option Text)
    → (is_mutation case serve m ≡ true) ↔ Writes case m
is_write_iff case serve none = ground arith
is_write_iff case serve (some m) = ground (
  arith,
  is_empty_iff m,
  includes_iff (text "GET" ∷ text "HEAD" ∷ text "OPTIONS" ∷ []) (case.to_upper m),
)

IsPreSession-iff : (path : Text) → (includes pre_session_paths path ≡ true) ↔ IsPreSession path
IsPreSession-iff path = ground (arith, includes_iff pre_session_paths path)

module _ {W : Type 0} (case : CaseMapping) (serve : W → HttpRequest → Reply × W) where
  pub needs_csrf_iff :
      (path : Text) (o : Options) (c : Client W)
      → (needs_csrf case serve path o c ≡ true) ↔ AsksToken case serve path o c
  needs_csrf_iff path o c =
      ground
        (arith, is_write_iff case serve o.method, is_empty_iff c.csrf_token, IsPreSession-iff path)

  token_in-str :
      (v : Value) → token_in case serve [] (some v) ≡ string_of (property v (text "token"))
  token_in-str null = refl
  token_in-str undefined = refl
  token_in-str (bool b) = refl
  token_in-str (num n) = refl
  token_in-str (str s) = refl
  token_in-str (arr vs) = refl
  token_in-str (obj fs) = refl

  string_of-cases :
      (v : Value) → (v ≡ str (string_of v)) ⊎ ((string_of v ≡ []) × ((s : Text) → v ≢ str s))
  string_of-cases null = inr (refl, λ s h. cc)
  string_of-cases undefined = inr (refl, λ s h. cc)
  string_of-cases (bool b) = inr (refl, λ s h. cc)
  string_of-cases (num n) = inr (refl, λ s h. cc)
  string_of-cases (str s) = inl refl
  string_of-cases (arr vs) = inr (refl, λ s h. cc)
  string_of-cases (obj fs) = inr (refl, λ s h. cc)

  parsed_token :
      (r : Response) (p : Option Value)
      → r.parsed ≡ p
      → is_ok r ≡ true
      → IsTokenOf (replied r) (token_in case serve [] p)
  parsed_token r none e ok = inr (refl, λ s h. let (_, _, (v, f, _)) = h in cc)
  parsed_token r (some v) e ok =
      rw (token_in-str v) (elim (string_of-cases (property v (text "token"))) [
        | inl found ↦ inl (ground arith, ground arith, (v, e, found))
        | inr (empty, other) ↦ inr (
          empty,
          λ s h.
              let (_, _, (u, f, g)) = h in
              let same_value : v ≡ u = cc in
              other s (ap (λ w. property w (text "token")) same_value ∙ g),
        )
      ])

  pub token_of-IsTokenOf : (reply : Reply) → IsTokenOf reply (token_of case serve [] reply)
  token_of-IsTokenOf unreachable = inr (refl, λ s h. h)
  token_of-IsTokenOf (replied r) = elim (Bool-cases (is_ok r)) [
    | inl ok ↦ rw ok (parsed_token r r.parsed refl ok)
    | inr bad ↦ rw bad (inr (refl, λ s h. ground arith))
  ]
