-- ===== src/OidcCallback/Segments.antt =====
-- The slug in the path of the callback.
use purels.Base.{
  Bool-cases, List, Option-cases, [], ap, inl, inr, refl, some, true, ◌++◌, ◌||◌, ◌∙◌, ◌∷◌, ◌≡◌,
  ◌⊎◌,
}
use purels.Js.Case.{CaseMapping}
use purels.Js.Text.{Text, is_empty, split_by, text}
use purels.Js.Text.Splitting.{HasNo, split_by-append}
use purels.Js.Uri.{encode_uri_component}
use purels.Js.Uri.Component.{IsComponent-HasNo, encode_uri_component-IsComponent, is_slash}
use purels.OidcCallback.{build_oidc_callback_url, callback_base, callback_path, callback_slug}

-- The parts between the slashes of a callback path.
abbrev pub callback_parts : Text → List Text
callback_parts segment =
    [] ∷ text "api" ∷ text "v1" ∷ text "auth" ∷ text "oidc" ∷ segment ∷ text "callback" ∷ []

callback_tail :
    (segment : Text)
    → HasNo is_slash segment
    → split_by is_slash (segment ++ text "/callback") ≡ segment ∷ text "callback" ∷ []
callback_tail segment h =
    split_by-append is_slash segment (text "callback") b'/' h refl
    ∙ ap (◌∷◌ segment) (unfold split_by in refl)

split_by-callback_path :
    (segment : Text)
    → HasNo is_slash segment
    → split_by is_slash (callback_path segment) ≡ callback_parts segment
unfolding split_by
split_by-callback_path segment h = rw (callback_tail segment h)

abbrev pub IsCallback : CaseMapping → Text → Text → Text → Type 0
IsCallback case redirect_base slug url =
    (segment : Text) × (encode_uri_component (callback_slug case slug) ≡ some segment)
    × (url ≡ callback_base redirect_base ++ callback_path segment)
    × (split_by is_slash (callback_path segment) ≡ callback_parts segment)

-- A callback URL that is built is empty where the base or the slug is empty, and otherwise the
-- base with a path whose parts between slashes are the fixed ones with the encoded slug as one
-- part of its own.
pub build_oidc_callback_url-IsCallback :
    (case : CaseMapping) (redirect_base slug url : Text)
    → build_oidc_callback_url case redirect_base slug ≡ some url
    → ((is_empty (callback_base redirect_base) || is_empty (callback_slug case slug) ≡ true)
        × (url ≡ []))
      ⊎ IsCallback case redirect_base slug url
unfolding build_oidc_callback_url
build_oidc_callback_url-IsCallback case redirect_base slug url h =
    elim (Bool-cases
      (is_empty (callback_base redirect_base) || is_empty (callback_slug case slug))) [
        | inl off ↦ inl (off, cc (rw off at h))
        | inr on ↦ elim (Option-cases (encode_uri_component (callback_slug case slug))) [
          | inl lone ↦ cc (rw (on, lone) at h)
          | inr (segment, e) ↦ inr (
            segment,
            e,
            cc (rw (on, e) at h),
            split_by-callback_path segment (
                IsComponent-HasNo segment
                  (encode_uri_component-IsComponent (callback_slug case slug) segment e)),
          )
        ]
      ]
