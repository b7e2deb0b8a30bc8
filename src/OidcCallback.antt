-- ===== src/OidcCallback.antt =====
-- web/src/lib/oidc-callback.ts: the callback URL that a provider has to send back to.
pub mod Segments
use mathlib.Core.Option
use purels.Base.{Option, [], if◌then◌else◌, map, some, ◌++◌, ◌||◌}
use purels.Js.Case.{CaseMapping}
use purels.Js.Text.{Text, drop_slashes, is_empty, text, trim}
use purels.Js.Uri.{encode_uri_component}

abbrev pub callback_path : Text → Text
callback_path segment = text "/api/v1/auth/oidc/" ++ (segment ++ text "/callback")

abbrev pub callback_base : Text → Text
callback_base redirect_base = drop_slashes (trim redirect_base)

abbrev pub callback_slug : CaseMapping → Text → Text
callback_slug case slug = case.to_lower (trim slug)

-- `none` is the URIError of a slug with half a surrogate pair.
unfoldable pub build_oidc_callback_url : CaseMapping → Text → Text → Option Text
unfolding drop_slashes trim encode_uri_component
build_oidc_callback_url case redirect_base slug =
    if is_empty (callback_base redirect_base) || is_empty (callback_slug case slug)
    then some []
    else Option.map (λ segment. callback_base redirect_base ++ callback_path segment)
        (encode_uri_component (callback_slug case slug))
