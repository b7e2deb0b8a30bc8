-- ===== src/I18n/Messages/En/Part6.antt =====
-- web/src/lib/i18n/messages/en.ts, lines 720 to 823.
use purels.Base.{List, String, [], ◌∷◌}
use purels.I18n.Message.{Message, plain}

unfoldable pub en_part6 : List (String × Message)
en_part6 =
    ("settings.analytics.matomoSiteId", plain "Matomo site ID")
    ∷ ("settings.analytics.clarity", plain "Clarity project ID")
    ∷ ("settings.analytics.noPermission", plain "You do not have permission to manage analytics.")
    ∷ (
      "settings.analytics.invalidGa4",
      plain "The GA4 measurement ID is not valid; it looks like G-XXXXXXXXXX.",
    )
    ∷ (
      "settings.analytics.invalidGtm",
      plain "The GTM container ID is not valid; it looks like GTM-XXXXXXX.",
    )
    ∷ (
      "settings.analytics.invalidGoogleTag",
      plain "The Google tag ID is not valid; it looks like GT-XXXXXXXXXX, not GTM-.",
    )
    ∷ (
      "settings.analytics.invalidMatomoUrl",
      plain
          "The Matomo URL is not valid; it must be an http(s) address without credentials, a query string or a fragment.",
    )
    ∷ ("settings.analytics.missingMatomoSiteId", plain "A Matomo URL needs a site ID as well.")
    ∷ (
      "settings.analytics.invalidMatomoSiteId",
      plain "The Matomo site ID is not valid; it must be a positive integer.",
    )
    ∷ (
      "settings.analytics.invalidClarity",
      plain
          "The Clarity project ID is not valid; it is a short lower-case token such as ymutupw1dp.",
    )
    ∷ ("settings.captcha.title", plain "Registration protection")
    ∷ (
      "settings.captcha.description",
      plain
          "Use Cloudflare Turnstile to keep automated sign-ups away from the public registration form.",
    )
    ∷ (
      "settings.captcha.providerDescription",
      plain "The challenge is checked before a new account is created.",
    )
    ∷ ("settings.captcha.enable", plain "Enable")
    ∷ ("settings.captcha.siteKey", plain "Site key")
    ∷ ("settings.captcha.secretKey", plain "Secret key")
    ∷ ("settings.captcha.expectedHostname", plain "Expected hostname")
    ∷ ("settings.captcha.expectedAction", plain "Expected action")
    ∷ (
      "settings.captcha.noPermission",
      plain "You do not have permission to manage registration protection.",
    )
    ∷ ("settings.runtime.title", plain "Link & service rules")
    ∷ (
      "settings.runtime.description",
      plain
          "Control short-code generation, redirects, background jobs, and rate limits. Changes are stored in the database and picked up without a restart.",
    )
    ∷ ("settings.runtime.linksTitle", plain "Links & redirects")
    ∷ (
      "settings.runtime.linksDescription",
      plain "Control code generation, duplicate destinations, domains and destination policy.",
    )
    ∷ ("settings.runtime.accessTitle", plain "Public access & traffic")
    ∷ (
      "settings.runtime.accessDescription",
      plain "Decide whether visitors can register and which traffic is included in statistics.",
    )
    ∷ ("settings.runtime.aliasMode", plain "Code generation")
    ∷ ("settings.runtime.aliasRandom", plain "Random (case-sensitive)")
    ∷ ("settings.runtime.aliasSequential", plain "Sequential (Base36)")
    ∷ ("settings.runtime.maxLinks", plain "Link limit per user (0 means unlimited)")
    ∷ ("settings.runtime.fallbackUrl", plain "Fallback URL for an unknown code")
    ∷ ("settings.runtime.shortDomains", plain "Available short domains")
    ∷ ("settings.runtime.denylist", plain "Destination host denylist")
    ∷ (
      "settings.runtime.hostHelp",
      plain
          "One bare host per line, or comma-separated. Hosts are lower-cased and deduplicated when saved.",
    )
    ∷ ("settings.runtime.uniqueUrls", plain "Reuse an existing destination link for the same user")
    ∷ ("settings.runtime.registration", plain "Allow local account registration")
    ∷ ("settings.runtime.totpEnabled", plain "Enable the built-in second factor (TOTP)")
    ∷ ("settings.runtime.forwardQuery", plain "Forward query parameters on redirects")
    ∷ ("settings.runtime.countBots", plain "Count bot visits in statistics")
    ∷ ("settings.runtime.jobsTitle", plain "Background jobs")
    ∷ (
      "settings.runtime.jobsDescription",
      plain
          "Pruning and health checks read the new values on the worker's next poll. Durations are in seconds.",
    )
    ∷ ("settings.runtime.pruneGrace", plain "Retention after expiry")
    ∷ ("settings.runtime.healthInterval", plain "Check interval")
    ∷ ("settings.runtime.autoPrune", plain "Delete expired links after the retention period")
    ∷ ("settings.runtime.healthCheck", plain "Enable destination health checks")
    ∷ ("settings.runtime.rateTitle", plain "Rate limiting")
    ∷ (
      "settings.runtime.rateDescription",
      plain "Requests allowed per client IP per minute. Set a route to 0 for no limit.",
    )
    ∷ ("settings.runtime.rateEnabled", plain "Enable rate limiting")
    ∷ ("settings.runtime.rateLogin", plain "Sign in")
    ∷ ("settings.runtime.rateRegister", plain "Registration")
    ∷ ("settings.runtime.rate2fa", plain "Two-factor")
    ∷ ("settings.runtime.rateOidc", plain "OIDC")
    ∷ ("settings.runtime.rateApi", plain "API")
    ∷ ("settings.runtime.rateRedirect", plain "Short-link redirect")
    ∷ ("settings.runtime.revision", plain "Configuration revision {revision}")
    ∷ (
      "settings.runtime.noPermission",
      plain "You do not have permission to manage link and service rules.",
    )
    ∷ ("error.network", plain "Cannot reach the API server. Check the backend address.")
    ∷ ("error.session_expired", plain "Your session has expired. Please sign in again.")
    ∷ ("error.http_error", plain "Request failed ({status}).")
    ∷ ("error.invalid_request", plain "The request could not be read.")
    ∷ ("error.unauthorized", plain "You are not signed in, or your session has expired.")
    ∷ ("error.insufficient_scope", plain "You do not have permission to do that.")
    ∷ ("error.csrf_required", plain "The security token is missing. Please reload the page.")
    ∷ ("error.csrf_invalid", plain "The security token is invalid. Please reload the page.")
    ∷ ("error.csrf_unavailable", plain "Could not obtain a security token. Please reload the page.")
    ∷ ("error.not_found", plain "That record does not exist, or has been deleted.")
    ∷ ("error.conflict", plain "That record already exists.")
    ∷ ("error.rate_limited", plain "Too many requests. Please slow down and try again.")
    ∷ ("error.internal_error", plain "Something went wrong. Please try again.")
    ∷ ("error.database_unavailable", plain "The database is temporarily unavailable.")
    ∷ ("error.registration_disabled", plain "Registration is not open on this deployment.")
    ∷ ("error.invalid_credentials", plain "Incorrect username or password.")
    ∷ ("error.invalid_second_factor", plain "The verification code is incorrect or has expired.")
    ∷ (
      "error.two_factor_unavailable",
      plain "Two-factor authentication is not available on this deployment.",
    )
    ∷ ("error.no_enrolment", plain "No enrolment is in progress.")
    ∷ ("error.quota_exceeded", plain "You have reached your link limit.")
    ∷ (
      "error.last_capability_holder",
      plain "At least one enabled account must keep this permission.",
    )
    ∷ (
      "error.secrets_unavailable",
      plain "This deployment cannot store encrypted secrets. Set SECRET_ENCRYPTION_KEY.",
    )
    ∷ (
      "error.oidc_slug_immutable",
      plain "The identifier cannot be changed after creation. Add a separate method instead.",
    )
    ∷ ("error.captcha_unavailable", plain "Registration protection is temporarily unavailable.")
    ∷ ("error.captcha_invalid", plain "The verification did not pass. Please try again.")
    ∷ ("error.captcha_invalid_settings", plain "The registration protection settings are invalid.")
    ∷ (
      "error.captcha_secrets_unavailable",
      plain "This deployment cannot store encrypted secrets. Set SECRET_ENCRYPTION_KEY.",
    )
    ∷ ("error.analytics_invalid", plain "The tracking settings are invalid.")
    ∷ ("error.load", plain "Failed to load.")
    ∷ ("error.save", plain "Failed to save.")
    ∷ ("error.create", plain "Failed to create.")
    ∷ ("error.update", plain "Failed to update.")
    ∷ ("error.delete", plain "Failed to delete.")
    ∷ ("error.revoke", plain "Failed to revoke.")
    ∷ ("error.reset", plain "Failed to reset.")
    ∷ ("error.operation", plain "The operation failed.")
    ∷ ("error.bulk", plain "The bulk action failed.")
    ∷ ("error.export", plain "Failed to export.")
    ∷ ("error.import", plain "Failed to import.")
    ∷ ("error.check", plain "Failed to check the destination.")
    ∷ []
