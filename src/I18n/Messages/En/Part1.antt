-- ===== src/I18n/Messages/En/Part1.antt =====
-- web/src/lib/i18n/messages/en.ts, lines 19 to 158.
use purels.Base.{List, String, [], ◌∷◌}
use purels.I18n.Message.{Message, plain}

unfoldable pub en_part1 : List (String × Message)
en_part1 =
    ("settings.guard.title", plain "Unsaved changes")
    ∷ (
      "settings.guard.description",
      plain "This page has unsaved changes. Leaving will discard them.",
    )
    ∷ ("settings.guard.keepEditing", plain "Keep editing")
    ∷ ("settings.guard.discardLeave", plain "Discard and leave")
    ∷ (
      "settings.nav.description",
      plain "Manage links, registration, access, traffic protection, and analytics in one place.",
    )
    ∷ ("settings.nav.links", plain "Links")
    ∷ (
      "settings.nav.linksDescription",
      plain "Create short links, control redirects, and manage checks and cleanup.",
    )
    ∷ ("settings.nav.registration", plain "Registration & sign-in")
    ∷ (
      "settings.nav.registrationDescription",
      plain
          "Manage local registration, the built-in second factor, and external sign-in providers.",
    )
    ∷ ("settings.nav.access", plain "Users & permissions")
    ∷ (
      "settings.nav.accessDescription",
      plain "Manage accounts and decide what each role can access.",
    )
    ∷ ("settings.nav.traffic", plain "Traffic protection")
    ∷ (
      "settings.nav.trafficDescription",
      plain "Limit requests to authentication, API, and short-link routes.",
    )
    ∷ ("settings.nav.analytics", plain "Analytics & integrations")
    ∷ (
      "settings.nav.analyticsDescription",
      plain "Choose which short-link visits to count and connect console analytics.",
    )
    ∷ ("settings.nav.creation", plain "Creation & domains")
    ∷ ("settings.nav.redirects", plain "Redirects & destinations")
    ∷ ("settings.nav.maintenance", plain "Checks & cleanup")
    ∷ ("settings.nav.publicRegistration", plain "Local accounts")
    ∷ ("settings.nav.thirdParty", plain "External sign-in")
    ∷ ("settings.nav.healthEnabled", plain "Health checks enabled")
    ∷ ("settings.nav.healthDisabled", plain "Health checks disabled")
    ∷ ("settings.nav.cleanupEnabled", plain "Automatic cleanup enabled")
    ∷ ("settings.nav.cleanupDisabled", plain "Automatic cleanup disabled")
    ∷ ("settings.nav.registrationOpen", plain "Local registration open")
    ∷ ("settings.nav.registrationClosed", plain "Local registration closed")
    ∷ ("settings.nav.totpEnabled", plain "Second factor enabled")
    ∷ ("settings.nav.totpDisabled", plain "Second factor disabled")
    ∷ ("settings.nav.captchaEnabled", plain "Registration verification enabled")
    ∷ ("settings.nav.captchaDisabled", plain "Registration verification disabled")
    ∷ ("settings.nav.oidcEnabled", plain "{count} sign-in providers enabled")
    ∷ ("settings.nav.rateEnabled", plain "Rate limiting enabled")
    ∷ ("settings.nav.rateDisabled", plain "Rate limiting disabled")
    ∷ ("settings.nav.botsIncluded", plain "Bot visits included")
    ∷ ("settings.nav.botsExcluded", plain "Bot visits excluded")
    ∷ ("settings.nav.integrationsConfigured", plain "{count} console integrations configured")
    ∷ ("settings.nav.statusUnavailable", plain "Some settings could not be loaded")
    ∷ ("settings.nav.retryStatus", plain "Retry loading status")
    ∷ ("settings.search.label", plain "Find a setting")
    ∷ ("settings.search.placeholder", plain "Search domains, registration, rate limits…")
    ∷ (
      "settings.search.hint",
      plain "Search opens the matching page or field. Only settings you can manage are included.",
    )
    ∷ ("settings.search.results", plain "Settings search results")
    ∷ ("settings.search.resultCount", plain "{count} matching settings")
    ∷ ("settings.search.empty", plain "No matching settings. Try a different name or keyword.")
    ∷ ("account.title", plain "My account")
    ∷ ("account.security", plain "Account security")
    ∷ (
      "account.securityDescription",
      plain "Manage your two-factor authentication and recovery codes.",
    )
    ∷ ("account.tokens", plain "API tokens")
    ∷ (
      "account.tokensDescription",
      plain "Create and revoke personal tokens for application access to the API.",
    )
    ∷ ("account.tokensForbidden", plain "You do not have permission to manage API tokens.")
    ∷ ("account.tokenSaved", plain "I have saved this token")
    ∷ ("settings.form.retry", plain "Retry loading")
    ∷ ("settings.form.forbidden", plain "You do not have permission to manage these settings.")
    ∷ ("settings.form.days", plain "Days")
    ∷ ("settings.form.hours", plain "Hours")
    ∷ ("settings.form.minutes", plain "Minutes")
    ∷ ("settings.form.seconds", plain "Seconds")
    ∷ ("settings.form.unit", plain "Time unit")
    ∷ (
      "settings.form.invalidNumber",
      plain "Enter a valid whole number; durations must resolve to whole seconds.",
    )
    ∷ (
      "settings.form.inactive",
      plain "Not active while the switch is off. The saved value is retained.",
    )
    ∷ (
      "settings.form.conflict",
      plain
          "These settings changed since you opened this page. Your edits are still here. Discard and reload the latest settings before trying again.",
    )
    ∷ ("settings.form.reload", plain "Discard and reload")
    ∷ ("settings.form.discard", plain "Discard changes")
    ∷ ("settings.form.save", plain "Save changes")
    ∷ ("settings.links.title", plain "Link settings")
    ∷ (
      "settings.links.description",
      plain
          "Configure how links are created, where they redirect, and when they are checked or deleted.",
    )
    ∷ ("settings.links.creation", plain "Creation and domains")
    ∷ ("settings.links.redirects", plain "Redirects and destinations")
    ∷ ("settings.links.maintenance", plain "Checks and cleanup")
    ∷ (
      "settings.creation.description",
      plain "Defaults and limits for creating links. Changes apply to subsequent requests.",
    )
    ∷ (
      "settings.redirects.description",
      plain "Control incoming query parameters, missing short codes, and allowed destinations.",
    )
    ∷ (
      "settings.maintenance.description",
      plain
          "Keep destinations reachable and choose how long to retain expired links. Changes are picked up by the background worker.",
    )
    ∷ (
      "settings.links.pruneWarning",
      plain
          "Automatic cleanup permanently deletes expired links and their click history. This cannot be undone.",
    )
    ∷ ("settings.registration.title", plain "Registration and sign-in")
    ∷ ("settings.registration.local", plain "Local accounts and second factor")
    ∷ (
      "settings.registration.description",
      plain
          "Local account creation and the built-in second factor are configured here. OIDC sign-in and the accounts it creates are configured separately.",
    )
    ∷ (
      "settings.registration.oidcLink",
      plain "Manage third-party sign-in and automatic account creation →",
    )
    ∷ (
      "settings.registration.limitsLink",
      plain "Configure request limits for registration and sign-in →",
    )
    ∷ ("settings.traffic.title", plain "Traffic protection")
    ∷ (
      "settings.traffic.description",
      plain
          "One switch controls all request limits. Each value is per client IP, per minute; 0 disables that limit.",
    )
    ∷ ("settings.traffic.authentication", plain "Authentication requests")
    ∷ ("settings.traffic.service", plain "API and redirects")
    ∷ ("settings.statistics.title", plain "Short-link reporting")
    ∷ (
      "settings.statistics.description",
      plain "Choose which visits are included in the built-in short-link reports.",
    )
    ∷ ("settings.statistics.pageTitle", plain "Statistics and integrations")
    ∷ (
      "settings.statistics.pageDescription",
      plain "Manage short-link reporting and external tracking for every page separately.",
    )
    ∷ ("settings.captcha.provider", plain "Cloudflare Turnstile")
    ∷ (
      "settings.field.alias_mode",
      plain "Random codes preserve letter case. Sequential codes use numbers and letters (Base36).",
    )
    ∷ (
      "settings.field.unique_urls",
      plain "Reuse a live link owned by the same user when no custom short code is supplied.",
    )
    ∷ (
      "settings.field.max_links_per_user",
      plain "0 means unlimited. Accounts allowed to manage every link are exempt from this quota.",
    )
    ∷ (
      "settings.field.short_domains",
      plain
          "One bare hostname per line. DNS and TLS must be configured separately; the deployment URL remains the default domain.",
    )
    ∷ (
      "settings.field.forward_query",
      plain "Forward query parameters from the short link to its destination.",
    )
    ∷ (
      "settings.field.fallback_url",
      plain
          "Optional http(s) URL used when a short code is not found. Leave blank to show the standard response.",
    )
    ∷ (
      "settings.field.destination_denylist",
      plain
          "One hostname per line, including its subdomains. Applies when creating or editing destinations and divert rules.",
    )
    ∷ (
      "settings.field.health_check_enabled",
      plain "Periodically check whether link destinations can be reached.",
    )
    ∷ (
      "settings.field.health_check_interval_seconds",
      plain "Time between destination checks, from 1 second to 30 days.",
    )
    ∷ (
      "settings.field.auto_prune_expired",
      plain "Delete expired links only after their retention period has elapsed.",
    )
    ∷ (
      "settings.field.prune_grace_seconds",
      plain "Retention starts at expiry, not creation. 0 allows deletion on the next cleanup run.",
    )
    ∷ (
      "settings.field.registration_enabled",
      plain
          "Controls the public username/password registration form. OIDC providers can still create accounts independently.",
    )
    ∷ (
      "settings.field.totp_enabled",
      plain
          "Only accounts that have already enrolled are challenged. Turning this off stops the second factor for everyone without unbinding any account, but it needs SECRET_ENCRYPTION_KEY to work at all.",
    )
    ∷ (
      "settings.field.count_bots",
      plain
          "Bot visits are always recorded. This switch only controls whether reports include them.",
    )
    ∷ (
      "settings.field.rate_limit_enabled",
      plain "Apply the limits below to all client IP addresses.",
    )
    ∷ ("settings.field.rate_limit_login", plain "Password sign-in requests per IP per minute.")
    ∷ ("settings.field.rate_limit_register", plain "Local registration requests per IP per minute.")
    ∷ ("settings.field.rate_limit_2fa", plain "Two-factor verification requests per IP per minute.")
    ∷ (
      "settings.field.rate_limit_oidc",
      plain
          "Third-party sign-in and public registration-protection metadata requests per IP per minute.",
    )
    ∷ ("settings.field.rate_limit_api", plain "Authenticated API requests per IP per minute.")
    ∷ (
      "settings.field.rate_limit_redirect",
      plain "Short-link redirect requests per IP per minute.",
    )
    ∷ ("app.title", plain "Purels Admin")
    ∷ ("app.description", plain "Purels link management and operations console")
    ∷ ("home.title", plain "Purels | Self-Hosted URL Shortener & Link Analytics")
    ∷ ("home.tagline", plain "An open-source, self-hosted URL shortener.")
    ∷ (
      "home.description",
      plain
          "Purels is an open-source, self-hosted URL shortener with custom domains, click analytics, and team management.",
    )
    ∷ ("home.nav.features", plain "Features")
    ∷ ("home.nav.how", plain "How it works")
    ∷ ("home.nav.selfHost", plain "Self-hosting")
    ∷ ("home.nav.faq", plain "FAQ")
    ∷ ("home.nav.signIn", plain "Sign in")
    ∷ ("home.nav.getStarted", plain "Get started")
    ∷ ("home.nav.console", plain "Console")
    ∷ ("home.hero.badge", plain "Apache-2.0 · self-hosted")
    ∷ []
