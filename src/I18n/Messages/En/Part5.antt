-- ===== src/I18n/Messages/En/Part5.antt =====
-- web/src/lib/i18n/messages/en.ts, lines 580 to 719.
use purels.Base.{List, String, [], ◌∷◌}
use purels.I18n.Message.{Message, plain, plural}

unfoldable pub en_part5 : List (String × Message)
en_part5 =
    ("users.table.mfa", plain "Two-factor")
    ∷ ("users.table.created", plain "Registered")
    ∷ ("users.table.actions", plain "Actions")
    ∷ ("users.self", plain "You")
    ∷ ("users.status.active", plain "Active")
    ∷ ("users.status.disabled", plain "Disabled")
    ∷ ("users.mfa.enabled", plain "Enabled")
    ∷ ("users.mfa.disabled", plain "Not enabled")
    ∷ ("users.source.password", plain "Password")
    ∷ ("users.source.oidc", plain "OIDC")
    ∷ ("users.resetMfa", plain "Reset")
    ∷ ("users.resetMfaTitle", plain "Reset two-factor?")
    ∷ ("users.resetMfaSubject", plain "{username} will lose the second factor they have bound.")
    ∷ (
      "users.resetMfaHint",
      plain
          "They can sign in with a password alone until they bind a new code. This is the only way back in after the encryption key changes.",
    )
    ∷ ("users.resetMfaConfirm", plain "Reset second factor")
    ∷ ("users.enable", plain "Enable")
    ∷ ("users.disable", plain "Disable")
    ∷ ("users.empty", plain "No users.")
    ∷ ("settings.saved", plain "Saved")
    ∷ ("settings.unsaved", plain "Unsaved changes")
    ∷ ("settings.synced", plain "Up to date")
    ∷ ("settings.configured", plain "Configured")
    ∷ ("settings.notConfigured", plain "Not configured")
    ∷ ("settings.leaveBlank", plain " (leave blank to keep)")
    ∷ ("settings.home.title", plain "Settings")
    ∷ (
      "settings.home.description",
      plain "Configure access, protect the service, and decide how links behave.",
    )
    ∷ ("settings.home.overviewDescription", plain "See every configuration area from one place.")
    ∷ ("settings.home.accessDescription", plain "Manage people, roles, and the ways they sign in.")
    ∷ (
      "settings.home.securityDescription",
      plain "Protect administrator accounts and public registration.",
    )
    ∷ (
      "settings.home.linksDescription",
      plain "Control code generation, redirects, jobs, and rate limits.",
    )
    ∷ (
      "settings.home.analyticsDescription",
      plain "Connect the analytics tools that receive traffic data.",
    )
    ∷ (
      "settings.home.usersDescription",
      plain "Review accounts, roles, sign-in sources, and account status.",
    )
    ∷ (
      "settings.home.rolesDescription",
      plain "Decide which parts of the console each role can use.",
    )
    ∷ (
      "settings.home.oidcDescription",
      plain "Configure external identity providers and callback URLs.",
    )
    ∷ (
      "settings.home.securityPageDescription",
      plain "Set up two-factor authentication and API tokens.",
    )
    ∷ ("settings.home.captchaDescription", plain "Add Turnstile protection to public registration.")
    ∷ (
      "settings.home.runtimeDescription",
      plain "Set short-code, redirect, worker, and rate-limit behaviour.",
    )
    ∷ (
      "settings.home.analyticsPageDescription",
      plain "Configure GA4, Google Tag Manager, Google tag, Matomo and Clarity.",
    )
    ∷ ("settings.home.manage", plain "Manage")
    ∷ ("settings.home.pageCount", plural "{count} page" "{count} pages")
    ∷ ("settings.home.noAccess", plain "There are no settings available for this account.")
    ∷ ("settings.roles.title", plain "Roles & permissions")
    ∷ (
      "settings.roles.description",
      plain "Create clear permission bundles for the people who operate Purels.",
    )
    ∷ ("settings.roles.saved", plain "Saved {name}")
    ∷ ("settings.roles.unrestricted", plain "Manage every link")
    ∷ (
      "settings.roles.unrestrictedDescription",
      plain "This role can view and manage links across the whole deployment.",
    )
    ∷ ("settings.roles.group.links", plain "Links")
    ∷ ("settings.roles.group.workspace", plain "Workspace")
    ∷ ("settings.roles.group.access", plain "Accounts & access")
    ∷ ("settings.roles.group.service", plain "Service controls")
    ∷ ("scope.links:read", plain "View links")
    ∷ ("scope.links:write", plain "Create and edit links")
    ∷ ("scope.stats:read", plain "View statistics")
    ∷ ("scope.audit:read", plain "View the audit log")
    ∷ ("scope.tokens:manage", plain "Manage own API tokens")
    ∷ ("scope.users:manage", plain "Manage users")
    ∷ ("scope.roles:manage", plain "Manage role permissions")
    ∷ ("scope.oidc:manage", plain "Manage sign-in methods")
    ∷ ("scope.analytics:manage", plain "Manage external tracking")
    ∷ ("scope.captcha:manage", plain "Manage registration protection")
    ∷ ("scope.settings:manage", plain "Manage site policies")
    ∷ ("settings.security.title", plain "Account security")
    ∷ (
      "settings.security.description",
      plain "Protect administrator accounts with a second factor and scoped API tokens.",
    )
    ∷ ("settings.security.mfa", plain "Two-factor authentication")
    ∷ ("settings.security.enabled", plain "Enabled")
    ∷ ("settings.security.notEnabled", plain "Not enabled")
    ∷ (
      "settings.security.unavailable",
      plain "This deployment has not enabled two-factor authentication.",
    )
    ∷ (
      "settings.security.recoveryWarning",
      plain "These recovery codes are shown once. Save them now.",
    )
    ∷ ("settings.security.recoverySaved", plain "I have saved them")
    ∷ ("settings.security.qrAlt", plain "Two-factor authentication QR code")
    ∷ ("settings.security.secret", plain "Secret")
    ∷ ("settings.security.code", plain "Verification code")
    ∷ ("settings.security.confirm", plain "Confirm")
    ∷ (
      "settings.security.codesRemaining",
      plural "{count} recovery code left" "{count} recovery codes left",
    )
    ∷ ("settings.security.currentPassword", plain "Current password")
    ∷ ("settings.security.turnOff", plain "Turn off")
    ∷ ("settings.security.turnOn", plain "Turn on")
    ∷ ("settings.security.restart", plain "Set up again")
    ∷ ("settings.security.tokensTitle", plain "Create a token")
    ∷ (
      "settings.security.tokensDescription",
      plain "Use a named token for automation. The secret is shown only once.",
    )
    ∷ ("settings.security.tokenWarning", plain "Save the token now. It will not be shown again.")
    ∷ ("settings.security.tokenCreated", plain "Token created")
    ∷ ("settings.security.tokenRevoked", plain "Token revoked")
    ∷ ("settings.security.tokenName", plain "Token name")
    ∷ ("settings.security.create", plain "Create")
    ∷ ("settings.security.tokenList", plain "API tokens")
    ∷ ("settings.security.noTokens", plain "No tokens")
    ∷ ("settings.security.revoke", plain "Revoke")
    ∷ ("settings.oidc.title", plain "Sign-in methods")
    ∷ (
      "settings.oidc.description",
      plain
          "Connect external identity providers and choose whether first-time users are provisioned automatically.",
    )
    ∷ (
      "settings.oidc.noRedirectBase",
      plain
          "The callback prefix is not known. Set OIDC_REDIRECT_BASE before configuring a sign-in method.",
    )
    ∷ ("settings.oidc.enable", plain "Enable")
    ∷ ("settings.oidc.enabled", plain "Enabled")
    ∷ ("settings.oidc.disabled", plain "Disabled")
    ∷ ("settings.oidc.confirmDelete", plain "Delete")
    ∷ (
      "settings.oidc.deleteWarning",
      plain
          "Accounts bound to this sign-in method will not be able to sign in, and no password can be set for them in the application.",
    )
    ∷ (
      "settings.oidc.boundAccounts",
      plural "{count} account is currently bound." "{count} accounts are currently bound.",
    )
    ∷ ("settings.oidc.name", plain "Name")
    ∷ ("settings.oidc.issuer", plain "Issuer")
    ∷ ("settings.oidc.clientId", plain "Client ID")
    ∷ ("settings.oidc.clientSecret", plain "Client secret")
    ∷ ("settings.oidc.scopes", plain "Scopes")
    ∷ ("settings.secretSet", plain "Set")
    ∷ ("settings.secretUnset", plain "Not set")
    ∷ ("settings.oidc.autoProvision", plain "Create an account on first sign-in")
    ∷ ("settings.oidc.callback", plain "Callback URL")
    ∷ ("settings.oidc.newTitle", plain "Add a sign-in method")
    ∷ (
      "settings.oidc.newDescription",
      plain "Register the provider once, then copy the callback URL into its console.",
    )
    ∷ (
      "settings.oidc.providerListDescription",
      plain "Existing providers, callback addresses, and linked account counts.",
    )
    ∷ ("settings.oidc.slug", plain "Identifier (used in the callback URL, fixed after creation)")
    ∷ ("settings.oidc.namePlaceholder", plain "Company account")
    ∷ ("settings.oidc.clientSecretNew", plain "Client secret (leave blank for a public client)")
    ∷ ("settings.oidc.add", plain "Add")
    ∷ ("settings.oidc.adding", plain "Adding...")
    ∷ ("settings.oidc.created", plain "Sign-in method added")
    ∷ ("settings.oidc.saved", plain "Saved {name}")
    ∷ ("settings.oidc.deleted", plain "Deleted {name}")
    ∷ ("settings.oidc.noPermission", plain "You do not have permission to manage sign-in methods.")
    ∷ ("settings.analytics.title", plain "External tracking integrations")
    ∷ (
      "settings.analytics.description",
      plain
          "Load third-party tracking into every page this deployment serves: the landing page, sign-in and registration, the management console, and a short link's interstitial and preview pages. The redirect itself is a 302 and never renders a page, so it cannot be tracked.",
    )
    ∷ ("settings.analytics.providersTitle", plain "External tracking for every page")
    ∷ (
      "settings.analytics.providersDescription",
      plain
          "These integrations track every page the deployment serves, not just the console. Leave unused services blank; Matomo needs both a URL and site ID.",
    )
    ∷ (
      "settings.analytics.configuredCount",
      plural "{count} provider configured" "{count} providers configured",
    )
    ∷ ("settings.analytics.ga4Description", plain "Measure page views using Google Analytics 4.")
    ∷ (
      "settings.analytics.gtmDescription",
      plain
          "Load a Google Tag Manager container; the container's own triggers decide what is sent.",
    )
    ∷ (
      "settings.analytics.googleTagDescription",
      plain
          "Load a Google tag (gtag.js). It is a different ID from a GTM container, and neither works in the other's place.",
    )
    ∷ ("settings.analytics.matomoDescription", plain "Send page views to your Matomo instance.")
    ∷ (
      "settings.analytics.clarityDescription",
      plain
          "Load Microsoft Clarity, which records sessions and builds heatmaps — considerably more than a page view.",
    )
    ∷ ("settings.analytics.ga4", plain "GA4 measurement ID")
    ∷ ("settings.analytics.gtm", plain "GTM container ID")
    ∷ ("settings.analytics.googleTag", plain "Google tag ID")
    ∷ ("settings.analytics.matomoUrl", plain "Matomo URL")
    ∷ []
