-- ===== src/I18n/Messages/En/Part2.antt =====
-- web/src/lib/i18n/messages/en.ts, lines 159 to 296.
use purels.Base.{List, String, [], ◌∷◌}
use purels.I18n.Message.{Message, plain}

unfoldable pub en_part2 : List (String × Message)
en_part2 =
    ("home.hero.title", plain "Self-hosted short links")
    ∷ (
      "home.hero.subhead",
      plain
          "An open-source URL shortener. Use your own domain, track clicks, and manage links with your team.",
    )
    ∷ ("home.hero.ctaPrimary", plain "Get started")
    ∷ ("home.hero.ctaSecondary", plain "Sign in to the console")
    ∷ ("home.hero.stat.deploy", plain "command to deploy")
    ∷ ("home.hero.stat.scopes", plain "permission scopes")
    ∷ ("home.hero.stat.modes", plain "visitor address modes")
    ∷ ("home.hero.mock.link", plain "Short link")
    ∷ ("home.hero.mock.links", plain "Links")
    ∷ ("home.hero.mock.clicks", plain "Clicks")
    ∷ ("home.hero.mock.visitors", plain "Unique visitors")
    ∷ ("home.hero.mock.trend", plain "Last 7 days")
    ∷ ("home.features.title", plain "Core features")
    ∷ ("home.feature.links.title", plain "Link management")
    ∷ (
      "home.feature.links.body",
      plain "Create short links with custom aliases, tags, and bulk actions.",
    )
    ∷ ("home.feature.stats.title", plain "Click statistics")
    ∷ (
      "home.feature.stats.body",
      plain "See click counts, referrers, devices, and trends over time.",
    )
    ∷ ("home.feature.rules.title", plain "Redirect rules")
    ∷ (
      "home.feature.rules.body",
      plain "Send visitors to different destinations based on their device or user agent.",
    )
    ∷ ("home.feature.access.title", plain "Team management")
    ∷ (
      "home.feature.access.body",
      plain "Manage users and roles, enable two-factor or single sign-on, and review audit logs.",
    )
    ∷ ("home.feature.gallery.title", plain "Redirect page")
    ∷ (
      "home.feature.gallery.body",
      plain "Show the destination and a piece of artwork before redirecting, or go straight there.",
    )
    ∷ ("home.feature.privacy.title", plain "Data and privacy")
    ∷ (
      "home.feature.privacy.body",
      plain "Keep data in your own database and choose how visitor IP addresses are recorded.",
    )
    ∷ ("home.chip.qr", plain "QR codes")
    ∷ ("home.chip.csv", plain "CSV import and export")
    ∷ ("home.chip.token", plain "Scoped API tokens")
    ∷ ("home.chip.rateLimit", plain "Rate limiting")
    ∷ ("home.chip.domains", plain "Multiple short domains")
    ∷ ("home.chip.probe", plain "Destination health checks")
    ∷ ("home.how.title", plain "How it works")
    ∷ ("home.how.create.title", plain "Create")
    ∷ ("home.how.create.body", plain "Enter a destination and choose an alias or generate one.")
    ∷ ("home.how.share.title", plain "Share")
    ∷ ("home.how.share.body", plain "Share the short link or generate a QR code.")
    ∷ ("home.how.measure.title", plain "Measure")
    ∷ (
      "home.how.measure.body",
      plain "See how many clicks your link gets and where visitors come from.",
    )
    ∷ ("home.selfHost.title", plain "Open source. Self-hosted.")
    ∷ (
      "home.selfHost.body",
      plain
          "Create short links with your own domain. Keep your links and click data on your own server.",
    )
    ∷ ("home.selfHost.docs", plain "Installation guide")
    ∷ ("home.faq.title", plain "Frequently asked questions")
    ∷ ("home.faq.q1", plain "Who can create short links?")
    ∷ (
      "home.faq.a1",
      plain
          "Users with an account can create links. Users manage their own links; administrators can see all links.",
    )
    ∷ ("home.faq.q2", plain "Can I use my own domain?")
    ∷ ("home.faq.a2", plain "Yes. Point your domain to the server and configure it in Purels.")
    ∷ ("home.faq.q3", plain "What is the gallery on the redirect page?")
    ∷ (
      "home.faq.a3",
      plain
          "An optional page that shows the destination and a piece of artwork. Set how long it appears, or turn it off for a direct redirect.",
    )
    ∷ ("home.faq.q4", plain "Where is the visitor data stored?")
    ∷ ("home.faq.a4", plain "Links and click records are stored in your PostgreSQL database.")
    ∷ ("home.faq.q5", plain "Are two-factor authentication and single sign-on supported?")
    ∷ (
      "home.faq.a5",
      plain
          "Yes. Purels supports TOTP two-factor authentication and OIDC single sign-on. Both require an encryption key.",
    )
    ∷ ("home.faq.q6", plain "What happens to existing accounts if registration is closed?")
    ∷ ("home.faq.a6", plain "Existing accounts can still sign in and use Purels.")
    ∷ ("home.faq.q7", plain "What licence is it under?")
    ∷ ("home.faq.a7", plain "Apache-2.0.")
    ∷ ("home.cta.title", plain "Get started with Purels")
    ∷ ("home.cta.body", plain "Create short links or deploy Purels on your own server.")
    ∷ ("home.cta.button", plain "Get started")
    ∷ ("home.footer.tagline", plain "An open-source, self-hosted URL shortener.")
    ∷ ("home.footer.license", plain "Apache-2.0")
    ∷ ("home.footer.copyright", plain "© 2026 Purels")
    ∷ ("nav.overview", plain "Overview")
    ∷ ("nav.links", plain "Link management")
    ∷ ("nav.stats", plain "Short-link statistics")
    ∷ ("nav.audit", plain "Audit log")
    ∷ ("nav.users", plain "Users")
    ∷ ("nav.roles", plain "Roles & permissions")
    ∷ ("nav.oidc", plain "Sign-in methods")
    ∷ ("nav.analytics", plain "Statistics and integrations")
    ∷ ("nav.security", plain "Account security")
    ∷ ("nav.captcha", plain "Registration protection")
    ∷ ("nav.runtimeSettings", plain "Link & service rules")
    ∷ ("nav.group.overview", plain "Overview")
    ∷ ("nav.group.access", plain "Users and permissions")
    ∷ ("nav.group.security", plain "Security & protection")
    ∷ ("nav.group.links", plain "Link service")
    ∷ ("nav.group.analytics", plain "Analytics")
    ∷ ("shell.console", plain "Admin console")
    ∷ ("shell.workspace", plain "Workspace")
    ∷ ("shell.breadcrumb", plain "Breadcrumb")
    ∷ ("shell.account", plain "Purels account")
    ∷ ("shell.accountMenu", plain "Account menu")
    ∷ ("shell.settings", plain "Settings")
    ∷ ("shell.theme", plain "Theme")
    ∷ ("shell.welcome", plain "Welcome back")
    ∷ ("shell.welcomeNamed", plain "Welcome back, {username}")
    ∷ ("shell.logout", plain "Sign out")
    ∷ ("shell.loggingOut", plain "Signing out...")
    ∷ ("shell.closeMenu", plain "Close menu")
    ∷ ("shell.openMenu", plain "Open menu")
    ∷ ("shell.skipToMain", plain "Skip to main content")
    ∷ ("shell.expandSection", plain "Expand settings section")
    ∷ ("shell.collapseSection", plain "Collapse settings section")
    ∷ ("shell.language", plain "Language")
    ∷ ("theme.switch", plain "Switch theme")
    ∷ ("theme.light", plain "Light")
    ∷ ("theme.dark", plain "Dark")
    ∷ ("login.subtitle", plain "Short link console")
    ∷ ("login.heading", plain "Sign in")
    ∷ ("login.mfaHeading", plain "Two-factor authentication")
    ∷ ("login.username", plain "Username")
    ∷ ("login.password", plain "Password")
    ∷ ("login.code", plain "Verification code")
    ∷ ("login.submit", plain "Sign in")
    ∷ ("login.submitting", plain "Signing in...")
    ∷ ("login.verify", plain "Verify")
    ∷ ("login.verifying", plain "Verifying...")
    ∷ ("login.back", plain "Back")
    ∷ ("login.or", plain "or")
    ∷ ("login.noAccount", plain "No account?")
    ∷ ("login.register", plain "Register")
    ∷ ("login.failed", plain "Sign-in failed. Please try again.")
    ∷ ("login.verifyFailed", plain "Verification failed. Please try again.")
    ∷ []
