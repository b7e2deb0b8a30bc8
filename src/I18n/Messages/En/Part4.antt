-- ===== src/I18n/Messages/En/Part4.antt =====
-- web/src/lib/i18n/messages/en.ts, lines 440 to 579.
use purels.Base.{List, String, [], ◌∷◌}
use purels.I18n.Message.{Message, plain, plural}

unfoldable pub en_part4 : List (String × Message)
en_part4 =
    ("links.edit.loading", plain "Loading…")
    ∷ ("links.edit.checkNow", plain "Check now")
    ∷ ("links.edit.checking", plain "Checking...")
    ∷ ("links.edit.neverChecked", plain "Not checked yet")
    ∷ ("links.edit.lastChecked", plain "Last checked {time}")
    ∷ ("links.edit.checkUnreachable", plain "Unreachable")
    ∷ ("bulk.disable", plain "Disable")
    ∷ ("bulk.enable", plain "Enable")
    ∷ ("bulk.delete", plain "Delete")
    ∷ ("bulk.tag", plain "Add tags")
    ∷ ("bulk.untag", plain "Remove tags")
    ∷ ("bulk.setExpiry", plain "Set expiry")
    ∷ ("sort.createdAtDesc", plain "Newest first")
    ∷ ("sort.createdAtAsc", plain "Oldest first")
    ∷ ("sort.clicksDesc", plain "Most clicks")
    ∷ ("sort.clicksAsc", plain "Fewest clicks")
    ∷ ("sort.aliasAsc", plain "Alias A to Z")
    ∷ ("sort.aliasDesc", plain "Alias Z to A")
    ∷ ("statusFilter.all", plain "All statuses")
    ∷ ("statusFilter.active", plain "Active")
    ∷ ("statusFilter.disabled", plain "Disabled")
    ∷ ("statusFilter.expired", plain "Expired")
    ∷ ("rules.title", plain "Divert rules")
    ∷ ("rules.add", plain "Add rule")
    ∷ ("rules.none", plain "None")
    ∷ ("rules.matchType", plain "Match type")
    ∷ ("rules.matchValue", plain "Match value")
    ∷ ("rules.matchUa", plain "User agent contains")
    ∷ ("rules.matchDevice", plain "Device type")
    ∷ ("deviceRule.mobile", plain "Mobile")
    ∷ ("deviceRule.tablet", plain "Tablet")
    ∷ ("deviceRule.desktop", plain "Desktop")
    ∷ ("deviceRule.bot", plain "Bot")
    ∷ ("deviceRule.unknown", plain "Unknown")
    ∷ ("deviceStat.mobile", plain "Mobile")
    ∷ ("deviceStat.tablet", plain "Tablet")
    ∷ ("deviceStat.desktop", plain "Desktop")
    ∷ ("deviceStat.bot", plain "Bot")
    ∷ ("deviceStat.unknown", plain "Unknown")
    ∷ ("qr.alt", plain "QR code for /{alias}")
    ∷ ("qr.download", plain "Download PNG")
    ∷ ("stats.title", plain "Statistics")
    ∷ ("stats.range.today", plain "Today")
    ∷ ("stats.range.7d", plain "Last 7 days")
    ∷ ("stats.range.30d", plain "Last 30 days")
    ∷ ("stats.range.90d", plain "Last 90 days")
    ∷ ("stats.range.365d", plain "Last 365 days")
    ∷ ("stats.noClicks", plain "No clicks in this range.")
    ∷ ("stats.peak", plain "Peak {count}")
    ∷ ("stats.pointTitle", plural "{day} · {count} click" "{day} · {count} clicks")
    ∷ ("stats.clicksInRange", plain "Clicks in range")
    ∷ ("stats.uniqueVisitors", plain "Unique visitors")
    ∷ ("stats.totalLinks", plain "Total links")
    ∷ ("stats.trend", plain "Clicks over time")
    ∷ ("stats.exportCsv", plain "Export CSV")
    ∷ ("stats.ranking", plain "Top links")
    ∷ ("stats.most", plain "Most")
    ∷ ("stats.fewest", plain "Fewest")
    ∷ ("stats.emptyRanking", plain "No click data in this range.")
    ∷ ("stats.exportRanking", plain "Export ranking CSV")
    ∷ ("stats.referrers", plain "Referrers")
    ∷ ("stats.devices", plain "Devices")
    ∷ ("stats.direct", plain "Direct")
    ∷ ("stats.emptyReferrers", plain "No referrer data in this range.")
    ∷ ("stats.emptyDevices", plain "No device data in this range.")
    ∷ ("stats.linkDetail", plain "Link detail")
    ∷ ("stats.selectLink", plain "Select a link…")
    ∷ ("stats.loading", plain "Loading…")
    ∷ ("stats.totalClicks", plain "Total clicks")
    ∷ ("stats.dailyClicks", plain "Clicks by day")
    ∷ ("stats.clickLog", plain "Click log")
    ∷ ("stats.emptyClicks", plain "No clicks recorded in this range.")
    ∷ ("stats.recentClicks", plain "Recent clicks")
    ∷ ("stats.table.short", plain "Short link")
    ∷ ("stats.table.clicks", plain "Clicks")
    ∷ ("stats.table.referrer", plain "Referrer")
    ∷ ("stats.table.time", plain "Time")
    ∷ ("stats.table.userAgent", plain "User-Agent")
    ∷ ("stats.csv.rank", plain "Rank")
    ∷ ("stats.csv.destination", plain "Destination")
    ∷ ("stats.csv.date", plain "Date")
    ∷ ("stats.loadFailed", plain "Failed to load the statistics.")
    ∷ ("stats.loadRankingFailed", plain "Failed to load the ranking.")
    ∷ ("stats.loadDetailFailed", plain "Failed to load the link detail.")
    ∷ ("stats.loadClicksFailed", plain "Failed to load the click log.")
    ∷ ("audit.title", plain "Audit log")
    ∷ ("audit.allActions", plain "All actions")
    ∷ ("audit.table.time", plain "Time")
    ∷ ("audit.table.actor", plain "Actor")
    ∷ ("audit.table.action", plain "Action")
    ∷ ("audit.table.detail", plain "Detail")
    ∷ ("audit.emptyFiltered", plain "No entries for this action.")
    ∷ ("audit.empty", plain "No entries yet.")
    ∷ ("audit.filterLabel", plain "Filter by action")
    ∷ ("home.skipToMain", plain "Skip to page content")
    ∷ ("audit.loadFailed", plain "Failed to load the audit log.")
    ∷ ("audit.action.link.create", plain "Created a link")
    ∷ ("audit.action.link.update", plain "Updated a link")
    ∷ ("audit.action.link.delete", plain "Deleted a link")
    ∷ ("audit.action.link.import", plain "Imported links")
    ∷ ("audit.action.link.bulk", plain "Bulk action")
    ∷ ("audit.action.token.create", plain "Created a token")
    ∷ ("audit.action.token.revoke", plain "Revoked a token")
    ∷ ("audit.action.session.login", plain "Signed in")
    ∷ ("audit.action.session.logout", plain "Signed out")
    ∷ ("audit.action.session.2fa", plain "Signed in with two-factor authentication")
    ∷ ("audit.action.user.register", plain "Registered an account")
    ∷ ("audit.action.user.update", plain "Updated a user")
    ∷ ("audit.action.user.2fa_enroll", plain "Enrolled in two-factor authentication")
    ∷ ("audit.action.user.2fa_disable", plain "Disabled two-factor authentication")
    ∷ ("audit.action.user.2fa_reset", plain "Reset two-factor authentication")
    ∷ ("audit.action.role.update", plain "Updated a role")
    ∷ ("audit.action.oidc.create", plain "Added a sign-in method")
    ∷ ("audit.action.oidc.update", plain "Changed a sign-in method")
    ∷ ("audit.action.oidc.delete", plain "Removed a sign-in method")
    ∷ ("audit.action.analytics.update", plain "Changed analytics settings")
    ∷ ("audit.action.captcha.update", plain "Changed registration protection")
    ∷ ("audit.action.runtime_settings.update", plain "Update site policies")
    ∷ ("users.title", plain "User management")
    ∷ ("users.directoryTitle", plain "Account directory")
    ∷ (
      "users.directoryDescription",
      plain "Review login sources, role assignments, account status, and second-factor coverage.",
    )
    ∷ ("users.table.username", plain "Username")
    ∷ ("users.table.source", plain "Sign-in source")
    ∷ ("users.table.role", plain "Role")
    ∷ ("users.table.status", plain "Status")
    ∷ []
