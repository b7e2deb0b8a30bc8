-- ===== src/I18n/Messages/En/Part3.antt =====
-- web/src/lib/i18n/messages/en.ts, lines 300 to 439.
use purels.Base.{List, String, [], ◌∷◌}
use purels.I18n.Message.{Message, plain, plural}

unfoldable pub en_part3 : List (String × Message)
en_part3 =
    (
      "oidcError.oidc_not_provisioned",
      plain "No usable account is linked to this identity. Contact an administrator.",
    )
    ∷ ("oidcError.oidc_state", plain "This sign-in has expired. Please start again.")
    ∷ (
      "oidcError.oidc_exchange",
      plain "The identity provider did not complete the sign-in. Please try again.",
    )
    ∷ (
      "oidcError.oidc_unavailable",
      plain "This sign-in method is unavailable. Contact an administrator.",
    )
    ∷ ("oidcError.oidc_failed", plain "Sign-in failed. Please try again.")
    ∷ ("register.heading", plain "Register")
    ∷ ("register.username", plain "Username")
    ∷ ("register.password", plain "Password")
    ∷ ("register.submit", plain "Register")
    ∷ ("register.submitting", plain "Registering...")
    ∷ ("register.haveAccount", plain "Already have an account?")
    ∷ ("register.login", plain "Sign in")
    ∷ ("register.completeCaptcha", plain "Complete the verification first.")
    ∷ ("register.captchaLoadFailed", plain "Could not load the registration check.")
    ∷ ("register.failed", plain "Registration failed. Please try again.")
    ∷ ("turnstile.loadFailed", plain "The verification failed to load. Please try again.")
    ∷ ("role.admin", plain "Administrator")
    ∷ ("role.operator", plain "Operator")
    ∷ ("role.readonly", plain "Read-only")
    ∷ ("role.user", plain "User")
    ∷ ("common.cancel", plain "Cancel")
    ∷ ("common.close", plain "Close")
    ∷ ("common.copy", plain "Copy")
    ∷ ("common.copied", plain "Copied")
    ∷ ("common.notifications", plain "Notifications")
    ∷ ("common.delete", plain "Delete")
    ∷ ("common.edit", plain "Edit")
    ∷ ("common.save", plain "Save")
    ∷ ("common.saving", plain "Saving...")
    ∷ ("common.loading", plain "Loading...")
    ∷ ("common.previous", plain "Previous")
    ∷ ("common.next", plain "Next")
    ∷ ("common.page", plain "Page {page} / {count}")
    ∷ ("common.range", plain "{start}–{end} of {total}")
    ∷ ("common.rangeEmpty", plain "0 of 0")
    ∷ ("common.retry", plain "Retry")
    ∷ ("common.actionFailed", plain "The action did not complete. Try again.")
    ∷ ("common.unavailable", plain "Unavailable")
    ∷ ("dashboard.totalLinks", plain "Total links")
    ∷ ("dashboard.totalClicks", plain "Total clicks")
    ∷ ("dashboard.serviceStatus", plain "Service status")
    ∷ ("dashboard.statusChecking", plain "Checking…")
    ∷ ("dashboard.statusReady", plain "Ready")
    ∷ ("dashboard.statusDegraded", plain "Not ready")
    ∷ ("dashboard.statusUnreachable", plain "API unreachable")
    ∷ ("dashboard.recentLinks", plain "Recent links")
    ∷ ("dashboard.viewAll", plain "View all")
    ∷ ("dashboard.clicks", plural "{count} click" "{count} clicks")
    ∷ ("dashboard.empty", plain "No links yet")
    ∷ ("links.title", plain "Link management")
    ∷ ("links.searchPlaceholder", plain "Search alias or destination URL")
    ∷ ("links.allTags", plain "All tags")
    ∷ ("links.tagOption", plain "{name} ({count})")
    ∷ ("links.import", plain "Import CSV")
    ∷ ("links.export", plain "Export CSV")
    ∷ ("links.create", plain "Create link")
    ∷ ("links.selectAll", plain "Select all on this page")
    ∷ ("links.selectOne", plain "Select {alias}")
    ∷ ("links.checkOk", plain "Check {code}")
    ∷ ("links.checkFailed", plain "Check failed")
    ∷ ("links.qr", plain "QR code")
    ∷ ("links.confirmDelete", plain "Delete this link?")
    ∷ (
      "links.confirmBulkDelete",
      plural "Delete the {count} selected link?" "Delete the {count} selected links?",
    )
    ∷ ("links.bulkTagPlaceholder", plain "Tags")
    ∷ ("links.bulkNeedDate", plain "Pick an expiry date first.")
    ∷ ("links.bulkNeedTag", plain "Enter at least one tag.")
    ∷ ("links.bulkSkipped", plain "{count} skipped")
    ∷ ("links.selected", plain "{count} selected")
    ∷ ("links.run", plain "Run")
    ∷ ("links.clearSelection", plain "Clear selection")
    ∷ ("links.searchLabel", plain "Search links")
    ∷ ("links.tagFilterLabel", plain "Filter by tag")
    ∷ ("links.sortLabel", plain "Sort links")
    ∷ ("links.bulkActionLabel", plain "Bulk action")
    ∷ ("links.bulkDateLabel", plain "Expiry date")
    ∷ ("links.emptyFiltered", plain "No links match the current filters.")
    ∷ ("links.empty", plain "No links yet. Create one to get started.")
    ∷ ("links.imported", plural "Imported {count} link." "Imported {count} links.")
    ∷ ("links.deleted", plain "Link deleted")
    ∷ ("links.bulkComplete", plural "Updated {count} link." "Updated {count} links.")
    ∷ ("links.exported", plain "CSV export started")
    ∷ ("links.importFailed", plural "{count} row failed." "{count} rows failed.")
    ∷ ("links.importErrorLine", plain "Line {line}: {reason}")
    ∷ ("links.importErrorLineAlias", plain "Line {line} ({alias}): {reason}")
    ∷ ("links.copy", plain "Copy")
    ∷ ("links.copied", plain "Copied")
    ∷ ("links.copyFailed", plain "Copy failed. Select the URL manually.")
    ∷ ("links.created.title", plain "Your short link is ready")
    ∷ ("links.created.body", plain "Click the address below to copy the complete short link.")
    ∷ ("links.created.preview", plain "Preview redirect")
    ∷ ("links.created.edit", plain "Edit link")
    ∷ ("links.created.new", plain "Create another")
    ∷ ("links.table.short", plain "Short link")
    ∷ ("links.table.destination", plain "Destination")
    ∷ ("links.table.tags", plain "Tags")
    ∷ ("links.table.clicks", plain "Clicks")
    ∷ ("links.table.redirect", plain "Redirect")
    ∷ ("links.table.status", plain "Status")
    ∷ ("links.table.actions", plain "Actions")
    ∷ ("links.form.destination", plain "Destination URL")
    ∷ ("links.form.alias", plain "Custom alias (optional)")
    ∷ ("links.form.aliasPlaceholder", plain "Leave blank to generate one")
    ∷ ("links.form.domain", plain "Short domain")
    ∷ ("links.form.title", plain "Title (optional)")
    ∷ ("links.form.tags", plain "Tags (optional)")
    ∷ ("links.form.tagsPlaceholder", plain "Separate tags with commas")
    ∷ ("links.form.redirectCode", plain "Redirect code")
    ∷ ("links.form.interstitial", plain "Show the destination first")
    ∷ ("links.form.interstitialUnit", plain "seconds before redirecting")
    ∷ ("links.form.submit", plain "Create link")
    ∷ ("links.form.submitting", plain "Creating...")
    ∷ ("links.form.save", plain "Save changes")
    ∷ ("links.form.saving", plain "Saving...")
    ∷ ("links.redirect.follow", plain "Follow the link")
    ∷ ("links.redirect.temporary", plain "302 Temporary")
    ∷ ("links.redirect.permanent", plain "301 Permanent")
    ∷ ("links.edit.title", plain "Edit link")
    ∷ ("links.edit.breadcrumbTail", plain "Edit")
    ∷ ("links.edit.preview", plain "Preview")
    ∷ ("links.edit.status", plain "Status")
    ∷ ("links.edit.statusActive", plain "Active")
    ∷ ("links.edit.statusDisabled", plain "Disabled")
    ∷ ("links.edit.expires", plain "Expiry date (blank means never)")
    ∷ ("links.edit.notFound", plain "That link was not found.")
    ∷ []
