-- ===== src/Lib.antt =====
-- A model of the purels web console (web/src): the client of the HTTP API, localization, the
-- runtime settings form, the analytics configuration and the scripts it injects, the navigation,
-- the reads of its server, the toasts, the guard of unsaved drafts, the link rules editor, tags
-- and CSV export.
--
-- The parts and their files:
--
-- - ApiClient.antt models web/src/lib/api-client.ts: Error has `ApiError`, `serverMessage`,
--   `serverCode` and `unwrapKey`; Request has `request` with the module's CSRF token, the page and
--   the requests already sent as its state. Its children Traffic, Csrf and Failures hold what a
--   call sends, where it leads and what it answers: Traffic describes the requests from the
--   protocol, and Traffic/Sent compares them. Endpoints has the table `api` with `buildQuery`,
--   each endpoint as the path, method, body and handling that it gives to `request`, and
--   Endpoints/Calls classifies them.
-- - I18n.antt models web/src/lib/i18n and web/src/proxy.ts: Locale and Translate for index.ts
--   (`isLocale`, `createT`, `tFor`, `enumLabel`, `errorText`), Messages for both dictionaries in
--   full, Negotiate for negotiate.ts, Request for the proxy with its matcher, `getLocale` and
--   `setLocale`. `errorText` words the errors that ApiClient throws.
-- - RuntimeForm.antt models web/src/lib/runtime-settings-form.ts: a draft is made from the saved
--   settings by `runtimeDraft`, edited by the form, and turned into changes by `runtimeChanges`.
--   Its child Editor models web/src/components/settings/runtime-form.tsx, the component that
--   loads, edits and saves.
-- - Analytics.antt models web/src/lib/analytics-config.ts (Patterns, Config, Script) and
--   web/src/components/analytics-injector.tsx (Injector/Snippets, Injector/Pageviews). The
--   injector embeds each id by `jsonForScript` of Script.
-- - Navigation.antt models web/src/components/admin-navigation.ts: the sections of the navigation
--   (Entries), what an account sees (Visible, Permitted), which entry is active (Active) and the
--   settings search (Search, Reachable).
-- - Server.antt models what the console's server reads for a page: Origin for
--   web/src/lib/request-origin.ts and web/src/app/robots.ts and sitemap.ts, Reads for
--   session.server.ts, public-config.server.ts and analytics-config.server.ts of web/src/lib.
-- - OidcCallback.antt models web/src/lib/oidc-callback.ts.
-- - ToastProvider.antt models web/src/components/toast-provider.tsx over FeedbackQueue: Timers and
--   Ids hold the lemmas, Reachable the steps and what holds after any of them.
-- - LinkRules.antt models web/src/components/link-rules-editor.tsx, and SettingsTabs.antt
--   web/src/components/settings/settings-tabs.tsx.
-- - DraftGuard.antt models web/src/components/settings/settings-draft-guard.tsx: Guarding for the
--   registered forms, Leaving for the steps and where they lead.
-- - FeedbackQueue.antt, Tags.antt and Csv.antt model the files of web/src/lib with those names.
-- - Js.antt is the part of the language that the code uses: strings as lists of UTF-16 units,
--   JSON, regular expressions by derivatives, headers, URI encoding, decimal texts. Base.antt
--   holds lists and tests over the native numbers. Tests.antt runs the model at concrete inputs.
--
-- State is explicit: `request` takes the client state and returns the outcome with the new state.
-- A promise that rejects is a failure value, and a thrown error of `t` or `runtimeChanges` is a
-- result of its own. The records of the source that are read by a computed key are association
-- lists.
--
-- Parameters: `Numbers` stands for doubles and their conversions, with the laws of ECMA-262 that
-- are used; `CaseMapping` for toLowerCase and toUpperCase beyond ASCII; `serve` for the network
-- and the server behind it, an arbitrary function on its own state; `Matching` for the framework's
-- matching of the proxy's patterns; `UrlParser` for the browser's `new URL`; `inherited` for what
-- every object inherits. Tests/Counting.antt and `ascii_mapping` are instances.
--
-- All loops are structural recursions on lists, but for the digits of `String(n)`, whose fuel n +
-- 1 exceeds the number of divisions by ten that bring n below ten.
--
-- Not modelled: the React views and their effects but the ones named above, the record types of
-- the API's payloads, and everything outside web/src (the Go service, its schema, scripts and
-- documents). Cookie attributes and the cancelling of requests are left out of the model. A token
-- in a reply that is no text, which the declared types rule out, counts as none.
pub mod Analytics
pub mod ApiClient
pub mod Base
pub mod Csv
pub mod DraftGuard
pub mod FeedbackQueue
pub mod I18n
pub mod Js
pub mod LinkRules
pub mod Navigation
pub mod OidcCallback
pub mod RuntimeForm
pub mod Server
pub mod SettingsTabs
pub mod Tags
pub mod Tests
pub mod ToastProvider
