-- ===== src/Lib.antt =====
-- The web client of Vidsilo: the two queues that bring videos to the server, the client of its
-- HTTP API, the dialog that edits an entry, the stack of dialogs, the player, the upload dialog,
-- the translations, the sessions, the public library, and pages of the administration.
--
-- UploadStore models web/lib/upload-store.ts with web/lib/idb.ts. UploadStore.Job has the jobs
-- (UploadJob, UploadStatus) and the patches of updateJob; UploadStore.State the variables of the
-- module with what the browser keeps (Store; persist, emit, load, markUploadsCompleted, the
-- operations of idb.ts); UploadStore itself addFiles, updateJob, removeJob, resetIdle,
-- clearUploads, clearAllUploads and the first half of startJob; UploadStore.Run the rest of
-- startJob, the callbacks of tus, startAll, and the events of a run. The other modules below
-- UploadStore are about: Ids and Named the ids of jobs; AddFiles what addFiles adds; Reload what a
-- page load finds; Title what defaultTitle gives; Run.Invariant, Run.Preserved, Run.Additions,
-- Run.Rounds, Run.Ending and Run.Reachable the invariant of a run; Run.Synced listeners and local
-- storage; Run.Counting, Run.Draining and Run.Completion the end of a batch; Run.Stalls startAll
-- after a removal, and where a file is missing.
--
-- UrlDownloads models web/lib/url-download-store.ts. UrlDownloads.Job has the jobs and load;
-- UrlDownloads the state and checkUrls, updateUrlDownload, removeUrlDownload, resetIdleDownloads
-- and the two clearing functions; UrlDownloads.Polling startDownloads, submitOne, waitForEntry and
-- pollUntilIdle; UrlDownloads.Events the events of a run. Distinct, Honest and Stranded are about
-- what checkUrls adds, what progress bars show, and downloads after a reload.
--
-- ApiClient models the function api of web/lib/api.ts with tryRefresh. Renewal is about the
-- renewals of the session, Settling about the end of a call. The stores call api; their models
-- take its answers as arguments, and none where it throws.
--
-- EntryDetail models the form of web/components/entry-detail-dialog.tsx: its state, the edits of
-- its controls, isDirty and the body of saveEntry; EntryDetail.ChangeList has buildChanges and
-- save. Sets and Changes compare the dirty test, the list of changes and the request. The
-- translations and the lists of categories, ACLs, players and flavors are arguments.
-- EntryDetail.Live has the dialog over time: the entry that is fetched again, the ends of its
-- requests, and subtitles; Refetched is about what another entry does to the form, Poster about
-- the picker of the poster frame.
--
-- Dialogs models web/hooks/use-dialog.tsx: the stack of dialogs and the confirmation with its
-- buttons; handleConfirm is cut at its await. Order is about the ids, Confirming about a dialog
-- from its opening to its end.
--
-- UploadDialog models web/components/upload-dialog.tsx over both queues: opening and closing, the
-- flags, adding and removing files, checking URLs, starting, cancelling and discarding.
-- UploadDialog.Events has what can happen to the dialog and to the queues under it; a confirmation
-- keeps the jobs of the render in which it was asked for. The edits of the cards are events of the
-- runs of the queues. Kept and Queues are about the invariants of both queues, Removal and Closing
-- about the close button, Cancelling about cancelling all, and Meanwhile about what goes on below
-- a question.
--
-- Player models web/components/vidsilo-player.tsx: the watch reports, resuming, and what a media
-- element announces; Player.Settings the settings kept in local storage, Player.Controls keys, the
-- seek bar with its preview and the hiding of the controls, Player.Events the events of a run.
-- Reports is about the reports. Times are in milliseconds and volumes in hundredths.
--
-- Notifications models web/components/upload-notifications.tsx, an effect at each render; Counted
-- is about the refreshes. SiteConfig models web/lib/site-config.ts; Fetching is about requests and
-- calls.
--
-- Entries models web/app/admin/entries/page.tsx: filters, pages, selection, actions, and the
-- refetch after an upload; Entries.Events has its events, Selected and Refetched are about the
-- selection and the refetch. DomainAcls models the form of web/app/admin/domain-acls/page.tsx,
-- with Clean about what it sends; Players the form of web/app/admin/players/page.tsx, with Rebuilt
-- about its round trip; Categories the tree and depthOf of web/app/admin/categories/page.tsx, with
-- Depths about the depth; Flavors the form of web/app/admin/flavors/page.tsx, with Modes about its
-- two modes. Settings models web/app/admin/settings/page.tsx, and Validate of
-- internal/settings/settings.go; Saving compares the two. How a number is written and read is a
-- parameter there; that reading a written number gives it back is a hypothesis. Base.Words has the
-- splitting, trimming and joining of texts, Base.Numerals the digits of a number, Base.Lookups
-- what a map has after a key is set.
--
-- Translations models web/lib/i18n.tsx: t with replaceAll, the provider in Translations.Locale,
-- and the English messages in Translations.Messages, in the order of the source and in five parts.
-- Pieces takes a message apart into texts and placeholders, Plural is about the plural that t
-- adds, Filled compares t with filling these in, Counting is about one message. Formatting models
-- web/lib/format.ts, padSeries of web/lib/charts.ts and fieldErrors of web/lib/validators.ts;
-- Clock is about durations, Sizes about bytes, Series about the maps that loops fill.
--
-- Library models web/app/(public)/page.tsx, the public library: the filters, the debounced search,
-- the request for the first page and loadMore, over a server whose pages do not change; Invariant
-- and Shown are about the items shown, Skipped about an answer that comes late. Playing models
-- web/app/(public)/play/page.tsx, web/app/(embed)/embed/page.tsx,
-- web/components/playback-preview.tsx and the links of web/components/embed-dialog.tsx, with Links
-- about a link and the page it opens.
--
-- Session models web/components/auth-provider.tsx, the gate of web/app/admin/admin-shell.tsx, and
-- the forms of web/app/admin/login/page.tsx and web/components/change-password-dialog.tsx; Return
-- is about the address after a sign-in, Signing about the gate. An address is checked against the
-- URL standard as far as it says when a relative reference names a host. Accounts models
-- web/app/admin/users/page.tsx and web/app/admin/viewers/page.tsx, with Sent about the form of a
-- user; Jobs models web/app/admin/jobs/page.tsx. Analytics models web/app/admin/analytics/page.tsx
-- and web/components/analytics-range.tsx, with Ranges about the days of a chart; Charts models
-- web/components/svg-chart.tsx, with Drawn about where the line lies. Sidebar models the cards of
-- web/components/app-sidebar.tsx over the jobs of the two queues, with Progress about the
-- percentage; Theme models web/components/theme-provider.tsx, with Matched about the class of the
-- document. Dashboard models web/app/admin/dashboard/page.tsx, with Shares about the percentages
-- of the statuses, and Storage web/app/admin/storage/page.tsx.
--
-- How code corresponds to definitions. The variables of a module are the fields of a record, an
-- operation is a function on it. An async function is cut at each await: what it awaits is a value
-- of the state (Batch, Poller, Stage), and the answer is an event that is handled by the rest of
-- the function up to its next await. The time of Date.now() is an argument, a timestamp is its
-- millisecond. crypto.randomUUID is a parameter, a function of the number of UUIDs drawn; where
-- ids matter, theorems assume that it never repeats a value. localStorage may refuse writes, and
-- IndexedDB may be missing; where it is there, its operations are immediate except for the one
-- that startJob awaits. Math.round and the division in percentages are exact on natural numbers. A
-- call of tus is an entry of the uploads in flight, whose callbacks are events; an aborted upload
-- has none. A tick of the polling timer of waitForEntry is answered before the next one, two
-- seconds later, so that none is in flight when the timer is cleared; in the source ticks with
-- slower answers overlap.
--
-- The loop of depthOf in Categories.climb runs on fuel; as many rounds as there are rows are
-- enough for a tree. The digits of a number and the logarithm of formatBytes run on fuel too,
-- which the number itself bounds. No other definition uses fuel. The loop of startAll may turn for
-- ever where a file is missing, so one round is one event; all other loops recurse on a list.
--
-- Volumes are natural numbers, so that the lower end of their range is a test of its own and not a
-- bound that could fail. The numbers of the settings page are an argument with the few operations
-- on them that the page and the server use.
--
-- Not modelled: the Go server under internal and cmd, but for the validation of a setting;
-- rendering, the recent entries of the dashboard, the login of viewers and the widgets; the
-- schemas of zod but that of a flavor, whose findings are arguments; floating point, where a
-- quotient is rounded; hls.js, subtitle tracks, full screen and picture in picture of the player;
-- tus-js-client, IndexedDB and fetch beyond their answers; the reading of a File by tus. JSON
-- written to local storage is read back as it was, or is corrupt as a whole.
pub mod Base
pub mod UploadStore
pub mod UrlDownloads
pub mod ApiClient
pub mod EntryDetail
pub mod Dashboard
pub mod Dialogs
pub mod Player
pub mod Notifications
pub mod Entries
pub mod DomainAcls
pub mod Settings
pub mod SiteConfig
pub mod Players
pub mod Categories
pub mod Flavors
pub mod Formatting
pub mod Translations
pub mod Library
pub mod Session
pub mod Charts
pub mod Jobs
pub mod Accounts
pub mod Sidebar
pub mod Storage
pub mod Analytics
pub mod Playing
pub mod Theme
pub mod UploadDialog
