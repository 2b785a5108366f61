-- ===== src/Translations/Messages/Dashboard.antt =====
-- web/lib/i18n.tsx: the English messages of the dashboard and the pages next to it.
use vidsilo.Base.{String, Dict, [], ◌∷◌}

abbrev pub dashboard_messages : Dict String
dashboard_messages =
    ("dashEntries", "Entries")
    ∷ ("dashEntryCount", "{n} entr{s}")
    ∷ ("dashByStatusDesc", "Entries grouped by pipeline status.")
    ∷ ("usersAdministrators", "Administrators")
    ∷ ("loginShowPassword", "Show password")
    ∷ ("loginHidePassword", "Hide password")
    ∷ ("dashEntriesHint", "total in catalog")
    ∷ ("dashStorage", "Storage used")
    ∷ ("dashStorageHint", "media across all entries")
    ∷ ("dashQueue", "Queue depth")
    ∷ ("dashQueueHint", "jobs waiting or running")
    ∷ ("dashBandwidth", "Bandwidth")
    ∷ ("dashBandwidthHint", "view traffic — {today} GB served today")
    ∷ ("analyticsDisabled", "Analytics is disabled — bandwidth is not being counted.")
    ∷ ("dashWelcomeTitle", "Welcome to Vidsilo")
    ∷ (
      "dashWelcomeDesc",
      "Your library is empty — upload your first video to start building your catalog.",
    )
    ∷ ("dashUploadFirst", "Upload a video")
    ∷ ("dashStatusEmpty", "Nothing to report yet — statuses will appear here.")
    ∷ ("dashActivity", "Active uploads & jobs")
    ∷ ("dashActivityEmpty", "Nothing processing right now.")
    ∷ ("dashUploadingBy", "uploading by {email}")
    ∷ ("jobRunning", "Processing")
    ∷ ("jobQueued", "In Queue")
    ∷ ("jobPause", "Pause")
    ∷ ("jobResume", "Resume")
    ∷ ("jobAbort", "Abort")
    ∷ ("jobCancelled", "Cancelled")
    ∷ ("jobAbortTitle", "Abort this job?")
    ∷ ("jobAbortDesc", "Running work is stopped immediately. Cancelled jobs can be retried later.")
    ∷ ("jobDone", "Done")
    ∷ ("jobProbe", "Probe")
    ∷ ("jobPosterSprite", "Poster & Sprite")
    ∷ ("jobTranscode", "Transcode")
    ∷ ("jobRetry", "Retry")
    ∷ ("jobRetried", "Job requeued")
    ∷ ("jobsEmpty", "No jobs yet — uploads and reprocessing appear here.")
    ∷ ("colType", "Type")
    ∷ ("colPlays", "Plays")
    ∷ ("colWatchTime", "Watch time")
    ∷ ("colBandwidth", "Bandwidth")
    ∷ ("actOpen", "Open")
    ∷ ("actEmbed", "Embed")
    ∷ ("embedTitle", "Embed this video")
    ∷ ("analyticsRangeHint", "in the selected range")
    ∷ ("analyticsTopEntries", "Top entries")
    ∷ ("analyticsEmpty", "No viewing data yet — views will appear here.")
    ∷ ("colEntry", "Entry")
    ∷ ("colAttempts", "Attempts")
    ∷ ("colError", "Error")
    ∷ ("dashRecentEmpty", "No videos yet — uploads will show up here.")
    ∷ ("dashByStatus", "Entries by status")
    ∷ ("dashNoEntries", "No entries yet — upload your first video.")
    ∷ ("dashRecent", "Recent uploads")
    ∷ ("dashRecentDesc", "The latest videos added to your catalog.")
    ∷ ("colTitle", "Title")
    ∷ ("colStatus", "Status")
    ∷ ("statusUploading", "Uploading")
    ∷ ("statusProbing", "Probing")
    ∷ ("statusTranscoding", "Transcoding")
    ∷ ("statusReady", "Ready")
    ∷ ("statusFailed", "Failed")
    ∷ ("colDuration", "Duration")
    ∷ ("colCategory", "Category")
    ∷ ("colSize", "Size")
    ∷ ("dashboardViewAll", "View all")
    ∷ ("jobsActiveEncoding", "Active background encoding")
    ∷ ("jobsWaitingPool", "Waiting for worker pool")
    ∷ ("jobsRequiresAttention", "Requires attention or retry")
    ∷ ("jobsDoneCount", "{n} completed")
    ∷ ("subtitleUploadTitle", "Upload Subtitle Track")
    ∷ ("subtitleFileLabel", "Subtitle File (.vtt)")
    ∷ ("subtitleClickToSelect", "Click to select .vtt file")
    ∷ ("subtitleVttRequired", "WebVTT caption format required")
    ∷ ("languageCode", "Language Code")
    ∷ ("displayLabel", "Display Label")
    ∷ ("subtitlesSectionTitle", "Subtitles & Captions")
    ∷ ("subtitlesSectionDesc", "Manage WebVTT caption tracks for multi-language playback.")
    ∷ ("directLink", "Direct Link")
    ∷ ("copyDirectLink", "Copy Direct Link")
    ∷ ("embedCode", "Embed Code")
    ∷ ("copyEmbedCode", "Copy Embed Code")
    ∷ ("selectNoResults", "No results found.")
    ∷ ("chartNoData", "No data yet.")
    ∷ ("srClose", "Close")
    ∷ ("srMore", "More")
    ∷ ("sidebarTitle", "Sidebar")
    ∷ ("sidebarDesc", "Displays the mobile sidebar.")
    ∷ ("srToggleSidebar", "Toggle Sidebar")
    ∷ ("colUploaded", "Uploaded")
    ∷ ("colName", "Name")
    ∷ ("colNameSurname", "Name & Surname")
    ∷ ("colEmail", "Email")
    ∷ ("colSlug", "Slug")
    ∷ ("colParent", "Parent")
    ∷ ("colRole", "Role")
    ∷ ("roleAdmin", "Administrator")
    ∷ ("roleEditor", "Editor")
    ∷ ("roleUploader", "Uploader")
    ∷ ("roleViewer", "Viewer")
    ∷ ("colCreated", "Created")
    ∷ ("colActions", "Actions")
    ∷ ("colEnabled", "Enabled")
    ∷ ("colCodec", "Codec")
    ∷ ("colHeight", "Height")
    ∷ ("colVideo", "Video")
    ∷ ("colAudio", "Audio")
    ∷ ("colFlavor", "Flavor")
    ∷ ("colNote", "Note")
    ∷ ("dashEmpty", "Nothing here yet")
    ∷ []
