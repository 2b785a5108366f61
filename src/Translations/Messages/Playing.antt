-- ===== src/Translations/Messages/Playing.antt =====
-- web/lib/i18n.tsx: the English messages of the players, the settings and the public pages.
use vidsilo.Base.{String, Dict, [], ◌∷◌}

abbrev pub playing_messages : Dict String
playing_messages =
    ("playersNew", "New player")
    ∷ ("playersName", "Name")
    ∷ ("playersNamePlaceholder", "e.g. Branded")
    ∷ ("playersDesign", "Design")
    ∷ ("playersActions", "Actions")
    ∷ ("playersDefault", "Default")
    ∷ ("playersEmpty", "No players yet — create one to customize the player look.")
    ∷ ("playersDeleteTitle", "Delete {name}?")
    ∷ ("playersDeleteDesc", "Entries using this design fall back to the Default player.")
    ∷ ("playersEditTitle", "Edit {name}")
    ∷ ("playersAccent", "Accent color")
    ∷ ("playersLogo", "Logo")
    ∷ ("playersLogoUrl", "Logo URL")
    ∷ ("playersLogoHref", "Logo link")
    ∷ ("playersLogoPosition", "Position")
    ∷ ("playersLogoSize", "Size (px)")
    ∷ ("playersLogoOpacity", "Opacity")
    ∷ ("playersLoader", "Loading spinner")
    ∷ ("playersLoaderHint", "Show a spinner while the video is buffering.")
    ∷ ("playersAutoHide", "Auto-hide controls")
    ∷ ("playersAutoHideHint", "Hide the control bar until hover.")
    ∷ ("playersLogoShort", "logo")
    ∷ ("playersNoLoaderShort", "no loader")
    ∷ ("playersSelectLabel", "Player design")
    ∷ ("playersSelectHint", "Which player design this entry uses.")
    ∷ ("chgPlayer", "Player")
    ∷ ("aclColBlocklist", "Blocklist")
    ∷ ("aclDomainsPlaceholder", "example.com\nsub.example.org")
    ∷ ("aclEmpty", "No domain ACLs yet — create one to restrict where entries can be embedded.")
    ∷ ("settingsRestart", "Restart required")
    ∷ (
      "settingsRestartDesc",
      "Changes to {keys} take effect after the server restarts (Docker: docker compose restart app).",
    )
    ∷ ("settingsSaved", "Settings saved")
    ∷ ("gGeneral", "General")
    ∷ ("gGeneralDesc", "Site identity and upload rules")
    ∷ ("gStorage", "Storage")
    ∷ ("gStorageDesc", "S3 read-through cache settings")
    ∷ ("gTranscoding", "Transcoding")
    ∷ ("gTranscodingDesc", "Pipeline tuning — applies to newly processed entries")
    ∷ ("gAnalytics", "Analytics")
    ∷ ("gAnalyticsDesc", "Beacon collection and retention")
    ∷ ("settingsSave", "Save {group}")
    ∷ ("playerError", "Playback failed — try again later.")
    ∷ ("playerPlay", "Play")
    ∷ ("playerPause", "Pause")
    ∷ ("playerMute", "Mute")
    ∷ ("playerUnmute", "Unmute")
    ∷ ("playerFullscreen", "Fullscreen")
    ∷ ("playerExitFullscreen", "Exit fullscreen")
    ∷ ("playerSpeed", "Speed")
    ∷ ("playerPictureInPicture", "Picture in picture")
    ∷ ("playerAuto", "Auto")
    ∷ ("playerSeek", "Seek")
    ∷ ("playerVolume", "Volume")
    ∷ ("playerQuality", "Quality")
    ∷ ("playerOff", "Off")
    ∷ ("playerVideoStatus", "This video isn't ready to watch yet — check back shortly.")
    ∷ ("playerMissingId", "Missing entry id in URL")
    ∷ ("videoUnavailable", "Video is unavailable.")
    ∷ ("previewUnavailable", "Preview Not Available")
    ∷ ("libraryTitle", "Library")
    ∷ ("librarySearchPlaceholder", "Search videos…")
    ∷ ("libraryAllCategories", "All categories")
    ∷ ("libraryEmpty", "No public videos yet — check back soon.")
    ∷ ("libraryNoResults", "No videos match your search — try different keywords or categories.")
    ∷ ("libraryError", "Could not load the library — try again later.")
    ∷ ("libraryResults", "{total} video{s} found")
    ∷ ("librarySortLabel", "Sort videos")
    ∷ ("librarySortNewest", "Newest")
    ∷ ("librarySortOldest", "Oldest")
    ∷ ("librarySortTitle", "Title")
    ∷ ("librarySortDuration", "Longest")
    ∷ ("libraryLoadMore", "Load more")
    ∷ ("libraryLoginTitle", "Viewer sign in")
    ∷ ("libraryLoginDesc", "Sign in to browse the library.")
    ∷ ("librarySignOut", "Sign out")
    ∷ ("libraryBackToLibrary", "Back to library")
    ∷ ("navViewers", "Viewers")
    ∷ ("viewerNew", "New viewer")
    ∷ ("viewerEditTitle", "Edit viewer")
    ∷ ("viewerDeleteTitle", "Delete viewer?")
    ∷ ("viewerDeleteDesc", "The viewer can no longer sign in. Their sessions are revoked.")
    ∷ ("viewerCreated", "Viewer created")
    ∷ ("viewerUpdated", "Viewer updated")
    ∷ ("viewerNameSurname", "Name & surname")
    ∷ ("viewerPassword", "Password")
    ∷ ("viewerPasswordHint", "leave blank to keep the current password")
    ∷ ("viewerActive", "Active")
    ∷ ("viewerDisabled", "Disabled")
    ∷ ("viewerColEmail", "Email")
    ∷ ("viewerColName", "Name")
    ∷ ("viewerColStatus", "Status")
    ∷ ("viewerColCreated", "Created")
    ∷ ("viewerEmpty", "No viewers yet — create one to let people sign in to the library.")
    ∷ ("sumTotalCategories", "Total categories")
    ∷ ("sumRootCategories", "Root categories")
    ∷ ("sumSubcategories", "Subcategories")
    ∷ ("sumTotalUsers", "Total users")
    ∷ ("sumActiveUsers", "Active users")
    ∷ ("sumDisabledUsers", "Disabled users")
    ∷ ("sumTotalFlavors", "Total flavors")
    ∷ ("sumEnabledFlavors", "Enabled flavors")
    ∷ ("sumTotalAcls", "Total ACLs")
    ∷ ("sumTotalPlayers", "Total players")
    ∷ ("sumDefaultPlayer", "Default player")
    ∷ []
