-- ===== src/Translations/Messages/Entries.antt =====
-- web/lib/i18n.tsx: the English messages of the list of entries and one entry.
use vidsilo.Base.{String, Dict, [], ◌∷◌}

abbrev pub entry_messages : Dict String
entry_messages =
    ("entriesSearch", "Search title or description…")
    ∷ ("entriesAllStatuses", "All statuses")
    ∷ ("entriesAllCategories", "All categories")
    ∷ ("entriesDeleteN", "Delete ({n})")
    ∷ ("entriesReprocessN", "Reprocess ({n})")
    ∷ ("entriesReprocessTitle", "Reprocess {n} entries?")
    ∷ ("entriesReprocessDesc", "The processing pipeline will re-run for the selected entries.")
    ∷ ("entriesReprocessed", "Reprocessing {n} entries")
    ∷ ("entriesEmpty", "No entries match your filters.")
    ∷ ("entriesNoneTitle", "No entries yet")
    ∷ ("entriesCount", "{total} entries · page {page} of {pages}")
    ∷ ("entriesPrev", "Prev")
    ∷ ("entriesNext", "Next")
    ∷ ("entriesDeleteTitle", "Delete {n} entries?")
    ∷ ("entriesDeleted", "Deleted {n} entries")
    ∷ (
      "entriesDeleteDesc",
      "This permanently removes the entries and their media from storage. This cannot be undone.",
    )
    ∷ ("entryMetaLine", "{category} · {duration} · {size} · uploaded {date}{by}")
    ∷ ("entryWatch", "Watch")
    ∷ ("entryReprocess", "Reprocess")
    ∷ ("reprocessTitle", "Reprocess this entry?")
    ∷ (
      "reprocessDesc",
      "Probing and transcoding will re-run with the current flavor selection. Existing media is replaced.",
    )
    ∷ ("reprocessQueued", "Reprocessing queued — entry status will update shortly.")
    ∷ ("entryDeleteTitle", "Delete this entry?")
    ∷ (
      "entryDeleteDesc",
      "The entry and all its media (original file, quality presets, posters, analytics) will be permanently removed.",
    )
    ∷ ("reprocessHint", "Re-runs probing and transcoding with the currently ticked flavors.")
    ∷ ("tabMetadata", "Metadata")
    ∷ ("tabFlavors", "Flavors")
    ∷ ("tabPoster", "Poster")
    ∷ ("tabSubtitles", "Subtitles")
    ∷ ("tabPlayback", "Playback")
    ∷ ("tabAnalytics", "Analytics")
    ∷ ("labelTitle", "Title")
    ∷ ("labelCategory", "Category")
    ∷ ("labelDescription", "Description")
    ∷ ("labelPublic", "Public (browseable without sign-in)")
    ∷ ("labelTick", "Tick")
    ∷ ("labelLang", "Lang")
    ∷ ("labelSubtitleLabel", "Label")
    ∷ ("labelFrame", "Frame {n}")
    ∷ ("notTicked", "not ticked")
    ∷ (
      "noSprite",
      "No preview frames yet — they're generated during processing. Reprocess the entry if it is ready and this stays empty.",
    )
    ∷ (
      "posterScrubHint",
      "Scrub through video frames to pick a custom thumbnail poster — the footer Save applies it.",
    )
    ∷ ("chgPoster", "Poster")
    ∷ ("chgPosterFrame", "frame {n}")
    ∷ ("noSubtitles", "No subtitles")
    ∷ ("uploadVtt", "Upload .vtt")
    ∷ ("subtitleUploaded", "Subtitle uploaded")
    ∷ ("deleteSubtitleTitle", "Delete subtitle?")
    ∷ ("deleteSubtitleDesc", "This removes the subtitle track from the entry.")
    ∷ ("labelEmbedPolicy", "Embed security")
    ∷ ("allowAll", "Allow All")
    ∷ ("embedSnippet", "Embed snippet")
    ∷ ("copy", "Copy")
    ∷ ("copied", "Copied")
    ∷ ("flavorsLockedHint", "During processing, flavors cannot be changed.")
    ∷ ("unsavedChanges", "Unsaved changes")
    ∷ ("changesTitle", "Review changes")
    ∷ ("changesDesc", "These changes will be saved:")
    ∷ ("chgTitle", "Title")
    ∷ ("chgDesc", "Description")
    ∷ ("chgCategory", "Category")
    ∷ ("chgVisibility", "Visibility")
    ∷ ("chgAcl", "Embed security")
    ∷ ("chgFlavors", "Flavors")
    ∷ ("chgAccess", "Access")
    ∷ ("visibilityPublic", "public")
    ∷ ("visibilityPrivate", "private")
    ∷ ("colVisibility", "Visibility")
    ∷ ("accessAllowed", "Allowed")
    ∷ ("accessDenied", "Denied")
    ∷ ("labelDenyAccess", "Deny access")
    ∷ (
      "denyAccessHint",
      "Hide the video from all viewers without deleting it. Editors and admins can still manage it.",
    )
    ∷ ("statPlays", "Plays")
    ∷ ("statViewers", "Unique viewers")
    ∷ ("statWatchTime", "Watch time")
    ∷ ("statBandwidth", "Bandwidth")
    ∷ ("chartPlays", "Plays per day")
    ∷ ("chartWatch", "Watch minutes per day")
    ∷ ("chartBandwidth", "Bandwidth (GB) per day")
    ∷ ("noData", "No data yet.")
    ∷ ("entryNotFound", "No entry selected.")
    ∷ []
