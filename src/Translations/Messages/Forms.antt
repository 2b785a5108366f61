-- ===== src/Translations/Messages/Forms.antt =====
-- web/lib/i18n.tsx: the English messages of the uploads, the users, the categories, the flavors and the ACLs.
use vidsilo.Base.{String, Dict, [], ◌∷◌}

abbrev pub form_messages : Dict String
form_messages =
    ("uploadDragDrop", "Drag & drop videos here")
    ∷ ("uploadOrClick", "or click to browse — up to {max}")
    ∷ ("uploadDone", "Upload complete")
    ∷ ("uploadFailed", "Upload failed: {error}")
    ∷ ("uploadStart", "Start upload")
    ∷ ("uploadDialogTitle", "Upload videos")
    ∷ ("uploadInProgressTitle", "Uploading…")
    ∷ ("uploadInProgressDesc", "Transfers keep running after you close this dialog.")
    ∷ ("uploadCancelAll", "Cancel All")
    ∷ ("uploadCancelAllTitle", "Cancel everything?")
    ∷ (
      "uploadCancelAllDesc",
      "All pending uploads and URL downloads will be stopped. Files already uploaded stay on the server; the rest are discarded.",
    )
    ∷ ("uploadTabComputer", "Upload from Computer")
    ∷ ("uploadTabUrl", "Download from URL")
    ∷ ("uploadUrlHint", "Paste video URLs, one per line, then Check URLs.")
    ∷ ("uploadUrlPlaceholder", "https://example.com/video.mp4\nhttps://cdn.example.org/clip.mov")
    ∷ ("uploadCheckUrls", "Check URLs")
    ∷ ("uploadUrlInvalid", "Some URLs were rejected — check the format and file type.")
    ∷ ("uploadDownloading", "Downloading…")
    ∷ ("uploadPleaseWait", "Please wait…")
    ∷ ("uploadStartDownloadN", "Start download {n} item{s}")
    ∷ ("uploadUrlRowHint", "Enter each URL on a new row.")
    ∷ ("uploadBackgroundNote", "You can close this dialog — downloads continue in the background.")
    ∷ ("uploadsInProgress", "{n} upload{s} in progress")
    ∷ ("uploadInterrupted", "paused — continues automatically when you start the upload")
    ∷ ("uploadStartN", "Upload {n} file{s}")
    ∷ ("uploadAddMore", "Add more")
    ∷ ("uploadFilesSelected", "{n} file{s} selected")
    ∷ ("uploadInProgress", "Uploading…")
    ∷ ("uploadAllComplete", "All uploads complete.")
    ∷ ("uploadBatchLimit", "You can upload up to {n} files at once.")
    ∷ ("uploadDuplicate", "The file you selected is already in the list.")
    ∷ ("uploadStopTitle", "Stop this upload?")
    ∷ (
      "uploadStopDesc",
      "The transfer stops and the partially uploaded file is discarded. The empty entry can be deleted from the Entries page.",
    )
    ∷ ("uploadStop", "Stop upload")
    ∷ ("uploadDiscardTitle", "Discard unstarted uploads?")
    ∷ (
      "uploadDiscardDesc",
      "Files that haven't started uploading/downloading will be discarded. Running transfers continue in the background.",
    )
    ∷ ("uploadDiscardConfirm", "Discard & Close")
    ∷ ("uploadDiscardCancel", "Keep Editing")
    ∷ ("usersTitle", "Users")
    ∷ ("usersSubtitle", "Roles: admin, editor, uploader, viewer")
    ∷ ("usersNew", "New user")
    ∷ ("statusActive", "Active")
    ∷ ("statusDisabled", "Disabled")
    ∷ ("newUserTitle", "New user")
    ∷ ("userCreated", "User created")
    ∷ ("deleteUserTitle", "Delete user?")
    ∷ ("deleteUserDesc", "This permanently removes the account for {email}.")
    ∷ ("categoriesTitle", "Categories")
    ∷ ("categoriesSubtitle", "Tree structure for organizing entries")
    ∷ ("newCategory", "New category")
    ∷ ("parentNone", "Parent (none)")
    ∷ ("deleteCategoryTitle", "Delete category?")
    ∷ ("deleteCategoryDesc", "Entries in this category will become uncategorized.")
    ∷ ("flavorsTitle", "Flavors")
    ∷ (
      "flavorsSubtitle",
      "Video quality presets — only enabled ones are produced; presets larger than the source are skipped",
    )
    ∷ ("flavorsNew", "New flavor")
    ∷ ("newFlavorTitle", "New flavor")
    ∷ ("editFlavorTitle", "Edit flavor")
    ∷ ("codecH264", "H.264")
    ∷ ("codecH265", "H.265 (HEVC)")
    ∷ ("videoMode", "Video mode")
    ∷ ("vmodeCrf", "CRF (quality)")
    ∷ ("vmodeBitrate", "Bitrate (kbps)")
    ∷ ("labelCrf", "CRF")
    ∷ ("labelBitrate", "Bitrate (kbps)")
    ∷ ("labelAudioBitrate", "Audio bitrate (kbps)")
    ∷ ("labelPreset", "Preset")
    ∷ ("saveFlavor", "Save flavor")
    ∷ ("flavorEnabled", "Flavor enabled")
    ∷ ("flavorDisabled", "Flavor disabled")
    ∷ ("deleteFlavorTitle", "Delete flavor?")
    ∷ ("deleteFlavorDesc", "This removes the quality preset. Existing output files are kept.")
    ∷ ("aclNew", "New domain ACL")
    ∷ ("aclEditTitle", "Edit domain ACL")
    ∷ ("aclCreated", "Domain ACL created")
    ∷ ("aclUpdated", "Domain ACL updated")
    ∷ ("aclDeleteTitle", "Delete domain ACL?")
    ∷ (
      "aclDeleteDesc",
      "Entries using this ACL fall back to \"Allow All\" (embeds allowed anywhere).",
    )
    ∷ ("aclColTitle", "Title")
    ∷ ("aclColWhitelist", "Whitelist")
    ∷ []
