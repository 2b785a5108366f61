-- ===== src/Translations/Messages/Shell.antt =====
-- web/lib/i18n.tsx: the English messages of the shell, the navigation and the login.
use vidsilo.Base.{String, Dict, [], ◌∷◌}

abbrev pub shell_messages : Dict String
shell_messages =
    ("appName", "Vidsilo")
    ∷ ("appTitle", "Vidsilo Admin")
    ∷ ("error", "Something went wrong")
    ∷ ("deleted", "Deleted")
    ∷ ("loading", "Loading…")
    ∷ ("save", "Save")
    ∷ ("saved", "Saved")
    ∷ ("cancel", "Cancel")
    ∷ ("close", "Close")
    ∷ ("reset", "Reset")
    ∷ ("delete", "Delete")
    ∷ ("create", "Create")
    ∷ ("edit", "Edit")
    ∷ ("none", "None")
    ∷ ("untitled", "(untitled)")
    ∷ ("navMedia", "Media")
    ∷ ("navDashboard", "Dashboard")
    ∷ ("navEntries", "Entries")
    ∷ ("navUpload", "Upload")
    ∷ ("navAdministration", "Administration")
    ∷ ("navUsers", "Users")
    ∷ ("navJobs", "Jobs")
    ∷ ("navAnalytics", "Analytics")
    ∷ ("navCategories", "Categories")
    ∷ ("navFlavors", "Flavors")
    ∷ ("navDomainAcls", "Domain ACL")
    ∷ ("navPlayers", "Players")
    ∷ ("navSettings", "Settings")
    ∷ ("navStorage", "Storage")
    ∷ ("colFiles", "Files")
    ∷ ("storageSubSource", "Source video")
    ∷ ("storageSubPoster", "Poster & sprite")
    ∷ ("storageSubFlavors", "Flavors")
    ∷ ("storageSubSubtitles", "Subtitles")
    ∷ ("storageSubOther", "Other")
    ∷ ("storageSystem", "System")
    ∷ ("storageSystemUploads", "Uploads (spools)")
    ∷ ("storageSystemLogs", "Logs")
    ∷ ("storageSystemCache", "Cache")
    ∷ ("storageEmpty", "No media files yet — uploads will appear here.")
    ∷ ("storageUsageLine", "{pct}% of {total} · {free} free")
    ∷ ("storageObjects", "{n} objects")
    ∷ ("navSignIn", "Sign in")
    ∷ ("langLabel", "Language")
    ∷ ("langEnglish", "English")
    ∷ ("signOut", "Sign out")
    ∷ ("signOutTitle", "Sign out?")
    ∷ ("signOutDesc", "You will be signed out of this session.")
    ∷ ("darkMode", "Dark mode")
    ∷ ("lightMode", "Light mode")
    ∷ ("themeSwitchToLight", "Switch to light mode")
    ∷ ("themeSwitchToDark", "Switch to dark mode")
    ∷ ("appearance", "Appearance")
    ∷ ("editUserTitle", "Edit user")
    ∷ ("editCategoryTitle", "Edit category")
    ∷ ("userUpdated", "User updated")
    ∷ ("categoryCreated", "Category created")
    ∷ ("categoryUpdated", "Category updated")
    ∷ ("flavorCreated", "Flavor created")
    ∷ ("flavorUpdated", "Flavor updated")
    ∷ ("changePassword", "Change password")
    ∷ ("changePasswordTitle", "Change password")
    ∷ ("changePasswordDesc", "Other signed-in sessions will be signed out.")
    ∷ ("currentPassword", "Current password")
    ∷ ("newPassword", "New password")
    ∷ ("confirmPassword", "Confirm new password")
    ∷ ("passwordKeep", "leave blank to keep the current password")
    ∷ ("passwordChanged", "Password updated")
    ∷ ("loginTitle", "Sign in to Vidsilo")
    ∷ ("loginPrompt", "Please sign in to continue.")
    ∷ ("loginEmail", "Email")
    ∷ ("loginUsername", "Username")
    ∷ ("loginPassword", "Password")
    ∷ ("loginButton", "Sign in")
    ∷ ("loginSigningIn", "Signing in…")
    ∷ ("loginFailed", "Sign in failed — try again.")
    ∷ []
