-- ===== src/Playing.antt =====
-- web/app/(public)/play/page.tsx and web/app/(embed)/embed/page.tsx, the preview of
-- web/components/playback-preview.tsx and the links of web/components/embed-dialog.tsx. What the server says of
-- a video is its status, title, description and poster; how a text is read as a number above 0, in seconds,
-- is an argument.
pub mod Links
mod Tests
use Prim.Native.String
use Prim.Native.String.{String, ◌++◌}
use vidsilo.Base.{
  ℕ, suc, ◌-◌, Bool, true, false, not, Option, none, some, List, [], ◌∷◌, if◌then◌else◌, eqb, keep,
  is_blank, split_at, or_else, ◌==◌, truthy, Dict, lookup, insert,
}

unfoldable pub last_part : List String → Option String
last_part [] = none
last_part (w ∷ []) = some w
last_part (w ∷ v ∷ ws) = last_part (v ∷ ws)

-- `uuidFromPath`
unfoldable pub uuid_from_path : String → String
unfolding split_at last_part
uuid_from_path pathname =
    or_else (last_part (keep (λ w. not (is_blank w)) (split_at (λ c. eqb c 47) pathname))) ""

pub record PlayOptions : Type 0 where
  pub autoplay : Bool
  pub muted : Bool
  pub loop : Bool
  pub start_time : ℕ

abbrev is_set : Option String → Bool
is_set none = false
is_set (some s) = s == "1"

-- `opts`, of the parameters of the address.
unfoldable pub play_options : (String → Option ℕ) → Dict String → PlayOptions
unfolding lookup
play_options reads params = record {
  autoplay = is_set (lookup "autoplay" params);
  muted = is_set (lookup "muted" params);
  loop = is_set (lookup "loop" params);
  start_time = elim (lookup "t" params) [ none ↦ 0 | some s ↦ or_else (reads s) 0 ];
}

-- The fields of a `PlayInfo` that the pages read.
pub record PlayInfo : Type 0 where
  pub status : String
  pub title : String
  pub description : String
  pub poster : String

-- The state of a page: what the server said, and whether it failed.
pub record PlayPage : Type 0 where
  pub uuid : String
  pub info : Option PlayInfo
  pub error : Bool

-- The page for an address, and whether it asks the server.
unfoldable pub play_page : String → PlayPage × Bool
unfolding uuid_from_path
play_page pathname =
    let uuid = uuid_from_path pathname in
    (record { uuid = uuid; info = none; error = false }, not (uuid == ""))

-- The answer, or none where it fails.
unfoldable pub on_info : Option PlayInfo → PlayPage → PlayPage
on_info none p = record p { error = true }
on_info (some i) p = record p { info = some i }

pub data PlayView : Type 0 where
  missing_id unavailable waiting not_ready : PlayView
  playing : String → PlayView

-- What the play page renders.
unfoldable pub play_view : PlayPage → PlayView
play_view p = if p.error then unavailable else elim p.info [
  | none ↦ waiting
  | some i ↦ if not (i.status == "ready") then not_ready else playing p.uuid
]

-- What the embed page renders.
unfoldable pub embed_view : PlayPage → PlayView
unfolding play_view
embed_view p = if p.uuid == "" then missing_id else play_view p

-- The tags in the head of the document, by their property: `setMeta`.
unfoldable pub set_meta : String → String → Dict String → Dict String
unfolding insert
set_meta property content metas = insert property content metas

-- What the effect of the play page writes for a video with a title.
unfoldable pub write_metas : PlayInfo → Dict String → Dict String
unfolding set_meta
write_metas i metas =
    if i.title == ""
    then metas
    else let titled = set_meta "og:title" i.title metas in
      let described =
        if i.description == "" then titled else set_meta "og:description" i.description titled in
      let shown = if i.poster == "" then described else set_meta "og:image" i.poster described in
      set_meta "og:type" "video.other" shown

-- The title of the window, of the site's name where the configuration is there.
unfoldable pub window_title : PlayInfo → Option String → String
window_title i none = i.title ++ " | Vidsilo App"
window_title i (some site_name) =
    i.title ++ (" | " ++ (if site_name == "" then "Vidsilo" else site_name))

-- `preview`, after the answer to a click on the poster: the video where it is ready.
unfoldable pub on_preview : Option PlayInfo → Option PlayInfo → Option PlayInfo
on_preview none old = old
on_preview (some i) old = if i.status == "ready" then some i else none

-- The path of `directUrl`.
unfoldable pub embed_path : String → String
embed_path id = "/embed/" ++ id

-- `directUrl`
unfoldable pub direct_url : String → String → String
unfolding embed_path
direct_url origin id = origin ++ embed_path id

-- `snippet`
unfoldable pub snippet : String → String → String
unfolding direct_url
snippet origin id =
    "<iframe src=\""
    ++ (direct_url origin id
        ++ "\" width=\"640\" height=\"360\" frameborder=\"0\" allowfullscreen></iframe>")

-- Whether a button reads as copied, and the timers that will end that.
pub record Copied : Type 0 where
  pub is_shown : Bool
  pub timers : ℕ

-- A click on the button.
unfoldable pub copy : Copied → Copied
copy c = record { is_shown = true; timers = suc c.timers }

-- The end of a timer.
unfoldable pub on_copy_timer : Copied → Copied
on_copy_timer c = record { is_shown = false; timers = c.timers - 1 }
