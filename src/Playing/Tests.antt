-- ===== src/Playing/Tests.antt =====
-- Addresses of videos, and the theorem at a concrete input.
use vidsilo.Base.{ℕ, ◌≡◌, refl, true, false, some, [], ◌∷◌, String, Option}
use vidsilo.Playing.{
  last_part, uuid_from_path, play_options, PlayInfo, play_page, on_info, missing_id, not_ready,
  playing, play_view, embed_view, set_meta, write_metas, window_title, on_preview, embed_path,
  direct_url, snippet, copy, on_copy_timer,
}
use vidsilo.Playing.Links.{embed_view-embed_path}

links : Unit {0}
unfolding last_part uuid_from_path play_options play_page on_info play_view embed_view set_meta
    write_metas window_title on_preview embed_path direct_url snippet copy on_copy_timer
links = tt

abbrev trailer : PlayInfo
trailer = record { status = "ready"; title = "Trailer"; description = ""; poster = "p.jpg" }

abbrev reads_ninety : String → Option ℕ
reads_ninety s = some 90

no_id : embed_view (play_page "/").0 ≡ missing_id
unfolding links
no_id = refl

in_work :
    play_view (on_info (some (record trailer { status = "transcoding" })) (play_page "/play/a-1").0)
    ≡ not_ready
unfolding links
in_work = refl

start_taken :
    (play_options reads_ninety (("t", "90") ∷ ("muted", "1") ∷ ("loop", "yes") ∷ [])).start_time
    ≡ 90
unfolding links
start_taken = refl

card :
    write_metas trailer (("og:title", "old") ∷ [])
    ≡ ("og:title", "Trailer") ∷ ("og:image", "p.jpg") ∷ ("og:type", "video.other") ∷ []
unfolding links
card = refl

embedded :
    snippet "https://v.org" "a"
    ≡ "<iframe src=\"https://v.org/embed/a\" width=\"640\" height=\"360\" frameborder=\"0\" allowfullscreen></iframe>"
unfolding links
embedded = refl

-- The timer of the first click ends what the second one shows.
second_click_cut :
    (on_copy_timer (copy (copy (record { is_shown = false; timers = 0 })))).is_shown ≡ false
unfolding links
second_click_cut = refl

embed_view-embed_path_example :
    ((play_page (embed_path "a-1")).1 ≡ true)
    × (embed_view (on_info (some trailer) (play_page (embed_path "a-1")).0) ≡ playing "a-1")
embed_view-embed_path_example = embed_view-embed_path "a-1" trailer refl refl refl
