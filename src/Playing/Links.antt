-- ===== src/Playing/Links.antt =====
-- web/components/embed-dialog.tsx with the pages that its links open.
use Prim.Native.String.{String, ◌++◌}
use text.Mathlib.TextLemmas.{nil-append, cons-append, append_assoc}
use vidsilo.Base.{
  ℕ, ◌≡◌, refl, sym, ap, ◌∙◌, Bool, true, false, not, some, [], ◌∷◌, eqb, if◌then◌else◌, keep,
  is_blank, split_at, or_else, ◌==◌, text_of_ne,
}
use vidsilo.Base.Words.{is_free, split_at_first, split_at_whole}
use vidsilo.Playing.{
  last_part, uuid_from_path, PlayInfo, play_page, on_info, playing, play_view, embed_view,
  embed_path,
}

abbrev pub is_slash : ℕ → Bool
is_slash c = eqb c 47

slash : (s : String) → "/" ++ s ≡ String.◌∷◌ "/" s
slash s = cons-append "/" "" s ∙ ap (λ s. String.◌∷◌ "/" s) (nil-append s)

-- A first part, and the rest after a slash.
split_slash :
    (w s : String)
    → is_free is_slash w ≡ true
    → split_at is_slash (w ++ ("/" ++ s)) ≡ w ∷ split_at is_slash s
split_slash w s h =
    ap (λ r. split_at is_slash (w ++ r)) (slash s) ∙ split_at_first is_slash w "/" s h refl

uuid_from_path_lem :
    (page id : String)
    → is_free is_slash page ≡ true
    → is_free is_slash id ≡ true
    → is_blank id ≡ false
    → uuid_from_path ("" ++ ("/" ++ (page ++ ("/" ++ id)))) ≡ id
unfolding uuid_from_path last_part
uuid_from_path_lem page id g h k =
    ap (λ ws. or_else (last_part (keep (λ w. not (is_blank w)) ws)) "")
      (split_slash "" (page ++ ("/" ++ id)) refl
        ∙ ap (λ ws. "" ∷ ws)
            (split_slash page id g ∙ ap (λ ws. page ∷ ws) (split_at_whole is_slash id h)))
    ∙ go (is_blank page)
  where
    go :
        (b : Bool)
        → or_else
            (last_part (
              if not b
              then page ∷ keep (λ w. not (is_blank w)) (id ∷ [])
              else keep (λ w. not (is_blank w)) (id ∷ [])))
            ""
          ≡ id
    go true = rw k refl
    go false = rw k refl

path_lem : (id : String) → "/embed/" ++ id ≡ "" ++ ("/" ++ ("embed" ++ ("/" ++ id)))
path_lem id =
    append_assoc "/embed" "/" id
    ∙ append_assoc "/" "embed" ("/" ++ id)
    ∙ sym (nil-append ("/" ++ ("embed" ++ ("/" ++ id))))

-- The link that the embed dialog gives for an entry opens the embed page of that entry: the page asks the
-- server for it, and plays it once the server says that it is ready. The entry's id is not empty and has
-- no slash.
pub embed_view-embed_path :
    (id : String) (i : PlayInfo)
    → is_blank id ≡ false
    → is_free is_slash id ≡ true
    → i.status ≡ "ready"
    → ((play_page (embed_path id)).1 ≡ true)
      × (embed_view (on_info (some i) (play_page (embed_path id)).0) ≡ playing id)
unfolding play_page embed_path on_info embed_view play_view
embed_view-embed_path id i k h r =
    let e : uuid_from_path ("/embed/" ++ id) ≡ id =
      ap uuid_from_path (path_lem id) ∙ uuid_from_path_lem "embed" id refl h k in
    let n : (id == "") ≡ false =
      text_of_ne id "" (λ q. ne_of_flags (sym (sym (ap is_blank q) ∙ k))) in
    rw (e, n, r) (refl, refl)
  where
    ne_of_flags : false ≡ true → ⊥
    ne_of_flags h = cc
