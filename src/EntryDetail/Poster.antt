-- ===== src/EntryDetail/Poster.antt =====
-- web/components/entry-detail-dialog.tsx: the picker of a poster frame, and where the frame lies in the sprite,
-- a picture of ten frames in a row.
use vidsilo.Base.{
  ℕ, ◌+◌, ◌-◌, ◌/◌, ◌%◌, ◌≤◌, ◌<◌, max, ◌≡◌, Bool, true, List, [], ◌∷◌, arith, ltb, All,
}
use vidsilo.EntryDetail.{
  EntryDetail, Form, fill, FormEdit, title, description, category, acl, player, visibility, access,
  flavor, poster, reset, tick, choose_poster, edit_form, edit_all,
}

unfoldable pub cols : ℕ
cols = 10

-- `Math.max(1, Math.ceil(frames / cols))`
unfoldable pub rows : ℕ → ℕ
unfolding cols
rows frames = max 1 ((frames + (cols - 1)) / cols)

-- A share of the whole: hundredths are left out, and a whole of 0 stands for a step of 0.
pub record Share : Type 0 where
  pub part : ℕ
  pub whole : ℕ

-- `backgroundPosition`, the column and the row: `(frame % cols) * (100 / (cols - 1))` and
-- `Math.floor(frame / cols) * rowStep`.
unfoldable pub position : ℕ → ℕ → Share × Share
unfolding cols rows
position frames frame = (
  record { part = frame % cols; whole = cols - 1 },
  record { part = frame / cols; whole = rows frames - 1 },
)

-- The range input gives frames of the sprite only.
abbrev pub is_offered : EntryDetail → FormEdit → Bool
is_offered e (poster n) = ltb n e.sprite_frames
is_offered e _ = true

-- The part is at most the whole.
abbrev pub IsWithin : Share → Type 0
IsWithin s = s.part ≤ s.whole

rows_lem : (frames frame : ℕ) → frame < frames → frame / 10 ≤ rows frames - 1
unfolding rows cols
rows_lem frames frame h = omega arith

fill_offered : (e : EntryDetail) → 0 < e.sprite_frames → (fill e).poster_frame < e.sprite_frames
unfolding fill
fill_offered e h = ground (arith, h)

edit_form_offered :
    (e : EntryDetail) (x : FormEdit) (d : Form)
    → 0 < e.sprite_frames
    → is_offered e x ≡ true
    → d.poster_frame < e.sprite_frames
    → (edit_form e x d).poster_frame < e.sprite_frames
unfolding edit_form tick choose_poster
edit_form_offered e (title v) d z o h = h
edit_form_offered e (description v) d z o h = h
edit_form_offered e (category v) d z o h = h
edit_form_offered e (acl v) d z o h = h
edit_form_offered e (player v) d z o h = h
edit_form_offered e (visibility v) d z o h = h
edit_form_offered e (access v) d z o h = h
edit_form_offered e (flavor id v) d z o h = h
edit_form_offered e (poster n) d z o h = ground (arith, o)
edit_form_offered e reset d z o h = fill_offered e z

edit_all_offered :
    (e : EntryDetail) (xs : List FormEdit) (d : Form)
    → 0 < e.sprite_frames
    → All (λ x. is_offered e x ≡ true) xs
    → d.poster_frame < e.sprite_frames
    → (edit_all e xs d).poster_frame < e.sprite_frames
unfolding edit_all
edit_all_offered e [] d z o h = h
edit_all_offered e (x ∷ xs) d z (o, os) h =
    edit_all_offered e xs (edit_form e x d) z os (edit_form_offered e x d z o h)

-- Of an entry that has a sprite, whatever was edited since the form was filled, the poster frame is one
-- of the sprite's, and the picker shows a column and a row of the sprite; the range input gives frames
-- of the sprite only.
position-edit_all :
    (e : EntryDetail) (xs : List FormEdit)
    → 0 < e.sprite_frames
    → All (λ x. is_offered e x ≡ true) xs
    → ((edit_all e xs (fill e)).poster_frame < e.sprite_frames)
      × IsWithin (position e.sprite_frames (edit_all e xs (fill e)).poster_frame).0
      × IsWithin (position e.sprite_frames (edit_all e xs (fill e)).poster_frame).1
unfolding position cols
position-edit_all e xs z o =
    let n = (edit_all e xs (fill e)).poster_frame in
    let h : n < e.sprite_frames = edit_all_offered e xs (fill e) z o (fill_offered e z) in
    (h, omega arith, rows_lem e.sprite_frames n h)
