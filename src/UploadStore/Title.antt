-- ===== src/UploadStore/Title.antt =====
-- web/lib/upload-store.ts: the title that `defaultTitle` gives a new job.
use Prim.Native.Char.{code}
use Prim.Native.String
use Prim.Native.String.{String, [], ◌∷◌}
use text.Mathlib.TextLemmas.{nil-append, cons-append}
use vidsilo.Base.{◌≡◌, refl, ◌≢◌, true, false, arith, eqb_iff}
use vidsilo.UploadStore.Job.{no_dot, is_extension, default_title}

-- No character of the text is a dot.
abbrev pub HasNoDot : String → Type 0
HasNoDot [] = Unit
HasNoDot (c ∷ s) = (code c ≢ b'.') × HasNoDot s

no_dot_of_HasNoDot : (s : String) → HasNoDot s → no_dot s ≡ true
unfolding no_dot
no_dot_of_HasNoDot [] h = refl
no_dot_of_HasNoDot (c ∷ s) (n, h) = ground (arith, n, no_dot_of_HasNoDot s h, eqb_iff (code c) b'.')

is_extension_of_HasNoDot : (s : String) → s ≢ "" → HasNoDot s → is_extension s ≡ true
unfolding is_extension
is_extension_of_HasNoDot [] n h = absurd (n refl)
is_extension_of_HasNoDot (c ∷ s) n h = no_dot_of_HasNoDot (c ∷ s) h

-- A dot and an extension at the end of a text.
abbrev dotted : String → String → String
dotted s ext = String.◌++◌ s (String.◌++◌ "." ext)

no_dot-dotted : (s ext : String) → no_dot (dotted s ext) ≡ false
unfolding no_dot
no_dot-dotted [] ext = rw (nil-append, cons-append) refl
no_dot-dotted (c ∷ s) ext = rw cons-append (ground (arith, no_dot-dotted s ext))

is_extension-dotted : (s ext : String) → is_extension (dotted s ext) ≡ false
unfolding is_extension no_dot
is_extension-dotted [] ext = rw (nil-append, cons-append) refl
is_extension-dotted (c ∷ s) ext = rw cons-append (ground (arith, no_dot-dotted s ext))

-- The title of a file name is the name without its last extension, whatever stands before it,
-- dots included; the extension is not empty and has no dot.
pub default_title-append :
    (base ext : String)
    → ext ≢ ""
    → HasNoDot ext
    → default_title (String.◌++◌ base (String.◌++◌ "." ext)) ≡ base
unfolding default_title
default_title-append [] ext n h =
    rw (nil-append, cons-append, nil-append) (rw (is_extension_of_HasNoDot ext n h) refl)
default_title-append (c ∷ s) ext n h =
    rw cons-append (rw (is_extension-dotted s ext) (ground (arith, default_title-append s ext n h)))

-- A name without a dot is its own title.
default_title_of_HasNoDot : (s : String) → HasNoDot s → default_title s ≡ s
unfolding default_title
default_title_of_HasNoDot [] h = refl
default_title_of_HasNoDot (c ∷ s) (n, h) =
    ground (arith, n, default_title_of_HasNoDot s h, eqb_iff (code c) b'.')
