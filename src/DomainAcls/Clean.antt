-- ===== src/DomainAcls/Clean.antt =====
-- web/app/admin/domain-acls/page.tsx: what the form sends, and editing an ACL without a change.
use Prim.Native.String
use text.Mathlib.TextLemmas.{nil-append, cons-append}
use vidsilo.Base.{
  ◌≡◌, refl, ap, ◌∙◌, false, some, List, [], ◌∷◌, String, All, is_blank, trim, split_at, join,
  trim_start, trim_end,
}
use vidsilo.DomainAcls.{
  is_separator, split_domains, DomainAcl, AclForm, acl_form, patch_acl, acl_body, submit_acl,
}
use vidsilo.Base.Words.{
  split_at-All-is_free, split_at_whole, split_at_first, IsWord, clean_words, clean_words-All-IsWord,
  clean_words_whole,
}

-- A domain as it is stored: trimmed, not empty, with no comma or new line in it.
abbrev pub IsDomain : String → Type 0
IsDomain d = IsWord is_separator d

split_domains-All-IsDomain : (v : String) → All IsDomain (split_domains v)
unfolding split_domains
split_domains-All-IsDomain v =
    clean_words-All-IsWord is_separator (split_at is_separator v)
      (split_at-All-is_free is_separator v)

one_line : (s : String) → String.◌++◌ "\n" s ≡ String.◌∷◌ "\n" s
one_line s = cons-append "\n" String.[] s ∙ ap (String.◌∷◌ "\n") (nil-append s)

split_at-join :
    (d : String) (ds : List String)
    → All IsDomain (d ∷ ds)
    → split_at is_separator (join "\n" (d ∷ ds)) ≡ d ∷ ds
unfolding join
split_at-join d [] (h, hs) = split_at_whole is_separator d h.whole
split_at-join d (e ∷ ds) (h, hs) =
    ap (λ l. split_at is_separator (String.◌++◌ d l)) (one_line (join "\n" (e ∷ ds)))
    ∙ split_at_first is_separator d "\n" (join "\n" (e ∷ ds)) h.whole refl
    ∙ ap (λ l. d ∷ l) (split_at-join e ds hs)

split_domains-join : (ds : List String) → All IsDomain ds → split_domains (join "\n" ds) ≡ ds
unfolding split_domains clean_words join split_at trim trim_start trim_end
split_domains-join [] h = refl
split_domains-join (d ∷ ds) h =
    ap clean_words (split_at-join d ds h) ∙ clean_words_whole is_separator (d ∷ ds) h

-- What is sent has clean domains only, whatever was typed; and an ACL with a title and clean
-- domains that is opened and saved with no change is sent as it is.
pub submit_acl-acl_form :
    (f : AclForm) (a : DomainAcl)
    → is_blank (trim a.title) ≡ false
    → All IsDomain a.whitelist
    → All IsDomain a.blocklist
    → (All IsDomain (acl_body f).whitelist × All IsDomain (acl_body f).blocklist)
      × (submit_acl (acl_form (some a))
          ≡ some (
              patch_acl a.id
                (record { title = a.title; whitelist = a.whitelist; blocklist = a.blocklist })))
unfolding acl_body submit_acl acl_form
submit_acl-acl_form f a t w b = (
  (split_domains-All-IsDomain f.whitelist, split_domains-All-IsDomain f.blocklist),
  rw (submit_acl, t, split_domains-join a.whitelist w, split_domains-join a.blocklist b) refl,
)
