-- ===== src/DomainAcls/Tests.antt =====
-- Domains typed into the form, and the theorem at a concrete input.
use vidsilo.Base.{
  ◌≡◌, refl, some, All, none, [], ◌∷◌, trim, trim_start, trim_end, split_at, join, is_space,
}
use vidsilo.Base.Words.{clean_words}
use vidsilo.DomainAcls.{
  split_domains, DomainAcl, AclForm, acl_form, acl_body, submit_acl, patch_acl,
}
use vidsilo.DomainAcls.Clean.{IsDomain, submit_acl-acl_form}

typing : Unit {0}
unfolding clean_words split_domains acl_form acl_body submit_acl trim trim_start trim_end split_at
    join is_space
typing = tt

typed_domains : split_domains " a.com, b.org\n\n,c.net " ≡ "a.com" ∷ "b.org" ∷ "c.net" ∷ []
unfolding typing
typed_domains = refl

abbrev acl : DomainAcl
acl = record {
  id = 7;
  title = "partners";
  whitelist = "a.com" ∷ "b.org" ∷ [];
  blocklist = "c.net" ∷ [];
}

abbrev typed_form : AclForm
typed_form = record { initial = none; title = "x"; whitelist = " a.com ,"; blocklist = "" }

a_com : IsDomain "a.com"
unfolding typing
a_com = record { trimmed = refl; there = refl; whole = refl }

b_org : IsDomain "b.org"
unfolding typing
b_org = record { trimmed = refl; there = refl; whole = refl }

c_net : IsDomain "c.net"
unfolding typing
c_net = record { trimmed = refl; there = refl; whole = refl }

submit_acl-acl_form_example :
    (All IsDomain (acl_body typed_form).whitelist × All IsDomain (acl_body typed_form).blocklist)
    × (submit_acl (acl_form (some acl))
        ≡ some (
            patch_acl 7 (record {
              title = "partners";
              whitelist = "a.com" ∷ "b.org" ∷ [];
              blocklist = "c.net" ∷ [];
            })))
unfolding typing
submit_acl-acl_form_example =
    submit_acl-acl_form typed_form acl refl (a_com, (b_org, tt)) (c_net, tt)
