-- ===== src/DomainAcls.antt =====
-- web/app/admin/domain-acls/page.tsx: the lists of domains and the form of one ACL.
pub mod Clean
mod Tests
use vidsilo.Base.{
  ℕ, Bool, true, false, not, ◌||◌, Option, none, some, List, [], ◌∷◌, map, String, if◌then◌else◌,
  eqb, keep, is_blank, trim, split_at, join,
}
use vidsilo.Base.Words.{clean_words}

-- A new line or a comma.
abbrev pub is_separator : ℕ → Bool
is_separator c = eqb c 10 || eqb c 44

unfoldable pub split_domains : String → List String
unfolding clean_words
split_domains v = clean_words (split_at is_separator v)

pub record DomainAcl : Type 0 where
  pub id : ℕ
  pub title : String
  pub whitelist : List String
  pub blocklist : List String

-- The texts of the three inputs, and the ACL that is edited.
pub record AclForm : Type 0 where
  pub initial : Option DomainAcl
  pub title : String
  pub whitelist : String
  pub blocklist : String

unfoldable pub acl_form : Option DomainAcl → AclForm
acl_form none = record { initial = none; title = ""; whitelist = ""; blocklist = "" }
acl_form (some a) = record {
  initial = some a;
  title = a.title;
  whitelist = join "\n" a.whitelist;
  blocklist = join "\n" a.blocklist;
}

pub record AclBody : Type 0 where
  pub title : String
  pub whitelist : List String
  pub blocklist : List String

pub data AclRequest : Type 0 where
  post_acl : AclBody → AclRequest
  patch_acl : (id : ℕ) → AclBody → AclRequest

unfoldable pub acl_body : AclForm → AclBody
unfolding split_domains
acl_body f = record {
  title = f.title;
  whitelist = split_domains f.whitelist;
  blocklist = split_domains f.blocklist;
}

abbrev pub save_acl : Option DomainAcl → AclBody → AclRequest
save_acl none b = post_acl b
save_acl (some a) b = patch_acl a.id b

unfoldable pub submit_acl : AclForm → Option AclRequest
unfolding acl_body
submit_acl f = if is_blank (trim f.title) then none else some (save_acl f.initial (acl_body f))
