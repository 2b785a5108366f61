-- ===== src/UploadDialog/Removal.antt =====
-- web/components/upload-dialog.tsx: what the loops of `discardPending` leave.
use vidsilo.Base.{
  ◌≡◌, refl, sym, ap, ◌∙◌, inl, inr, Bool, true, false, not, ◌&&◌, List, [], ◌∷◌, String, arith,
  eq_iff, eq_refl, if◌then◌else◌, ◌==◌, Bool-cases, All, any, keep, keep_all,
}
use vidsilo.UploadStore.Job.{UploadJob, is_pending}
use vidsilo.UploadStore.State.{Store, persist, emit, idb_delete}
use vidsilo.UploadStore.{remove_job}
use vidsilo.UrlDownloads.Job.{UrlDownloadJob, is_queued}
use vidsilo.UrlDownloads.{Downloads, remove_url_download, persist_downloads, emit_downloads}
use vidsilo.UploadDialog.{remove_pending, remove_queued}

module _ {A : Type 0} (id : A → String) (p : A → Bool) where
  -- Some job of the list that passes the test has the id of `x`.
  abbrev hits : List A → A → Bool
  hits js x = any (λ k. p k && (id k == id x)) js

  hits_more :
      (js : List A) (k : A) (xs : List A)
      → All (λ x. p x ≡ true → hits js x ≡ true) xs
      → All (λ x. p x ≡ true → hits (k ∷ js) x ≡ true) xs
  hits_more js k [] h = tt
  hits_more js k (x ∷ xs) (h, hs) = (λ e. ground (arith, h e), hits_more js k xs hs)

  hits_self : (xs : List A) → All (λ x. p x ≡ true → hits xs x ≡ true) xs
  hits_self [] = tt
  hits_self (x ∷ xs) = (λ e. ground (arith, e, eq_refl (id x)), hits_more xs x xs (hits_self xs))

  any-keep_unhit :
      (js xs : List A)
      → All (λ x. p x ≡ true → hits js x ≡ true) xs
      → any p (keep (λ x. not (hits js x)) xs) ≡ false
  any-keep_unhit js [] h = refl
  any-keep_unhit js (x ∷ xs) (h, hs) = elim (Bool-cases (p x)) [
    | inl e ↦ rw (h e) (any-keep_unhit js xs hs)
    | inr e ↦ elim (Bool-cases (hits js x)) [
      | inl f ↦ rw f (any-keep_unhit js xs hs)
      | inr f ↦ rw (f, e) (any-keep_unhit js xs hs)
    ]
  ]

  -- Two rounds of filtering are one.
  hit_first :
      (k : A) (js xs : List A)
      → p k ≡ true
      → keep (λ x. not (hits js x)) (keep (λ x. not (id x == id k)) xs)
        ≡ keep (λ x. not (hits (k ∷ js) x)) xs
  hit_first k js [] e = refl
  hit_first k js (x ∷ xs) e =
      ground (arith, e, eq_iff (id x) (id k), eq_iff (id k) (id x), hit_first k js xs e)

  no_hit :
      (k : A) (js xs : List A)
      → p k ≡ false
      → keep (λ x. not (hits js x)) xs ≡ keep (λ x. not (hits (k ∷ js) x)) xs
  no_hit k js [] e = refl
  no_hit k js (x ∷ xs) e = ground (arith, e, no_hit k js xs e)

abbrev pub pending_hit : List UploadJob → UploadJob → Bool
pending_hit = hits (λ j. j.id) (λ j. is_pending j.status)

abbrev pub queued_hit : List UrlDownloadJob → UrlDownloadJob → Bool
queued_hit = hits (λ j. j.id) (λ j. is_queued j.status)

jobs-remove_job :
    (i : String) (s : Store) → (remove_job i s).jobs ≡ keep (λ j. not (j.id == i)) s.jobs
unfolding remove_job idb_delete persist emit
jobs-remove_job i s = ground arith

jobs-remove_url_download :
    (i : String) (s : Downloads)
    → (remove_url_download i s).jobs ≡ keep (λ j. not (j.id == i)) s.jobs
unfolding remove_url_download persist_downloads emit_downloads
jobs-remove_url_download i s = ground arith

pub jobs-remove_pending :
    (js : List UploadJob) (s : Store)
    → (remove_pending js s).jobs ≡ keep (λ j. not (pending_hit js j)) s.jobs
unfolding remove_pending
jobs-remove_pending [] s = sym (keep_all s.jobs)
jobs-remove_pending (k ∷ js) s =
    let after = λ (b : Bool). (remove_pending js (if b then remove_job k.id s else s)).jobs in
    elim (Bool-cases (is_pending k.status)) [
      | inl e ↦
          ap after e
          ∙ jobs-remove_pending js (remove_job k.id s)
          ∙ ap (keep (λ j. not (pending_hit js j))) (jobs-remove_job k.id s)
          ∙ hit_first (λ j. j.id) (λ j. is_pending j.status) k js s.jobs e
      | inr e ↦
          ap after e
          ∙ jobs-remove_pending js s
          ∙ no_hit (λ j. j.id) (λ j. is_pending j.status) k js s.jobs e
    ]

pub jobs-remove_queued :
    (js : List UrlDownloadJob) (s : Downloads)
    → (remove_queued js s).jobs ≡ keep (λ j. not (queued_hit js j)) s.jobs
unfolding remove_queued
jobs-remove_queued [] s = sym (keep_all s.jobs)
jobs-remove_queued (k ∷ js) s =
    let after =
      λ (b : Bool). (remove_queued js (if b then remove_url_download k.id s else s)).jobs in
    elim (Bool-cases (is_queued k.status)) [
      | inl e ↦
          ap after e
          ∙ jobs-remove_queued js (remove_url_download k.id s)
          ∙ ap (keep (λ j. not (queued_hit js j))) (jobs-remove_url_download k.id s)
          ∙ hit_first (λ j. j.id) (λ j. is_queued j.status) k js s.jobs e
      | inr e ↦
          ap after e
          ∙ jobs-remove_queued js s
          ∙ no_hit (λ j. j.id) (λ j. is_queued j.status) k js s.jobs e
    ]

pub none_pending :
    (s : Store) → any (λ j. is_pending j.status) (remove_pending s.jobs s).jobs ≡ false
none_pending s =
    ap (any (λ j. is_pending j.status)) (jobs-remove_pending s.jobs s)
    ∙ any-keep_unhit (λ j. j.id) (λ j. is_pending j.status) s.jobs s.jobs
        (hits_self (λ j. j.id) (λ j. is_pending j.status) s.jobs)

pub none_queued :
    (s : Downloads) → any (λ j. is_queued j.status) (remove_queued s.jobs s).jobs ≡ false
none_queued s =
    ap (any (λ j. is_queued j.status)) (jobs-remove_queued s.jobs s)
    ∙ any-keep_unhit (λ j. j.id) (λ j. is_queued j.status) s.jobs s.jobs
        (hits_self (λ j. j.id) (λ j. is_queued j.status) s.jobs)
