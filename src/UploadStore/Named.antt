-- ===== src/UploadStore/Named.antt =====
-- web/lib/upload-store.ts: the ids of the jobs in memory and in local storage.
use vidsilo.Base.{
  ℕ, suc, ◌<◌, ◌≡◌, sym, ◌∙◌, subst, ◌≢◌, Bool, List, [], ◌∷◌, ◌++◌, String, arith, All, keep,
}
use vidsilo.UploadStore.Job.{UploadJob}
use vidsilo.UploadStore.State.{Item, absent, corrupt, stored, interrupt, is_recent, load}
use vidsilo.UploadStore.{map_job}
use vidsilo.UploadStore.Ids.{
  ids, Distinct, KeepsId, ids-map, ids-map_job, interrupt-KeepsId, Distinct-keep, All-ids-keep,
  Distinct-append_one, All-ids-append_one,
}

-- `crypto.randomUUID` never gives one value twice.
abbrev pub NeverRepeats : (ℕ → String) → Type 0
NeverRepeats uuid = (m n : ℕ) → uuid m ≡ uuid n → m ≡ n

module _ (uuid : ℕ → String) where
  abbrev pub IsDrawn : ℕ → String → Type 0
  IsDrawn n i = (k : ℕ) × (k < n) × (i ≡ uuid k)

  pub record IsNamed (n : ℕ) (js : List UploadJob) : Type 0 where
    pub distinct : Distinct (ids js)
    pub are_drawn : All (IsDrawn n) (ids js)

  pub nil-IsNamed : (n : ℕ) → IsNamed n []
  nil-IsNamed n = record { distinct = tt; are_drawn = tt }

  pub keep-IsNamed :
      (n : ℕ) (p : UploadJob → Bool) (js : List UploadJob) → IsNamed n js → IsNamed n (keep p js)
  keep-IsNamed n p js h = record {
    distinct = Distinct-keep p js h.distinct;
    are_drawn = All-ids-keep (IsDrawn n) p js h.are_drawn;
  }

  pub same_ids-IsNamed :
      (n : ℕ) (js ks : List UploadJob) → ids ks ≡ ids js → IsNamed n js → IsNamed n ks
  same_ids-IsNamed n js ks e h = record {
    distinct = subst Distinct (sym e) h.distinct;
    are_drawn = subst (All (IsDrawn n)) (sym e) h.are_drawn;
  }

  pub map_job-IsNamed :
      (n : ℕ) (i : String) (f : UploadJob → UploadJob) (js : List UploadJob)
      → KeepsId f
      → IsNamed n js
      → IsNamed n (map_job i f js)
  map_job-IsNamed n i f js k h = same_ids-IsNamed n js _ (ids-map_job i f k js) h

  All-IsDrawn-suc : (n : ℕ) (is : List String) → All (IsDrawn n) is → All (IsDrawn (suc n)) is
  All-IsDrawn-suc n [] h = tt
  All-IsDrawn-suc n (i ∷ is) ((k, lt, e), h) = ((k, omega arith, e), All-IsDrawn-suc n is h)

  pub suc-IsNamed : (n : ℕ) (js : List UploadJob) → IsNamed n js → IsNamed (suc n) js
  suc-IsNamed n js h = record {
    distinct = h.distinct;
    are_drawn = All-IsDrawn-suc n (ids js) h.are_drawn;
  }

  fresh_ne :
      NeverRepeats uuid → (n : ℕ) (is : List String) → All (IsDrawn n) is → All (λ k. k ≢ uuid n) is
  fresh_ne u n [] h = tt
  fresh_ne u n (i ∷ is) ((k, lt, e), h) =
      ((λ e'. absurd (omega (arith, u k n (sym e ∙ e')))), fresh_ne u n is h)

  pub append_one-IsNamed :
      NeverRepeats uuid
      → (n : ℕ) (js : List UploadJob) (j : UploadJob) → j.id ≡ uuid n
      → IsNamed n js
      → IsNamed (suc n) (js ++ j ∷ [])
  append_one-IsNamed u n js j e h = record {
    distinct =
        Distinct-append_one js j h.distinct
          (subst (λ i. All (λ k. k ≢ i) (ids js)) (sym e) (fresh_ne u n (ids js) h.are_drawn));
    are_drawn =
        All-ids-append_one (IsDrawn (suc n)) js j (All-IsDrawn-suc n (ids js) h.are_drawn)
          (n, omega arith, e);
  }

  abbrev pub IsNamedItem : ℕ → Item (List UploadJob) → Type 0
  IsNamedItem n absent = Unit
  IsNamedItem n corrupt = Unit
  IsNamedItem n (stored js) = IsNamed n js

  pub suc-IsNamedItem :
      (n : ℕ) (it : Item (List UploadJob)) → IsNamedItem n it → IsNamedItem (suc n) it
  suc-IsNamedItem n absent h = tt
  suc-IsNamedItem n corrupt h = tt
  suc-IsNamedItem n (stored js) h = suc-IsNamed n js h

  pub load-IsNamed :
      (n now : ℕ) (it : Item (List UploadJob)) → IsNamedItem n it → IsNamed n (load now it)
  unfolding load
  load-IsNamed n now absent h = nil-IsNamed n
  load-IsNamed n now corrupt h = nil-IsNamed n
  load-IsNamed n now (stored js) h =
      keep-IsNamed n (is_recent now) _
        (same_ids-IsNamed n js _ (ids-map interrupt interrupt-KeepsId js) h)
