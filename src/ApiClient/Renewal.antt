-- ===== src/ApiClient/Renewal.antt =====
-- web/lib/api.ts: the renewal of the session.
use vidsilo.Base.{
  ℕ, ◌+◌, ◌≡◌, ◌≤◌, refl, subst, inl, inr, Bool, true, false, not, ◌&&◌, Option, none, some, List,
  [], ◌∷◌, map, String, arith, if◌then◌else◌, eqb, Bool-cases, All, All-append, any, count,
  count-append,
}
use vidsilo.ApiClient.{
  Response, Stage, requesting, renewing, settled, Call, Client, RequestInit, is_exempt, try_refresh,
  call_api, needs_renewal, receive, on_response, resume_call, on_refreshed, ApiEvent, called,
  responded, refreshed, handle_api, run_api,
}

-- The call is past its first request.
abbrev pub is_past_first : Stage → Bool
is_past_first (requesting retried) = retried
is_past_first (renewing r) = true
is_past_first (settled o) = true

abbrev pub is_settled : Stage → Bool
is_settled (settled o) = true
is_settled _ = false

-- A call awaits a renewal only while one is in flight, and after a 401; and a call for the login or
-- for the renewal itself neither awaits one nor is sent twice.
abbrev pub is_fit : Bool → Bool → Stage → Bool
is_fit refreshing exempt (requesting retried) = not (retried && exempt)
is_fit refreshing exempt (renewing r) = refreshing && not exempt && eqb r.status 401
is_fit refreshing exempt (settled o) = true

abbrev pub AllFit : Bool → List Call → Type 0
AllFit b ks = All (λ k. is_fit b (is_exempt k.path) k.stage ≡ true) ks

abbrev past_first : List Call → ℕ
past_first ks = count (λ k. is_past_first k.stage) ks

pub record Orderly (c : Client) : Type 0 where
  pub fit : AllFit c.refreshing c.calls
  pub bounded : c.renewals ≤ past_first c.calls

-- The list after an answer.
abbrev pub received : ℕ → Option Response → List Call → List Call
received n answer ks = map (λ k. if eqb k.number n then receive answer k else k) ks

abbrev pub renews : ℕ → Option Response → List Call → Bool
renews n answer ks = any (λ k. eqb k.number n && needs_renewal answer k) ks

fit_of :
    (b t e : Bool) (s : Stage) → (b ≡ true → t ≡ true) → is_fit b e s ≡ true → is_fit t e s ≡ true
fit_of b t e s g h = ground (arith, g, h)

receive-is_fit :
    (b t : Bool) (answer : Option Response) (k : Call)
    → (b ≡ true → t ≡ true)
    → (needs_renewal answer k ≡ true → t ≡ true)
    → is_fit b (is_exempt k.path) k.stage ≡ true
    → is_fit t (is_exempt (receive answer k).path) (receive answer k).stage ≡ true
unfolding receive needs_renewal
receive-is_fit b t none k g f h = ground (arith, g, h)
receive-is_fit b t (some r) k g f h = ground (arith, g, f, h)

received-AllFit :
    (b t : Bool) (n : ℕ) (answer : Option Response) (ks : List Call)
    → (b ≡ true → t ≡ true)
    → (renews n answer ks ≡ true → t ≡ true)
    → AllFit b ks
    → AllFit t (received n answer ks)
received-AllFit b t n answer [] g f h = tt
received-AllFit b t n answer (k ∷ ks) g f (h, hs) = (
  elim (Bool-cases (eqb k.number n)) [
    | inl e ↦ rw e (receive-is_fit b t answer k g (λ d. f (ground (arith, e, d))) h)
    | inr e ↦ rw e (fit_of b t (is_exempt k.path) k.stage g h)
  ],
  received-AllFit b t n answer ks g (λ d. f (ground (arith, d))) hs,
)

receive-is_past_first :
    (answer : Option Response) (k : Call)
    → ((is_past_first k.stage ≡ true) → is_past_first (receive answer k).stage ≡ true)
      × ((needs_renewal answer k ≡ true)
          → (is_past_first k.stage ≡ false) × (is_past_first (receive answer k).stage ≡ true))
unfolding receive needs_renewal
receive-is_past_first none k = ground arith
receive-is_past_first (some r) k = ground arith

past_first-received :
    (n : ℕ) (answer : Option Response) (ks : List Call)
    → past_first ks + (if renews n answer ks then 1 else 0) ≤ past_first (received n answer ks)
past_first-received n answer [] = omega arith
past_first-received n answer (k ∷ ks) =
    ground (arith, receive-is_past_first answer k, past_first-received n answer ks)

pub on_response-Orderly :
    (n : ℕ) (answer : Option Response) (c : Client) → Orderly c → Orderly (on_response n answer c)
unfolding on_response try_refresh
on_response-Orderly n answer c h = elim (Bool-cases (renews n answer c.calls)) [
  | inr e ↦
      rw (e, on_response)
        (record {
          fit = received-AllFit c.refreshing c.refreshing n answer c.calls (λ r. r) (λ d. cc) h.fit;
          bounded = ground (arith, h.bounded, past_first-received n answer c.calls, e);
        })
  | inl e ↦ elim (Bool-cases c.refreshing) [
    | inl r ↦
        rw (e, on_response, r, try_refresh)
          (record {
            fit =
                subst (λ b. AllFit b (received n answer c.calls)) r
                  (received-AllFit c.refreshing c.refreshing n answer c.calls (λ q. q) (λ _. r)
                    h.fit);
            bounded = ground (arith, h.bounded, past_first-received n answer c.calls, e);
          })
    | inr r ↦
        rw (e, on_response, r, try_refresh)
          (record {
            fit = received-AllFit c.refreshing true n answer c.calls (λ _. refl) (λ _. refl) h.fit;
            bounded = ground (arith, h.bounded, past_first-received n answer c.calls, e);
          })
  ]
]

resume_all-AllFit :
    (b ok : Bool) (ks : List Call) → AllFit b ks → AllFit false (map (resume_call ok) ks)
unfolding resume_call
resume_all-AllFit b ok [] h = tt
resume_all-AllFit b ok (k ∷ ks) (h, hs) = (ground (arith, h), resume_all-AllFit b ok ks hs)

past_first-resume_all :
    (ok : Bool) (ks : List Call) → past_first ks ≤ past_first (map (resume_call ok) ks)
unfolding resume_call
past_first-resume_all ok [] = omega arith
past_first-resume_all ok (k ∷ ks) = ground (arith, past_first-resume_all ok ks)

on_refreshed-Orderly : (ok : Bool) (c : Client) → Orderly c → Orderly (on_refreshed ok c)
unfolding on_refreshed
on_refreshed-Orderly ok c h = elim (Bool-cases c.refreshing) [
  | inr e ↦
      rw (e, on_refreshed)
        (record { fit = subst (λ b. AllFit b c.calls) e h.fit; bounded = h.bounded })
  | inl e ↦
      rw (e, on_refreshed)
        (record {
          fit = resume_all-AllFit c.refreshing ok c.calls h.fit;
          bounded = omega (arith, h.bounded, past_first-resume_all ok c.calls);
        })
]

call_api-Orderly :
    (path : String) (init : RequestInit) (c : Client) → Orderly c → Orderly (call_api path init c)
unfolding call_api
call_api-Orderly path init c h = record {
  fit = All-append _ c.calls _ h.fit (refl, tt);
  bounded = omega (arith, h.bounded, count-append (λ k. is_past_first k.stage) c.calls _);
}

handle_api-Orderly : (e : ApiEvent) (c : Client) → Orderly c → Orderly (handle_api e c)
unfolding handle_api
handle_api-Orderly (called path init) c h = call_api-Orderly path init c h
handle_api-Orderly (responded n answer) c h = on_response-Orderly n answer c h
handle_api-Orderly (refreshed ok) c h = on_refreshed-Orderly ok c h

-- Whatever is called and answered, in any order, a call awaits a renewal of the session only after
-- a 401 and while a renewal is in flight; a call for the login or for the renewal itself neither
-- awaits one nor is sent again; and there are at most as many requests for a renewal as calls whose
-- first request was answered. It was so before the first event.
pub run_api-Orderly : (es : List ApiEvent) (c : Client) → Orderly c → Orderly (run_api es c)
unfolding run_api
run_api-Orderly [] c h = h
run_api-Orderly (e ∷ es) c h = run_api-Orderly es _ (handle_api-Orderly e c h)
