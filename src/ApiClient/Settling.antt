-- ===== src/ApiClient/Settling.antt =====
-- web/lib/api.ts: the end of a call of `api`.
use vidsilo.Base.{
  ℕ, ◌≡◌, refl, subst, inl, inr, Bool, true, false, Option, none, some, List, [], ◌∷◌, map, arith,
  eqb, Bool-cases, All,
}
use vidsilo.ApiClient.{
  Response, Stage, requesting, renewing, settled, Call, Client, try_refresh, needs_renewal, receive,
  on_response, resume_call, on_refreshed,
}
use vidsilo.ApiClient.Renewal.{
  is_past_first, is_settled, AllFit, Orderly, received, on_response-Orderly,
}

-- The renewal is over for the call, or was not needed.
abbrev is_past_renewal : Stage → Bool
is_past_renewal (requesting retried) = retried
is_past_renewal (renewing r) = false
is_past_renewal (settled o) = true

-- Every call of the number `n` stands where `p` holds.
abbrev pub Stands : ℕ → (Stage → Bool) → List Call → Type 0
Stands n p ks = All (λ k. k.number ≡ n → p k.stage ≡ true) ks

on_response_calls :
    (n : ℕ) (answer : Option Response) (c : Client)
    → (on_response n answer c).calls ≡ received n answer c.calls
unfolding on_response try_refresh
on_response_calls n answer c = ground arith

-- An answer takes the calls of its number from `p` to `q`.
received-Stands :
    (n : ℕ) (answer : Option Response) (p q : Stage → Bool)
    → ((k : Call) → p k.stage ≡ true → q (receive answer k).stage ≡ true)
    → (ks : List Call) → Stands n p ks
    → Stands n q (received n answer ks)
received-Stands n answer p q g [] h = tt
received-Stands n answer p q g (k ∷ ks) (h, hs) = (
  elim (Bool-cases (eqb k.number n)) [
    | inl e ↦ rw e (λ _. g k (h (ground (arith, e))))
    | inr e ↦ rw e (λ i. ground (arith, i, e))
  ],
  received-Stands n answer p q g ks hs,
)

receive_first :
    (answer : Option Response) (k : Call) → is_past_first (receive answer k).stage ≡ true
unfolding receive needs_renewal
receive_first none k = ground arith
receive_first (some r) k = ground arith

receive_last :
    (answer : Option Response) (k : Call)
    → is_past_renewal k.stage ≡ true
    → is_settled (receive answer k).stage ≡ true
unfolding receive needs_renewal
receive_last none k h = ground (arith, h)
receive_last (some r) k h = ground (arith, h)

resume_all-Stands :
    (ok : Bool) (n : ℕ) (ks : List Call)
    → Stands n is_past_first ks
    → Stands n is_past_renewal (map (resume_call ok) ks)
unfolding resume_call
resume_all-Stands ok n [] h = tt
resume_all-Stands ok n (k ∷ ks) (h, hs) = (λ i. ground (arith, h, i), resume_all-Stands ok n ks hs)

no_renewal-Stands :
    (n : ℕ) (ks : List Call)
    → AllFit false ks
    → Stands n is_past_first ks
    → Stands n is_past_renewal ks
no_renewal-Stands n [] f h = tt
no_renewal-Stands n (k ∷ ks) (f, fs) (h, hs) =
    (λ i. ground (arith, f, h i), no_renewal-Stands n ks fs hs)

on_refreshed-Stands :
    (ok : Bool) (n : ℕ) (c : Client)
    → Orderly c
    → Stands n is_past_first c.calls
    → Stands n is_past_renewal (on_refreshed ok c).calls
unfolding on_refreshed
on_refreshed-Stands ok n c h s = elim (Bool-cases c.refreshing) [
  | inl e ↦ rw (e, on_refreshed) (resume_all-Stands ok n c.calls s)
  | inr e ↦
      rw (e, on_refreshed) (no_renewal-Stands n c.calls (subst (λ b. AllFit b c.calls) e h.fit) s)
]

all_stand : (n : ℕ) (ks : List Call) → Stands n (λ _. true) ks
all_stand n [] = tt
all_stand n (k ∷ ks) = (λ _. refl, all_stand n ks)

-- A call of `api` is settled once its request is answered, the renewal of the session that may be
-- in flight then has ended, well or not, and its next request, if it makes one, is answered; a
-- thrown `fetch` counts as an answer. The client was in an order that `run_api-Orderly` keeps.
pub call_settles :
    (n : ℕ) (first last : Option Response) (ok : Bool) (c : Client)
    → Orderly c
    → Stands n is_settled (on_response n last (on_refreshed ok (on_response n first c))).calls
call_settles n first last ok c h =
    rw (on_response_calls n last (on_refreshed ok (on_response n first c))) (
      received-Stands n last is_past_renewal is_settled (receive_last last) _ (
        on_refreshed-Stands ok n (on_response n first c) (on_response-Orderly n first c h) (
          rw (on_response_calls n first c) (
            received-Stands n first (λ _. true) is_past_first (λ k _. receive_first first k) c.calls
              (all_stand n c.calls)))))
