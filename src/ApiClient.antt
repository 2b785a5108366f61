-- ===== src/ApiClient.antt =====
-- web/lib/api.ts: requests to the server, and the one retry after a renewal of the session that
-- all requests in flight share. The answers of the server are arguments, `none` where `fetch`
-- throws. A call of `api` is known by its number.
pub mod Renewal
pub mod Settling
mod Tests
use vidsilo.Base.{
  ℕ, suc, ◌≡◌, Bool, true, false, not, ◌&&◌, ◌||◌, Option, none, some, List, [], ◌∷◌, ◌++◌, map,
  String, if◌then◌else◌, ◌==◌, eqb, ltb, leb, or_else, any, truthy, includes, length,
}

-- The fields of a `RequestInit` that `api` reads or passes on.
pub record RequestInit : Type 0 where
  pub method : Option String
  pub body : Option String
  pub headers : Option (List (String × String))

-- The `headers` that `fetch` is called with: `...init` stands behind the merged ones.
unfoldable pub sent_headers : RequestInit → Option (List (String × String))
sent_headers init = elim init.headers [
  | some hs ↦ some hs
  | none ↦ if truthy init.body then some (("Content-Type", "application/json") ∷ []) else none
]

-- A JSON body: the fields that `api` reads, and the text of the whole.
pub record Body : Type 0 where
  pub error : Option String
  pub message : Option String
  pub text : String

abbrev pub empty_body : Body
empty_body = record { error = none; message = none; text = "{}" }

-- `none` for a body that is no JSON.
pub record Response : Type 0 where
  pub status : ℕ
  pub status_text : String
  pub json : Option Body

-- `res.ok`
abbrev pub is_success : ℕ → Bool
is_success status = leb 200 status && ltb status 300

-- What the promise of `api` settles with: a body, undefined, an `ApiError`, or what `fetch` throws.
pub data Outcome : Type 0 where
  answered : Body → Outcome
  no_content unreachable : Outcome
  refused : (status : ℕ) (code message : String) → Outcome

unfoldable pub finish : Response → Outcome
finish r =
    let body = or_else r.json empty_body in
    if eqb r.status 204
    then no_content
    else if not (is_success r.status)
    then refused r.status (or_else body.error "error") (or_else body.message r.status_text)
    else answered body

-- A call awaits the answer to its request, retried or not, or awaits the renewal of the session,
-- or is settled.
pub data Stage : Type 0 where
  requesting : (retried : Bool) → Stage
  renewing : Response → Stage
  settled : Outcome → Stage

pub record Call : Type 0 where
  pub number : ℕ
  pub path : String
  pub init : RequestInit
  pub stage : Stage

-- `refreshing` is set while a renewal is in flight; `renewals` counts the requests for one.
pub record Client : Type 0 where
  pub calls : List Call
  pub refreshing : Bool
  pub renewals : ℕ

-- `noRefresh`
unfoldable pub is_exempt : String → Bool
is_exempt path = includes "/api/auth/login" path || includes "/api/auth/refresh" path

unfoldable pub try_refresh : Client → Client
try_refresh c =
    if c.refreshing then c else record c { refreshing = true; renewals = suc c.renewals }

unfoldable pub call_api : String → RequestInit → Client → Client
call_api path init c = record c {
  calls =
      c.calls
      ++ record { number = length c.calls; path = path; init = init; stage = requesting false }
        ∷ [];
}

-- `res.status === 401 && !noRefresh && !retried`
unfoldable pub needs_renewal : Option Response → Call → Bool
needs_renewal none k = false
needs_renewal (some r) k = elim k.stage [
  | requesting retried ↦ eqb r.status 401 && not (is_exempt k.path) && not retried
  | _ ↦ false
]

-- An answer, as the call that awaits it goes on.
unfoldable pub receive : Option Response → Call → Call
unfolding needs_renewal
receive none k = elim k.stage [
  | requesting retried ↦ record k { stage = settled unreachable }
  | _ ↦ k
]
receive (some r) k = elim k.stage [
  | requesting retried ↦
      if needs_renewal (some r) k
      then record k { stage = renewing r }
      else record k { stage = settled (finish r) }
  | _ ↦ k
]

unfoldable pub on_response : ℕ → Option Response → Client → Client
unfolding try_refresh
on_response n answer c =
    let c' = record c {
      calls = map (λ k. if eqb k.number n then receive answer k else k) c.calls;
    } in
    if any (λ k. eqb k.number n && needs_renewal answer k) c.calls then try_refresh c' else c'

-- The end of a renewal, as a call that awaits it goes on.
unfoldable pub resume_call : Bool → Call → Call
resume_call is_renewed k = elim k.stage [
  | renewing r ↦
      if is_renewed
      then record k { stage = requesting true }
      else record k { stage = settled (finish r) }
  | _ ↦ k
]

-- `false` also where the request for a renewal throws.
unfoldable pub on_refreshed : Bool → Client → Client
on_refreshed is_renewed c =
    if c.refreshing
    then record c { calls = map (resume_call is_renewed) c.calls; refreshing = false }
    else c

pub data ApiEvent : Type 0 where
  called : String → RequestInit → ApiEvent
  responded : ℕ → Option Response → ApiEvent
  refreshed : Bool → ApiEvent

unfoldable pub handle_api : ApiEvent → Client → Client
handle_api (called path init) c = call_api path init c
handle_api (responded n answer) c = on_response n answer c
handle_api (refreshed is_renewed) c = on_refreshed is_renewed c

-- The client after a list of events.
unfoldable pub run_api : List ApiEvent → Client → Client
run_api [] c = c
run_api (e ∷ es) c = run_api es (handle_api e c)
