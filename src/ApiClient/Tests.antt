-- ===== src/ApiClient/Tests.antt =====
-- Runs of the API client, and the theorems at concrete inputs.
use vidsilo.Base.{◌≡◌, refl, true, false, none, some, List, [], ◌∷◌, arith, includes, starts_with}
use vidsilo.ApiClient.{
  RequestInit, Response, answered, refused, requesting, settled, Client, ApiEvent, called,
  responded, run_api, handle_api, call_api, on_response, on_refreshed, receive, resume_call,
  needs_renewal, try_refresh, is_exempt, finish, sent_headers,
}
use vidsilo.ApiClient.Renewal.{Orderly, run_api-Orderly, is_settled}
use vidsilo.ApiClient.Settling.{Stands, call_settles}

-- What a run of the client computes with.
requests : Unit {0}
unfolding run_api handle_api call_api on_response on_refreshed receive resume_call needs_renewal
    try_refresh is_exempt finish includes starts_with sent_headers
requests = tt

abbrev get : RequestInit
get = record { method = none; body = none; headers = none }

abbrev expired : Response
expired = record { status = 401; status_text = "Unauthorized"; json = none }

abbrev fine : Response
fine = record {
  status = 200;
  status_text = "OK";
  json = some (record { error = none; message = none; text = "[]" });
}

abbrev no_calls : Client
no_calls = record { calls = []; refreshing = false; renewals = 0 }

-- Two calls are refused and share a renewal; a login is refused.
abbrev two_expire : List ApiEvent
two_expire =
    called "/api/entries" get
    ∷ called "/api/categories" get
    ∷ called "/api/auth/login" get
    ∷ responded 0 (some expired)
    ∷ responded 1 (some expired)
    ∷ responded 2 (some expired)
    ∷ []

abbrev while_renewing : Client
while_renewing = run_api two_expire no_calls

shares_renewal : while_renewing.renewals ≡ 1
unfolding requests
shares_renewal = refl

run_api-Orderly_example : Orderly while_renewing
run_api-Orderly_example =
    run_api-Orderly two_expire no_calls (record { fit = tt; bounded = omega arith })

call_settles_example :
    Stands 0 is_settled
      (on_response 0 (some fine) (on_refreshed true (on_response 0 none while_renewing))).calls
call_settles_example =
    call_settles 0 none (some fine) true while_renewing
      (run_api-Orderly two_expire no_calls (record { fit = tt; bounded = omega arith }))

retried_once :
    (on_response 0 (some fine) (on_refreshed true while_renewing)).calls
    ≡ record {
      number = 0;
      path = "/api/entries";
      init = get;
      stage = settled (answered (record { error = none; message = none; text = "[]" }));
    }
      ∷ record { number = 1; path = "/api/categories"; init = get; stage = requesting true }
      ∷ record {
        number = 2;
        path = "/api/auth/login";
        init = get;
        stage = settled (refused 401 "error" "Unauthorized");
      }
      ∷ []
unfolding requests
retried_once = refl
