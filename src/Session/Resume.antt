-- ===== src/Session/Resume.antt =====
-- session.go: the methods that answer a snapshot, up to `runState.exchange`. An error of the host is
-- given as the exception that `raisedFromError` makes of it.
use monty_go.Common.{ℕ, List, [], ◌∷◌, Bytes, Bool, true, false, not, if◌then◌else◌, some, text}
use monty_go.Errors.{Error, Result, ok, err, stuck}
use monty_go.Wire.Proto.{Protowire}
use monty_go.Wire.Fields.{field_message}
use monty_go.Value.{Value}
use monty_go.Exceptions.{RaisedException}
use monty_go.Exceptions.Raised.{encode_raised}
use monty_go.Requests.{
  Request, request, req_resume_name, ResumeResult, no_result, resume_call_request,
  resume_name_value_request, resume_name_undefined_request, resume_futures_request,
}
use monty_go.Session.{
  Answer, gives, refuses, waits, already_resumed, not_os_call, no_eager_await, codec,
}
use monty_go.Session.Advance.{exception_of}

-- `FunctionSnapshot`, by what its methods read; `used` is the atomic flag.
pub record FunctionSnapshot : Type 0 where
  pub used : Bool
  pub call_id : ℕ
  pub function_name : Bytes
  pub is_os_function : Bool
  pub allow_eager_await : Bool

-- The request that goes to `runState.exchange`, or the error before it, and the flag then.
pub record Claimed : Type 0 where
  pub answer : Answer Request
  pub used : Bool

-- `claim`, which sets the flag, and what follows it.
abbrev pub claim : Bool → Answer Request → Claimed
claim true a = record { answer = refuses already_resumed; used = true }
claim false a = record { answer = a; used = true }

abbrev pub unclaimed : Bool → Answer Request → Claimed
unclaimed used a = record { answer = a; used = used }

abbrev pub of_result : Result Request → Answer Request
of_result (ok r) = gives r
of_result (err e) = refuses (codec e)
of_result stuck = waits

abbrev pub value_result : Value → ResumeResult
value_result v = record no_result { value = v }

abbrev pub raised_result_of : RaisedException → ResumeResult
raised_result_of x = record no_result { raised = some x }

-- `err.Error()` is a text of this package and of those that it calls.
module _ ⦃w : Protowire⦄ (error_text : Error → Bytes) where
  abbrev pub boundary_error : Error → ResumeResult
  boundary_error e = raised_result_of (exception_of (text "RuntimeError") (error_text e))

  -- A value that cannot be sent is raised as an error instead.
  abbrev pub or_raise : (ResumeResult → Result Request) → Result Request → Answer Request
  or_raise again (ok r) = gives r
  or_raise again (err e) = of_result (again (boundary_error e))
  or_raise again stuck = waits

  unfoldable pub resume_function : FunctionSnapshot → ResumeResult → Answer Request
  unfolding resume_call_request
  resume_function s r = or_raise (resume_call_request s.call_id) (resume_call_request s.call_id r)

  unfoldable pub resume_eager : FunctionSnapshot → ResumeResult → Answer Request
  unfolding resume_futures_request
  resume_eager s r =
      or_raise (λ x. resume_futures_request ((s.call_id, x) ∷ []))
        (resume_futures_request ((s.call_id, r) ∷ []))

  abbrev pub resume_value : FunctionSnapshot → Value → Claimed
  resume_value s v = claim s.used (resume_function s (value_result v))

  abbrev pub resume_error : FunctionSnapshot → RaisedException → Claimed
  resume_error s x = claim s.used (resume_function s (raised_result_of x))

  abbrev pub resume_not_handled : FunctionSnapshot → Claimed
  resume_not_handled s =
      if not s.is_os_function
      then unclaimed s.used (refuses not_os_call)
      else claim s.used (resume_function s (record no_result { not_handled = true }))

  abbrev pub resume_not_found : FunctionSnapshot → Claimed
  resume_not_found s =
      claim s.used (resume_function s (record no_result { not_found = some s.function_name }))

  abbrev pub resume_future : FunctionSnapshot → Claimed
  resume_future s = claim s.used (resume_function s (record no_result { future = some s.call_id }))

  abbrev pub resume_eager_value : FunctionSnapshot → Value → Claimed
  resume_eager_value s v =
      if not s.allow_eager_await
      then unclaimed s.used (refuses no_eager_await)
      else claim s.used (resume_eager s (value_result v))

  abbrev pub resume_eager_error : FunctionSnapshot → RaisedException → Claimed
  resume_eager_error s x =
      if not s.allow_eager_await
      then unclaimed s.used (refuses no_eager_await)
      else claim s.used (resume_eager s (raised_result_of x))

module _ ⦃w : Protowire⦄ where
  -- `NameLookupSnapshot`: of its fields only the flag matters here.
  abbrev pub resume_name : Bool → Value → Claimed
  resume_name used v = claim used (of_result (resume_name_value_request v))

  abbrev pub resume_undefined : Bool → Claimed
  resume_undefined used = claim used (gives resume_name_undefined_request)

  abbrev pub resume_name_error : Bool → RaisedException → Claimed
  resume_name_error used x =
      claim used (gives (request req_resume_name (field_message 4 (encode_raised x))))

  -- `FutureSnapshot.Resume`, with the results in the order in which the map is read.
  abbrev pub resume_results : Bool → List (ℕ × ResumeResult) → Claimed
  resume_results used rs = claim used (of_result (resume_futures_request rs))
