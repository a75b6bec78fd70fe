-- ===== src/Middleware/Requests.antt =====
-- What `SecurityMiddleware.__call__` of middleware.py does with a whole request, by the length that
-- the request declares and the bytes that it sends.
use mathlib.Core.Path.{fun_ext}
use orbi_inference.Base.{
  Bool-cases, not, leb, Bool, ℕ, suc, ◌≤◌, ◌≡◌, refl, ap, ◌∙◌, inl, inr, String, true, false, none,
  List, map, ltb, str_eq, length, if◌then◌else◌, arith,
}
use orbi_inference.Base.Text.{codes}
use orbi_inference.Base.Text.Numerals.{decimal, parse_int-decimal}
use orbi_inference.Middleware.{
  Header, Bytes, Scope, AsgiApp, Delivery, Running, or_empty, secured, call_app, call,
}
use orbi_inference.Middleware.Limit.{
  run, delivered-le-max, answered, guarded-run, answered-of_return,
}
use orbi_inference.Middleware.Description.{
  IsLast, last_value-none, IsLast-last_value, IsAtMost-exceeds, IsAdmitted, with_id, hardened,
  bytes_of, cut_server, too_large, secured-hardened, total-bytes_of, limited_server-cut_server,
  cut-within,
}

leb→not_ltb : (n max : ℕ) (b : Bool) → leb n max ≡ b → ltb max n ≡ not b
leb→not_ltb n max true h = ground arith
leb→not_ltb n max false h = ground arith

module _ (json_response : ℕ → String → String → List Header → Running) (max : ℕ) (app : AsgiApp)
    (request_id : Bytes) (scope : Scope) (http : str_eq scope.kind "http" ≡ true) where
  call-admitted :
      IsAdmitted max scope
      → call json_response max app request_id scope
        ≡ call_app json_response max request_id scope app
  unfolding call
  call-admitted (inl absent) = rw (http, last_value-none _ _ absent) refl
  call-admitted (inr (value, n, present, read, small)) =
      rw (http, IsLast-last_value _ _ _ present, read, IsAtMost-exceeds max n small) refl

  -- If a request over HTTP declares no length, or a number that is not above the limit, then the
  -- response is that of the application, run with the request id in its scope against the messages
  -- of the server, with each body that ends beyond the limit replaced by an exception: its messages
  -- go out in order, each start with nosniff, no-store and the request id added to its headers, and
  -- the answer 413 follows if the application lets the exception through before it has started to
  -- answer. The application never gets more bytes than the limit, however many messages come.
  pub call-run :
      (server : ℕ → Delivery)
      → IsAdmitted max scope
      → (run (call json_response max app request_id scope) server 0
          ≡ answered
              (hardened request_id)
              (too_large json_response)
              server
              false
              (run (app (with_id request_id scope)) (cut_server max server) 0))
        × ((n : ℕ) → bytes_of (cut_server max server) n ≤ max)
  call-run server admitted = (
    ap (λ r. run r server 0) (call-admitted admitted)
        ∙ guarded-run json_response max request_id server false (app (with_id request_id scope)) 0
        ∙ ap
            (λ s.
              answered (secured request_id) (too_large json_response) server false
                (run (app (with_id request_id scope)) s 0))
            (limited_server-cut_server max server)
        ∙ ap
            (λ secure.
              answered secure (too_large json_response) server false
                (run (app (with_id request_id scope)) (cut_server max server) 0))
            (secured-hardened request_id),
    λ n.
        rw (← total-bytes_of (cut_server max server) n, ← limited_server-cut_server max server)
          (delivered-le-max max server n),
  )

  -- If a request over HTTP declares no length, or a number that is not above the limit, its bodies
  -- stay within the limit, and the application, given them, returns, then the application runs on
  -- the unchanged messages, and the response differs only by nosniff, no-store and the request id,
  -- which are added to the headers of each start.
  pub call-within :
      (server : ℕ → Delivery)
      → IsAdmitted max scope
      → ((n : ℕ) → bytes_of server n ≤ max)
      → (run (app (with_id request_id scope)) server 0).exception ≡ none
      → run (call json_response max app request_id scope) server 0
        ≡ record (run (app (with_id request_id scope)) server 0) {
          sent = map (hardened request_id) (run (app (with_id request_id scope)) server 0).sent;
        }
  call-within server admitted within done =
      let same : cut_server max server ≡ server =
        fun_ext (λ i. cut-within max (bytes_of server (suc i)) (server i) (within (suc i))) in
      (call-run server admitted).0
      ∙ ap
          (λ s.
            answered (hardened request_id) (too_large json_response) server false
              (run (app (with_id request_id scope)) s 0))
          same
      ∙ answered-of_return (hardened request_id) (too_large json_response) server false
          (run (app (with_id request_id scope)) server 0) done

  -- If the last `content-length` header of a request over HTTP is the decimal numeral of a number,
  -- with at most 4300 digits, the request is answered with 413, without a run of the application, if
  -- the number is above the limit, and else handed to the application behind the two wrappers.
  pub call-declared :
      (n : ℕ)
      → IsLast (codes "content-length") (decimal n) (or_empty scope.headers)
      → length (decimal n) ≤ 4300
      → call json_response max app request_id scope ≡ (
          if leb n max
          then call_app json_response max request_id scope app
          else too_large json_response)
  unfolding call
  call-declared n declared short =
      let present = IsLast-last_value _ _ _ declared in
      elim (Bool-cases (leb n max)) [
        | inl t ↦ rw (http, present, parse_int-decimal n short, t, leb→not_ltb n max true t) refl
        | inr f ↦ rw (http, present, parse_int-decimal n short, f, leb→not_ltb n max false f) refl
      ]
