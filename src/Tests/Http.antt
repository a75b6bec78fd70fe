-- ===== src/Tests/Http.antt =====
-- The theorems on the middleware, at an application that reads one message and answers it.
use orbi_inference.Base.{
  leb, ℕ, zero, suc, ◌≤◌, ◌≡◌, refl, String, true, false, none, some, List, [], ◌∷◌, map, inl,
  arith, if◌then◌else◌,
}
use orbi_inference.Base.Text.{codes}
use orbi_inference.Base.Text.Numerals.{decimal}
use orbi_inference.Middleware.{
  Header, Scope, AsgiApp, Running, returned, raised, receive, send, start, body, Delivery, message,
  failed, request, disconnect, reject, call_app, call, guarded,
}
use orbi_inference.Middleware.Limit.{run, answered}
use orbi_inference.Middleware.Description.{with_id, hardened, bytes_of, cut_server, too_large}
use orbi_inference.Middleware.Requests.{call-run, call-within, call-declared}

abbrev pub plain_json : ℕ → String → String → List Header → Running
plain_json status code text headers =
    send (start status (some headers)) (send (body (codes code) false) returned)

-- It hands an exception of `receive` on.
abbrev pub reader : AsgiApp
reader scope = receive (λ d. elim d [
  | message m ↦ send (start 200 none) (send (body (codes "hi") false) returned)
  | failed e ↦ raised e
])

abbrev plain_scope : Scope
plain_scope = record { kind = "http"; headers = none; request_id = none }

-- Five bytes.
abbrev hello : ℕ → Delivery
hello zero = message (request (some (codes "hello")) false)
hello (suc _) = message disconnect

hello-total : (n : ℕ) → bytes_of hello n ≤ 5
hello-total zero = omega arith
hello-total (suc zero) = omega arith
hello-total (suc (suc n)) = omega (arith, hello-total (suc n))

call-run_example :
    (run (call plain_json 4 reader (codes "id") plain_scope) hello 0
      ≡ answered
          (hardened (codes "id"))
          (too_large plain_json)
          hello
          false
          (run (reader (with_id (codes "id") plain_scope)) (cut_server 4 hello) 0))
    × ((n : ℕ) → bytes_of (cut_server 4 hello) n ≤ 4)
call-run_example = call-run plain_json 4 reader (codes "id") plain_scope refl hello (inl tt)

-- The fifth byte is one too many.
too_long :
    run (call plain_json 4 reader (codes "id") plain_scope) hello 0
    ≡ run (reject plain_json true) hello 1
unfolding call run guarded
too_long = refl

reader_returns : (run (reader (with_id (codes "id") plain_scope)) hello 0).exception ≡ none
unfolding run
reader_returns = refl

call-within_example :
    run (call plain_json 5 reader (codes "id") plain_scope) hello 0
    ≡ record (run (reader (with_id (codes "id") plain_scope)) hello 0) {
      sent =
          map
            (hardened (codes "id"))
            (run (reader (with_id (codes "id") plain_scope)) hello 0).sent;
    }
call-within_example =
    call-within plain_json 5 reader (codes "id") plain_scope refl hello (inl tt) hello-total
      reader_returns

abbrev long_scope : Scope
long_scope = record {
  kind = "http";
  headers = some ((codes "content-length", codes "6") ∷ []);
  request_id = none;
}

six : decimal 6 ≡ codes "6"
unfolding decimal
six = refl

call-declared_example : call plain_json 5 reader (codes "id") long_scope ≡ (
    if leb 6 5 then call_app plain_json 5 (codes "id") long_scope reader else too_large plain_json)
unfolding decimal
call-declared_example =
    call-declared plain_json 5 reader (codes "id") long_scope refl 6 ([], [], refl, tt)
      (omega arith)
