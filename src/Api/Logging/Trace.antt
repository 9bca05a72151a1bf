-- ===== src/Api/Logging/Trace.antt =====
-- What the log says of the requests that were served.
use ai_backend_api.Base.{
  filter_by-append, filter_by-nil, ℕ, Bool, true, false, none, some, List, [], ◌∷◌, ◌++◌,
  append_assoc, append-nil, if◌then◌else◌, ◌≡◌, refl, sym, ap, ◌∙◌, All, filter_by, Bool-cases, inl,
  inr,
}
use ai_backend_api.Base.Text.{Text, codes, text_eq}
use ai_backend_api.Base.Dict.{get, get-put}
use ai_backend_api.Base.Result.{Result, ok, err, ok_inj}
use ai_backend_api.Errors.{Exc}
use ai_backend_api.Exec.{Exec}
use ai_backend_api.Api.{Request, Response}
use ai_backend_api.Api.Limit.{is_health}
use ai_backend_api.Api.Logging.{
  Line, Logs, context_of, log, bind_request_context, clear_request_context, status_of, started,
  completed, with_request_id, logged, request_logging_middleware,
}

unfoldable pub is_request_line : Line → Bool
is_request_line l =
    if text_eq l.event (codes "request_started")
    then true
    else text_eq l.event (codes "request_completed")

-- The application logs lines of its own and leaves the context bound.
abbrev pub IsQuiet : {S : Type 0} → (Request → Exec (Logs × S) Response) → Type 0
IsQuiet call_next =
    (request : Request) (logs : Logs) (s : _)
    → (extra : List Line) × All (λ l. is_request_line l ≡ false) extra
      × ((call_next request (logs, s)).1.0 ≡ record logs { lines = logs.lines ++ extra })

abbrev pub no_logs : Logs
no_logs = record { bound = none; lines = [] }

-- The two lines of a request.
abbrev pub start_line : Text → Request → Line
start_line request_id request = record {
  event = codes "request_started";
  context = some (context_of request_id request);
  status_code = none;
}

abbrev pub end_line : Text → Request → ℕ → Line
end_line request_id request status_code = record {
  event = codes "request_completed";
  context = some (context_of request_id request);
  status_code = some status_code;
}

-- The lines that are due for requests and their answers.
unfoldable pub lines_of : List (Text × Request) → List (Result Exc Response) → List Line
lines_of [] answers = []
lines_of (_ ∷ _) [] = []
lines_of ((request_id, request) ∷ requests) (r ∷ answers) =
    let rest = lines_of requests answers in
    if is_health request
    then rest
    else start_line request_id request ∷ end_line request_id request (status_of r) ∷ rest

lines_of-cons :
    (q : Text × Request) (requests : List (Text × Request)) (r : Result Exc Response)
    (answers : List (Result Exc Response))
    → lines_of (q ∷ requests) (r ∷ answers)
      ≡ lines_of (q ∷ []) (r ∷ []) ++ lines_of requests answers
unfolding lines_of
lines_of-cons (request_id, request) requests r answers = elim (Bool-cases (is_health request)) [
  | inl health ↦ rw health refl
  | inr other ↦ rw other refl
]

-- What is left of the lines of one request.
filter_by-request :
    (before extra : List Line) (first last : Line)
    → is_request_line first ≡ true
    → is_request_line last ≡ true
    → All (λ l. is_request_line l ≡ false) extra
    → filter_by is_request_line (((before ++ (first ∷ [])) ++ extra) ++ (last ∷ []))
      ≡ filter_by is_request_line before ++ (first ∷ last ∷ [])
unfolding filter_by
filter_by-request before extra first last h k others =
    rw
      (
        filter_by-append is_request_line ((before ++ (first ∷ [])) ++ extra) (last ∷ []),
        filter_by-append is_request_line (before ++ (first ∷ [])) extra,
        filter_by-append is_request_line before (first ∷ []),
        filter_by-nil is_request_line extra others,
        h,
        k,
        append-nil (filter_by is_request_line before ++ (first ∷ [])),
      )
      (append_assoc (filter_by is_request_line before) (first ∷ []) (last ∷ []))

status_of-with_request_id :
    (request_id : Text) (r : Result Exc Response)
    → status_of (with_request_id request_id r) ≡ status_of r
status_of-with_request_id request_id (ok response) = refl
status_of-with_request_id request_id (err e) = refl

-- An answer to another path than /health carries the request's identifier.
abbrev pub IsIdentified : Text → Request → Result Exc Response → Type 0
IsIdentified request_id request r =
    is_health request ≡ false
    → (response : Response) → r ≡ ok response
    → get response.headers (codes "X-Request-ID") ≡ some request_id

unfoldable pub AreIdentified : List (Text × Request) → List (Result Exc Response) → Type 0
AreIdentified [] answers = Unit
AreIdentified (_ ∷ _) [] = Unit
AreIdentified ((request_id, request) ∷ requests) (r ∷ answers) =
    IsIdentified request_id request r × AreIdentified requests answers

put-identified :
    (request_id : Text) (r : Result Exc Response) (response : Response)
    → with_request_id request_id r ≡ ok response
    → get response.headers (codes "X-Request-ID") ≡ some request_id
put-identified request_id (ok answer) response h =
    ap (λ (x : Response). get x.headers (codes "X-Request-ID")) (sym (ok_inj refl h))
    ∙ get-put answer.headers (codes "X-Request-ID") request_id (codes "X-Request-ID")
put-identified request_id (err e) response h = absurd (cc)

module _ {S : Type 0} (call_next : Request → Exec (Logs × S) Response) where
  -- Requests, one after the other.
  unfoldable pub serve : List (Text × Request) → Logs × S → List (Result Exc Response) × (Logs × S)
  unfolding request_logging_middleware
  serve [] s = ([], s)
  serve ((request_id, request) ∷ requests) s =
      let (r, s1) = request_logging_middleware call_next request_id request s in
      let (answers, s2) = serve requests s1 in (r ∷ answers, s2)

  middleware_lem :
      (request_id : Text) (request : Request) (logs : Logs) (s : S)
      → IsQuiet call_next
      → logs.bound ≡ none
      → ((request_logging_middleware call_next request_id request (logs, s)).1.0.bound ≡ none)
        × (filter_by is_request_line
              (request_logging_middleware call_next request_id request (logs, s)).1.0.lines
            ≡ filter_by is_request_line logs.lines
              ++ lines_of
                  ((request_id, request) ∷ [])
                  ((request_logging_middleware call_next request_id request (logs, s)).0 ∷ []))
  unfolding request_logging_middleware logged started completed log bind_request_context
      clear_request_context is_request_line lines_of
  middleware_lem request_id request logs s quiet clear = elim (Bool-cases (is_health request)) [
    | inl health ↦
        let (extra, others, same) = quiet request logs s in
        rw health (
          ap (λ l. l.bound) same ∙ clear,
          ap (λ l. filter_by is_request_line l.lines) same
              ∙ (filter_by-append is_request_line logs.lines extra
                  ∙ ap (λ l. filter_by is_request_line logs.lines ++ l)
                      (filter_by-nil is_request_line extra others)),
        )
    | inr other ↦
        let (extra, others, same) = quiet request (started request_id request logs) s in
        let status = status_of (call_next request (started request_id request logs, s)).0 in
        rw other (
          refl,
          ap
                (λ l. filter_by is_request_line (
                  l.lines
                  ++ ((record {
                    event = codes "request_completed";
                    context = l.bound;
                    status_code = some status;
                  }
                      ∷ []))))
                same
              ∙ (filter_by-request logs.lines extra (start_line request_id request)
                    (end_line request_id request status) refl refl others
                  ∙ ap
                      (λ n.
                        filter_by is_request_line logs.lines
                        ++ (start_line request_id request ∷ end_line request_id request n ∷ []))
                      (sym (
                        status_of-with_request_id request_id
                          (call_next request (started request_id request logs, s)).0))),
        )
  ]

  serve-lines :
      (requests : List (Text × Request)) (logs : Logs) (s : S)
      → IsQuiet call_next
      → logs.bound ≡ none
      → ((serve requests (logs, s)).1.0.bound ≡ none)
        × (filter_by is_request_line (serve requests (logs, s)).1.0.lines
            ≡ filter_by is_request_line logs.lines
              ++ lines_of requests (serve requests (logs, s)).0)
  unfolding serve lines_of
  serve-lines [] logs s quiet clear =
      (clear, sym (append-nil (filter_by is_request_line logs.lines)))
  serve-lines ((request_id, request) ∷ requests) logs s quiet clear =
      let (r, (logs1, s1)) = request_logging_middleware call_next request_id request (logs, s) in
      let (clear1, first) = middleware_lem request_id request logs s quiet clear in
      let (clear2, others) = serve-lines requests logs1 s1 quiet clear1 in
      let answers = (serve requests (logs1, s1)).0 in
      (
        clear2,
        others
            ∙ (ap (λ l. l ++ lines_of requests answers) first
                ∙ (append_assoc (filter_by is_request_line logs.lines)
                      (lines_of ((request_id, request) ∷ []) (r ∷ [])) (lines_of requests answers)
                    ∙ ap (λ l. filter_by is_request_line logs.lines ++ l)
                        (sym (lines_of-cons (request_id, request) requests r answers)))),
      )

  middleware-IsIdentified :
      (request_id : Text) (request : Request) (s : Logs × S)
      → IsIdentified request_id request
          (request_logging_middleware call_next request_id request s).0
  unfolding request_logging_middleware logged
  middleware-IsIdentified request_id request s other response h =
      put-identified request_id (call_next request (started request_id request s.0, s.1)).0 response
        (sym (
            ap (λ b. (if b then call_next request s else logged call_next request_id request s).0)
              other)
          ∙ h)

  serve-AreIdentified :
      (requests : List (Text × Request)) (s : Logs × S)
      → AreIdentified requests (serve requests s).0
  unfolding serve AreIdentified
  serve-AreIdentified [] s = tt
  serve-AreIdentified ((request_id, request) ∷ requests) s = (
    middleware-IsIdentified request_id request s,
    serve-AreIdentified requests (request_logging_middleware call_next request_id request s).1,
  )

  -- However many requests are served one after the other, each to another path than /health has
  -- exactly two lines in the log, in this order: that it started and that it completed with the
  -- status of its answer, 500 where the application raised; both carry its context and identifier,
  -- an answer that the application returned carries the identifier too, and no context is bound
  -- afterwards.
  pub serve-IsTraced :
      (requests : List (Text × Request)) (s : S)
      → IsQuiet call_next
      → ((serve requests (no_logs, s)).1.0.bound ≡ none)
        × (filter_by is_request_line (serve requests (no_logs, s)).1.0.lines
            ≡ lines_of requests (serve requests (no_logs, s)).0)
        × AreIdentified requests (serve requests (no_logs, s)).0
  unfolding filter_by
  serve-IsTraced requests s quiet =
      let (clear, lines) = serve-lines requests no_logs s quiet refl in
      (clear, lines, serve-AreIdentified requests (no_logs, s))
