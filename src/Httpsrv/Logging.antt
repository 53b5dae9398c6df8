-- ===== src/Httpsrv/Logging.antt =====
-- The middleware of internal/httpsrv/logging.go, over the handler that comes next.
use algo_vnode.Prelude.{ℕ, List, Option, none, some, GoError, ◌-◌}

-- What is logged of a request and its response.
pub record Entry : Type 0 where
  pub ip : List ℕ
  pub method : List ℕ
  pub status : ℕ
  pub ua : List ℕ
  pub req_ms : ℕ
  pub bytes : ℕ
  pub path : List ℕ

-- The context of a request: what the middleware reads of it, and `Error`, which answers with an
-- error unless there is an answer already.
pub record Context (S : Type 0) : Type 0 where
  pub real_ip : S → List ℕ
  pub method : S → List ℕ
  pub status : S → ℕ
  pub user_agent : S → List ℕ
  pub size : S → ℕ
  pub path : S → List ℕ
  pub answer_error : GoError → S → S

-- `handler`: the error of the next handler is answered and passed on, and the request is logged in
-- any case. `start` and `now` are times in milliseconds.
unfoldable pub log_handler :
    {S : Type 0} → Context S → ℕ → ℕ → (S → S × Option GoError) → S → S × Option GoError × Entry
log_handler {S} c start now next s =
    let r = next s in
    let s' : S = elim r.1 [ none ↦ r.0 | some e ↦ c.answer_error e r.0 ] in
    (
      s',
      r.1,
      record {
        ip = c.real_ip s';
        method = c.method s';
        status = c.status s';
        ua = c.user_agent s';
        req_ms = now - start;
        bytes = c.size s';
        path = c.path s';
      },
    )
