-- ===== src/Tests/Proxies.antt =====
-- A request that is passed on to a node, at concrete inputs.
use algo_vnode.Prelude.{
  ℕ, ◌≡◌, ◌⊎◌, List, [], ◌∷◌, ◌++◌, Option, none, GoError, Result, ok, err, message, codes, ◌==◌,
  if◌then◌else◌,
}
use algo_vnode.Algod.State.{NodeCfg}
use algo_vnode.Httpsrv.Proxy.Passed
use algo_vnode.Httpsrv.Proxy.Passed.{IsAnswerOf}
use algo_vnode.Httpsrv.Proxy.Request.{Incoming, Outgoing, Answer, no_upstream, default_write}

abbrev cfgs : ℕ → NodeCfg
cfgs n = record { address = "http://node"; token = "s3cret"; id = "node"; req_limit = 10 }

abbrev request : Incoming
request = record {
  method = codes "GET";
  request_uri = codes "/v2/status";
  real_ip = codes "10.0.0.1";
  scheme = codes "https";
}

abbrev rtt : ℕ → ℕ
rtt n = 50

abbrev no_error : List ℕ → Option GoError
no_error url = none

-- Node 0 has no answer, and the others have one.
abbrev send : ℕ → Outgoing → ℕ → Result Answer
send n r timeout =
    if n == 0
    then err (message "refused")
    else ok (record { status = 200; body = codes "{}"; copied = 2 })

default_write_source_example :
    (default_write cfgs rtt no_error send request (0 ∷ 1 ∷ []) ≡ no_upstream)
    ⊎ ((before : List ℕ) × (n : ℕ) × (after : List ℕ) × (0 ∷ 1 ∷ [] ≡ before ++ n ∷ after)
        × IsAnswerOf cfgs rtt no_error send request n after
            (default_write cfgs rtt no_error send request (0 ∷ 1 ∷ [])))
default_write_source_example =
    Passed.default_write_source cfgs rtt no_error send request (0 ∷ 1 ∷ [])
