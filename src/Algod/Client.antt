-- ===== src/Algod/Client.antt =====
-- What a `Node` of internal/algod/node.go does through the client of its node: the status, the
-- genesis and the blocks, each by `Backoff`. Between the attempts of one call nothing else runs.
-- A result `none` is a panic of the cache, or the end of the fuel, of which one turn more than
-- there are replies is given.
use algo_vnode.Prelude.{
  ℕ, suc, ◌*◌, Bool, true, false, List, [], ◌∷◌, Option, none, some, GoError, canceled, bad_request,
  internal_error, invalid_token, not_found, if◌then◌else◌, length,
}
use algo_vnode.Algod.Cluster.{set_latest_round}
use algo_vnode.Algod.Float.{Float}
use algo_vnode.Algod.Node.{set_state, update_rtt, update_with_status}
use algo_vnode.Algod.State.{failing, Status, Cluster}
use algo_vnode.BlockCache.Lru.{Lru}
use algo_vnode.Utils.Backoff.{Attempt, backoff}

-- An answer of the node's client, with the microseconds it took.
pub data Reply (A : Type 0) : Type 0 where
  reply : A → ℕ → Reply A
  refused : GoError → Reply A

-- `time.Second*10` and `time.Millisecond*100`, in nanoseconds.
abbrev pub ten_seconds : ℕ
ten_seconds = 10 * 1_000_000_000

abbrev pub tenth_second : ℕ
tenth_second = 100 * 1_000_000

-- The errors of the client for which a block is not asked for again.
unfoldable pub is_fatal_api_error : GoError → Bool
is_fatal_api_error (bad_request m) = true
is_fatal_api_error (internal_error m) = true
is_fatal_api_error (invalid_token m) = true
is_fatal_api_error (not_found m) = true
is_fatal_api_error _ = false

-- `err != context.Canceled`.
abbrev pub is_canceled : GoError → Bool
is_canceled canceled = true
is_canceled _ = false

abbrev pub success : Attempt
success = record { fatal = false; err = none }

abbrev pub failure : Bool → GoError → Attempt
failure fatal e = record { fatal = fatal; err = some e }

module _ (fl : Float) (lru : Lru) where
  -- A call under way: the cluster, the replies to come, and the answer that was got.
  pub record Call (C A B : Type 0) : Type 0 where
    pub gs : Cluster fl lru C
    pub replies : List (Reply A)
    pub got : Option B

  module _ {C A B : Type 0} where
    unfoldable pub call_ctx : Call C A B → Option GoError
    call_ctx s = elim s.replies [ [] ↦ some canceled | _ ∷ _ ↦ none ]

    -- One attempt: `on_error` is what it does when the client fails, `on_reply` when it answers.
    unfoldable pub attempt :
        (GoError → Cluster fl lru C → Attempt × Cluster fl lru C)
        → (A → ℕ → Cluster fl lru C → (Attempt × Cluster fl lru C) × Option B)
        → ℕ
        → Call C A B
        → Attempt × Call C A B
    attempt on_error on_reply timeout s = elim s.replies [
      | [] ↦ (record { fatal = false; err = some canceled }, s)
      | r ∷ rest ↦ elim r [
        | refused e ↦ let (a, gs) = on_error e s.gs in (a, record s { gs = gs; replies = rest })
        | reply x us ↦
            let ((a, gs), got) = on_reply x us s.gs in
            (a, record { gs = gs; replies = rest; got = got })
      ]
    ]

    -- `Backoff` over such attempts, with the waits of all calls of the program.
    unfoldable pub call :
        (GoError → Cluster fl lru C → Attempt × Cluster fl lru C)
        → (A → ℕ → Cluster fl lru C → (Attempt × Cluster fl lru C) × Option B)
        → ℕ
        → Cluster fl lru C
        → List (Reply A)
        → Option (Option GoError × Call C A B)
    call on_error on_reply tries gs replies =
        backoff (attempt on_error on_reply) call_ctx (λ wait s. s) (suc (length replies))
          ten_seconds tenth_second ten_seconds tries
          (record { gs = gs; replies = replies; got = none })

  module _ {C : Type 0} (now i : ℕ) where
    -- The attempt of `updateStatus`.
    unfoldable pub ask_status :
        ℕ → Cluster fl lru C → List (Reply Status) → Option (Option GoError × Call C Status Status)
    unfolding call attempt
    ask_status tries gs replies =
        call (λ e gs. (failure false e, set_state fl lru now i failing gs))
          (λ st us gs. ((success, update_rtt fl lru now i us gs), some st)) tries gs replies

    -- The end of `updateStatus`, when the status has come.
    unfoldable pub use_status : Option Status → Cluster fl lru C → Option (Cluster fl lru C × Bool)
    use_status none gs = none
    use_status (some st) gs =
        let r = update_with_status fl lru now i st gs in
        if r.1
        then some ((set_latest_round fl lru now (r.0.nodes i).latest_round i r.0).0, true)
        else some (r.0, false)

    unfoldable pub after_status :
        Option (Option GoError × Call C Status Status) → Option (Cluster fl lru C × Bool)
    unfolding use_status
    after_status none = none
    after_status (some (some e, s)) = some (s.gs, false)
    after_status (some (none, s)) = use_status s.got s.gs

    -- `updateStatus`.
    unfoldable pub update_status :
        List (Reply Status) → Cluster fl lru C → Option (Cluster fl lru C × Bool)
    unfolding after_status ask_status
    update_status replies gs = after_status (ask_status 0 gs replies)
