-- ===== src/Main/Logging.antt =====
-- How logging is set up: init and setLogging of cmd/algovnode/logging.go. The levels are those of
-- logrus, of which 5 is `DebugLevel`.
use algo_vnode.Prelude.{
  ℕ, ◌≡◌, ◌≢◌, ◌↔◌, ◌⊎◌, inl, inr, Bool, true, false, arith, codes, bytes_eq, map, if◌then◌else◌,
  Result, Result-cases, ok, err, String,
}
use algo_vnode.Config.{LoggingCfg}
use algo_vnode.Httpsrv.Auth.{lower}

pub data Formatter : Type 0 where
  json_formatter text_formatter : Formatter

pub data Output : Type 0 where
  stdout stderr : Output

-- The state of logrus.
pub record Logging : Type 0 where
  pub formatter : Formatter
  pub output : Output
  pub level : ℕ

abbrev pub debug_level : ℕ
debug_level = 5

-- `init`, where `in_docker` says whether there is a file `/.dockerenv`.
unfoldable pub init_logging : Bool → Logging
init_logging in_docker =
    if in_docker
    then record { formatter = json_formatter; output = stdout; level = debug_level }
    else record { formatter = text_formatter; output = stderr; level = debug_level }

-- `setLogging`, with `logrus.ParseLevel`: a level that is not known is only logged.
unfoldable pub set_logging : (String → Result ℕ) → LoggingCfg → Logging → Logging
unfolding lower bytes_eq
set_logging parse_level cfg l =
    let shown =
      if bytes_eq (map lower (codes cfg.format)) (codes "txt")
      then record l { formatter = text_formatter; output = stderr }
      else l in
    elim (parse_level cfg.level) [ ok level ↦ record shown { level = level } | err e ↦ shown ]

-- The log is written as text exactly if the program is not in a container or the configuration
-- asks for `txt`, in any case of the letters, and then it goes to the standard error, else to the
-- standard output; and its level is the configured one if that is known, and debug else.
pub set_logging_result :
    (parse_level : String → Result ℕ) (cfg : LoggingCfg) (in_docker : Bool)
    → let l = set_logging parse_level cfg (init_logging in_docker) in
      ((l.formatter ≡ text_formatter)
        ↔ ((in_docker ≡ false) ⊎ (bytes_eq (map lower (codes cfg.format)) (codes "txt") ≡ true)))
      × ((l.output ≡ stderr) ↔ (l.formatter ≡ text_formatter))
      × ((n : ℕ) → parse_level cfg.level ≡ ok n → l.level ≡ n)
      × (((n : ℕ) → parse_level cfg.level ≢ ok n) → l.level ≡ debug_level)
unfolding set_logging init_logging
set_logging_result parse_level cfg in_docker = elim (Result-cases (parse_level cfg.level)) [
  | inl (x, e) ↦ (
    (λ p. ground arith, λ p. ground arith),
    (λ p. ground arith, λ p. ground arith),
    λ n p. ground arith,
    λ h. ground arith,
  )
  | inr (m, e) ↦ (
    (λ p. ground arith, λ p. ground arith),
    (λ p. ground arith, λ p. ground arith),
    λ n p. ground arith,
    λ h. absurd (h m e),
  )
]
