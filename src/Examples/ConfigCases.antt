-- ===== src/Examples/ConfigCases.antt =====
-- The theorems on the settings: an environment with the five variables that have no default.
use internship_project.Base.{◌≡◌, refl, none, some, Text, codes, text_eq, if◌then◌else◌, any}
use internship_project.Config.{Environment, validate_env, plain_to_instance, concurrency_for, ai}
use internship_project.Config.Startup.{required, concurrency_of, validate_env-booted}
use internship_project.Examples.RouteCases.{sample_validators}

abbrev long_text : Text
long_text = codes "0123456789012345678901234567890123456789"

abbrev full_environment : Environment
full_environment key = if any (text_eq key) required then some long_text else none

validate_env-booted_example :
    concurrency_of ai (plain_to_instance sample_validators full_environment)
    ≡ some (concurrency_for sample_validators full_environment ai)
unfolding validate_env plain_to_instance text_eq
validate_env-booted_example =
    (validate_env-booted sample_validators full_environment
        (plain_to_instance sample_validators full_environment) refl).1.concurrency
      ai
