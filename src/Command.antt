-- ===== src/Command.antt =====
-- pyscan/cli/main.py: what each command does between its arguments and its end. The services, the
-- files and the terminal are parameters of the commands.
pub mod Probe
pub mod Sniff
pub mod Watch
pub mod Lab
use pyscan.Prelude.{Exception, value_error, os_error, Result, ok, err, key_error, runtime_error}

-- How a command ends early: BadParameter, `typer.Exit(code=1)` behind a message, or an exception
-- that no clause of the command catches.
pub data Ending : Type 0 where
  usage_error exit_one : Ending
  uncaught : (raised : Exception) → Ending

-- The body of a command: it ends there, or goes on with a value.
pub data Body {ℓ} (A : Type ℓ) : Type ℓ where
  ends : (ending : Ending) → Body A
  goes : (value : A) → Body A

infixl 5 ◌>>=◌
abbrev pub ◌>>=◌ {ℓ κ} : {A : Type ℓ} {B : Type κ} → Body A → (A → Body B) → Body B
ends ending >>= rest = ends ending
goes value >>= rest = rest value

-- A `try` statement, by what its clauses do with the exception.
abbrev pub on_error {ℓ} : {A : Type ℓ} → (Exception → Ending) → Result A → Body A
on_error ending (ok a) = goes a
on_error ending (err e) = ends (ending e)

-- `except ValueError as exc: raise BadParameter`
unfoldable pub value_is_usage : Exception → Ending
value_is_usage value_error = usage_error
value_is_usage e = uncaught e

-- `except KeyError as exc: raise BadParameter`
unfoldable pub key_is_usage : Exception → Ending
key_is_usage key_error = usage_error
key_is_usage e = uncaught e

-- `except RuntimeError as exc: _fail(str(exc))`
unfoldable pub runtime_fails : Exception → Ending
runtime_fails runtime_error = exit_one
runtime_fails e = uncaught e

-- The two clauses on `get_strategy` in `scan`.
unfoldable pub strategy_fails : Exception → Ending
strategy_fails key_error = usage_error
strategy_fails runtime_error = exit_one
strategy_fails e = uncaught e

-- `except (ValueError, OSError) as exc: raise BadParameter`
unfoldable pub file_is_usage : Exception → Ending
file_is_usage value_error = usage_error
file_is_usage os_error = usage_error
file_is_usage e = uncaught e
