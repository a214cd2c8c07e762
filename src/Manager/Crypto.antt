-- ===== src/Manager/Crypto.antt =====
-- crypto.py. `Fernet` of the package `cryptography` is a parameter.
use pi_opensandbox_runner.Base.{String, Bool, Option, none, some, str_eq, if◌then◌else◌}
use pi_opensandbox_runner.Manager.Problem.{Result, ok, raise, problem, manager_problem, ◌>>=◌}

-- `Fernet(key)` accepts a key or raises; a token opens or not.
pub record Fernet : Type 0 where
  pub accepts : String → Bool
  pub encrypt : String → String → String
  pub decrypt : String → String → Option String

pub record CredentialCipher : Type 0 where
  pub library : Fernet
  pub key : String

fernet : CredentialCipher → Result String
fernet c =
    if str_eq c.key ""
    then raise (problem (manager_problem 503 "credential_key_missing"))
    else if c.library.accepts c.key
    then ok c.key
    else raise (problem (manager_problem 503 "credential_key_invalid"))

unfoldable pub encrypt : CredentialCipher → String → Result String
unfolding fernet
encrypt c value = do key ← fernet c; ok (c.library.encrypt key value)

valid_token : Option String → Result String
valid_token none = raise (problem (manager_problem 503 "credential_decryption_failed"))
valid_token (some value) = ok value

unfoldable pub decrypt : CredentialCipher → String → Result String
unfolding fernet valid_token
decrypt c token = do key ← fernet c; valid_token (c.library.decrypt key token)
