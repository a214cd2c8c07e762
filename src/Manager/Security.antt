-- ===== src/Manager/Security.antt =====
-- security.py: the tokens of the configuration become rows, and a request's token a principal. Scopes
-- are read as sets, so their order is not kept; `hash` is `token_hash`.
pub mod Tokens
pub mod Bootstrap
use pi_opensandbox_runner.Base.{
  ℕ, String, Bool, true, false, not, ◌&&◌, ◌||◌, Option, none, some, List, [], ◌∷◌, ◌++◌, str_eq,
  ◌==◌, if◌then◌else◌, is_some,
}
use pi_opensandbox_runner.Base.Table.{find}
use pi_opensandbox_runner.Manager.Problem.{Result, ok, raise, problem, exception, manager_problem}
use pi_opensandbox_runner.Manager.Models.{ManagerToken}
use pi_opensandbox_runner.Manager.Api.{Principal, member}

pub record Consumer : Type 0 where
  pub id : ℕ
  pub slug : String

-- The tables that a start of the Manager fills.
pub record Accounts : Type 0 where
  pub consumers : List Consumer
  pub tokens : List ManagerToken

pub record BootstrapSettings : Type 0 where
  pub consumer_slug : String
  pub service_token : String
  pub admin_token : String

-- The ids of the rows that are made.
pub record FreshIds : Type 0 where
  pub consumer_id : ℕ
  pub service_id : ℕ
  pub admin_id : ℕ

-- The scopes that are asked for and not there yet.
unfoldable pub missing : List String → List String → List String
unfolding member
missing [] have = []
missing (s ∷ scopes) have =
    let rest = missing scopes have in if member s have then rest else s ∷ rest

-- Changes the row that a query found.
unfoldable pub change_found :
    (ManagerToken → Bool) → (ManagerToken → ManagerToken) → List ManagerToken → List ManagerToken
change_found p f [] = []
change_found p f (t ∷ tokens) = if p t then f t ∷ tokens else t ∷ change_found p f tokens

abbrev pub has_hash : String → ManagerToken → Bool
has_hash digest t = str_eq t.token_hash digest

abbrev pub grant : List String → ManagerToken → ManagerToken
grant scopes t = record t { scopes = t.scopes ++ missing scopes t.scopes }

abbrev pub new_token : String → ℕ → Option ℕ → String → List String → ManagerToken
new_token digest id consumer kind scopes = record {
  id = id;
  consumer_id = consumer;
  token_hash = digest;
  kind = kind;
  scopes = scopes;
  active = true;
}

-- A session that does not flush by itself: the rows of the table, which queries find, with what has been
-- changed in them, and the rows that have been added.
abbrev pub Pending : Type 0
Pending = List ManagerToken × List ManagerToken

-- `_ensure_token`; a union that adds nothing writes nothing.
unfoldable pub ensure_token :
    (String → String) → ℕ → String → Option ℕ → String → List String → Pending → Pending
ensure_token hash id token consumer kind scopes (stored, added) =
    elim (find (has_hash (hash token)) stored) [
      | none ↦ (stored, added ++ new_token (hash token) id consumer kind scopes ∷ [])
      | some existing ↦ (change_found (has_hash (hash token)) (grant scopes) stored, added)
    ]

abbrev pub service_scopes : List String
service_scopes =
    "catalog:read" ∷ "instances:read" ∷ "instances:write" ∷ "sessions:read" ∷ "sessions:write"
    ∷ "workspace:read" ∷ "workspace:write" ∷ "filesystem:access" ∷ "commands:execute"
    ∷ "terminals:access" ∷ []

abbrev pub is_set : String → Bool
is_set s = not (str_eq s "")

abbrev pub ensure_if_set :
    (String → String) → ℕ → String → Option ℕ → String → List String → Pending → Pending
ensure_if_set hash id token consumer kind scopes db =
    if is_set token then ensure_token hash id token consumer kind scopes db else db

-- The unique constraint on `token_hash` does not hold.
unfoldable pub has_repeats : List ManagerToken → Bool
has_repeats [] = false
has_repeats (t ∷ tokens) = is_some (find (has_hash t.token_hash) tokens) || has_repeats tokens

-- The commit.
unfoldable pub commit : Pending → Result (List ManagerToken)
commit (stored, added) =
    if has_repeats (stored ++ added) then raise exception else ok (stored ++ added)

abbrev pub ensure_tokens : (String → String) → FreshIds → BootstrapSettings → ℕ → Pending → Pending
ensure_tokens hash fresh settings consumer db =
    ensure_if_set hash fresh.admin_id settings.admin_token none "admin" ("*" ∷ []) (
      ensure_if_set hash fresh.service_id settings.service_token (some consumer) "service"
        service_scopes db)

abbrev pub has_slug : String → Consumer → Bool
has_slug slug c = str_eq c.slug slug

-- The consumer with the slug that is set, and the consumers with it.
unfoldable pub ensure_consumer : FreshIds → String → List Consumer → ℕ × List Consumer
ensure_consumer fresh slug consumers = elim (find (has_slug slug) consumers) [
  | none ↦ (fresh.consumer_id, consumers ++ record { id = fresh.consumer_id; slug = slug } ∷ [])
  | some consumer ↦ (consumer.id, consumers)
]

-- `bootstrap`; where the commit raises, everything is rolled back.
unfoldable pub bootstrap :
    (String → String) → FreshIds → BootstrapSettings → Accounts → Result Accounts
bootstrap hash fresh settings accounts =
    let (consumer, consumers) = ensure_consumer fresh settings.consumer_slug accounts.consumers in
    elim (commit (ensure_tokens hash fresh settings consumer (accounts.tokens, []))) [
      | raise e ↦ raise e
      | ok tokens ↦ ok (record { consumers = consumers; tokens = tokens })
    ]

-- `Authenticator.principal`
unfoldable pub principal : (String → String) → String → Accounts → Result Principal
principal hash token accounts =
    if is_set token
    then elim (find (λ t. str_eq t.token_hash (hash token) && t.active) accounts.tokens) [
      | none ↦ raise (problem (manager_problem 401 "invalid_token"))
      | some t ↦ ok (record { kind = t.kind; consumer_id = t.consumer_id; scopes = t.scopes })
    ]
    else raise (problem (manager_problem 401 "missing_token"))
