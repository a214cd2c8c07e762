-- ===== src/Manager/Api.antt =====
-- app/helpers.py, and `Principal` of security.py: what the API handlers share. A handler commits
-- its transactions one by one; a transaction that raises is rolled back.
use Prim.Native.String.{◌++◌ as str_append}
use pi_opensandbox_runner.Base.{
  ℕ, String, Bool, true, false, not, ◌&&◌, ◌||◌, Option, none, some, List, [], ◌∷◌, ◌++◌, str_eq,
  ◌==◌, if◌then◌else◌,
}
use pi_opensandbox_runner.Base.Table.{find, get}
use pi_opensandbox_runner.Manager.Problem.{
  Result, ok, raise, problem, manager_problem, retryable_problem, ◌>>=◌,
}
use pi_opensandbox_runner.Manager.Crypto.{CredentialCipher, decrypt}
use pi_opensandbox_runner.Manager.Models.{
  CatalogState, RunnerInstance, SessionBinding, SessionState, Db, policy_id,
}
use pi_opensandbox_runner.Manager.Load.{given}
use pi_opensandbox_runner.Manager.Operations.{is_ready}

pub record Principal : Type 0 where
  pub kind : String
  pub consumer_id : Option ℕ
  pub scopes : List String

unfoldable pub member : String → List String → Bool
member s [] = false
member s (x ∷ xs) = str_eq x s || member s xs

-- `Principal.require`
unfoldable pub require : Principal → String → Result (Unit {0})
unfolding member
require caller scope =
    if str_eq caller.kind "admin" || member scope caller.scopes
    then ok tt
    else raise (problem (manager_problem 403 "insufficient_scope"))

-- A column compared with a value that may be null: null equals nothing.
abbrev same_id : ℕ → Option ℕ → Bool
same_id n none = false
same_id n (some m) = n == m

unfoldable pub owned_instance : Db → Principal → String → Result RunnerInstance
owned_instance db caller subject_ref =
    elim (find (λ i. same_id i.consumer_id caller.consumer_id && str_eq i.subject_ref subject_ref)
      db.instances) [
        | none ↦ raise (problem (manager_problem 404 "instance_not_found"))
        | some instance ↦ ok instance
      ]

abbrev pub session_of : ℕ → String → SessionBinding → Bool
session_of i id s = (s.instance_id == i) && str_eq s.external_session_id id

unfoldable pub find_session : Db → ℕ → String → Result SessionBinding
find_session db i id = elim (find (session_of i id) db.sessions) [
  | none ↦ raise (problem (manager_problem 404 "session_not_found"))
  | some binding ↦ ok binding
]

unfoldable pub owned_session : Db → Principal → String → String → Result SessionBinding
unfolding owned_instance find_session
owned_session db caller subject_ref id = do
  instance ← owned_instance db caller subject_ref
  find_session db instance.id id

pub record BridgeConnection : Type 0 where
  pub instance_id : ℕ
  pub bridge_url : String
  pub bridge_token : String

not_ready : Result BridgeConnection
not_ready = raise (problem (retryable_problem 409 "instance_not_ready"))

connect_to : CredentialCipher → ℕ → Option String → Option String → Result BridgeConnection
unfolding not_ready
connect_to cipher id (some url) (some token) = do
  bridge_token ← decrypt cipher token
  ok (record { instance_id = id; bridge_url = url; bridge_token = bridge_token })
connect_to cipher id url none = not_ready
connect_to cipher id none token = not_ready

unfoldable pub connection : CredentialCipher → RunnerInstance → Result BridgeConnection
unfolding connect_to not_ready
connection cipher instance =
    if is_ready instance.state
    then connect_to cipher instance.id (given instance.bridge_url)
        (given instance.bridge_token_encrypted)
    else not_ready

unfoldable pub session_connection :
    Db → CredentialCipher → Principal → String → String → Result (BridgeConnection × SessionBinding)
unfolding owned_instance owned_session connection
session_connection db cipher caller subject_ref id = do
  instance ← owned_instance db caller subject_ref
  binding ← owned_session db caller subject_ref id
  bridge ← connection cipher instance
  ok (bridge, binding)

-- `SessionEnsure`
pub record SessionEnsure : Type 0 where
  pub title : String
  pub model_slug : String
  pub cwd : Option String
  pub legacy_bridge_session_id : Option String
  pub legacy_cwd : Option String

is_retired : CatalogState → Bool
is_retired CatalogState.retired = true
is_retired _ = false

is_published : CatalogState → Bool
is_published CatalogState.published = true
is_published _ = false

-- `a or b`
or_else : Option String → Option String → Option String
or_else (some a) b = some a
or_else none b = b

cwd_or : String → Option String → String
cwd_or id none = str_append "/root/workspace/sessions/" id
cwd_or id (some cwd) = cwd

new_session : ℕ → ℕ → String → SessionEnsure → SessionBinding
unfolding or_else cwd_or
new_session new_id i id payload = record {
  id = new_id;
  instance_id = i;
  external_session_id = id;
  bridge_session_id = payload.legacy_bridge_session_id;
  title = payload.title;
  model_slug = payload.model_slug;
  cwd = cwd_or id (or_else (given payload.cwd) (given payload.legacy_cwd));
  state = SessionState.provisioning;
  active_turn_id = none;
}

-- The checks of `_prepare_session` on a session that is new.
allow_model : Db → RunnerInstance → String → Result (Unit {0})
unfolding is_retired is_published member
allow_model db instance slug = elim (get policy_id instance.policy_id db.policies) [
  | none ↦ raise (problem (manager_problem 422 "policy_not_published"))
  | some policy ↦
      if is_retired policy.state
      then raise (problem (manager_problem 422 "policy_not_published"))
      else if not (member slug policy.model_slugs)
      then raise (problem (manager_problem 422 "model_not_allowed"))
      else elim (find (λ m. str_eq m.slug slug && is_published m.state) db.models) [
        | none ↦ raise (problem (manager_problem 422 "model_not_published"))
        | some model ↦ ok tt
      ]
]

create_session : Db → RunnerInstance → ℕ → String → SessionEnsure → Result (SessionBinding × Db)
unfolding allow_model new_session
create_session db instance new_id id payload = do
  _ ← allow_model db instance payload.model_slug
  let binding = new_session new_id instance.id id payload
  ok (binding, record db { sessions = db.sessions ++ binding ∷ [] })

find_or_create : Db → RunnerInstance → ℕ → String → SessionEnsure → Result (SessionBinding × Db)
unfolding create_session
find_or_create db instance new_id id payload = elim (find (session_of instance.id id) db.sessions) [
  | some binding ↦ ok (binding, db)
  | none ↦ create_session db instance new_id id payload
]

unfoldable pub prepare_session :
    Db
    → CredentialCipher
    → Principal
    → String
    → String
    → SessionEnsure
    → ℕ
    → Result (BridgeConnection × SessionBinding × Db)
unfolding owned_instance connection find_or_create
prepare_session db cipher caller subject_ref id payload new_id = do
  instance ← owned_instance db caller subject_ref
  bridge ← connection cipher instance
  (binding, db') ← find_or_create db instance new_id id payload
  ok (bridge, binding, db')
