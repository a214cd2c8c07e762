-- ===== src/Manager/Operations/Idempotent.antt =====
-- A request to ensure an instance may be repeated: the second one finds what the first one made.
use Prim.Native.String.{◌++◌ as str_append}
use pi_opensandbox_runner.Base.{
  ℕ, String, ◌≡◌, refl, ◌∙◌, Bool, true, false, ◌||◌, ◌&&◌, not, Option, none, some, ◌⊎◌, inl, inr,
  [], ◌∷◌, ◌++◌, arith, eq_iff, ◌==◌, if◌then◌else◌, Bool-cases, Option-cases, ==_refl,
}
use pi_opensandbox_runner.Base.Table.{find, get, latest, get-append_new, find-holds}
use pi_opensandbox_runner.Base.Rows.{
  Unique, get_of_find, find-modify, modify_same, find-append_none, get-modify_to,
  latest-append_skip,
}
use pi_opensandbox_runner.Manager.Problem.{
  Result, ok, raise, Holds, Holds-bind, Holds-ok, Holds-then,
}
use pi_opensandbox_runner.Manager.Crypto.{CredentialCipher, encrypt}
use pi_opensandbox_runner.Manager.Models.{
  provision, RunnerInstance, RunnerPolicy, ManagerOperation, Db, instance_id, InstanceState,
}
use pi_opensandbox_runner.Manager.Operations.{
  Fresh, is_ready, is_gone, owned_by, active_on, completed_on, published_policy, join_or_queue,
  new_instance, requeue, queue_existing, ensure_existing, create_or_renew, ensure_instance,
  new_operation, update_instance,
}

-- What the second request reads: the instance, and the operation that it would return.
record Settled (consumer_id : ℕ) (subject_ref : String) (policy : RunnerPolicy) (db : Db)
    (t : RunnerInstance × ManagerOperation × Db) : Type 0 where
  found : find (owned_by consumer_id subject_ref) t.2.instances ≡ some t.0
  stored : get instance_id t.0.id t.2.instances ≡ some t.0
  same_policy : t.0.policy_id ≡ policy.id
  same_policies : t.2.policies ≡ db.policies
  answer :
      ((is_ready t.0.state ≡ true)
        × (latest (λ o. o.created_at) (completed_on t.0.id) t.2.operations ≡ some t.1))
      ⊎ ((is_ready t.0.state ≡ true
            → latest (λ o. o.created_at) (completed_on t.0.id) t.2.operations ≡ none)
          × (is_gone t.0.state ≡ false)
          × (find (active_on t.0.id provision) t.2.operations ≡ some t.1))

queued_is_active :
    (fresh : Fresh) (i : RunnerInstance)
    → active_on i.id provision
        (new_operation fresh.operation_id i.consumer_id i.id provision "queued" fresh.now)
      ≡ true
unfolding new_operation
queued_is_active fresh i = rw (==_refl i.id)

queued_is_later :
    (db : Db) (fresh : Fresh) (i : RunnerInstance)
    → latest
        (λ o. o.created_at)
        (completed_on i.id)
        (db.operations
          ++ new_operation fresh.operation_id i.consumer_id i.id provision "queued" fresh.now ∷ [])
      ≡ latest (λ o. o.created_at) (completed_on i.id) db.operations
unfolding new_operation
queued_is_later db fresh i =
    latest-append_skip (λ o. o.created_at) (completed_on i.id) db.operations _ (ground arith)

-- `i` is the row of the same subject as `found`.
abbrev SameOwner : RunnerInstance → RunnerInstance → Type 0
SameOwner found i =
    (i.id ≡ found.id) × (i.consumer_id ≡ found.consumer_id) × (i.subject_ref ≡ found.subject_ref)

abbrev IsRenewed : RunnerInstance → RunnerInstance → Type 0
IsRenewed found i =
    SameOwner found i × (i.policy_id ≡ found.policy_id) × (i.state ≡ InstanceState.provisioning)

requeue-IsRenewed :
    (cipher : CredentialCipher) (fresh : Fresh) (found : RunnerInstance)
    → Holds (IsRenewed found) (requeue cipher fresh found)
unfolding requeue
requeue-IsRenewed cipher fresh found =
    Holds-bind (IsRenewed found) (encrypt cipher fresh.bridge_secret) _ λ token.
      Holds-bind (IsRenewed found) (encrypt cipher (str_append "sk-" fresh.litellm_secret)) _
        λ key. ((refl, refl, refl), refl, refl)

abbrev IsNew : Fresh → ℕ → String → ℕ → RunnerInstance → Type 0
IsNew fresh consumer_id subject_ref policy i =
    (i.id ≡ fresh.instance_id)
    × (i.consumer_id ≡ consumer_id)
    × (i.subject_ref ≡ subject_ref)
    × (i.policy_id ≡ policy)
    × (i.state ≡ InstanceState.provisioning)

new_instance-IsNew :
    (cipher : CredentialCipher) (digest : ℕ → String → String) (fresh : Fresh) (consumer_id : ℕ)
    (subject_ref : String) (policy : ℕ)
    → Holds
        (IsNew fresh consumer_id subject_ref policy)
        (new_instance cipher digest fresh consumer_id subject_ref policy)
unfolding new_instance
new_instance-IsNew cipher digest fresh consumer_id subject_ref policy =
    Holds-bind (IsNew fresh consumer_id subject_ref policy) (encrypt cipher fresh.bridge_secret) _
      λ token.
        Holds-bind (IsNew fresh consumer_id subject_ref policy)
          (encrypt cipher (str_append "sk-" fresh.litellm_secret)) _
          λ key. (refl, refl, refl, refl, refl)

module _ (consumer_id : ℕ) (subject_ref : String) (policy : RunnerPolicy) where
  join_or_queue-Settled :
      (db₀ db : Db) (fresh : Fresh) (instance : RunnerInstance)
      → find (owned_by consumer_id subject_ref) db.instances ≡ some instance
      → get instance_id instance.id db.instances ≡ some instance
      → instance.policy_id ≡ policy.id
      → db.policies ≡ db₀.policies
      → (is_ready instance.state ≡ true
          → latest (λ o. o.created_at) (completed_on instance.id) db.operations ≡ none)
      → is_gone instance.state ≡ false
      → Settled consumer_id subject_ref policy db₀ (join_or_queue db fresh instance)
  unfolding join_or_queue
  join_or_queue-Settled db₀ db fresh instance f g p ps c n =
      elim (Option-cases (find (active_on instance.id provision) db.operations)) [
        | inr (o, e) ↦
            rw (e, join_or_queue)
              (record {
                found = f;
                stored = g;
                same_policy = p;
                same_policies = ps;
                answer = inr (c, n, e);
              })
        | inl e ↦
            rw (e, join_or_queue)
              (record {
                found = f;
                stored = g;
                same_policy = p;
                same_policies = ps;
                answer = inr (
                  λ r. queued_is_later db fresh instance ∙ c r,
                  n,
                  find-append_none _ db.operations _ e (queued_is_active fresh instance),
                );
              })
      ]

  -- The second request, on what the first one left.
  ensure_existing_of_Settled :
      (cipher : CredentialCipher) (db : Db) (fresh : Fresh)
      (t : RunnerInstance × ManagerOperation × Db)
      → Settled consumer_id subject_ref policy db t
      → ensure_existing cipher t.2 fresh t.0 policy ≡ ok t
  unfolding ensure_existing join_or_queue
  ensure_existing_of_Settled cipher db fresh t s =
      ground
        (arith, s.answer, s.same_policy, modify_same instance_id t.0.id t.2.instances t.0 s.stored)

  owned_by_same :
      (found i : RunnerInstance)
      → SameOwner found i
      → owned_by consumer_id subject_ref found ≡ true
      → owned_by consumer_id subject_ref i ≡ true
  owned_by_same found i own h = cc

  owned_by_new :
      (fresh : Fresh) (i : RunnerInstance)
      → IsNew fresh consumer_id subject_ref policy.id i
      → owned_by consumer_id subject_ref i ≡ true
  owned_by_new fresh i q = ground (arith, eq_iff i.subject_ref subject_ref)

  -- The stored row after the first request, under the policy and with the same owner.
  renewed-Settled :
      (db : Db) (fresh : Fresh) (found i : RunnerInstance)
      → find (owned_by consumer_id subject_ref) db.instances ≡ some found
      → get instance_id found.id db.instances ≡ some found
      → SameOwner found i
      → i.policy_id ≡ policy.id
      → (is_ready i.state ≡ true
          → latest (λ o. o.created_at) (completed_on i.id) db.operations ≡ none)
      → is_gone i.state ≡ false
      → Settled consumer_id subject_ref policy db
          (join_or_queue (update_instance db i.id (λ _. i)) fresh i)
  renewed-Settled db fresh found i f g own p c n =
      let g' : get instance_id i.id db.instances ≡ some found = rw own.0 g in
      join_or_queue-Settled db _ fresh i
        (find-modify instance_id _ (λ _. i) i.id db.instances found g' f
          (owned_by_same found i own (find-holds _ db.instances found f)))
        (get-modify_to instance_id i.id (λ _. i) db.instances found g' refl) p refl c n

  queue_existing-Settled :
      (cipher : CredentialCipher) (db : Db) (fresh : Fresh) (found i : RunnerInstance)
      (changed : Bool) (completed : Option ManagerOperation)
      → find (owned_by consumer_id subject_ref) db.instances ≡ some found
      → get instance_id found.id db.instances ≡ some found
      → SameOwner found i
      → i.policy_id ≡ policy.id
      → ((o : ManagerOperation)
          → completed ≡ some o
          → (is_ready i.state ≡ true)
            × (latest (λ o. o.created_at) (completed_on i.id) db.operations ≡ some o))
      → (completed ≡ none
          → changed ≡ false
          → is_ready i.state ≡ true
          → latest (λ o. o.created_at) (completed_on i.id) db.operations ≡ none)
      → Holds
          (Settled consumer_id subject_ref policy db)
          (queue_existing cipher db fresh i changed completed)
  unfolding queue_existing
  queue_existing-Settled cipher db fresh found i changed (some o) f g own p early late =
      let g' : get instance_id i.id db.instances ≡ some found = rw own.0 g in
      record {
        found =
            find-modify instance_id _ (λ _. i) i.id db.instances found g' f
              (owned_by_same found i own (find-holds _ db.instances found f));
        stored = get-modify_to instance_id i.id (λ _. i) db.instances found g' refl;
        same_policy = p;
        same_policies = refl;
        answer = inl (early o refl);
      }
  queue_existing-Settled cipher db fresh found i changed none f g own p early late =
      elim (Bool-cases (changed || is_gone i.state)) [
        | inl e ↦ rw e (
            Holds-then (IsRenewed i) _ (requeue cipher fresh i) _ (requeue-IsRenewed cipher fresh i)
              λ r q.
                let s : get instance_id i.id db.instances ≡ some found = rw own.0 g in
                rw (← q.0.0) (
                  renewed-Settled db fresh found r f g (q.0.0 ∙ own.0, q.0.1 ∙ own.1, q.0.2 ∙ own.2)
                    (q.1 ∙ p) (λ x. absurd (ground arith)) (ground arith)))
        | inr e ↦ rw e (
            renewed-Settled db fresh found i f g own p (λ r. late refl (ground arith) r)
              (ground arith))
      ]

  ensure_existing-Settled :
      (cipher : CredentialCipher) (db : Db) (fresh : Fresh) (found : RunnerInstance)
      → find (owned_by consumer_id subject_ref) db.instances ≡ some found
      → get instance_id found.id db.instances ≡ some found
      → Holds
          (Settled consumer_id subject_ref policy db)
          (ensure_existing cipher db fresh found policy)
  unfolding ensure_existing
  ensure_existing-Settled cipher db fresh found f g =
      let changed = not (found.policy_id == policy.id) in
      queue_existing-Settled cipher db fresh found (record found { policy_id = policy.id }) changed
        (if is_ready found.state && not changed
          then latest (λ o. o.created_at) (completed_on found.id) db.operations
          else none)
        f g (refl, refl, refl) refl (λ o h. ground arith) (λ h c r. ground arith)

  create_or_renew-Settled :
      (cipher : CredentialCipher) (digest : ℕ → String → String) (db : Db) (fresh : Fresh)
      → Unique instance_id db.instances
      → get instance_id fresh.instance_id db.instances ≡ none
      → Holds
          (Settled consumer_id subject_ref policy db)
          (create_or_renew cipher digest db fresh consumer_id subject_ref policy)
  unfolding create_or_renew
  create_or_renew-Settled cipher digest db fresh u new =
      elim (Option-cases (find (owned_by consumer_id subject_ref) db.instances)) [
        | inl e ↦
            rw (e, create_or_renew)
              (Holds-then (IsNew fresh consumer_id subject_ref policy.id) _
                (new_instance cipher digest fresh consumer_id subject_ref policy.id) _
                (new_instance-IsNew cipher digest fresh consumer_id subject_ref policy.id)
                λ i q.
                  join_or_queue-Settled db _ fresh i
                    (find-append_none _ db.instances i e (owned_by_new fresh i q))
                    (get-append_new instance_id i.id db.instances i (rw (q.0) new) refl) q.3 refl
                    (λ x. absurd (ground arith)) (ground arith))
        | inr (found, e) ↦
            rw (e, create_or_renew)
              (ensure_existing-Settled cipher db fresh found e
                (get_of_find instance_id _ db.instances found u e))
      ]

published_policy_same :
    (db db' : Db) (slug : String)
    → db'.policies ≡ db.policies
    → published_policy db' slug ≡ published_policy db slug
unfolding published_policy
published_policy_same db db' slug h = cc

create_or_renew_of_Settled :
    (consumer_id : ℕ) (subject_ref : String) (policy : RunnerPolicy) (cipher : CredentialCipher)
    (digest : ℕ → String → String) (db : Db) (fresh : Fresh)
    (t : RunnerInstance × ManagerOperation × Db)
    → Settled consumer_id subject_ref policy db t
    → create_or_renew cipher digest t.2 fresh consumer_id subject_ref policy ≡ ok t
unfolding create_or_renew
create_or_renew_of_Settled consumer_id subject_ref policy cipher digest db fresh t s =
    rw (s.found, create_or_renew)
      (ensure_existing_of_Settled consumer_id subject_ref policy cipher db fresh t s)

-- Once a request to ensure an instance has been accepted, the same request again, with whatever
-- ids, secrets and time it would generate, returns the same instance and the same operation and
-- changes nothing in the database: it makes no second instance or operation and rotates no
-- credential. Row ids are unique, and the first request generated a new one.
pub ensure_instance_repeated :
    (cipher : CredentialCipher) (digest : ℕ → String → String) (db : Db) (fresh again : Fresh)
    (consumer_id : ℕ) (subject_ref policy_slug : String) (instance : RunnerInstance)
    (operation : ManagerOperation) (db' : Db)
    → Unique instance_id db.instances
    → get instance_id fresh.instance_id db.instances ≡ none
    → ensure_instance cipher digest db fresh consumer_id subject_ref policy_slug
      ≡ ok (instance, operation, db')
    → ensure_instance cipher digest db' again consumer_id subject_ref policy_slug
      ≡ ok (instance, operation, db')
unfolding ensure_instance
ensure_instance_repeated cipher digest db fresh again consumer_id subject_ref policy_slug instance
      operation db' u new h =
    by_policy (published_policy db policy_slug) refl
  where
    by_policy :
        (r : Result RunnerPolicy)
        → published_policy db policy_slug ≡ r
        → ensure_instance cipher digest db' again consumer_id subject_ref policy_slug
          ≡ ok (instance, operation, db')
    by_policy (raise x) e = absurd (cc (rw (e, ensure_instance) at h))
    by_policy (ok policy) e =
        let first : create_or_renew cipher digest db fresh consumer_id subject_ref policy
            ≡ ok (instance, operation, db') =
          rw (e, ensure_instance) at h in
        let s : Settled consumer_id subject_ref policy db (instance, operation, db') =
          Holds-ok (Settled consumer_id subject_ref policy db) _ (instance, operation, db') first
            (create_or_renew-Settled consumer_id subject_ref policy cipher digest db fresh u new) in
        rw (published_policy_same db db' policy_slug s.same_policies, e)
          (create_or_renew_of_Settled consumer_id subject_ref policy cipher digest db again
            (instance, operation, db') s)
