-- ===== src/Manager/Catalog/Sync.antt =====
-- Synchronising the catalog twice.
use pi_opensandbox_runner.Base.{
  ℕ, String, ◌≡◌, refl, ◌∙◌, ap, Bool, true, false, ◌&&◌, Option, none, some, List, [], ◌∷◌, map,
  arith, str_eq, eq_iff, ==_refl, if◌then◌else◌, bit, ◌≤◌,
}
use pi_opensandbox_runner.Base.Table.{count}
use pi_opensandbox_runner.Manager.Models.{ModelDeployment, RunnerPolicy, Db}
use pi_opensandbox_runner.Manager.Catalog.{Versioned, state_is_published, is_wanted, sync_rows}
use pi_opensandbox_runner.Manager.Catalog.Versions.{Laws}
use pi_opensandbox_runner.Manager.Catalog.Settled.{Distinct, sync_rows_again}
use pi_opensandbox_runner.Manager.Catalog.Published.{sync_rows-published}
use pi_opensandbox_runner.Manager.Catalog.Document.{
  CatalogModel, CatalogPolicy, CatalogDocument, member_of, no_repeats, validate_references,
  same_option, same_bool, same_texts, versions_in, same_versions, same_model, make_model,
  same_policy, make_policy, revisions_of, model_rows, policy_rows, sync_catalog,
}

str_eq_refl : (s : String) → str_eq s s ≡ true
str_eq_refl s = (eq_iff s s).1 refl

same_option_refl : (o : Option String) → same_option o o ≡ true
same_option_refl none = refl
same_option_refl (some s) = str_eq_refl s

same_bool_refl : (b : Bool) → same_bool b b ≡ true
same_bool_refl true = refl
same_bool_refl false = refl

same_texts_refl : (ss : List String) → same_texts ss ss ≡ true
same_texts_refl [] = refl
same_texts_refl (s ∷ ss) = rw (str_eq_refl s, same_texts_refl ss) refl

versions_in_more :
    (t : String) (n : ℕ) (ss ts : List (String × ℕ))
    → versions_in ss ts ≡ true
    → versions_in ss ((t, n) ∷ ts) ≡ true
versions_in_more t n [] ts h = refl
versions_in_more t n ((s, m) ∷ ss) ts h = ground (arith, h, versions_in_more t n ss ts)

versions_in_refl : (ss : List (String × ℕ)) → versions_in ss ss ≡ true
versions_in_refl [] = refl
versions_in_refl ((s, n) ∷ ss) =
    rw (str_eq_refl s, ==_refl n, versions_in_more s n ss ss (versions_in_refl ss)) refl

same_versions_refl : (ss : List (String × ℕ)) → same_versions ss ss ≡ true
same_versions_refl ss = rw (versions_in_refl ss) refl

-- The row that is made of an item is as the item says.
make_model-same : (id n : ℕ) (c : CatalogModel) → same_model (make_model id n c) c ≡ true
unfolding same_model make_model
make_model-same id n c =
    rw
      (
        str_eq_refl c.slug,
        str_eq_refl c.label,
        str_eq_refl c.provider_model,
        str_eq_refl c.api,
        same_option_refl c.secret_ref,
        ==_refl c.context_window,
        ==_refl c.max_tokens,
        same_bool_refl c.reasoning,
        same_texts_refl c.input,
      )
      refl

make_policy-same :
    (revisions : List (String × ℕ)) (id n : ℕ) (c : CatalogPolicy)
    → same_policy revisions (make_policy revisions id n c) c ≡ true
unfolding same_policy make_policy
make_policy-same revisions id n c =
    rw
      (
        same_texts_refl c.model_slugs,
        same_versions_refl revisions,
        same_texts_refl c.egress_domains,
        same_texts_refl c.mcp_server_ids,
        str_eq_refl c.slug,
        str_eq_refl c.label,
        str_eq_refl c.default_model_slug,
        str_eq_refl c.cpu,
        str_eq_refl c.memory,
        ==_refl c.max_active_sessions,
        ==_refl c.max_budget,
        str_eq_refl c.budget_duration,
        ==_refl c.rpm_limit,
        ==_refl c.tpm_limit,
        ==_refl c.max_parallel_requests,
      )
      refl

model_rows-Laws : Laws model_rows
unfolding make_model
model_rows-Laws = record {
  slug_kept = λ s a. refl;
  revision_kept = λ s a. refl;
  state_set = λ s a. refl;
  made_slug = λ id n c. refl;
  made_revision = λ id n c. refl;
  made_state = λ id n c. refl;
  made_same = make_model-same;
}

policy_rows-Laws : (versions : List (String × ℕ)) → Laws (policy_rows versions)
unfolding make_policy
policy_rows-Laws versions = record {
  slug_kept = λ s a. refl;
  revision_kept = λ s a. refl;
  state_set = λ s a. refl;
  made_slug = λ id n c. refl;
  made_revision = λ id n c. refl;
  made_state = λ id n c. refl;
  made_same = λ id n c. make_policy-same (revisions_of versions c) id n c;
}

if_bit : (b : Bool) → (if b then 1 else 0) ≡ bit b
if_bit true = refl
if_bit false = refl

module _ {A C : Type 0} (v : Versioned A C) where
  is_wanted-member :
      (s : String) (items : List C) → is_wanted v s items ≡ member_of s (map v.wanted items)
  unfolding is_wanted
  is_wanted-member s [] = refl
  is_wanted-member s (c ∷ items) = rw (is_wanted-member s items) refl

  no_repeats-Distinct :
      (laws : Laws v) (items : List C)
      → no_repeats (map v.wanted items) ≡ true
      → Distinct v laws items
  no_repeats-Distinct laws [] h = tt
  no_repeats-Distinct laws (c ∷ items) h = (
    ground (arith, h, is_wanted-member (v.wanted c) items),
    no_repeats-Distinct laws items (ground (arith, h)),
  )

-- With a document whose references are valid, the catalog that a synchronisation leaves is not changed by
-- another one with the same document, whatever ids it would give: it reports no change and the database
-- is as it was, the revisions that the policies pin included.
pub sync_catalog_again :
    (model_ids model_ids' : CatalogModel → ℕ) (policy_ids policy_ids' : CatalogPolicy → ℕ)
    (document : CatalogDocument) (db : Db)
    → validate_references document ≡ true
    → (let synced = (sync_catalog model_ids policy_ids document db).1 in
        sync_catalog model_ids' policy_ids' document synced ≡ (false, synced))
unfolding sync_catalog validate_references
sync_catalog_again model_ids model_ids' policy_ids policy_ids' document db h =
    let m = sync_rows model_rows model_ids document.models db.models in
    let v = policy_rows m.1 in
    let models =
      no_repeats-Distinct model_rows model_rows-Laws document.models (ground (arith, h)) in
    let policies =
      no_repeats-Distinct v (policy_rows-Laws m.1) document.policies (ground (arith, h)) in
    rw
      (
        sync_rows_again model_rows model_rows-Laws model_ids model_ids' document.models db.models
            models,
        sync_rows_again v (policy_rows-Laws m.1) policy_ids policy_ids' document.policies
            db.policies policies,
      )
      refl

abbrev pub published_model : String → ModelDeployment → Bool
published_model s r = str_eq r.slug s && state_is_published r.state

abbrev pub published_policy_of : String → RunnerPolicy → Bool
published_policy_of s r = str_eq r.slug s && state_is_published r.state

-- With a document whose references are valid, and a slug of which at most one model and one policy are
-- published, a synchronisation leaves one published model of the slug if it is a configured model and none
-- if it is not, and likewise for policies.
pub sync_catalog-published :
    (model_ids : CatalogModel → ℕ) (policy_ids : CatalogPolicy → ℕ) (document : CatalogDocument)
    (db : Db) (s : String)
    → validate_references document ≡ true
    → count (published_model s) db.models ≤ 1
    → count (published_policy_of s) db.policies ≤ 1
    → (let synced = (sync_catalog model_ids policy_ids document db).1 in
        (count (published_model s) synced.models
          ≡ bit (member_of s (map (λ m. m.slug) document.models)))
        × (count (published_policy_of s) synced.policies
            ≡ bit (member_of s (map (λ p. p.slug) document.policies))))
unfolding sync_catalog validate_references
sync_catalog-published model_ids policy_ids document db s h a b =
    let m = sync_rows model_rows model_ids document.models db.models in
    let v = policy_rows m.1 in
    let models =
      no_repeats-Distinct model_rows model_rows-Laws document.models (ground (arith, h)) in
    let policies =
      no_repeats-Distinct v (policy_rows-Laws m.1) document.policies (ground (arith, h)) in
    (
      sync_rows-published model_rows model_rows-Laws model_ids document.models db.models s models a
          ∙ if_bit _
          ∙ ap bit (is_wanted-member model_rows s document.models),
      sync_rows-published v (policy_rows-Laws m.1) policy_ids document.policies db.policies s
            policies b
          ∙ if_bit _
          ∙ ap bit (is_wanted-member v s document.policies),
    )
