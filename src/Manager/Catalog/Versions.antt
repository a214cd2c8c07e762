-- ===== src/Manager/Catalog/Versions.antt =====
-- After an item is synchronised, its latest revision is published and is as it is configured; other
-- slugs are as they were.
use pi_opensandbox_runner.Base.{
  ℕ, ◌+◌, ◌≤◌, String, ◌≡◌, refl, ◌∙◌, ap, true, false, ◌&&◌, Option, none, some, List, [], ◌∷◌,
  ◌++◌, map, str_eq, eq_iff, if◌then◌else◌, arith, Bool-cases, Option-cases, inl, inr,
}
use pi_opensandbox_runner.Manager.Models.{CatalogState, published, superseded}
use pi_opensandbox_runner.Manager.Catalog.{
  Versioned, state_is_published, newer, newest, revision_of, is_match, is_kept, supersede_row,
  version, sync_one,
}

-- What the synchronisation relies on.
pub record Laws {A C : Type 0} (v : Versioned A C) : Type 0 where
  pub slug_kept : (s : CatalogState) (a : A) → v.slug (v.with_state s a) ≡ v.slug a
  pub revision_kept : (s : CatalogState) (a : A) → v.revision (v.with_state s a) ≡ v.revision a
  pub state_set : (s : CatalogState) (a : A) → v.state (v.with_state s a) ≡ s
  pub made_slug : (id n : ℕ) (c : C) → v.slug (v.make id n c) ≡ v.wanted c
  pub made_revision : (id n : ℕ) (c : C) → v.revision (v.make id n c) ≡ n
  pub made_state : (id n : ℕ) (c : C) → v.state (v.make id n c) ≡ published
  pub made_same : (id n : ℕ) (c : C) → v.same (v.make id n c) c ≡ true

module _ {A C : Type 0} (v : Versioned A C) (laws : Laws v) where
  -- The latest revision of an item is published, as configured, and has this number.
  abbrev pub Settled : C → ℕ → List A → Type 0
  Settled c n rows =
      (a : A) × (newest v (v.wanted c) rows ≡ some a)
      × (is_match v c (some a) ≡ true)
      × (v.revision a ≡ n)

  pub supersede_row-slug : (s : String) (a : A) → v.slug (supersede_row v s a) ≡ v.slug a
  supersede_row-slug s a =
      elim (Bool-cases (str_eq (v.slug a) s && state_is_published (v.state a))) [
        | inl e ↦ rw e (laws.slug_kept superseded a)
        | inr e ↦ rw e refl
      ]

  supersede_row-revision : (s : String) (a : A) → v.revision (supersede_row v s a) ≡ v.revision a
  supersede_row-revision s a =
      elim (Bool-cases (str_eq (v.slug a) s && state_is_published (v.state a))) [
        | inl e ↦ rw e (laws.revision_kept superseded a)
        | inr e ↦ rw e refl
      ]

  newer_mono :
      (a b : A) (o p : Option A)
      → v.revision a ≡ v.revision b
      → revision_of v o ≡ revision_of v p
      → revision_of v (newer v a o) ≡ revision_of v (newer v b p)
  newer_mono a b none none h k = h
  newer_mono a b none (some q) h k = ground (arith, h, k)
  newer_mono a b (some p) none h k = ground (arith, h, k)
  newer_mono a b (some p) (some q) h k = ground (arith, h, k)

  newer_if_mono :
      (s : String) (a b : A) (o p : Option A)
      → v.slug a ≡ v.slug b
      → v.revision a ≡ v.revision b
      → revision_of v o ≡ revision_of v p
      → revision_of v (if str_eq (v.slug a) s then newer v a o else o)
        ≡ revision_of v (if str_eq (v.slug b) s then newer v b p else p)
  newer_if_mono s a b o p h r k = rw h (elim (Bool-cases (str_eq (v.slug b) s)) [
    | inl e ↦ rw e (newer_mono a b o p r k)
    | inr e ↦ rw e k
  ])

  -- Superseding changes no number.
  newest-supersede :
      (s : String) (rows : List A)
      → revision_of v (newest v s (map (supersede_row v s) rows)) ≡ revision_of v (newest v s rows)
  unfolding newest
  newest-supersede s [] = refl
  newest-supersede s (a ∷ rows) =
      let ih = newest-supersede s rows in
      newer_if_mono s (supersede_row v s a) a _ _ (supersede_row-slug s a)
        (supersede_row-revision s a) ih

  newer-bound :
      (a : A) (o : Option A)
      → (v.revision a ≤ revision_of v (newer v a o))
        × (revision_of v o ≤ revision_of v (newer v a o))
  newer-bound a none = (omega arith, omega arith)
  newer-bound a (some b) = ground arith

  -- A row with a greater number is the latest.
  newest-append :
      (s : String) (rows : List A) (m : A)
      → v.slug m ≡ s
      → revision_of v (newest v s rows) + 1 ≤ v.revision m
      → newest v s (rows ++ m ∷ []) ≡ some m
  unfolding newest
  newest-append s [] m h k = rw ((eq_iff (v.slug m) s).1 h) refl
  newest-append s (a ∷ rows) m h k = elim (Bool-cases (str_eq (v.slug a) s)) [
    | inr e ↦ rw e (newest-append s rows m h (rw e at k))
    | inl e ↦
        let k' : revision_of v (newer v a (newest v s rows)) + 1 ≤ v.revision m = rw e at k in
        let b = newer-bound a (newest v s rows) in
        let ih = newest-append s rows m h (omega (arith, k', b)) in
        rw (e, ih) (ground (arith, k', b))
  ]

  newest-append_other :
      (s : String) (rows : List A) (m : A)
      → str_eq (v.slug m) s ≡ false
      → newest v s (rows ++ m ∷ []) ≡ newest v s rows
  unfolding newest
  newest-append_other s [] m h = rw h refl
  newest-append_other s (a ∷ rows) m h = rw (newest-append_other s rows m h) refl

  pub supersede_row-other :
      (t s : String) (a : A)
      → str_eq t s ≡ false
      → str_eq (v.slug a) s ≡ true
      → supersede_row v t a ≡ a
  supersede_row-other t s a h e = elim (Bool-cases (str_eq (v.slug a) t)) [
    | inr n ↦ rw n refl
    | inl y ↦ absurd (ground (arith, h, e, ap (λ x. str_eq x s) ((eq_iff (v.slug a) t).0 y)))
  ]

  newest-supersede_other :
      (t s : String) (rows : List A)
      → str_eq t s ≡ false
      → newest v s (map (supersede_row v t) rows) ≡ newest v s rows
  unfolding newest
  newest-supersede_other t s [] h = refl
  newest-supersede_other t s (a ∷ rows) h =
      rw (supersede_row-slug t a, newest-supersede_other t s rows h)
        (elim (Bool-cases (str_eq (v.slug a) s)) [
          | inr e ↦ rw e refl
          | inl e ↦ rw (e, supersede_row-other t s a h e) refl
        ])

  pub sync_one_made :
      (id : ℕ) (c : C) (rows : List A)
      → is_kept v c rows ≡ false
      → sync_one v id c rows
        ≡ map (supersede_row v (v.wanted c)) rows ++ v.make id (version v c rows) c ∷ []
  unfolding sync_one
  sync_one_made id c rows k = rw (k, sync_one) refl

  -- An item that is synchronised is settled.
  pub sync_one-Settled :
      (id : ℕ) (c : C) (rows : List A) → Settled c (version v c rows) (sync_one v id c rows)
  unfolding sync_one
  sync_one-Settled id c rows = elim (Bool-cases (is_kept v c rows)) [
    | inl k ↦ elim (Option-cases (newest v (v.wanted c) rows)) [
      | inl n ↦ absurd (ground (arith, k, n))
      | inr (a, e) ↦ (a, rw (k, sync_one) e, ground (arith, k, e), ground (arith, k, e))
    ]
    | inr k ↦
        let n = version v c rows in
        let m = v.make id n c in
        let more = newest-supersede (v.wanted c) rows in
        let number = laws.made_revision id n c in
        let above : revision_of v (newest v (v.wanted c) (map (supersede_row v (v.wanted c)) rows))
              + 1
            ≤ v.revision m =
          ground (arith, k, more, number) in
        let is_new =
          newest-append (v.wanted c) (map (supersede_row v (v.wanted c)) rows) m
            (laws.made_slug id n c) above in
        let state = laws.made_state id n c in
        let same = laws.made_same id n c in
        (
          m,
          ap (newest v (v.wanted c)) (sync_one_made id c rows k) ∙ is_new,
          ground (arith, state, same),
          number,
        )
  ]

  -- An item leaves the latest revision of another slug as it is.
  pub sync_one-other :
      (id : ℕ) (d : C) (s : String) (rows : List A)
      → str_eq (v.wanted d) s ≡ false
      → newest v s (sync_one v id d rows) ≡ newest v s rows
  unfolding sync_one
  sync_one-other id d s rows h = elim (Bool-cases (is_kept v d rows)) [
    | inl k ↦ rw (k, sync_one) refl
    | inr k ↦
        rw (k, sync_one)
          (newest-append_other s (map (supersede_row v (v.wanted d)) rows) _
              (ap (λ x. str_eq x s) (laws.made_slug id _ d) ∙ h)
            ∙ newest-supersede_other (v.wanted d) s rows h)
  ]

  pub sync_one-unchanged :
      (id : ℕ) (c : C) (n : ℕ) (rows : List A)
      → Settled c n rows
      → (is_kept v c rows ≡ true) × (version v c rows ≡ n) × (sync_one v id c rows ≡ rows)
  unfolding sync_one
  sync_one-unchanged id c n rows (a, e, k, r) =
      let kept : is_kept v c rows ≡ true = rw e k in
      (kept, ground (arith, kept, e, r), rw (kept, sync_one) refl)
