-- ===== src/Manager/Catalog/Settled.antt =====
-- A catalog that is settled is not changed by another synchronisation.
use pi_opensandbox_runner.Base.{
  ℕ, String, ◌≡◌, refl, ◌∙◌, sym, ap, Bool, true, false, not, ◌&&◌, List, [], ◌∷◌, str_eq, eq_iff,
  arith, Bool-cases, inl, inr,
}
use pi_opensandbox_runner.Manager.Models.{retired}
use pi_opensandbox_runner.Manager.Catalog.{
  Versioned, newest, sync_one, sync_all, is_wanted, is_stale, retire_stale, sync_rows,
}
use pi_opensandbox_runner.Manager.Catalog.Versions.{
  Laws, Settled, sync_one-other, sync_one-Settled, sync_one-unchanged,
}

pub and_false : (b : Bool) → (b && false) ≡ false
and_false true = refl
and_false false = refl

module _ {A C : Type 0} (v : Versioned A C) (laws : Laws v) where
  -- No two items are of one slug.
  abbrev pub Distinct : List C → Type 0
  Distinct [] = Unit
  Distinct (c ∷ items) = (is_wanted v (v.wanted c) items ≡ false) × Distinct items

  sync_all-other :
      (fresh : C → ℕ) (items : List C) (s : String) (rows : List A)
      → is_wanted v s items ≡ false
      → newest v s (sync_all v fresh items rows).2 ≡ newest v s rows
  unfolding sync_all is_wanted
  sync_all-other fresh [] s rows h = refl
  sync_all-other fresh (c ∷ items) s rows h =
      sync_all-other fresh items s (sync_one v (fresh c) c rows) (ground (arith, h))
      ∙ sync_one-other v laws (fresh c) c s rows (ground (arith, h))

  -- Every item is settled with the version that is noted for it.
  abbrev pub AllSettled : List C → List (String × ℕ) → List A → Type 0
  AllSettled [] versions rows = versions ≡ []
  AllSettled (c ∷ items) [] rows = Settled v laws c 0 rows × (true ≡ false)
  AllSettled (c ∷ items) ((s, n) ∷ versions) rows =
      (s ≡ v.wanted c) × Settled v laws c n rows × AllSettled items versions rows

  pub sync_all-AllSettled :
      (fresh : C → ℕ) (items : List C) (rows : List A)
      → Distinct items
      → (let o = sync_all v fresh items rows in AllSettled items o.1 o.2)
  unfolding sync_all
  sync_all-AllSettled fresh [] rows d = refl
  sync_all-AllSettled fresh (c ∷ items) rows d =
      let (a, e, k, r) = sync_one-Settled v laws (fresh c) c rows in
      (
        refl,
        (a, sync_all-other fresh items (v.wanted c) (sync_one v (fresh c) c rows) d.0 ∙ e, k, r),
        sync_all-AllSettled fresh items (sync_one v (fresh c) c rows) d.1,
      )

  -- A row that is retired is of no configured slug.
  pub stale-other :
      (items : List C) (s : String) (a : A)
      → is_stale v items a ≡ true
      → is_wanted v s items ≡ true
      → str_eq (v.slug a) s ≡ false
  stale-other items s a e h = elim (Bool-cases (str_eq (v.slug a) s)) [
    | inr n ↦ n
    | inl y ↦
        absurd (ground (arith, e, h, ap (λ x. is_wanted v x items) ((eq_iff (v.slug a) s).0 y)))
  ]

  newest-retire_stale :
      (items : List C) (s : String) (rows : List A)
      → is_wanted v s items ≡ true
      → newest v s (retire_stale v items rows).1 ≡ newest v s rows
  unfolding newest retire_stale
  newest-retire_stale items s [] h = refl
  newest-retire_stale items s (a ∷ rows) h = elim (Bool-cases (is_stale v items a)) [
    | inr e ↦ rw (e, newest-retire_stale items s rows h) refl
    | inl e ↦
        let other = stale-other items s a e h in
        rw (e, laws.slug_kept retired a, other, newest-retire_stale items s rows h) refl
  ]

  -- Retiring once is enough.
  retire_stale-again :
      (items : List C) (rows : List A)
      → retire_stale v items (retire_stale v items rows).1 ≡ (false, (retire_stale v items rows).1)
  unfolding retire_stale
  retire_stale-again items [] = refl
  retire_stale-again items (a ∷ rows) = elim (Bool-cases (is_stale v items a)) [
    | inr e ↦ rw (e, retire_stale-again items rows, e) refl
    | inl e ↦
        rw
          (
            e,
            laws.slug_kept retired a,
            laws.state_set retired a,
            retire_stale-again items rows,
            and_false (not (is_wanted v (v.slug a) items)),
          )
          refl
  ]

  AllSettled-retire_stale :
      (all items : List C) (versions : List (String × ℕ)) (rows : List A)
      → ((s : String) → is_wanted v s items ≡ true → is_wanted v s all ≡ true)
      → AllSettled items versions rows
      → AllSettled items versions (retire_stale v all rows).1
  unfolding is_wanted
  AllSettled-retire_stale all [] versions rows h k = k
  AllSettled-retire_stale all (c ∷ items) [] rows h k = absurd (ground (arith, k.1))
  AllSettled-retire_stale all (c ∷ items) ((s, n) ∷ versions) rows h (e, (a, f, m, r), k) =
      let here = h (v.wanted c) (ground (arith, (eq_iff (v.wanted c) (v.wanted c)).1 refl)) in
      (
        e,
        (a, newest-retire_stale all (v.wanted c) rows here ∙ f, m, r),
        AllSettled-retire_stale all items versions rows (λ t w. h t (ground (arith, w))) k,
      )

  sync_all-unchanged :
      (fresh : C → ℕ) (items : List C) (versions : List (String × ℕ)) (rows : List A)
      → AllSettled items versions rows
      → sync_all v fresh items rows ≡ (false, versions, rows)
  unfolding sync_all
  sync_all-unchanged fresh [] versions rows k = ap (λ l. (false, l, rows)) (sym k)
  sync_all-unchanged fresh (c ∷ items) [] rows k = absurd (ground (arith, k.1))
  sync_all-unchanged fresh (c ∷ items) ((s, n) ∷ versions) rows (e, t, k) =
      let (kept, number, same) = sync_one-unchanged v laws (fresh c) c n rows t in
      rw (number, kept, same, sync_all-unchanged fresh items versions rows k)
        (ap (λ t. (false, (t, n) ∷ versions, rows)) (sym e))

  -- A second synchronisation with the same items changes nothing and notes the same versions.
  pub sync_rows_again :
      (fresh fresh' : C → ℕ) (items : List C) (rows : List A)
      → Distinct items
      → (let o = sync_rows v fresh items rows in sync_rows v fresh' items o.2 ≡ (false, o.1, o.2))
  unfolding sync_rows
  sync_rows_again fresh fresh' items rows d =
      let o = sync_all v fresh items rows in
      let k =
        AllSettled-retire_stale items items o.1 o.2 (λ s w. w)
          (sync_all-AllSettled fresh items rows d) in
      rw
        (
          sync_all-unchanged fresh' items o.1 (retire_stale v items o.2).1 k,
          retire_stale-again items o.2,
        )
        refl
