-- ===== src/Manager/Catalog/Published.antt =====
-- Of each configured slug one revision is published after a synchronisation, and of no other.
use pi_opensandbox_runner.Base.{
  ℕ, ◌+◌, ◌≤◌, String, ◌≡◌, refl, ◌∙◌, sym, ap, Bool, true, false, ◌&&◌, some, List, [], ◌∷◌, map,
  bit, str_eq, eq_iff, if◌then◌else◌, arith, Bool-cases, Option-cases, inl, inr,
}
use mathlib.Core.Path.{subst}
use pi_opensandbox_runner.Base.Table.{count, count-append}
use pi_opensandbox_runner.Manager.Models.{CatalogState, published, superseded, retired}
use pi_opensandbox_runner.Manager.Catalog.{
  Versioned, state_is_published, state_is_retired, newest, is_kept, supersede_row, version,
  sync_one, sync_all, is_wanted, is_stale, retire_stale, sync_rows,
}
use pi_opensandbox_runner.Manager.Catalog.Versions.{
  Laws, supersede_row-slug, supersede_row-other, sync_one_made,
}
use pi_opensandbox_runner.Manager.Catalog.Settled.{Distinct, and_false, stale-other}

retired-published : (x : CatalogState) → state_is_retired x ≡ true → state_is_published x ≡ false
retired-published published h = absurd (ground arith)
retired-published superseded h = refl
retired-published retired h = refl

module _ {A C : Type 0} (v : Versioned A C) (laws : Laws v) where
  abbrev pub is_published_of : String → A → Bool
  is_published_of s a = str_eq (v.slug a) s && state_is_published (v.state a)

  -- The latest revision is one of the rows.
  newest-counted :
      (s : String) (rows : List A) (a : A)
      → newest v s rows ≡ some a
      → state_is_published (v.state a) ≡ true
      → 1 ≤ count (is_published_of s) rows
  unfolding newest count
  newest-counted s [] a h p = absurd (ground arith)
  newest-counted s (b ∷ rows) a h p = elim (Bool-cases (str_eq (v.slug b) s)) [
    | inr e ↦ ground (arith, e, h, newest-counted s rows a)
    | inl e ↦ elim (Option-cases (newest v s rows)) [
      | inl n ↦ ground (arith, e, h, n, p)
      | inr (c, n) ↦ ground (arith, e, h, n, p, newest-counted s rows c n)
    ]
  ]

  supersede_row-published : (s : String) (a : A) → is_published_of s (supersede_row v s a) ≡ false
  supersede_row-published s a = elim (Bool-cases (is_published_of s a)) [
    | inl e ↦
        let q : supersede_row v s a ≡ v.with_state superseded a = rw e refl in
        ap (is_published_of s) q
        ∙ rw (laws.state_set superseded a)
            (and_false (str_eq (v.slug (v.with_state superseded a)) s))
    | inr e ↦ let q : supersede_row v s a ≡ a = rw e refl in ap (is_published_of s) q ∙ e
  ]

  supersede-published :
      (s : String) (rows : List A) → count (is_published_of s) (map (supersede_row v s) rows) ≡ 0
  unfolding count
  supersede-published s [] = refl
  supersede-published s (a ∷ rows) =
      omega (arith, ap bit (supersede_row-published s a), supersede-published s rows)

  supersede-published_other :
      (t s : String) (rows : List A)
      → str_eq t s ≡ false
      → count (is_published_of s) (map (supersede_row v t) rows) ≡ count (is_published_of s) rows
  unfolding count
  supersede-published_other t s [] h = refl
  supersede-published_other t s (a ∷ rows) h = elim (Bool-cases (str_eq (v.slug a) s)) [
    | inl e ↦ rw (supersede_row-other v laws t s a h e, supersede-published_other t s rows h) refl
    | inr e ↦ rw (supersede_row-slug v laws t a, e, supersede-published_other t s rows h) refl
  ]

  sync_one-published :
      (id : ℕ) (c : C) (rows : List A)
      → count (is_published_of (v.wanted c)) rows ≤ 1
      → count (is_published_of (v.wanted c)) (sync_one v id c rows) ≡ 1
  unfolding sync_one count
  sync_one-published id c rows h = elim (Bool-cases (is_kept v c rows)) [
    | inl k ↦ elim (Option-cases (newest v (v.wanted c) rows)) [
      | inl n ↦ absurd (ground (arith, k, n))
      | inr (a, e) ↦
          let some_row = newest-counted (v.wanted c) rows a e (ground (arith, k, e)) in
          rw (k, sync_one) (omega (arith, h, some_row))
    ]
    | inr k ↦
        let m = v.make id (version v c rows) c in
        let slug : str_eq (v.slug m) (v.wanted c) ≡ true =
          (eq_iff (v.slug m) (v.wanted c)).1 (laws.made_slug id _ c) in
        let one : is_published_of (v.wanted c) m ≡ true =
          rw (slug, laws.made_state id (version v c rows) c) refl in
        let superseded_rows = map (supersede_row v (v.wanted c)) rows in
        ap (count (is_published_of (v.wanted c))) (sync_one_made v laws id c rows k)
        ∙ omega (
          arith,
          count-append (is_published_of (v.wanted c)) superseded_rows (m ∷ []),
          supersede-published (v.wanted c) rows,
          ap bit one,
        )
  ]

  sync_one-published_other :
      (id : ℕ) (c : C) (s : String) (rows : List A)
      → str_eq (v.wanted c) s ≡ false
      → count (is_published_of s) (sync_one v id c rows) ≡ count (is_published_of s) rows
  unfolding sync_one count
  sync_one-published_other id c s rows h = elim (Bool-cases (is_kept v c rows)) [
    | inl k ↦ rw (k, sync_one) refl
    | inr k ↦
        let m = v.make id (version v c rows) c in
        let slug : str_eq (v.slug m) s ≡ false = ap (λ x. str_eq x s) (laws.made_slug id _ c) ∙ h in
        let no : is_published_of s m ≡ false = rw slug refl in
        let superseded_rows = map (supersede_row v (v.wanted c)) rows in
        ap (count (is_published_of s)) (sync_one_made v laws id c rows k)
        ∙ omega (
          arith,
          count-append (is_published_of s) superseded_rows (m ∷ []),
          supersede-published_other (v.wanted c) s rows h,
          ap bit no,
        )
  ]

  sync_all-published_other :
      (fresh : C → ℕ) (items : List C) (s : String) (rows : List A)
      → is_wanted v s items ≡ false
      → count (is_published_of s) (sync_all v fresh items rows).2 ≡ count (is_published_of s) rows
  unfolding sync_all is_wanted
  sync_all-published_other fresh [] s rows h = refl
  sync_all-published_other fresh (c ∷ items) s rows h =
      sync_all-published_other fresh items s (sync_one v (fresh c) c rows) (ground (arith, h))
      ∙ sync_one-published_other (fresh c) c s rows (ground (arith, h))

  sync_all-published :
      (fresh : C → ℕ) (items : List C) (s : String) (rows : List A)
      → Distinct v laws items
      → is_wanted v s items ≡ true
      → count (is_published_of s) rows ≤ 1
      → count (is_published_of s) (sync_all v fresh items rows).2 ≡ 1
  unfolding sync_all is_wanted
  sync_all-published fresh [] s rows d w h = absurd (ground arith)
  sync_all-published fresh (c ∷ items) s rows d w h = elim (Bool-cases (str_eq (v.wanted c) s)) [
    | inr e ↦
        let same = sync_one-published_other (fresh c) c s rows e in
        sync_all-published fresh items s (sync_one v (fresh c) c rows) d.1 (ground (arith, e, w))
          (omega (arith, same, h))
    | inl e ↦
        let t = (eq_iff (v.wanted c) s).0 e in
        subst
          (λ x.
            count (is_published_of x) (sync_all v fresh items (sync_one v (fresh c) c rows)).2 ≡ 1)
          t
          (sync_all-published_other fresh items (v.wanted c) (sync_one v (fresh c) c rows) d.0
            ∙ sync_one-published (fresh c) c rows
                (subst (λ x. count (is_published_of x) rows ≤ 1) (sym t) h))
  ]

  -- A row that is not retired is not published unless its slug is configured.
  kept_row-published :
      (items : List C) (s : String) (a : A)
      → is_stale v items a ≡ false
      → is_wanted v s items ≡ false
      → is_published_of s a ≡ false
  kept_row-published items s a e h = elim (Bool-cases (str_eq (v.slug a) s)) [
    | inr n ↦ rw n refl
    | inl y ↦
        let w : is_wanted v (v.slug a) items ≡ false =
          ap (λ x. is_wanted v x items) ((eq_iff (v.slug a) s).0 y) ∙ h in
        rw y (retired-published (v.state a) (ground (arith, e, w)))
  ]

  retired_row-published : (s : String) (a : A) → is_published_of s (v.with_state retired a) ≡ false
  retired_row-published s a =
      rw (laws.state_set retired a) (and_false (str_eq (v.slug (v.with_state retired a)) s))

  retire_stale-published :
      (items : List C) (s : String) (rows : List A)
      → count (is_published_of s) (retire_stale v items rows).1
        ≡ (if is_wanted v s items then count (is_published_of s) rows else 0)
  unfolding retire_stale count
  retire_stale-published items s [] = ground arith
  retire_stale-published items s (a ∷ rows) =
      let ih = retire_stale-published items s rows in
      elim (Bool-cases (is_stale v items a)) [
        | inl e ↦ elim (Bool-cases (is_wanted v s items)) [
          | inl w ↦
              rw (e, w, retired_row-published s a, stale-other v laws items s a e w)
                (ground (arith, w, ih))
          | inr w ↦ rw (e, w, retired_row-published s a) (ground (arith, w, ih))
        ]
        | inr e ↦ elim (Bool-cases (is_wanted v s items)) [
          | inl w ↦ rw (e, w) (ap (λ n. bit (is_published_of s a) + n) (ground (arith, w, ih)))
          | inr w ↦ rw (e, w, kept_row-published items s a e w) (ground (arith, w, ih))
        ]
      ]

  -- After one half of a synchronisation a configured slug has one published revision, another one none.
  pub sync_rows-published :
      (fresh : C → ℕ) (items : List C) (rows : List A) (s : String)
      → Distinct v laws items
      → count (is_published_of s) rows ≤ 1
      → count (is_published_of s) (sync_rows v fresh items rows).2
        ≡ (if is_wanted v s items then 1 else 0)
  unfolding sync_rows
  sync_rows-published fresh items rows s d h =
      let o = sync_all v fresh items rows in
      retire_stale-published items s o.2 ∙ elim (Bool-cases (is_wanted v s items)) [
        | inl w ↦ rw w (sync_all-published fresh items s rows d w h)
        | inr w ↦ rw w refl
      ]
