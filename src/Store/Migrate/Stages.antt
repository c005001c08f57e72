-- ===== src/Store/Migrate/Stages.antt =====
-- The schemas at which `initialize` can stop.
use mesthastic_caltopo_bridg.Prelude.{
  ◌≡◌, ◌⊎◌, inl, inr, refl, sym, ap, ◌∙◌, subst, Bool, true, false, arith, Bool-cases,
  if◌then◌else◌,
}
use mesthastic_caltopo_bridg.Go.Text.{Text}
use mesthastic_caltopo_bridg.Store.Tables.{Result, ok, err, Tx, ◌>>◌, call, transact}
use mesthastic_caltopo_bridg.Store.Migrate.{
  InitError, inspect, add_column, pragma, create_tables, record_first, query_migration,
  record_third, begin_migration, record_second, commit_second, Cell, integer, null, Schema,
  has_column, has_version, source_port, location_source, precision_bits, statement, and_then,
  create_positions, insert_version, with_column, add_missing, second_migration, upgrade, migrate,
  initialize,
}

module _ {V : Type 0} where
  unfoldable pub added : Text → Cell V → Schema V → Schema V
  added name default s = if has_column name s.columns then s else with_column name default s

  unfoldable pub begun : Schema V → Schema V
  begun s = insert_version 1 (create_positions s)

  unfoldable pub with_columns : Schema V → Schema V
  with_columns s =
      added precision_bits (integer 0)
        (added location_source null (added source_port (integer 72) s))

  unfoldable pub upgraded : Schema V → Schema V
  upgraded s = if has_version 2 s.versions then s else insert_version 2 (with_columns s)

  module _ (fails : InitError → Bool) where
    -- The result of `initialize`: a call failed while nothing was changed, when only the tables were
    -- made, when the first version was there, or when the second was; or all are there and there is no
    -- error.
    pub data Outcome (s : Schema V) : Schema V × Result InitError (Unit {0}) → Type 0 where
      at_start : (e : InitError) → fails e ≡ true → Outcome s (s, err e)
      at_tables : (e : InitError) → fails e ≡ true → Outcome s (create_positions s, err e)
      at_first : (e : InitError) → fails e ≡ true → Outcome s (begun s, err e)
      at_second : (e : InitError) → fails e ≡ true → Outcome s (upgraded (begun s), err e)
      at_third : Outcome s (insert_version 3 (upgraded (begun s)), ok tt)

    -- The statements give the error of a call that fails, or the schema `t`.
    abbrev Gives : Tx (Schema V) InitError (Unit {0}) → Schema V → Schema V → Type 0
    Gives m s t = ((e : InitError) × (fails e ≡ true) × (m s ≡ err e)) ⊎ (m s ≡ ok (tt, t))

    Gives->> :
        (m k : Tx (Schema V) InitError (Unit {0})) (s t u : Schema V)
        → Gives m s t
        → Gives k t u
        → Gives (m >> k) s u
    Gives->> m k s t u (inl (e, f, p)) h = inl (e, f, ground arith)
    Gives->> m k s t u (inr p) (inl (e, f, q)) = inl (e, f, ground arith)
    Gives->> m k s t u (inr p) (inr q) = inr (ground arith)

    call-Gives : (e : InitError) (s : Schema V) → Gives (call fails e) s s
    call-Gives e s = elim (Bool-cases (fails e)) [ inl h ↦ inl (e, h, rw h) | inr h ↦ inr (rw h) ]

    add_missing-Gives :
        (name : Text) (default : Cell V) (s : Schema V)
        → Gives (add_missing fails name default) s (added name default s)
    unfolding add_missing added
    add_missing-Gives name default s =
        Gives->> (call fails (inspect name)) _ s s _ (call-Gives (inspect name) s)
          (by_column (has_column name s.columns))
      where
        by_column :
            (b : Bool)
            → Gives
                (λ _.
                  if b
                  then ok (tt, s)
                  else (call fails (add_column name) >> λ s. ok (tt, with_column name default s)) s)
                s
                (if b then s else with_column name default s)
        by_column true = inr refl
        by_column false =
            Gives->> (call fails (add_column name)) (λ s. ok (tt, with_column name default s)) s s _
              (call-Gives (add_column name) s) (inr refl)

    added-versions :
        (name : Text) (default : Cell V) (s : Schema V)
        → (added name default s).versions ≡ s.versions
    unfolding added with_column
    added-versions name default s = ground arith

    with_columns-versions : (s : Schema V) → (with_columns s).versions ≡ s.versions
    unfolding with_columns
    with_columns-versions s = simp added-versions

    second_migration-Gives :
        (s : Schema V)
        → has_version 2 s.versions ≡ false
        → Gives (second_migration fails) s (insert_version 2 (with_columns s))
    unfolding second_migration with_columns
    second_migration-Gives s h =
        let a = added source_port (integer 72) s in
        let b = added location_source null a in
        let c = added precision_bits (integer 0) b in
        let fresh : has_version 2 c.versions ≡ false =
          ap (has_version 2) (with_columns-versions s) ∙ h in
        Gives->> (call fails begin_migration) _ s s _ (call-Gives begin_migration s) (
          Gives->> (add_missing fails source_port (integer 72)) _ s a _
            (add_missing-Gives source_port (integer 72) s)
            (Gives->> (add_missing fails location_source null) _ a b _
              (add_missing-Gives location_source null a)
              (Gives->> (add_missing fails precision_bits (integer 0)) _ b c _
                (add_missing-Gives precision_bits (integer 0) b)
                (Gives->> (call fails record_second) _ c c _ (call-Gives record_second c) (
                  Gives->>
                    (λ s.
                      if has_version 2 s.versions
                      then err record_second
                      else ok (tt, insert_version 2 s))
                    (call fails commit_second) c (insert_version 2 c) _ (inr (rw fresh refl))
                    (call-Gives commit_second (insert_version 2 c)))))))

    upgrade_kinds :
        (s : Schema V)
        → ((e : InitError) × (fails e ≡ true) × (upgrade fails s ≡ (s, err e)))
          ⊎ (upgrade fails s ≡ (upgraded s, ok tt))
    unfolding upgraded upgrade transact
    upgrade_kinds s = elim (Bool-cases (has_version 2 s.versions)) [
      | inl old ↦ inr (rw old refl)
      | inr new ↦ elim (second_migration-Gives s new) [
        | inl (e, f, p) ↦ inl (e, f, ground (arith, p))
        | inr p ↦ inr (ground (arith, p))
      ]
    ]

    migrate-Outcome : (s t : Schema V) → t ≡ begun s → Outcome s (migrate fails t)
    unfolding migrate and_then statement
    migrate-Outcome s t b = elim (Bool-cases (fails query_migration)) [
      | inl q ↦ reach (begun s, err query_migration) (ground arith) (at_first query_migration q)
      | inr q ↦ elim (upgrade_kinds t) [
        | inl (e, f, p) ↦ reach (begun s, err e) (ground (arith, p)) (at_first e f)
        | inr p ↦ elim (Bool-cases (fails record_third)) [
          | inl r ↦
              reach (upgraded (begun s), err record_third) (ground (arith, p))
                (at_second record_third r)
          | inr r ↦
              reach (insert_version 3 (upgraded (begun s)), ok tt) (ground (arith, p)) at_third
        ]
      ]
    ]
      where
        reach :
            (r : Schema V × Result InitError (Unit {0}))
            → migrate fails t ≡ r
            → Outcome s r
            → Outcome s (migrate fails t)
        reach r e o = subst (Outcome s) (sym e) o

    pub initialize-Outcome : (s : Schema V) → Outcome s (initialize fails s)
    unfolding initialize and_then statement begun
    initialize-Outcome s = elim (Bool-cases (fails pragma)) [
      | inl p ↦ reach (s, err pragma) (ground arith) (at_start pragma p)
      | inr p ↦ elim (Bool-cases (fails create_tables)) [
        | inl c ↦ reach (s, err create_tables) (ground arith) (at_start create_tables c)
        | inr c ↦ elim (Bool-cases (fails record_first)) [
          | inl r ↦
              reach (create_positions s, err record_first) (ground arith) (at_tables record_first r)
          | inr r ↦
              reach (migrate fails (begun s)) (ground arith) (migrate-Outcome s (begun s) refl)
        ]
      ]
    ]
      where
        reach :
            (r : Schema V × Result InitError (Unit {0}))
            → initialize fails s ≡ r
            → Outcome s r
            → Outcome s (initialize fails s)
        reach r e o = subst (Outcome s) (sym e) o
