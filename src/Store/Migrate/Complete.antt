-- ===== src/Store/Migrate/Complete.antt =====
-- What `initialize` makes of a database, old or new, and what it keeps.
use mesthastic_caltopo_bridg.Prelude.{
  ℕ, ◌≡◌, ◌≢◌, refl, ap, ◌∙◌, Bool, true, false, List, [], ◌∷◌, arith, Bool-cases, inl, inr,
}
use mesthastic_caltopo_bridg.Go.Text.{Text}
use mesthastic_caltopo_bridg.Store.Tables.{Result, ok}
use mesthastic_caltopo_bridg.Store.Migrate.{
  InitError, Schema, has_column, has_version, source_port, position_columns, create_positions,
  insert_version, initialize,
}
use mesthastic_caltopo_bridg.Store.Migrate.Stages.{
  begun, with_columns, upgraded, Outcome, at_start, at_tables, at_first, at_second, at_third,
  initialize-Outcome,
}
use mesthastic_caltopo_bridg.Store.Migrate.Growth.{
  HasNewColumns, IsSound, Grows, has_version-append, Grows-refl, Grows-trans, insert_version-Grows,
  create_positions-Grows, begun-Grows, upgraded-Grows,
}
use mesthastic_caltopo_bridg.Store.Migrate.Sound.{
  Grows-HasNewColumns, create_positions-IsSound, insert_version-IsSound, upgraded-IsSound,
  begun-IsSound,
}

module _ {V : Type 0} where
  pub record IsCurrent (s : Schema V) : Type 0 where
    pub columns : HasNewColumns s.columns
    pub first : has_version 1 s.versions ≡ true
    pub second : has_version 2 s.versions ≡ true
    pub third : has_version 3 s.versions ≡ true

  -- A result of `initialize`.
  pub record Initialized (fails : InitError → Bool) (s : Schema V)
      (r : Schema V × Result InitError (Unit {0})) : Type 0 where
    pub sound : IsSound r.0
    pub grows : Grows s r.0
    pub whole :
        has_version 2 r.0.versions ≡ false
        → s.columns ≢ []
        → (r.0.columns ≡ s.columns) × (r.0.rows ≡ s.rows)
    pub current : r.1 ≡ ok tt → IsCurrent r.0
    pub succeeds : ((e : InitError) → fails e ≡ false) → r.1 ≡ ok tt

  inserted : (n : ℕ) (s : Schema V) → has_version n (insert_version n s).versions ≡ true
  unfolding insert_version
  inserted n s = elim (Bool-cases (has_version n s.versions)) [
    | inl h ↦ rw h h
    | inr h ↦ rw h (has_version-append n s.versions (n ∷ []) ∙ ground arith)
  ]

  upgraded_second : (s : Schema V) → has_version 2 (upgraded s).versions ≡ true
  unfolding upgraded
  upgraded_second s = elim (Bool-cases (has_version 2 s.versions)) [
    | inl h ↦ rw h h
    | inr h ↦ rw h (inserted 2 (with_columns s))
  ]

  create_positions-same : (s : Schema V) → s.columns ≢ [] → create_positions s ≡ s
  unfolding create_positions
  create_positions-same s h = by_columns s.columns h
    where
      by_columns :
          (cs : List Text)
          → cs ≢ []
          → (let t : Schema V = elim cs [
            | [] ↦ record s { columns = position_columns; rows = [] }
            | _ ∷ _ ↦ s
          ] in
              t)
            ≡ s
      by_columns [] h = absurd (h refl)
      by_columns (c ∷ cs) h = refl

  insert_version-same :
      (n : ℕ) (s : Schema V)
      → ((insert_version n s).columns ≡ s.columns) × ((insert_version n s).rows ≡ s.rows)
  unfolding insert_version
  insert_version-same n s = (ground arith, ground arith)

  module _ (fails : InitError → Bool) (s : Schema V) (sound : IsSound s) where
    settled :
        {r : Schema V × Result InitError (Unit {0})} → Outcome fails s r → Initialized fails s r
    unfolding begun
    settled (at_start e f) = record {
      sound = sound;
      grows = Grows-refl s;
      whole = λ h k. (refl, refl);
      current = λ h. absurd (cc h);
      succeeds = λ h. absurd (cc (f, h e));
    }
    settled (at_tables e f) = record {
      sound = create_positions-IsSound s sound;
      grows = create_positions-Grows s sound;
      whole = λ h k. (
        ap (λ (t : Schema V). t.columns) (create_positions-same s k),
        ap (λ (t : Schema V). t.rows) (create_positions-same s k),
      );
      current = λ h. absurd (cc h);
      succeeds = λ h. absurd (cc (f, h e));
    }
    settled (at_first e f) = record {
      sound = begun-IsSound s sound;
      grows = begun-Grows s sound;
      whole = λ h k.
          let same = insert_version-same 1 (create_positions s) in
          (
            same.0 ∙ ap (λ (t : Schema V). t.columns) (create_positions-same s k),
            same.1 ∙ ap (λ (t : Schema V). t.rows) (create_positions-same s k),
          );
      current = λ h. absurd (cc h);
      succeeds = λ h. absurd (cc (f, h e));
    }
    settled (at_second e f) = record {
      sound = upgraded-IsSound (begun s) (begun-IsSound s sound);
      grows =
          Grows-trans s (begun s) (upgraded (begun s)) (begun-Grows s sound)
            (upgraded-Grows (begun s));
      whole = λ h k. absurd (cc (h, upgraded_second (begun s)));
      current = λ h. absurd (cc h);
      succeeds = λ h. absurd (cc (f, h e));
    }
    settled at_third =
        let b = begun s in
        let u = upgraded b in
        let third = insert_version-Grows 3 u in
        let solid = upgraded-IsSound b (begun-IsSound s sound) in
        let first : has_version 1 b.versions ≡ true = inserted 1 (create_positions s) in
        record {
          sound = insert_version-IsSound 3 u (λ e. absurd (ground arith)) solid;
          grows =
              Grows-trans s u (insert_version 3 u)
                (Grows-trans s b u (begun-Grows s sound) (upgraded-Grows b)) third;
          whole = λ h k. absurd (cc (h, third.versions 2 (upgraded_second b)));
          current = λ h. record {
            columns =
                Grows-HasNewColumns u (insert_version 3 u) third (solid.second (upgraded_second b));
            first = third.versions 1 ((upgraded-Grows b).versions 1 first);
            second = third.versions 2 (upgraded_second b);
            third = inserted 3 u;
          };
          succeeds = λ h. refl;
        }

    -- Started on a database that is new, old or current, with any calls of the driver failing,
    -- `initialize` keeps it sound, and keeps each column, each cell of each row and each version: new
    -- cells stand behind the old ones, the same in each row. While version 2 is not recorded an old
    -- table is as it was. If there is no error, the three new columns and the versions 1, 2 and 3 are
    -- there; and if no call fails, there is none.
    pub initialize-Initialized : Initialized fails s (initialize fails s)
    initialize-Initialized = settled (initialize-Outcome fails s)

  known-same : (n : ℕ) (s : Schema V) → has_version n s.versions ≡ true → insert_version n s ≡ s
  unfolding insert_version
  known-same n s h = rw h

  upgraded-same : (s : Schema V) → has_version 2 s.versions ≡ true → upgraded s ≡ s
  unfolding upgraded
  upgraded-same s h = rw h

  -- On a current database `initialize` changes nothing, whatever calls fail.
  pub initialize-same :
      (fails : InitError → Bool) (s : Schema V) → IsCurrent s → (initialize fails s).0 ≡ s
  unfolding begun
  initialize-same fails s c = settled (initialize-Outcome fails s)
    where
      there : s.columns ≢ []
      there e = cc (ap (has_column source_port) e, c.columns.0)

      started : create_positions s ≡ s
      started = create_positions-same s there

      first : begun s ≡ s
      first = ap (insert_version 1) started ∙ known-same 1 s c.first

      second : upgraded (begun s) ≡ s
      second = ap upgraded first ∙ upgraded-same s c.second

      settled : {r : Schema V × Result InitError (Unit {0})} → Outcome fails s r → r.0 ≡ s
      settled (at_start e f) = refl
      settled (at_tables e f) = started
      settled (at_first e f) = first
      settled (at_second e f) = second
      settled at_third = ap (insert_version 3) second ∙ known-same 3 s c.third
