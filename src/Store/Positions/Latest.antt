-- ===== src/Store/Positions/Latest.antt =====
-- What `Positions` selects, by the order of the texts.
use mesthastic_caltopo_bridg.Prelude.{
  ◌≡◌, inl, inr, sym, Bool, true, false, not, List, ◌==◌, arith, In,
}
use mesthastic_caltopo_bridg.Go.Text.{text_eq_iff, text_lt_irrefl, text_lt_trans, text_lt_total}
use mesthastic_caltopo_bridg.Store.Sql.{exists_row, rows_where}
use mesthastic_caltopo_bridg.Store.Sql.Laws.{
  exists_row-false, exists_row-none, In-rows_where, rows_where-In, order_by-In, In-order_by,
  first_where,
}
use mesthastic_caltopo_bridg.Store.Tables.{PositionRow}
use mesthastic_caltopo_bridg.Store.Positions.{older, outdates, latest_rows}

module _ {F : Type 0} where
  pub older_trans : (a b c : PositionRow F) → older a b ≡ true → older b c ≡ true → older a c ≡ true
  unfolding older
  older_trans a b c h k = ground (
    arith,
    text_lt_trans a.source_time b.source_time c.source_time,
    text_eq_iff a.source_time b.source_time,
    text_eq_iff b.source_time c.source_time,
    text_eq_iff a.source_time c.source_time,
  )

  pub older_irrefl : (a : PositionRow F) → older a a ≡ false
  unfolding older
  older_irrefl a = ground (arith, text_lt_irrefl a.source_time)

  pub older_total : (a b : PositionRow F) → older a b ≡ false → older b a ≡ false → a.id ≡ b.id
  unfolding older
  older_total a b h k = ground (
    arith,
    text_lt_total a.source_time b.source_time,
    text_eq_iff a.source_time b.source_time,
    text_eq_iff b.source_time a.source_time,
  )

  abbrev newer : PositionRow F → PositionRow F → Bool
  newer a b = older b a

  abbrev is_latest : List (PositionRow F) → PositionRow F → Bool
  is_latest table p = not (exists_row (λ n. outdates n p) table)

  module _ (table : List (PositionRow F)) where
    -- Each row that is shown is of the table, and no row of its node in the table is newer.
    pub latest_rows_sound :
        (p : PositionRow F)
        → In p (latest_rows table)
        → In p table
          × ((q : PositionRow F) → In q table → q.source_node ≡ p.source_node → older p q ≡ false)
    unfolding latest_rows
    latest_rows_sound p i =
        let r =
          rows_where-In (is_latest table) table p
            (order_by-In older (rows_where (is_latest table) table) p i) in
        (
          r.0,
          λ q k same.
              unfold outdates in
              ground (arith, exists_row-false (λ n. outdates n p) table q (ground (arith, r.1)) k),
        )

    -- Every node that has a row in the table is shown, by exactly one row: there is one, and any two
    -- have one key.
    pub latest_rows_one_per_node :
        (q : PositionRow F)
        → In q table
        → ((p : PositionRow F) × In p (latest_rows table) × (p.source_node ≡ q.source_node))
          × ((a b : PositionRow F)
              → In a (latest_rows table)
              → In b (latest_rows table)
              → a.source_node ≡ b.source_node
              → a.id ≡ b.id)
    unfolding latest_rows
    latest_rows_one_per_node q i = (
      elim (first_where newer (λ a b c h k. older_trans c b a k h) older_irrefl of_node table) [
        | inl none ↦ absurd (ground (arith, none q i))
        | inr (m, f) ↦ (
          m,
          In-order_by older _ m (In-rows_where (is_latest table) table m f.0 (shown m f.1 f.2)),
          ground (arith, f.1),
        )
      ],
      λ a b ia ib same.
          older_total a b ((latest_rows_sound a ia).1 b (latest_rows_sound b ib).0 (sym same))
            ((latest_rows_sound b ib).1 a (latest_rows_sound a ia).0 same),
    )
      where
        of_node : PositionRow F → Bool
        of_node p = p.source_node == q.source_node

        shown :
            (m : PositionRow F)
            → of_node m ≡ true
            → ((a : PositionRow F) → In a table → of_node a ≡ true → newer a m ≡ false)
            → is_latest table m ≡ true
        shown m p h = ground (
          arith,
          exists_row-none (λ n. outdates n m) table
              (λ a k. unfold outdates in ground (arith, h a k)),
        )
