-- ===== src/Store/Keys.antt =====
-- The keys of nodes and tracks under the two upserts of internal/store/store.go.
use mesthastic_caltopo_bridg.Prelude.{
  ℕ, ◌≡◌, ◌≢◌, refl, sym, ◌∙◌, false, List, [], ◌∷◌, ◌==◌, arith, All, All-map, Distinct,
  Bool-cases, inl, inr,
}
use mesthastic_caltopo_bridg.Go.Text.{Text, text_eq, text_eq_iff}
use mesthastic_caltopo_bridg.Store.Tables.{NodeRow, TrackRow}
use mesthastic_caltopo_bridg.Store.Nodes.{upsert_row_of}
use mesthastic_caltopo_bridg.Store.Tracks.{taken, upsert_track}

upsert_row_of-others :
    (k : ℕ) (n : NodeRow) (ns : List NodeRow)
    → k ≢ n.node_num
    → All (λ (m : NodeRow). k ≢ m.node_num) ns
    → All (λ (m : NodeRow). k ≢ m.node_num) (upsert_row_of n ns)
unfolding upsert_row_of
upsert_row_of-others k n [] h all = (h, tt)
upsert_row_of-others k n (m ∷ ms) h all = elim (Bool-cases (m.node_num == n.node_num)) [
  | inl same ↦ rw same (h, all.1)
  | inr other ↦ rw other (all.0, upsert_row_of-others k n ms h all.1)
]

pub upsert_row_of-Distinct :
    (n : NodeRow) (ns : List NodeRow)
    → Distinct (λ (m : NodeRow). m.node_num) ns
    → Distinct (λ (m : NodeRow). m.node_num) (upsert_row_of n ns)
unfolding upsert_row_of
upsert_row_of-Distinct n [] h = (tt, tt)
upsert_row_of-Distinct n (m ∷ ms) h = elim (Bool-cases (m.node_num == n.node_num)) [
  | inl same ↦ rw same (
    All-map (λ (y : NodeRow). m.node_num ≢ y.node_num) (λ (y : NodeRow). n.node_num ≢ y.node_num) ms
        (λ y k e. ground (arith, k (ground arith))) h.0,
    h.1,
  )
  | inr other ↦
      rw other
        (upsert_row_of-others m.node_num n ms (ground arith) h.0, upsert_row_of-Distinct n ms h.1)
]

-- Another source has neither the device nor the track of a row that is not taken.
pub IsFree : TrackRow → TrackRow → Type 0
IsFree n t = t.source_id ≢ n.source_id → (n.device_id ≢ t.device_id) × (n.track_id ≢ t.track_id)

pub taken-none : (n : TrackRow) (ts : List TrackRow) → taken n ts ≡ false → All (IsFree n) ts
unfolding taken IsFree
taken-none n [] h = tt
taken-none n (t ∷ ts) h = (
  λ other. (
    λ e. ground (arith, text_eq_iff t.source_id n.source_id, text_eq_iff t.device_id n.device_id),
    λ e. ground (arith, text_eq_iff t.source_id n.source_id, text_eq_iff t.track_id n.track_id),
  ),
  taken-none n ts (ground arith),
)

module _ (n : TrackRow) where
  -- A key that the new row does not share with a row of another source.
  pub record IsKey (key : TrackRow → Text) : Type 0 where
    pub free : (t : TrackRow) → IsFree n t → t.source_id ≢ n.source_id → key n ≢ key t
    pub updated :
        (t : TrackRow)
        → t.source_id ≡ n.source_id
        → key (record t { device_id = n.device_id; track_id = n.track_id }) ≡ key n

  upsert_track-others :
      (key : TrackRow → Text) (t' : TrackRow) (ts : List TrackRow)
      → IsKey key
      → key t' ≢ key n
      → All (λ (t : TrackRow). key t' ≢ key t) ts
      → All (λ (t : TrackRow). key t' ≢ key t) (upsert_track n ts)
  unfolding upsert_track
  upsert_track-others key t' [] k h all = (h, tt)
  upsert_track-others key t' (t ∷ ts) k h all =
      elim (Bool-cases (text_eq t.source_id n.source_id)) [
        | inl same ↦
            rw same (λ e. h (e ∙ k.updated t ((text_eq_iff t.source_id n.source_id).0 same)), all.1)
        | inr other ↦ rw other (all.0, upsert_track-others key t' ts k h all.1)
      ]

  pub upsert_track-Distinct :
      (key : TrackRow → Text) (ts : List TrackRow)
      → IsKey key
      → All (IsFree n) ts
      → Distinct (λ (t : TrackRow). t.source_id) ts
      → Distinct key ts
      → Distinct key (upsert_track n ts)
  unfolding upsert_track
  upsert_track-Distinct key [] k free sources h = (tt, tt)
  upsert_track-Distinct key (t ∷ ts) k free sources h =
      elim (Bool-cases (text_eq t.source_id n.source_id)) [
        | inl same ↦ rw same (
          others t ts (k.updated t ((text_eq_iff t.source_id n.source_id).0 same))
              ((text_eq_iff t.source_id n.source_id).0 same) free.1 sources.0,
          h.1,
        )
        | inr other ↦ rw other (
          upsert_track-others key t ts k
              (λ e.
                k.free t free.0 (λ s. ground (arith, text_eq_iff t.source_id n.source_id)) (sym e))
              h.0,
          upsert_track-Distinct key ts k free.1 sources.1 h.1,
        )
      ]
    where
      others :
          (t : TrackRow) (us : List TrackRow)
          → key (record t { device_id = n.device_id; track_id = n.track_id }) ≡ key n
          → t.source_id ≡ n.source_id
          → All (IsFree n) us
          → All (λ (y : TrackRow). t.source_id ≢ y.source_id) us
          → All
              (λ (y : TrackRow).
                key (record t { device_id = n.device_id; track_id = n.track_id }) ≢ key y)
              us
      others t [] u s f d = tt
      others t (y ∷ ys) u s f d =
          (λ e. k.free y f.0 (λ q. d.0 (s ∙ sym q)) (sym u ∙ e), others t ys u s f.1 d.1)

  pub source-IsKey : IsKey (λ t. t.source_id)
  source-IsKey = record { free = λ t f other e. other (sym e); updated = λ t same. same }

  pub device-IsKey : IsKey (λ t. t.device_id)
  unfolding IsFree
  device-IsKey = record { free = λ t f other. (f other).0; updated = λ t same. refl }

  pub track-IsKey : IsKey (λ t. t.track_id)
  unfolding IsFree
  track-IsKey = record { free = λ t f other. (f other).1; updated = λ t same. refl }
