-- ===== src/Store/Invariant.antt =====
-- What holds of the tables between two calls of the store: the keys that the schema declares, and
-- its references.
use mesthastic_caltopo_bridg.Prelude.{
  ℕ, ◌+◌, ◌≤◌, ◌≡◌, ◌≢◌, refl, sym, subst, Bool, true, false, none, Option, List, [], ◌∷◌, ◌++◌,
  arith, All, All-append, All-map, In, here, In-All, In-append_left, In-append_right, Ascending,
  Ascending-append, Distinct, Distinct-append, if◌then◌else◌,
}
use mesthastic_caltopo_bridg.Go.Float.{Env}
use mesthastic_caltopo_bridg.Go.Text.{Text, text_eq_iff}
use mesthastic_caltopo_bridg.Go.Time.{Time}
use mesthastic_caltopo_bridg.Model.{Packet, Position}
use mesthastic_caltopo_bridg.Store.Tables.{
  PacketRow, PositionRow, DeliveryRow, Db, created, Result, ok, err,
}
use mesthastic_caltopo_bridg.Store.Archive.{
  ArchiveError, position_key, packet_row, position_row, find_key, archive,
}
use mesthastic_caltopo_bridg.Store.Archive.Outcome.{
  new_delivery, with_packet, with_position, with_delivery, with_new, Archived, packet_only,
  repeated, fresh, Outcome, archive-Outcome,
}

abbrev pub Refers {ℓ} : {A : Type ℓ} → (A → ℕ) → List A → ℕ → Type ℓ
Refers {A} f xs id = (a : A) × In a xs × (f a ≡ id)

pub record WellFormed {S F : Type 0} (db : Db S F) : Type 0 where
  -- The rows' own keys grow from 1, and the counters are not below them.
  pub packet_ids : Ascending (λ (r : PacketRow S). r.id) 0 db.packets
  pub packet_top : All (λ (r : PacketRow S). r.id ≤ db.packet_seq) db.packets
  pub position_ids : Ascending (λ (r : PositionRow F). r.id) 0 db.positions
  pub position_top : All (λ (r : PositionRow F). r.id ≤ db.position_seq) db.positions
  pub delivery_ids : Ascending (λ (r : DeliveryRow). r.id) 0 db.deliveries
  pub delivery_top : All (λ (r : DeliveryRow). r.id ≤ db.delivery_seq) db.deliveries
  -- `dedupe_key` and `position_id` are unique.
  pub dedupe_keys : Distinct (λ (r : PositionRow F). r.dedupe_key) db.positions
  pub one_delivery : Distinct (λ (r : DeliveryRow). r.position_id) db.deliveries
  -- The references.
  pub position_packet :
      All
        (λ (r : PositionRow F). Refers (λ (p : PacketRow S). p.id) db.packets r.packet_id)
        db.positions
  pub delivery_position :
      All
        (λ (r : DeliveryRow). Refers (λ (p : PositionRow F). p.id) db.positions r.position_id)
        db.deliveries

pub created-WellFormed : {S F : Type 0} → WellFormed {S = S} {F = F} created
created-WellFormed = record {
  packet_ids = tt;
  packet_top = tt;
  position_ids = tt;
  position_top = tt;
  delivery_ids = tt;
  delivery_top = tt;
  dedupe_keys = tt;
  one_delivery = tt;
  position_packet = tt;
  delivery_position = tt;
}

pub Refers-append {ℓ} :
    {A : Type ℓ} (f : A → ℕ) (xs ys : List A) (id : ℕ) → Refers f xs id → Refers f (xs ++ ys) id
Refers-append f xs ys id (a, i, e) = (a, In-append_left a xs ys i, e)

Top-append {ℓ} :
    {A : Type ℓ} (f : A → ℕ) (n : ℕ) (xs : List A) (x : A)
    → All (λ y. f y ≤ n) xs
    → f x ≡ n + 1
    → All (λ y. f y ≤ n + 1) (xs ++ x ∷ [])
Top-append f n xs x h e =
    All-append (λ y. f y ≤ n + 1) xs (x ∷ [])
      (All-map (λ y. f y ≤ n) (λ y. f y ≤ n + 1) xs (λ a l. omega arith) h) (omega arith, tt)

pub find_key-none :
    {F : Type 0} (key : Text) (rs : List (PositionRow F))
    → find_key key rs ≡ none
    → All (λ (r : PositionRow F). r.dedupe_key ≢ key) rs
unfolding find_key
find_key-none key [] h = tt
find_key-none key (r ∷ rs) h =
    ((λ e. ground (arith, text_eq_iff r.dedupe_key key)), find_key-none key rs (ground arith))

module _ {S F : Type 0} (env : Env F) (now : Time) (packet : Packet S) (enqueue : Bool) where
  with_packet-WellFormed :
      (db : Db S F) → WellFormed db → WellFormed (with_packet env now packet enqueue db)
  unfolding packet_row
  with_packet-WellFormed db w = record {
    packet_ids =
        Ascending-append (λ (r : PacketRow S). r.id) 0 db.packet_seq db.packets row w.packet_ids
          w.packet_top (omega arith) (omega arith);
    packet_top =
        Top-append (λ (r : PacketRow S). r.id) db.packet_seq db.packets row w.packet_top refl;
    position_ids = w.position_ids;
    position_top = w.position_top;
    delivery_ids = w.delivery_ids;
    delivery_top = w.delivery_top;
    dedupe_keys = w.dedupe_keys;
    one_delivery = w.one_delivery;
    position_packet =
        All-map (λ r. Refers (λ (p : PacketRow S). p.id) db.packets r.packet_id)
          (λ r. Refers (λ (p : PacketRow S). p.id) (db.packets ++ row ∷ []) r.packet_id)
          db.positions
          (λ r. Refers-append (λ (p : PacketRow S). p.id) db.packets (row ∷ []) r.packet_id)
          w.position_packet;
    delivery_position = w.delivery_position;
  }
    where
      row : PacketRow S
      row = packet_row (db.packet_seq + 1) packet

  with_position-WellFormed :
      (db : Db S F) (p : Position F)
      → find_key (position_key env p) db.positions ≡ none
      → Refers (λ (r : PacketRow S). r.id) db.packets db.packet_seq
      → WellFormed db
      → WellFormed (with_position env now packet enqueue p db)
  unfolding position_row
  with_position-WellFormed db p missing packet_there w = record {
    packet_ids = w.packet_ids;
    packet_top = w.packet_top;
    position_ids =
        Ascending-append (λ (r : PositionRow F). r.id) 0 db.position_seq db.positions row
          w.position_ids w.position_top (omega arith) (omega arith);
    position_top =
        Top-append (λ (r : PositionRow F). r.id) db.position_seq db.positions row w.position_top
          refl;
    delivery_ids = w.delivery_ids;
    delivery_top = w.delivery_top;
    dedupe_keys =
        Distinct-append (λ (r : PositionRow F). r.dedupe_key) db.positions row w.dedupe_keys
          (find_key-none (position_key env p) db.positions missing);
    one_delivery = w.one_delivery;
    position_packet =
        All-append (λ r. Refers (λ (p : PacketRow S). p.id) db.packets r.packet_id) db.positions
          (row ∷ []) w.position_packet (packet_there, tt);
    delivery_position =
        All-map (λ r. Refers (λ (p : PositionRow F). p.id) db.positions r.position_id)
          (λ r. Refers (λ (p : PositionRow F). p.id) (db.positions ++ row ∷ []) r.position_id)
          db.deliveries
          (λ r. Refers-append (λ (p : PositionRow F). p.id) db.positions (row ∷ []) r.position_id)
          w.delivery_position;
  }
    where
      row : PositionRow F
      row = position_row env (db.position_seq + 1) db.packet_seq packet p

  with_delivery-WellFormed :
      (db : Db S F)
      → Refers (λ (r : PositionRow F). r.id) db.positions db.position_seq
      → All (λ (d : DeliveryRow). d.position_id ≢ db.position_seq) db.deliveries
      → WellFormed db
      → WellFormed (with_delivery env now packet enqueue db)
  with_delivery-WellFormed db position_there unsent w = record {
    packet_ids = w.packet_ids;
    packet_top = w.packet_top;
    position_ids = w.position_ids;
    position_top = w.position_top;
    delivery_ids =
        Ascending-append (λ (r : DeliveryRow). r.id) 0 db.delivery_seq db.deliveries row
          w.delivery_ids w.delivery_top (omega arith) (omega arith);
    delivery_top =
        Top-append (λ (r : DeliveryRow). r.id) db.delivery_seq db.deliveries row w.delivery_top
          refl;
    dedupe_keys = w.dedupe_keys;
    one_delivery =
        Distinct-append (λ (r : DeliveryRow). r.position_id) db.deliveries row w.one_delivery
          unsent;
    position_packet = w.position_packet;
    delivery_position =
        All-append (λ r. Refers (λ (p : PositionRow F). p.id) db.positions r.position_id)
          db.deliveries (row ∷ []) w.delivery_position (position_there, tt);
  }
    where
      row : DeliveryRow
      row = new_delivery env now packet enqueue (db.delivery_seq + 1) db.position_seq

  -- No delivery refers to a position that is still to come.
  next-unsent :
      (db : Db S F)
      → WellFormed db
      → All (λ (d : DeliveryRow). d.position_id ≢ db.position_seq + 1) db.deliveries
  next-unsent db w =
      All-map (λ d. Refers (λ (p : PositionRow F). p.id) db.positions d.position_id)
        (λ d. d.position_id ≢ db.position_seq + 1) db.deliveries
        (λ d r e.
          let below =
            In-All (λ (p : PositionRow F). p.id ≤ db.position_seq) db.positions r.0 w.position_top
              r.1 in
          omega (arith, below, r.2, e))
        w.delivery_position

  with_new-WellFormed :
      (db : Db S F) (p : Position F)
      → find_key (position_key env p) db.positions ≡ none
      → WellFormed db
      → WellFormed (with_new env now packet enqueue p db)
  unfolding packet_row position_row
  with_new-WellFormed db p missing w = by_enqueue enqueue
    where
      copy : Db S F
      copy = with_packet env now packet enqueue db

      placed : Db S F
      placed = with_position env now packet enqueue p copy

      placed-WellFormed : WellFormed placed
      placed-WellFormed =
          with_position-WellFormed copy p missing
            (
              packet_row (db.packet_seq + 1) packet,
              In-append_right _ db.packets _ (here refl),
              refl,
            )
            (with_packet-WellFormed db w)

      by_enqueue :
          (b : Bool)
          → WellFormed (if b then with_delivery env now packet enqueue placed else placed)
      by_enqueue true =
          with_delivery-WellFormed placed
            (
              position_row env (db.position_seq + 1) (db.packet_seq + 1) packet p,
              In-append_right _ db.positions _ (here refl),
              refl,
            )
            (next-unsent db w) placed-WellFormed
      by_enqueue false = placed-WellFormed

  Archived-WellFormed :
      {db db' : Db S F} {o : Option (Position F)} {x : ℕ × ℕ × Bool}
      → Archived env now packet enqueue db o db' x
      → WellFormed db
      → WellFormed db'
  Archived-WellFormed {db} packet_only w = with_packet-WellFormed db w
  Archived-WellFormed {db} (repeated p existing found) w = with_packet-WellFormed db w
  Archived-WellFormed {db} (fresh p missing fits) w = with_new-WellFormed db p missing w

  -- `Archive`, with whatever calls of the database failing, keeps the tables well formed.
  pub archive-WellFormed :
      (fails : ArchiveError → Bool) (db : Db S F) (o : Option (Position F))
      → WellFormed db
      → WellFormed (archive env fails now packet enqueue o db).0
  archive-WellFormed fails db o w =
      by_outcome (archive env fails now packet enqueue o db)
        (archive-Outcome env now packet enqueue fails db o)
    where
      by_outcome :
          (r : Db S F × Result ArchiveError (ℕ × ℕ × Bool))
          → Outcome env now packet enqueue fails db o r
          → WellFormed r.0
      by_outcome (db', err e) h = subst WellFormed (sym h) w
      by_outcome (db', ok x) h = Archived-WellFormed h w
