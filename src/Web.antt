-- ===== src/Web.antt =====
-- The web server of internal/web/server.go. A handler is the list of the calls that it makes on the
-- response writer; what `net/http` and `encoding/json` make of them is not modelled, nor is the log.
pub mod Shown
use mesthastic_caltopo_bridg.Prelude.{ℕ, ◌*◌, Bool, true, false, Option, List, [], ◌∷◌}
use mesthastic_caltopo_bridg.Prelude.Int.{ℤ, pos}
use mesthastic_caltopo_bridg.Go.Text.{Text, text, text_eq}
use mesthastic_caltopo_bridg.Go.Time.{Time, Duration, second}
use mesthastic_caltopo_bridg.Model.{Position}
use mesthastic_caltopo_bridg.Model.NodeId.{node_id}
use mesthastic_caltopo_bridg.Store.Tables.{Result, ok, err}

pub record PositionResponse (F : Type 0) : Type 0 where
  pub source_id : Text
  pub source_port : ℤ
  pub callsign : Text
  pub device_callsign : Text
  pub latitude : F
  pub longitude : F
  pub altitude : Option F
  pub speed : Option F
  pub course : Option F
  pub location_source : Text
  pub precision_bits : ℕ
  pub source_time : Time
  pub received_at : Time

-- A call on the writer: `Header().Set`, `Write`, `http.Error`, `http.NotFound`, and the encoder's.
pub data Call (F : Type 0) : Type 0 where
  set_header : Text → Text → Call F
  write : Text → Call F
  http_error : Text → ℕ → Call F
  not_found : Call F
  encode : List (PositionResponse F) → Call F

module _ {F : Type 0} where
  unfoldable pub position_response : Position F → PositionResponse F
  position_response p = record {
    source_id = node_id p.source_node;
    source_port = p.source_port;
    callsign = p.callsign;
    device_callsign = p.device_callsign;
    latitude = p.latitude;
    longitude = p.longitude;
    altitude = p.altitude;
    speed = p.speed;
    course = p.course;
    location_source = p.location_source;
    precision_bits = p.precision_bits;
    source_time = p.source_time;
    received_at = p.received_at;
  }

  -- The loop over the positions.
  unfoldable pub responses : List (Position F) → List (PositionResponse F)
  unfolding position_response
  responses [] = []
  responses (p ∷ ps) = position_response p ∷ responses ps

  unfoldable pub serve_positions : {E : Type 0} → Result E (List (Position F)) → List (Call F)
  unfolding responses
  serve_positions (err e) = http_error (text "could not load positions") 500 ∷ []
  serve_positions (ok ps) =
      set_header (text "Content-Type") (text "application/json")
      ∷ set_header (text "Cache-Control") (text "no-store")
      ∷ set_header (text "X-Content-Type-Options") (text "nosniff")
      ∷ encode (responses ps)
      ∷ []

  -- `map_html` is the page.
  unfoldable pub serve_map : Text → Text → List (Call F)
  serve_map map_html path = elim (text_eq path (text "/")) [
    | false ↦ not_found ∷ []
    | true ↦
        set_header (text "Content-Type") (text "text/html; charset=utf-8")
        ∷ set_header (text "X-Content-Type-Options") (text "nosniff")
        ∷ write map_html
        ∷ []
  ]

pub data Handler : Type 0 where
  map_page position_list : Handler

pub record Server : Type 0 where
  pub address : Text
  pub routes : List (Text × Handler)
  pub read_header_timeout : Duration

unfoldable pub new_server : Text → Server
new_server address = record {
  address = address;
  routes = (text "GET /", map_page) ∷ (text "GET /api/positions", position_list) ∷ [];
  read_header_timeout = pos (5 * second);
}
