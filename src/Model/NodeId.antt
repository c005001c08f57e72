-- ===== src/Model/NodeId.antt =====
-- `NodeID` of internal/model/model.go: a node's number as a `!` and eight hexadecimal digits.
use mesthastic_caltopo_bridg.Prelude.{
  ℕ, zero, suc, ◌+◌, ◌-◌, ◌*◌, ◌/◌, ◌%◌, ◌^◌, ◌<◌, ◌≡◌, ◌↔◌, [], ◌∷◌, length, arith, ltb,
  if◌then◌else◌, ap, sym, ◌∙◌, drop,
}
use native.Mathlib.Nat.{pow-suc}
use mesthastic_caltopo_bridg.Go.Text.{Text}

abbrev pub hex_digit : ℕ → ℕ
hex_digit d = if ltb d 10 then 48 + d else 87 + d

-- The loop, which fills the buffer from its end: `i` digits are still to come.
unfoldable pub hex_loop : ℕ → ℕ → Text → Text
hex_loop zero node buf = buf
hex_loop (suc i) node buf = hex_loop i (node / 16) (hex_digit (node % 16) ∷ buf)

unfoldable pub node_id : ℕ → Text
unfolding hex_loop
node_id node = 0x21 ∷ hex_loop 8 node []

-- The number that hexadecimal digits stand for, behind what is read already.
digit_value : ℕ → ℕ
digit_value c = if ltb c 58 then c - 48 else c - 87

hex_value : ℕ → Text → ℕ
hex_value n [] = n
hex_value n (c ∷ cs) = hex_value (n * 16 + digit_value c) cs

digit_value-hex_digit : (d : ℕ) → d < 16 → digit_value (hex_digit d) ≡ d
unfolding digit_value
digit_value-hex_digit d h = ground arith

hex_value-hex_loop :
    (i node : ℕ) (buf : Text)
    → node < 16 ^ i
    → hex_value 0 (hex_loop i node buf) ≡ hex_value node buf
unfolding hex_loop hex_value
hex_value-hex_loop zero node buf h = ap (λ n. hex_value n buf) (omega arith)
hex_value-hex_loop (suc i) node buf h =
    hex_value-hex_loop i (node / 16) (hex_digit (node % 16) ∷ buf) (omega (arith, pow-suc 16 i))
    ∙ ap (λ n. hex_value n buf) (omega (arith, digit_value-hex_digit (node % 16) (omega arith)))

length-hex_loop : (i node : ℕ) (buf : Text) → length (hex_loop i node buf) ≡ i + length buf
unfolding hex_loop
length-hex_loop zero node buf = omega arith
length-hex_loop (suc i) node buf =
    omega (arith, length-hex_loop i (node / 16) (hex_digit (node % 16) ∷ buf))

-- The name of a node has nine bytes, and two nodes, as `uint32`, have one name only if they are the
-- same node.
pub node_id-faithful :
    (a b : ℕ)
    → a < 2 ^ 32
    → b < 2 ^ 32
    → (length (node_id a) ≡ 9) × ((node_id a ≡ node_id b) ↔ (a ≡ b))
unfolding node_id hex_value
node_id-faithful a b ha hb = (
  ap suc (length-hex_loop 8 a []),
  (
    (λ e.
        sym (hex_value-hex_loop 8 a [] ha)
        ∙ ap (λ t. hex_value 0 (drop 1 t)) e
        ∙ hex_value-hex_loop 8 b [] hb),
    (λ e. ap node_id e),
  ),
)
