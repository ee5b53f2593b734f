-- ===== src/PortGraph.antt =====
-- cpp/mrc/src/internal/pipeline/port_graph.{hpp,cpp}: which segments of a pipeline have which ports. A
-- set of names is a list without an order.
use Prim.Native.String.{String}
use text.Mathlib.Text.{◌==◌ as str_eq}
use text.Mathlib.TextEquality.{eq_iff}
use mrc.Prelude.{
  ◌≡◌, refl, Bool, true, false, not, ◌&&◌, ◌||◌, none, some, List, [], ◌∷◌, if◌then◌else◌, arith,
}
use mrc.Modules.{TextMap, find, put}

pub record Segment : Type 0 where
  pub name : String
  pub ingress_port_names : List String
  pub egress_port_names : List String

pub record PortConnections : Type 0 where
  pub ingress_segments : List String
  pub egress_segments : List String

pub record PortGraph : Type 0 where
  pub port_map : TextMap PortConnections
  pub standalone : List String
  pub sinks : List String
  pub sources : List String

abbrev pub named : String → List String → Bool
named n [] = false
named n (k ∷ ks) = if str_eq k n then true else named n ks

abbrev pub no_names : List String → Bool
no_names [] = true
no_names (n ∷ ns) = false

unfoldable pub insert : String → List String → List String
insert n l = if named n l then l else n ∷ l

-- What `m_port_map[name]` refers to.
unfoldable pub port : String → TextMap PortConnections → PortConnections
unfolding find
port p m = elim (find p m) [
  | none ↦ record { ingress_segments = []; egress_segments = [] }
  | some c ↦ c
]

unfoldable pub add_ingress :
    String → List String → TextMap PortConnections → TextMap PortConnections
unfolding port put insert
add_ingress seg_name [] m = m
add_ingress seg_name (p ∷ ps) m = add_ingress seg_name ps (
    put p
      (record {
        ingress_segments = insert seg_name (port p m).ingress_segments;
        egress_segments = (port p m).egress_segments;
      })
      m)

unfoldable pub add_egress : String → List String → TextMap PortConnections → TextMap PortConnections
unfolding port put insert
add_egress seg_name [] m = m
add_egress seg_name (p ∷ ps) m = add_egress seg_name ps (
    put p
      (record {
        ingress_segments = (port p m).ingress_segments;
        egress_segments = insert seg_name (port p m).egress_segments;
      })
      m)

-- The set of a segment by its ports.
unfoldable pub classify : Segment → PortGraph → PortGraph
unfolding insert
classify s g =
    if no_names s.ingress_port_names
    then (if no_names s.egress_port_names
        then record g { standalone = insert s.name g.standalone }
        else record g { sources = insert s.name g.sources })
    else (if no_names s.egress_port_names then record g { sinks = insert s.name g.sinks } else g)

-- The loop of the constructor over the segments of the pipeline.
unfoldable pub add_segments : List Segment → PortGraph → PortGraph
unfolding classify add_ingress add_egress
add_segments [] g = g
add_segments (s ∷ ss) g =
    let c = classify s g in
    add_segments ss (record c {
      port_map =
          add_egress s.name s.egress_port_names
            (add_ingress s.name s.ingress_port_names c.port_map);
    })

unfoldable pub create : List Segment → PortGraph
unfolding add_segments
create segments =
    add_segments segments (record { port_map = []; standalone = []; sinks = []; sources = [] })

unfoldable pub segments_with_no_ports : PortGraph → List String
segments_with_no_ports g = g.standalone

unfoldable pub segments_with_only_ingress_ports : PortGraph → List String
segments_with_only_ingress_ports g = g.sources

unfoldable pub segments_with_only_egress_ports : PortGraph → List String
segments_with_only_egress_ports g = g.sinks

-- Whether a segment of the name has ports of the kinds that are asked for.
abbrev pub has_ports : Bool → Bool → String → List Segment → Bool
has_ports ingress egress n [] = false
has_ports ingress egress n (s ∷ ss) =
    if str_eq s.name n
      && (if no_names s.ingress_port_names then not ingress else ingress)
      && (if no_names s.egress_port_names then not egress else egress)
    then true
    else has_ports ingress egress n ss

named-insert :
    (n k : String) (l : List String)
    → named n (insert k l) ≡ (if str_eq k n then true else named n l)
unfolding insert
named-insert n k l = ground (arith, eq_iff k n)

classified :
    (n : String) (s : Segment) (g : PortGraph)
    → (named n (classify s g).standalone
        ≡ (has_ports false false n (s ∷ []) || named n g.standalone))
      × (named n (classify s g).sources ≡ (has_ports false true n (s ∷ []) || named n g.sources))
      × (named n (classify s g).sinks ≡ (has_ports true false n (s ∷ []) || named n g.sinks))
unfolding classify
classified n s g = ground (
  arith,
  named-insert n s.name g.standalone,
  named-insert n s.name g.sources,
  named-insert n s.name g.sinks,
)

added :
    (n : String) (ss : List Segment) (g : PortGraph)
    → (named n (add_segments ss g).standalone
        ≡ (has_ports false false n ss || named n g.standalone))
      × (named n (add_segments ss g).sources ≡ (has_ports false true n ss || named n g.sources))
      × (named n (add_segments ss g).sinks ≡ (has_ports true false n ss || named n g.sinks))
unfolding add_segments
added n [] g = (refl, refl, refl)
added n (s ∷ ss) g =
    let g' = classify s g in
    let next : PortGraph = record g' {
      port_map =
          add_egress s.name s.egress_port_names
            (add_ingress s.name s.ingress_port_names g'.port_map);
    } in
    ground (arith, classified n s g, added n ss next)

-- Of the three sets, the one without ports is right, and the other two are interchanged: the segments
-- that are given out as those with ingress ports only are those that have egress ports and no ingress
-- ports, and the other way round.
pub create_lem :
    (n : String) (segments : List Segment)
    → let g = create segments in
      (named n (segments_with_no_ports g) ≡ has_ports false false n segments)
      × (named n (segments_with_only_ingress_ports g) ≡ has_ports false true n segments)
      × (named n (segments_with_only_egress_ports g) ≡ has_ports true false n segments)
unfolding create segments_with_no_ports segments_with_only_ingress_ports
    segments_with_only_egress_ports
create_lem n segments =
    ground (
      arith,
      added n segments (record { port_map = []; standalone = []; sinks = []; sources = [] }),
    )
