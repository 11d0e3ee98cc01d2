-- ===== src/DeviceTree/Parts.antt =====
-- The places of a tree and of its siblings, all distinct, taken apart.
use octiron.Base.{List, ◌++◌}
use octiron.Stack.{Ref}
use octiron.DeviceTree.Places.{
  Places, node_places, property_places, NotIn, Apart, AreDistinct, NotIn-append, AreDistinct-append,
  Apart-append,
}

-- The places of a tree and of its siblings, taken apart.
pub record AreParts (r : Ref) (rs : List Ref) (inner more : Places) : Type 0 where
  pub own : AreDistinct rs
  pub new : NotIn r (node_places inner)
  pub new_rest : NotIn r (node_places more)
  pub nodes_inner : AreDistinct (node_places inner)
  pub nodes_rest : AreDistinct (node_places more)
  pub nodes_apart : Apart (node_places inner) (node_places more)
  pub properties_inner : AreDistinct (property_places inner)
  pub properties_rest : AreDistinct (property_places more)
  pub own_inner : Apart rs (property_places inner)
  pub own_rest : Apart rs (property_places more)
  pub properties_apart : Apart (property_places inner) (property_places more)

pub parts :
    (r : Ref) (rs : List Ref) (inner more : Places)
    → AreDistinct (node_places (Places.at r rs inner more))
    → AreDistinct (property_places (Places.at r rs inner more))
    → AreParts r rs inner more
parts r rs inner more (fresh, nodes) properties =
    let (new, new_rest) = NotIn-append r (node_places inner) (node_places more) fresh in
    let (ni, nm, na) = AreDistinct-append (node_places inner) (node_places more) nodes in
    let (own, both, apart) =
      AreDistinct-append rs (property_places inner ++ property_places more) properties in
    let (pi, pm, pa) = AreDistinct-append (property_places inner) (property_places more) both in
    let (oi, om) = Apart-append rs (property_places inner) (property_places more) apart in
    record {
      own = own;
      new = new;
      new_rest = new_rest;
      nodes_inner = ni;
      nodes_rest = nm;
      nodes_apart = na;
      properties_inner = pi;
      properties_rest = pm;
      own_inner = oi;
      own_rest = om;
      properties_apart = pa;
    }
