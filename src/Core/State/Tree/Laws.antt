-- ===== src/Core/State/Tree/Laws.antt =====
-- What JSON paths read and write (packages/core/src/state/json-path/tree.ts).
use privacy_layer_confidenti.Base.{
  String, Bool, true, false, ◌≡◌, refl, sym, ap, ◌∙◌, List, [], ◌∷◌, ◌==◌, eq_iff, arith,
  if◌then◌else◌,
}
use privacy_layer_confidenti.Js.Value.{Value, undefined, Fields, end}
use privacy_layer_confidenti.Js.Fields.{get_field, put_field}
use privacy_layer_confidenti.Js.Fields.Laws.{get-put}
use privacy_layer_confidenti.Core.State.Tree.{
  done, parse_json_path, Update, at_parent, at_segments, at_json_path, init, last, read_segments,
  get_json_path_value, write_property, set_json_path_value,
}

-- A step to the next parent is the step of a record, or of the record made for a missing one.
abbrev pub below : Value → Fields
below (Value.obj next) = next
below _ = end

-- What a step to the next parent leaves, when what is done there succeeds.
pub at_parent-step :
    {A : Type 0} (create : Bool) (segment : String) (segments : List String) (update : Update A)
    (root : Fields) {a : A} {root' : Fields}
    → at_parent create (segment ∷ segments) update root ≡ (done a, root')
    → (below' : Fields) × (at_parent create segments update (below (get_field segment root))
        ≡ (done a, below'))
      × (root' ≡ put_field segment (Value.obj below') root)
unfolding at_parent
at_parent-step create segment segments update root h = (
  (at_parent create segments update (below (get_field segment root))).1,
  ground arith,
  ground arith,
)

-- A value that was written below a parent is read back by the whole path.
read-at_parent :
    (create : Bool) (segment : String) (segments : List String) (value : Value) (root : Fields)
    {root' : Fields}
    → at_parent create (init segment segments) (write_property value (last segment segments)) root
      ≡ (done tt, root')
    → read_segments (segment ∷ segments) (Value.obj root') ≡ value
unfolding at_parent
read-at_parent create segment [] value root h =
    ground (arith, get-put segment segment value root, eq_iff segment segment)
read-at_parent create segment (next ∷ segments) value root h =
    let (below', e, p) =
      at_parent-step create segment (init next segments)
        (write_property value (last segment (next ∷ segments))) root h in
    let read = read-at_parent create next segments value (below (get_field segment root)) e in
    ground (arith, get-put segment segment (Value.obj below') root, eq_iff segment segment)

-- Two paths part when they differ at a segment that both have.
abbrev pub diverges : List String → List String → Bool
diverges (s ∷ ss) (t ∷ ts) = if s == t then diverges ss ts else true
diverges _ _ = false

read_undefined : (segments : List String) → read_segments segments undefined ≡ undefined
read_undefined [] = refl
read_undefined (s ∷ ss) = refl

read-below :
    (s t : String) (ts : List String) (root : Fields)
    → read_segments (t ∷ ts) (Value.obj (below (get_field s root)))
      ≡ read_segments (s ∷ t ∷ ts) (Value.obj root)
unfolding get_field
read-below s t ts root = ground (arith, read_undefined ts)

-- Writing below a parent leaves the values at diverging paths, also when it fails.
at_parent_frame :
    (create : Bool) (segment : String) (segments : List String) (value : Value) (root : Fields)
    (q : List String)
    → diverges (segment ∷ segments) q ≡ true
    → read_segments q (
        Value.obj
          (at_parent create
            (init segment segments)
            (write_property value (last segment segments))
            root).1)
      ≡ read_segments q (Value.obj root)
unfolding at_parent
at_parent_frame create segment segments value root [] h = cc
at_parent_frame create segment [] value root (t ∷ ts) h =
    ground (arith, get-put segment t value root, eq_iff segment t)
at_parent_frame create segment (next ∷ segments) value root (t ∷ []) h =
    let changed =
      (at_parent create (init next segments) (write_property value (last next segments))
        (below (get_field segment root))).1 in
    ground (arith, get-put segment t (Value.obj changed) root, eq_iff segment t)
at_parent_frame create segment (next ∷ segments) value root (t ∷ u ∷ ts) h =
    let changed =
      (at_parent create (init next segments) (write_property value (last next segments))
        (below (get_field segment root))).1 in
    let deep =
      at_parent_frame create next segments value (below (get_field segment root)) (u ∷ ts) in
    let same = read-below segment u ts root in
    ground (arith, get-put segment t (Value.obj changed) root, eq_iff segment t)

-- A path that parses resolves to its segments.
pub at_json_path-eq :
    {A : Type 0} (create : Bool) (json_path : String) (update : String → Update A) (root : Fields)
    {segments : List String}
    → parse_json_path json_path ≡ done segments
    → at_json_path create json_path update root ≡ at_segments create segments update root
unfolding at_json_path
at_json_path-eq create json_path update root p = rw (at_json_path, p) refl

pub get_json_path_value-eq :
    (root : Fields) (json_path : String) {segments : List String}
    → parse_json_path json_path ≡ done segments
    → get_json_path_value root json_path ≡ done (read_segments segments (Value.obj root))
unfolding get_json_path_value
get_json_path_value-eq root json_path p = rw (get_json_path_value, p) refl

pub set_json_path_value-eq :
    (create : Bool) (json_path : String) (segment : String) (segments : List String) (value : Value)
    (root : Fields)
    → parse_json_path json_path ≡ done (segment ∷ segments)
    → set_json_path_value create json_path value root
      ≡ at_parent create (init segment segments) (write_property value (last segment segments)) root
unfolding set_json_path_value at_segments at_parent
set_json_path_value-eq create json_path segment [] value root p =
    at_json_path-eq create json_path (write_property value) root p
set_json_path_value-eq create json_path segment (next ∷ segments) value root p =
    at_json_path-eq create json_path (write_property value) root p

-- Setting the value at a path that names a property, when it succeeds, makes reading the path give
-- the value.
pub get-set :
    (create : Bool) (json_path : String) (segment : String) (segments : List String) (value : Value)
    (root : Fields) {root' : Fields}
    → parse_json_path json_path ≡ done (segment ∷ segments)
    → set_json_path_value create json_path value root ≡ (done tt, root')
    → get_json_path_value root' json_path ≡ done value
get-set create json_path segment segments value root {root'} p h =
    get_json_path_value-eq root' json_path p
    ∙ ap done (
        read-at_parent create segment segments value root
          (sym (set_json_path_value-eq create json_path segment segments value root p) ∙ h))

-- Setting the value at a path that names a property leaves what is read at every path that parts
-- from it, also when it fails half-way.
pub set_json_path_value_keeps :
    (create : Bool) (json_path : String) (segment : String) (segments : List String) (value : Value)
    (root : Fields) (other_path : String) {other : List String}
    → parse_json_path json_path ≡ done (segment ∷ segments)
    → parse_json_path other_path ≡ done other
    → diverges (segment ∷ segments) other ≡ true
    → get_json_path_value (set_json_path_value create json_path value root).1 other_path
      ≡ get_json_path_value root other_path
set_json_path_value_keeps create json_path segment segments value root other_path {other} p q d =
    get_json_path_value-eq _ other_path q
    ∙ ap done (
        ap (λ r. read_segments other (Value.obj r.1))
          (set_json_path_value-eq create json_path segment segments value root p)
        ∙ at_parent_frame create segment segments value root other d)
    ∙ sym (get_json_path_value-eq root other_path q)
