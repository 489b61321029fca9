-- ===== src/Core/State/Tree/Again.antt =====
-- A path that was resolved once resolves to the same place again
-- (packages/core/src/state/json-path/tree.ts).
use privacy_layer_confidenti.Base.{
  String, Bool, ◌≡◌, refl, sym, ap, ◌∙◌, List, [], ◌∷◌, eq_iff, arith,
}
use privacy_layer_confidenti.Js.Value.{Value, Fields}
use privacy_layer_confidenti.Js.Fields.{get_field, put_field}
use privacy_layer_confidenti.Js.Fields.Laws.{get-put, put_same}
use privacy_layer_confidenti.Core.State.Tree.{
  Outcome, done, failed, parse_json_path, Update, at_parent, at_segments, at_json_path, init, last,
  record_at, ensure_record_at_path,
}
use privacy_layer_confidenti.Core.State.Tree.Laws.{below, at_parent-step, at_json_path-eq}

pub get_put_same : (k : String) (v : Value) (fs : Fields) → get_field k (put_field k v fs) ≡ v
get_put_same k v fs = ground (arith, get-put k k v fs, eq_iff k k)

-- Doing at a record what leaves it, with outcome `b`.
abbrev pub Reads : Update Value → Outcome Value → Fields → Type 0
Reads update b record_ = update record_ ≡ (b, record_)

at_parent_same :
    (create : Bool) (segment : String) (segments : List String) (update : Update Value)
    (b : Outcome Value) (below' root : Fields)
    → get_field segment root ≡ Value.obj below'
    → Reads (at_parent create segments update) b below'
    → Reads (at_parent create (segment ∷ segments) update) b root
unfolding at_parent
at_parent_same create segment segments update b below' root e h =
    ground (arith, put_same segment (Value.obj below') root)

at_parent-again :
    {A : Type 0} (create : Bool) (segments : List String) (update : Update A) (root : Fields)
    {a : A} {root' : Fields}
    → at_parent create segments update root ≡ (done a, root')
    → (parent : Fields) × (parent' : Fields) × (update parent ≡ (done a, parent'))
      × ((again : Bool) (next : Update Value) (b : Outcome Value)
          → Reads next b parent'
          → Reads (at_parent again segments next) b root')
unfolding at_parent
at_parent-again create [] update root {a} {root'} h = (root, root', h, λ again next b r. r)
at_parent-again create (segment ∷ segments) update root h =
    let (below', e, p) = at_parent-step create segment segments update root h in
    let (parent, parent', u, more) =
      at_parent-again create segments update (below (get_field segment root)) e in
    (
      parent,
      parent',
      u,
      λ again next b r.
          at_parent_same again segment segments next b below' _
            (ap (get_field segment) p ∙ get_put_same segment (Value.obj below') root)
            (more again next b r),
    )

at_segments-again :
    {A : Type 0} (create : Bool) (segments : List String) (update : String → Update A)
    (root : Fields) {a : A} {root' : Fields}
    → at_segments create segments update root ≡ (done a, root')
    → (key : String) × (parent : Fields) × (parent' : Fields) × (update key parent
        ≡ (done a, parent'))
      × ((again : Bool) (next : String → Update Value) (b : Outcome Value)
          → Reads (next key) b parent'
          → Reads (at_segments again segments next) b root')
unfolding at_segments
at_segments-again create [] update root {a} {root'} h = ("", root, root', h, λ again next b r. r)
at_segments-again create (segment ∷ []) update root {a} {root'} h =
    (segment, root, root', h, λ again next b r. r)
at_segments-again create (segment ∷ next ∷ segments) update root h =
    let key = last segment (next ∷ segments) in
    let (parent, parent', u, more) =
      at_parent-again create (init segment (next ∷ segments)) (update key) root h in
    (key, parent, parent', u, λ again step b r. more again (step key) b r)

at_json_path-done :
    {A : Type 0} (create : Bool) (json_path : String) (update : String → Update A) (root : Fields)
    {a : A} {root' : Fields}
    → at_json_path create json_path update root ≡ (done a, root')
    → (segments : List String) × (parse_json_path json_path ≡ done segments)
unfolding at_json_path
at_json_path-done create json_path update root h = pick (parse_json_path json_path) refl
  where
    pick :
        (o : Outcome (List String))
        → parse_json_path json_path ≡ o
        → (segments : List String) × (parse_json_path json_path ≡ done segments)
    pick (done segments) e = (segments, e)
    pick (failed f) e = absurd (ground arith)

-- What is done at a path finds what was last done there, when that succeeded, whether or not it may
-- create missing parts.
at_json_path-again :
    {A : Type 0} (create : Bool) (json_path : String) (update : String → Update A) (root : Fields)
    {a : A} {root' : Fields}
    → at_json_path create json_path update root ≡ (done a, root')
    → (key : String) × (parent : Fields) × (parent' : Fields) × (update key parent
        ≡ (done a, parent'))
      × ((again : Bool) (next : String → Update Value) (b : Outcome Value)
          → Reads (next key) b parent'
          → Reads (at_json_path again json_path next) b root')
at_json_path-again create json_path update root {a} {root'} h =
    let (segments, p) = at_json_path-done create json_path update root h in
    let (key, parent, parent', u, more) =
      at_segments-again create segments update root
        (sym (at_json_path-eq create json_path update root p) ∙ h) in
    (
      key,
      parent,
      parent',
      u,
      λ again next b r. at_json_path-eq again json_path next root' p ∙ more again next b r,
    )

record_at-again :
    (create : Bool) (json_path : String) (update : Update Value) (key : String) (parent : Fields)
    {a : Value} {parent' : Fields}
    → record_at create json_path update key parent ≡ (done a, parent')
    → (record_ : Fields) × (changed : Fields) × (update record_ ≡ (done a, changed))
      × (get_field key parent' ≡ Value.obj changed)
unfolding record_at
record_at-again create json_path update key parent h =
    let record_ = below (get_field key parent) in
    let changed = (update record_).1 in
    (record_, changed, ground arith, ground (arith, get_put_same key (Value.obj changed) parent))

record_at-Reads :
    (create : Bool) (json_path : String) (update : Update Value) (key : String) (parent : Fields)
    (b : Outcome Value) (changed : Fields)
    → get_field key parent ≡ Value.obj changed
    → Reads update b changed
    → Reads (record_at create json_path update key) b parent
unfolding record_at
record_at-Reads create json_path update key parent b changed e r =
    ground (arith, put_same key (Value.obj changed) parent)

-- What is read of the record at a path is read of the record that was last left there.
pub ensure_record_at_path-again :
    (create : Bool) (json_path : String) (update : Update Value) (root : Fields) {a : Value}
    {root' : Fields}
    → ensure_record_at_path create json_path update root ≡ (done a, root')
    → (record_ : Fields) × (changed : Fields) × (update record_ ≡ (done a, changed))
      × ((again : Bool) (next : Update Value) (b : Outcome Value)
          → Reads next b changed
          → Reads (ensure_record_at_path again json_path next) b root')
unfolding ensure_record_at_path
ensure_record_at_path-again create json_path update root h =
    let (key, parent, parent', u, more) =
      at_json_path-again create json_path (record_at create json_path update) root h in
    let (record_, changed, did, e) = record_at-again create json_path update key parent u in
    (
      record_,
      changed,
      did,
      λ again next b r.
          more again (record_at again json_path next) b
            (record_at-Reads again json_path next key parent' b changed e r),
    )
