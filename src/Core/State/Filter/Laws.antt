-- ===== src/Core/State/Filter/Laws.antt =====
-- What filtering an array keeps (packages/core/src/state/array-filter/match.ts).
use privacy_layer_confidenti.Base.{◌≡◌, refl, Option, arith}
use privacy_layer_confidenti.Js.Value.{Value, Items, nil, item, Fields}
use privacy_layer_confidenti.Js.Fields.{push_items}
use privacy_layer_confidenti.Core.State.Filter.{ArrayFilterRejectMatch, ToBigInt, filter_items}

module _ (to_bigint : ToBigInt) where
  -- Filtering appended items is appending what each part keeps; filtering twice is filtering once;
  -- and the order of two filters does not matter.
  pub filter_items_laws :
      (parse : Value → Option Fields) (m n : ArrayFilterRejectMatch) (xs ys : Items)
      → (filter_items to_bigint parse m (push_items xs ys)
          ≡ push_items (filter_items to_bigint parse m xs) (filter_items to_bigint parse m ys))
        × (filter_items to_bigint parse m (filter_items to_bigint parse m xs)
            ≡ filter_items to_bigint parse m xs)
        × (filter_items to_bigint parse m (filter_items to_bigint parse n xs)
            ≡ filter_items to_bigint parse n (filter_items to_bigint parse m xs))
  unfolding filter_items push_items
  filter_items_laws parse m n nil ys = (refl, refl, refl)
  filter_items_laws parse m n (item v vs) ys =
      let (a, b, c) = filter_items_laws parse m n vs ys in
      (ground arith, ground arith, ground arith)
