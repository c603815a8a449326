-- ===== src/Domain/Views/Stock.antt =====
-- packages/core/src/domain/views.ts: the entries of the products.
use mafuta.Base.{
  some, List, [], ◌∷◌, map, ◌≡◌, ◌∙◌, sym, ap, subst, refl, ◌↔◌, Option-cases, inl, inr, Among,
}
use mafuta.Base.Dict.{Dict, get, values, get-Entries, get-Among-values, Among-values-get}
use mafuta.Base.Sort.{Among-sort}
use mafuta.Runtime.{Runtime}
use mafuta.Domain.Tank.{FuelProduct}
use mafuta.Domain.Views.{
  TankSummary, ProductStock, product_text, stock_from, with_fill_percent, summarise_product_stock,
  option_map,
}
use mafuta.Domain.Views.Sums.{
  holders, stock_if_held, stock_of, get-stock_from, stock_if_held-absorb, stock_from-keyed,
  stock_from-HasDistinctKeys,
}

module _ (summaries : List TankSummary) where
  by_product : Dict ProductStock
  by_product = stock_from [] summaries

  get-by_product :
      (product : FuelProduct)
      → get (product_text product) by_product ≡ stock_if_held product (holders product summaries)
  unfolding by_product get
  get-by_product product =
      get-stock_from product [] summaries ∙ stock_if_held-absorb product (holders product summaries)

  Among-by_product :
      (stock : ProductStock)
      → Among stock (values by_product)
      → stock_if_held stock.product (holders stock.product summaries) ≡ some stock
  unfolding by_product
  Among-by_product stock here =
      let distinct = stock_from-HasDistinctKeys [] summaries tt in
      let keyed = stock_from-keyed [] summaries tt in
      let (k, found) = Among-values-get stock by_product distinct here in
      let own = get-Entries (λ k v. k ≡ product_text v.product) k stock by_product keyed found in
      sym (get-by_product stock.product) ∙ subst (λ j. get j by_product ≡ some stock) own found

Among-map :
    {A B : Type 0} (f : A → B) (b : B) (xs : List A)
    → Among b (map f xs)
    → (a : A) × ((b ≡ f a) × Among a xs)
Among-map f b [] here = absurd here
Among-map f b (x ∷ xs) (inl here) = (x, (here, inl refl))
Among-map f b (x ∷ xs) (inr later) =
    let (a, (same, among)) = Among-map f b xs later in (a, (same, inr among))

map-Among : {A B : Type 0} (f : A → B) (a : A) (xs : List A) → Among a xs → Among (f a) (map f xs)
map-Among f a [] here = absurd here
map-Among f a (x ∷ xs) (inl here) = inl (ap f here)
map-Among f a (x ∷ xs) (inr later) = inr (map-Among f a xs later)

unwrap-some : {A : Type 0} {a b : A} → some a ≡ some b → a ≡ b
unwrap-some e = cc

filled :
    (product : FuelProduct) (summaries : List TankSummary) (stock : ProductStock)
    → stock_of product summaries ≡ some stock
    → Among stock (map with_fill_percent (values (by_product summaries)))
filled product summaries stock held =
    elim (Option-cases (stock_if_held product (holders product summaries))) [
      | inl missing ↦ cc (rw missing at held)
      | inr (plain, found) ↦
          let same : with_fill_percent plain ≡ stock = unwrap-some (rw found at held) in
          let here =
            get-Among-values (product_text product) plain (by_product summaries)
              (get-by_product summaries product ∙ found) in
          subst (λ s. Among s (map with_fill_percent (values (by_product summaries)))) same
            (map-Among with_fill_percent plain (values (by_product summaries)) here)
    ]

-- A stock is listed for its product exactly if it is the sum over the tanks that hold that
-- product, of which there is at least one: their number, their capacity, their volume with 0 for a
-- tank without a reading, how many those are, and the fill made of these.
pub summarise_product_stock_iff :
    (rt : Runtime) (summaries : List TankSummary) (stock : ProductStock)
    → Among stock (summarise_product_stock rt summaries)
      ↔ (stock_of stock.product summaries ≡ some stock)
unfolding summarise_product_stock by_product with_fill_percent
summarise_product_stock_iff rt summaries stock =
    let entries = map with_fill_percent (values (by_product summaries)) in
    let sorted =
      Among-sort
        (λ left right. rt.locale_after (product_text left.product) (product_text right.product))
        stock entries in
    (
      λ listed.
          let (plain, (same, among)) =
            Among-map with_fill_percent stock (values (by_product summaries)) (sorted.0 listed) in
          subst (λ s. stock_of s.product summaries ≡ some s) (sym same)
            (ap (option_map with_fill_percent) (Among-by_product summaries plain among)),
      λ held. sorted.1 (filled stock.product summaries stock held),
    )
