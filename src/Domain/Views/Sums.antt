-- ===== src/Domain/Views/Sums.antt =====
-- packages/core/src/domain/views.ts: the stock of each product as the sums over its tanks.
use mafuta.Base.{
  ℕ, ◌+◌, String, Option, none, some, Bool, true, false, List, [], ◌∷◌, map, filter, length, ◌==◌,
  ◌≡◌, ◌∙◌, sym, ap, refl, if◌then◌else◌, Bool-cases, Option-cases, inl, inr, arith, eq_iff,
}
use mafuta.Base.Int.{ℤ, pos, ◌+ℤ◌, int_laws}
use mafuta.Base.Ratio.{of_ℕ}
use mafuta.Base.Dict.{
  Dict, get, set, get-set, Entries, set-Entries, get-Entries, HasDistinctKeys, set-HasDistinctKeys,
}
use mafuta.Domain.Tank.{
  FuelProduct, diesel, petrol_91, petrol_95, kerosene, adblue, usable_capacity_ml,
}
use mafuta.Domain.Views.{
  TankSummary, ProductStock, product_text, empty_stock, or_empty, volume_or_zero, one_if_none,
  add_summary, stock_from, with_fill_percent, option_map,
}

unfoldable pub sum : List ℤ → ℤ
sum [] = pos 0
sum (z ∷ zs) = z +ℤ sum zs

abbrev pub is_none : {A : Type 0} → Option A → Bool
is_none none = true
is_none (some a) = false

-- The summaries of the tanks that hold a product.
abbrev pub holders : FuelProduct → List TankSummary → List TankSummary
holders product summaries =
    filter (λ s. product_text s.tank.product == product_text product) summaries

-- The stock in these tanks.
abbrev pub stock_in : FuelProduct → List TankSummary → ProductStock
stock_in product own = record {
  product = product;
  tank_count = length own;
  capacity_ml = sum (map (λ s. usable_capacity_ml s.tank) own);
  net_volume_ml = sum (map (λ s. volume_or_zero s.net_volume_ml) own);
  fill_percent = of_ℕ 0;
  tanks_without_reading = length (filter (λ s. is_none s.net_volume_ml) own);
}

abbrev pub stock_if_held : FuelProduct → List TankSummary → Option ProductStock
stock_if_held product [] = none
stock_if_held product (summary ∷ own) = some (stock_in product (summary ∷ own))

-- The entry of a product: the stock in the tanks that hold it, with its fill, if there are any.
abbrev pub stock_of : FuelProduct → List TankSummary → Option ProductStock
stock_of product summaries =
    option_map with_fill_percent (stock_if_held product (holders product summaries))

-- A stock that takes in further tanks.
abbrev pub absorb : FuelProduct → Option ProductStock → List TankSummary → Option ProductStock
absorb product stock [] = stock
absorb product stock (summary ∷ own) =
    absorb product (some (add_summary (or_empty product stock) summary)) own

abbrev plus : ProductStock → List TankSummary → ProductStock
plus stock own = record {
  product = stock.product;
  tank_count = stock.tank_count + length own;
  capacity_ml = stock.capacity_ml +ℤ sum (map (λ s. usable_capacity_ml s.tank) own);
  net_volume_ml = stock.net_volume_ml +ℤ sum (map (λ s. volume_or_zero s.net_volume_ml) own);
  fill_percent = of_ℕ 0;
  tanks_without_reading =
      stock.tanks_without_reading + length (filter (λ s. is_none s.net_volume_ml) own);
}

assoc_ℤ : (a b c : ℤ) → (a +ℤ b) +ℤ c ≡ a +ℤ (b +ℤ c)
assoc_ℤ a b c = grind int_laws

zero_ℤ : (a : ℤ) → a +ℤ pos 0 ≡ a
zero_ℤ a = grind int_laws

ℤ_zero : (a : ℤ) → pos 0 +ℤ a ≡ a
ℤ_zero a = grind int_laws

abbrev stock_with : FuelProduct → ℕ → ℤ → ℤ → ℕ → ProductStock
stock_with product n c v w = record {
  product = product;
  tank_count = n;
  capacity_ml = c;
  net_volume_ml = v;
  fill_percent = of_ℕ 0;
  tanks_without_reading = w;
}

same_stock :
    (product : FuelProduct) (n n' w w' : ℕ) (c c' v v' : ℤ)
    → n ≡ n'
    → c ≡ c'
    → v ≡ v'
    → w ≡ w'
    → some (stock_with product n c v w) ≡ some (stock_with product n' c' v' w')
same_stock product n n' w w' c c' v v' hn hc hv hw = cc

-- One tank more, and those behind it.
unread :
    (n : ℕ) (summary : TankSummary) (own : List TankSummary)
    → (n + one_if_none summary.net_volume_ml) + length (filter (λ s. is_none s.net_volume_ml) own)
      ≡ n + length (filter (λ s. is_none s.net_volume_ml) (summary ∷ own))
unread n summary own = elim (Option-cases summary.net_volume_ml) [
  | inl missing ↦ rw missing (omega arith)
  | inr (volume, read) ↦ rw read (omega arith)
]

absorb-plus :
    (product : FuelProduct) (stock : ProductStock) (own : List TankSummary)
    → stock.fill_percent ≡ of_ℕ 0
    → absorb product (some stock) own ≡ some (plus stock own)
unfolding add_summary sum
absorb-plus product stock [] clear =
    ground (arith, clear, zero_ℤ stock.capacity_ml, zero_ℤ stock.net_volume_ml)
absorb-plus product stock (summary ∷ own) clear =
    let rest = absorb-plus product (add_summary stock summary) own refl in
    let capacity =
      assoc_ℤ stock.capacity_ml (usable_capacity_ml summary.tank)
        (sum (map (λ s. usable_capacity_ml s.tank) own)) in
    let volume =
      assoc_ℤ stock.net_volume_ml (volume_or_zero summary.net_volume_ml)
        (sum (map (λ s. volume_or_zero s.net_volume_ml) own)) in
    rest
    ∙ same_stock stock.product _ _ _ _ _ _ _ _ (omega arith) capacity volume
        (unread stock.tanks_without_reading summary own)

product_of : String → FuelProduct
product_of text =
    if text == "diesel"
    then diesel
    else if text == "petrol-91"
    then petrol_91
    else if text == "petrol-95"
    then petrol_95
    else if text == "kerosene"
    then kerosene
    else adblue

product_of-product_text : (product : FuelProduct) → product_of (product_text product) ≡ product
unfolding product_of
product_of-product_text diesel = refl
product_of-product_text petrol_91 = refl
product_of-product_text petrol_95 = refl
product_of-product_text kerosene = refl
product_of-product_text adblue = refl

same_product : (p q : FuelProduct) → (product_text p == product_text q) ≡ true → p ≡ q
same_product p q same =
    sym (product_of-product_text p)
    ∙ (ap product_of ((eq_iff (product_text p) (product_text q)).0 same)
        ∙ product_of-product_text q)

pub get-stock_from :
    (product : FuelProduct) (m : Dict ProductStock) (summaries : List TankSummary)
    → get (product_text product) (stock_from m summaries)
      ≡ absorb product (get (product_text product) m) (holders product summaries)
unfolding stock_from
get-stock_from product m [] = refl
get-stock_from product m (summary ∷ summaries) =
    let held = summary.tank.product in
    let entry : FuelProduct → ProductStock =
      λ p. add_summary (or_empty p (get (product_text p) m)) summary in
    let m' = set (product_text held) (entry held) m in
    let rest = get-stock_from product m' summaries in
    let found = get-set (product_text held) (product_text product) (entry held) m in
    elim (Bool-cases (product_text held == product_text product)) [
      | inl same ↦
          let now : get (product_text product) m' ≡ some (entry product) =
            rw same at found ∙ ap (λ p. some (entry p)) (same_product held product same) in
          rest ∙ rw (same, now) refl
      | inr other ↦
          let now : get (product_text product) m' ≡ get (product_text product) m =
            rw other at found in
          rest ∙ rw (other, now) refl
    ]

pub stock_if_held-absorb :
    (product : FuelProduct) (own : List TankSummary)
    → absorb product none own ≡ stock_if_held product own
unfolding add_summary sum
stock_if_held-absorb product [] = refl
stock_if_held-absorb product (summary ∷ own) =
    absorb-plus product (add_summary (empty_stock product) summary) own refl
    ∙ same_stock product _ _ _ _ _ _ _ _ (omega arith)
        (ap (λ z. z +ℤ sum (map (λ s. usable_capacity_ml s.tank) own))
          (ℤ_zero (usable_capacity_ml summary.tank)))
        (ap (λ z. z +ℤ sum (map (λ s. volume_or_zero s.net_volume_ml) own))
          (ℤ_zero (volume_or_zero summary.net_volume_ml)))
        (let all = unread 0 summary own in omega (arith, all))

abbrev put_summary : TankSummary → Dict ProductStock → Dict ProductStock
put_summary summary m =
    let product = summary.tank.product in
    set (product_text product)
      (add_summary (or_empty product (get (product_text product) m)) summary) m

or_empty-keyed :
    (product : FuelProduct) (m : Dict ProductStock) (found : Option ProductStock)
    → Entries (λ k v. k ≡ product_text v.product) m
    → get (product_text product) m ≡ found
    → product_text product ≡ product_text (or_empty product found).product
or_empty-keyed product m none keyed e = refl
or_empty-keyed product m (some stock) keyed e =
    get-Entries (λ k v. k ≡ product_text v.product) (product_text product) stock m keyed e

pub stock_from-keyed :
    (m : Dict ProductStock) (summaries : List TankSummary)
    → Entries (λ k v. k ≡ product_text v.product) m
    → Entries (λ k v. k ≡ product_text v.product) (stock_from m summaries)
unfolding stock_from add_summary
stock_from-keyed m [] keyed = keyed
stock_from-keyed m (summary ∷ summaries) keyed =
    let product = summary.tank.product in
    stock_from-keyed (put_summary summary m) summaries (
      set-Entries (λ k v. k ≡ product_text v.product) (product_text product) _ m
        (or_empty-keyed product m (get (product_text product) m) keyed refl) keyed)

pub stock_from-HasDistinctKeys :
    (m : Dict ProductStock) (summaries : List TankSummary)
    → HasDistinctKeys m
    → HasDistinctKeys (stock_from m summaries)
unfolding stock_from
stock_from-HasDistinctKeys m [] distinct = distinct
stock_from-HasDistinctKeys m (summary ∷ summaries) distinct =
    stock_from-HasDistinctKeys (put_summary summary m) summaries
      (set-HasDistinctKeys (product_text summary.tank.product) _ m distinct)
