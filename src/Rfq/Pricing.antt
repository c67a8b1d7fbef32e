-- ===== src/Rfq/Pricing.antt =====
-- What the server calculates of a quotation, and the version that it gives it.
use innovents.Shared.{
  if◌then◌else◌, length, All, Result, ok, err, pos_part, is_negative, is_nonpositive, ℤ, pos,
  negsuc, ℕ, suc, ◌+◌, ◌*◌, ◌<◌, ◌≡◌, refl, subst, Bool, true, false, List, [], ◌∷◌, arith,
}
use innovents.Rfq.Tables.{QuotationItem, State, Error}
use innovents.Rfq.Quotations.{price_items, calculate, NewItem, CreateQuotation, Price}

abbrev pub sum_totals : List QuotationItem → ℕ
sum_totals [] = 0
sum_totals (i ∷ is) = i.total + sum_totals is

-- A priced item: a positive quantity, and the product as its total.
abbrev pub IsPriced : QuotationItem → Type 0
IsPriced i = (0 < i.quantity) × (i.total ≡ i.unit_price * i.quantity)

-- What holds of the items priced so far, from a subtotal `acc` on.
abbrev pub Sound : ℕ → ℕ → Result Error (ℕ × List QuotationItem) → Type 0
Sound acc n (err e) = Unit
Sound acc n (ok (sum, priced)) =
    (sum ≡ acc + sum_totals priced) × All IsPriced priced × (length priced ≡ n)

abbrev pub priced_item : NewItem → QuotationItem
priced_item i = record {
  rfq_item_id = i.rfq_item_id;
  description = i.description;
  quantity = pos_part i.quantity;
  unit_price = pos_part i.unit_price;
  total = pos_part i.unit_price * pos_part i.quantity;
}

positive_quantity : (a : ℤ) → is_nonpositive a ≡ false → 0 < pos_part a
positive_quantity (pos n) h = ground arith
positive_quantity (negsuc n) h = ground arith

Sound-cons :
    (i : NewItem) (acc n : ℕ) (rest : Result Error (ℕ × List QuotationItem))
    → is_nonpositive i.quantity ≡ false
    → Sound (acc + (priced_item i).total) n rest
    → Sound acc
        (suc n)
        (elim rest [ err e ↦ err e | ok (sum, priced) ↦ ok (sum, priced_item i ∷ priced) ])
Sound-cons i acc n (err e) h known = tt
Sound-cons i acc n (ok (sum, priced)) h known = (
  omega (arith, known.0),
  ((positive_quantity i.quantity h, refl), known.1),
  omega (arith, known.2),
)

Sound-if :
    (acc n : ℕ) (b : Bool) (r r' : Result Error (ℕ × List QuotationItem))
    → (b ≡ true → Sound acc n r)
    → (b ≡ false → Sound acc n r')
    → Sound acc n (if b then r else r')
Sound-if acc n true r r' thrown passed = thrown refl
Sound-if acc n false r r' thrown passed = passed refl

price_items-Sound : (is : List NewItem) (acc : ℕ) → Sound acc (length is) (price_items is acc)
unfolding price_items
price_items-Sound [] acc = (omega arith, tt, refl)
price_items-Sound (i ∷ is) acc =
    let known = price_items-Sound is (acc + (priced_item i).total) in
    Sound-if acc (suc (length is)) (is_nonpositive i.quantity) _ _ (λ _. tt)
      λ good.
        Sound-if acc (suc (length is)) (is_negative i.unit_price) _ _ (λ _. tt)
          λ _.
            Sound-cons i acc (length is) (price_items is (acc + (priced_item i).total)) good known

-- Whenever a request is priced: every item has a positive quantity and its unit price times its
-- quantity as its total, there are as many as were requested, the subtotal is the sum of their
-- totals, and the total is the subtotal and the tax less the discount, with nothing cut off at 0.
pub calculate-ok :
    (dto : CreateQuotation) (s : State) (p : Price)
    → (calculate dto s).0 ≡ ok p
    → (p.total + p.discount ≡ p.subtotal + p.tax)
      × (p.subtotal ≡ sum_totals p.items)
      × All IsPriced p.items
      × (length p.items ≡ length dto.items)
unfolding calculate
calculate-ok dto s p e = go (price_items dto.items 0) refl
  where
    go :
        (r : Result Error (ℕ × List QuotationItem))
        → price_items dto.items 0 ≡ r
        → (p.total + p.discount ≡ p.subtotal + p.tax)
          × (p.subtotal ≡ sum_totals p.items)
          × All IsPriced p.items
          × (length p.items ≡ length dto.items)
    go (err x) h = ground arith
    go (ok (sum, priced)) h =
        let known : Sound 0 (length dto.items) (ok (sum, priced)) =
          subst (Sound 0 (length dto.items)) h (price_items-Sound dto.items 0) in
        ground (arith, known.0, known.1, known.2)
