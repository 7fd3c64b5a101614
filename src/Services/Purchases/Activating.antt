-- ===== src/Services/Purchases/Activating.antt =====
-- A purchase is activated once: one account, one redemption, one reward, one entry.
use mella_dashboard.Base.{
  ℕ, ◌≡◌, ◌⊎◌, refl, sym, ap, ◌∙◌, ==_iff, Bool, true, false, ◌||◌, none, some, List, ◌∷◌, arith,
  lookup, insert, lookup-insert, inl, inr,
}
use mella_dashboard.Services.Coupons.{
  PurchaseStatus, pending, paid, failed, refunded, cancelled, Redemption, redeemed, Shop, Coupon,
  CouponRejectReason, record_coupon_redemption,
}
use mella_dashboard.Services.Purchases.{
  PurchaseRow, Sales, sold, coupon_refused, ActivationSource, same_status, coupon_columns, shop_of,
  purchased_account, open_account, claimed_row, write_activation, fulfil, activate_read,
}

-- A status from which a purchase can be activated.
abbrev pub is_open : PurchaseStatus → Bool
is_open s = same_status s pending || same_status s failed

redemption-cases :
    (r : Redemption)
    → ((reason : CouponRejectReason) × (r ≡ Redemption.refused reason))
      ⊎ ((shop : Shop) × ((over : Bool) × (r ≡ redeemed shop over)))
redemption-cases (Redemption.refused reason) = inl (reason, refl)
redemption-cases (redeemed shop over) = inr (shop, (over, refl))

pub sold-injective : (s t : Sales) → sold s ≡ sold t → s ≡ t
sold-injective s t h = cc

abbrev pub claimed_sales : ℕ → ℕ → PurchaseRow → Sales → Sales
claimed_sales now id p s = record s { purchases = insert id (claimed_row now p) s.purchases }

-- A purchase that was fulfilled went through the writes of an activation.
pub fulfil-written :
    (now id : ℕ) (source : ActivationSource) (before p : PurchaseRow) (s t : Sales)
    → fulfil now id source before p s ≡ sold t
    → (coupons : List (ℕ × Coupon)) × (over : Bool) × (t
        ≡ write_activation now id source before (claimed_sales now id p s) coupons over)
unfolding fulfil
fulfil-written now id source before p s t h =
    elim (redemption-cases (
      record_coupon_redemption (coupon_columns (id, before))
        (shop_of (claimed_sales now id p s)))) [
          | inl (reason, e) ↦
              let clash : coupon_refused reason ≡ sold t = sym (rw (e, fulfil) refl) ∙ h in cc
          | inr (shop, (over, e)) ↦
              (shop.coupons, over, sym (sold-injective _ _ (sym (rw (e, fulfil) refl) ∙ h)))
        ]

-- What an activation leaves of the tables.
pub write-keeps :
    (now id : ℕ) (source : ActivationSource) (p : PurchaseRow) (s : Sales)
    (coupons : List (ℕ × Coupon)) (over : Bool)
    → (write_activation now id source p s coupons over).purchases ≡ s.purchases
unfolding write_activation open_account
write-keeps now id source p s coupons over = ground arith

pub write-next :
    (now id : ℕ) (source : ActivationSource) (p : PurchaseRow) (s : Sales)
    (coupons : List (ℕ × Coupon)) (over : Bool)
    → (write_activation now id source p s coupons over).next_purchase ≡ s.next_purchase
unfolding write_activation open_account
write-next now id source p s coupons over = ground arith

write-opens :
    (now id : ℕ) (source : ActivationSource) (p : PurchaseRow) (s : Sales)
    (coupons : List (ℕ × Coupon)) (over : Bool)
    → lookup id s.owned ≡ none
    → let t = write_activation now id source p s coupons over in
      (t.owned ≡ (id, s.db.next_id) ∷ s.owned)
      × (t.db.accounts ≡ (s.db.next_id, purchased_account p.user_id now p.snapshot) ∷ s.db.accounts)
unfolding write_activation open_account
write-opens now id source p s coupons over h = ground arith

open-statuses :
    (x : PurchaseStatus)
    → is_open x ≡ true
    → (same_status x paid ≡ false)
      × (same_status x refunded ≡ false)
      × (same_status x cancelled ≡ false)
      × (same_status x x ≡ true)
open-statuses pending h = (refl, refl, refl, refl)
open-statuses failed h = (refl, refl, refl, refl)
open-statuses paid h = cc
open-statuses refunded h = cc
open-statuses cancelled h = cc

activate-fulfil :
    (now id : ℕ) (source : ActivationSource) (p : PurchaseRow) (s : Sales)
    → lookup id s.purchases ≡ some p
    → is_open p.status ≡ true
    → activate_read now id source p s ≡ fulfil now id source p p s
unfolding activate_read
activate-fulfil now id source p s h k =
    let (a, b, c, d) = open-statuses p.status k in
    rw a (rw b (rw c (rw (h, activate_read) (rw d refl))))

paid-open : (x : PurchaseStatus) → is_open x ≡ true → same_status paid x ≡ false
paid-open pending h = refl
paid-open failed h = refl
paid-open paid h = cc
paid-open refunded h = refl
paid-open cancelled h = refl

-- An activation that comes late finds the row paid, whatever row it has read.
late-activation :
    (now id : ℕ) (source : ActivationSource) (before p : PurchaseRow) (s : Sales)
    → lookup id s.purchases ≡ some p
    → p.status ≡ paid
    → (is_open before.status ≡ true) ⊎ (before.status ≡ paid)
    → activate_read now id source before s ≡ sold s
unfolding activate_read
late-activation now id source before p s h k (inr e) = rw e refl
late-activation now id source before p s h k (inl o) =
    let (a, b, c, d) = open-statuses before.status o in
    let differs : same_status p.status before.status ≡ false = rw k (paid-open before.status o) in
    rw a (rw b (rw c (rw (h, activate_read) (rw differs refl))))

-- A pending or failed purchase with no account that is activated: the activation marks it paid and opens one account for its buyer under the frozen snapshot, and any
-- further activation changes nothing: be it one that had read the purchase before, or one that reads
-- it paid.
pub activate_once :
    (now later id : ℕ) (source again : ActivationSource) (p before : PurchaseRow) (s t : Sales)
    → lookup id s.purchases ≡ some p
    → is_open p.status ≡ true
    → lookup id s.owned ≡ none
    → activate_read now id source p s ≡ sold t
    → (is_open before.status ≡ true) ⊎ (before.status ≡ paid)
    → (lookup id t.purchases ≡ some (claimed_row now p))
      × (t.owned ≡ (id, s.db.next_id) ∷ s.owned)
      × (t.db.accounts ≡ (s.db.next_id, purchased_account p.user_id now p.snapshot) ∷ s.db.accounts)
      × (activate_read later id again before t ≡ sold t)
activate_once now later id source again p before s t h k fresh e b =
    let (coupons, over, written) =
      fulfil-written now id source p p s t (sym (activate-fulfil now id source p s h k) ∙ e) in
    let claimed = claimed_sales now id p s in
    let row : lookup id t.purchases ≡ some (claimed_row now p) =
      ap (λ q. lookup id q)
        (ap (λ x. x.purchases) written ∙ write-keeps now id source p claimed coupons over)
      ∙ lookup-insert id id (claimed_row now p) s.purchases
      ∙ rw ((==_iff id id).1 refl) refl in
    let (owned, accounts) = write-opens now id source p claimed coupons over fresh in
    (
      row,
      ap (λ x. x.owned) written ∙ owned,
      ap (λ x. x.db.accounts) written ∙ accounts,
      late-activation later id again before (claimed_row now p) t row refl b,
    )
