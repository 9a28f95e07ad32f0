-- ===== src/Refunds/Rows.antt =====
-- Reading and rewriting the refund rows of a payment.
use seatflow.Prelude.{
  ℕ, ◌+◌, ◌≡◌, refl, true, some, List, [], ◌∷◌, map, contains, is_distinct, any, ◌++◌, arith, ==_eq,
}
use seatflow.Refunds.Payment.{
  Refund, find_by_provider_id, put_refund, total, enqueue, FinancialEvent, FinancialEventType,
  same_event,
}

abbrev pub refund_ids : List Refund → List ℕ
refund_ids rs = map (λ r. r.id) rs

found-id :
    (i : ℕ) (rs : List Refund) (r : Refund)
    → find_by_provider_id i rs ≡ some r
    → contains (refund_ids rs) r.id ≡ true
unfolding find_by_provider_id
found-id i [] r e = ground arith
found-id i (x ∷ rs) r e = ground (arith, found-id i rs r)

-- A row rewritten under its ids is the one that its provider's id finds.
pub find_by_provider_id-put_refund :
    (i : ℕ) (rs : List Refund) (r r' : Refund)
    → is_distinct (refund_ids rs) ≡ true
    → find_by_provider_id i rs ≡ some r
    → r'.id ≡ r.id
    → r'.provider_refund_id ≡ r.provider_refund_id
    → find_by_provider_id i (put_refund r' rs) ≡ some r'
unfolding find_by_provider_id put_refund
find_by_provider_id-put_refund i [] r r' d e h k = ground arith
find_by_provider_id-put_refund i (x ∷ rs) r r' d e h k =
    ground (arith, find_by_provider_id-put_refund i rs r r', found-id i rs r)

pub total-put_refund :
    (part : Refund → ℕ) (i : ℕ) (rs : List Refund) (r r' : Refund)
    → is_distinct (refund_ids rs) ≡ true
    → find_by_provider_id i rs ≡ some r
    → r'.id ≡ r.id
    → total part (put_refund r' rs) + part r ≡ total part rs + part r'
unfolding find_by_provider_id put_refund
total-put_refund part i [] r r' d e h = ground arith
total-put_refund part i (x ∷ rs) r r' d e h =
    ground (arith, total-put_refund part i rs r r', found-id i rs r)

pub refund_ids-put_refund :
    (r : Refund) (rs : List Refund) → refund_ids (put_refund r rs) ≡ refund_ids rs
unfolding put_refund
refund_ids-put_refund r [] = refl
refund_ids-put_refund r (x ∷ rs) = ground (arith, refund_ids-put_refund r rs, ==_eq x.id r.id)

pub put_refund_idem :
    (r : Refund) (rs : List Refund) → put_refund r (put_refund r rs) ≡ put_refund r rs
unfolding put_refund
put_refund_idem r [] = refl
put_refund_idem r (x ∷ rs) = ground (arith, put_refund_idem r rs)

any-snoc :
    (e : FinancialEvent) (es : List FinancialEvent) → any (same_event e) (es ++ e ∷ []) ≡ true
any-snoc e [] = ground arith
any-snoc e (x ∷ es) = ground (arith, any-snoc e es)

pub enqueue_idem :
    (t : FinancialEventType) (i : ℕ) (es : List FinancialEvent)
    → enqueue t i (enqueue t i es) ≡ enqueue t i es
unfolding enqueue
enqueue_idem t i es = ground (arith, any-snoc (record { event_type = t; refund_id = i }) es)
