-- ===== src/Store/Rename/Scan.antt =====
-- The scan finds every key with the prefix.
use home_drive.Base.{◌≡◌, refl, true, [], ◌∷◌, arith}
use home_drive.Base.Text.{Bytes, has_prefix}
use home_drive.Store.Bucket.{at_most}

-- A key between a prefix and a key with that prefix has the prefix.
pub has_prefix_between :
    (p k l : Bytes)
    → at_most p k ≡ true
    → at_most k l ≡ true
    → has_prefix l p ≡ true
    → has_prefix k p ≡ true
unfolding at_most has_prefix
has_prefix_between [] k l a b h = refl
has_prefix_between (x ∷ p) [] l a b h = absurd (cc a)
has_prefix_between (x ∷ p) (y ∷ k) [] a b h = absurd (cc h)
has_prefix_between (x ∷ p) (y ∷ k) (z ∷ l) a b h = ground (arith, has_prefix_between p k l)

pub has_prefix-at_most : (p k : Bytes) → has_prefix k p ≡ true → at_most p k ≡ true
unfolding at_most has_prefix
has_prefix-at_most [] k h = refl
has_prefix-at_most (x ∷ p) [] h = absurd (cc h)
has_prefix-at_most (x ∷ p) (y ∷ k) h = ground (arith, has_prefix-at_most p k)
