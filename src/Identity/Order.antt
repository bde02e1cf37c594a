-- ===== src/Identity/Order.antt =====
-- crates/assets/src/identity.rs: equality and order of identities agree and are lawful.
use Prim.Native.Nat.{Ordering}
use Prim.Native.Nat.Ordering.{lt, eq, gt}
use fluxel_bases.Prelude.{◌≡◌, ◌↔◌, true, some, arith}
use fluxel_bases.Identity.{AssetId, same_id, hash_id, cmp_id, partial_cmp_id}

-- The hand-written `==` decides the equality of the three fields.
pub same_id_iff : (a b : AssetId) → (same_id a b ≡ true) ↔ (a ≡ b)
unfolding same_id
same_id_iff a b = ground arith

-- Two identities are equal by `==` exactly where they feed the hasher the same.
same_hash_iff : (a b : AssetId) → (hash_id a ≡ hash_id b) ↔ (same_id a b ≡ true)
unfolding hash_id same_id
same_hash_iff a b = ground arith

-- The partial comparison of identities finds them equal exactly where `==` does.
partial_cmp_id_iff : (a b : AssetId) → (partial_cmp_id a b ≡ some eq) ↔ (same_id a b ≡ true)
unfolding partial_cmp_id cmp_id same_id
partial_cmp_id_iff a b = ground arith

pub record IsTotalOrder (cmp : AssetId → AssetId → Ordering) : Type 0 where
  pub eq_iff : (a b : AssetId) → (cmp a b ≡ eq) ↔ (a ≡ b)
  pub gt_of_lt : (a b : AssetId) → cmp a b ≡ lt → cmp b a ≡ gt
  pub lt_of_gt : (a b : AssetId) → cmp a b ≡ gt → cmp b a ≡ lt
  pub lt_trans : (a b c : AssetId) → cmp a b ≡ lt → cmp b c ≡ lt → cmp a c ≡ lt

eq_of_cmp_id : (a b : AssetId) → cmp_id a b ≡ eq → a ≡ b
unfolding cmp_id
eq_of_cmp_id a b h = ground arith

cmp_id_refl : (a : AssetId) → cmp_id a a ≡ eq
unfolding cmp_id
cmp_id_refl a = ground arith

-- `cmp_id` is a total order whose equality is that of the fields.
pub cmp_id-IsTotalOrder : IsTotalOrder cmp_id
unfolding cmp_id
cmp_id-IsTotalOrder = record {
  eq_iff = λ a b. (eq_of_cmp_id a b, λ e. rw e (cmp_id_refl b));
  gt_of_lt = λ a b. ground arith;
  lt_of_gt = λ a b. ground arith;
  lt_trans = λ a b c. ground arith;
}
